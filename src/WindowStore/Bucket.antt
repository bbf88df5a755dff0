-- ===== src/WindowStore/Bucket.antt =====
-- Lemmas on one bucket of backend/app/core/window_store.py, and on the table of buckets.
use lycosa.Prelude.{
  ℕ, ◌+◌, ◌≤◌, ◌<◌, ◌≡◌, refl, List, [], ◌∷◌, Text, length, arith, if◌then◌else◌, ◌==◌,
  text_comparable,
}
use lycosa.Prelude.Dict.{assign, remove, lookup-assign, lookup-remove}
use lycosa.WindowStore.{Hits, bucket_of, prune}

pub bucket_of-assign :
    (key other : Text) (bucket : List ℕ) (hits : Hits)
    → bucket_of (assign key bucket hits) other
      ≡ (if key == other then bucket else bucket_of hits other)
unfolding bucket_of
bucket_of-assign key other bucket hits = ground (arith, lookup-assign key other bucket hits)

pub bucket_of-remove :
    (key other : Text) (hits : Hits)
    → bucket_of (remove key hits) other ≡ (if key == other then [] else bucket_of hits other)
unfolding bucket_of
bucket_of-remove key other hits = ground (arith, lookup-remove key other hits)

pub length-prune-le :
    (bucket : List ℕ) (now window : ℕ) → length (prune bucket now window) ≤ length bucket
unfolding prune
length-prune-le [] now window = omega arith
length-prune-le (hit ∷ bucket) now window = ground (arith, length-prune-le bucket now window)

-- A bucket whose oldest hit is in the window is left as it is.
pub prune_fresh :
    (oldest : ℕ) (bucket : List ℕ) (now window : ℕ)
    → now ≤ oldest + window
    → prune (oldest ∷ bucket) now window ≡ oldest ∷ bucket
unfolding prune
prune_fresh oldest bucket now window h = ground arith

-- A bucket whose oldest hit is older than the window loses that hit at least.
pub prune_stale :
    (oldest : ℕ) (bucket : List ℕ) (now window : ℕ)
    → oldest + window < now
    → length (prune (oldest ∷ bucket) now window) ≤ length bucket
unfolding prune
prune_stale oldest bucket now window h = ground (arith, length-prune-le bucket now window)

-- What pruning leaves first is in the window.
pub prune_oldest :
    (bucket : List ℕ) (now window : ℕ) {oldest : ℕ} {later : List ℕ}
    → prune bucket now window ≡ oldest ∷ later
    → now ≤ oldest + window
unfolding prune
prune_oldest [] now window e = cc
prune_oldest (hit ∷ bucket) now window {oldest} {later} e =
    ground (arith, prune_oldest bucket now window {oldest = oldest} {later = later})

-- Pruning earlier makes no difference to pruning later.
pub prune-prune :
    (bucket : List ℕ) (now later_on window : ℕ)
    → now ≤ later_on
    → prune (prune bucket now window) later_on window ≡ prune bucket later_on window
unfolding prune
prune-prune [] now later_on window h = refl
prune-prune (hit ∷ bucket) now later_on window h =
    ground (arith, prune-prune bucket now later_on window)
