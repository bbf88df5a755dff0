-- ===== src/WindowStore/Frame.antt =====
-- What each call of backend/app/core/window_store.py leaves alone.
use lycosa.Prelude.{
  ℕ, ◌≤◌, ◌<◌, [], ◌∷◌, ◌++◌, Text, if◌then◌else◌, ◌==◌, nat_comparable, text_beq_iff,
  text_comparable, beq_refl, beq_false, ◌≡◌, ◌≢◌, starts_with, arith,
}
use lycosa.Prelude.Dict.{lookup}
use lycosa.WindowStore.{
  Hits, return, ticks, bucket_of, prune, try_hit, penalty, clear, clear_prefix,
}
use lycosa.WindowStore.Bucket.{bucket_of-assign, bucket_of-remove, prune-prune}

-- Each call changes the bucket of its own key alone.
pub try_hit_frame :
    (hits : Hits) (key other : Text) (limit w now : ℕ)
    → key ≢ other
    → bucket_of (try_hit hits key limit w now).1 other ≡ bucket_of hits other
unfolding try_hit
try_hit_frame hits key other limit w now apart =
    let bucket = prune (bucket_of hits key) now (ticks w) in
    ground (
      arith,
      beq_false key other apart,
      bucket_of-assign key other bucket hits,
      bucket_of-assign key other (bucket ++ now ∷ []) hits,
    )

pub penalty_bucket :
    (hits : Hits) (key other : Text) (limit w now : ℕ)
    → bucket_of (penalty hits key limit w now).1 other
      ≡ (if key == other then prune (bucket_of hits key) now (ticks w) else bucket_of hits other)
unfolding penalty prune
penalty_bucket hits key other limit w now = ground (
  arith,
  text_beq_iff key other,
  bucket_of-assign key other (prune (bucket_of hits key) now (ticks w)) hits,
)

-- The answer of `try_hit` depends on the hits that are in the window alone.
try_hit_answer :
    (hits hits' : Hits) (key : Text) (limit w now : ℕ)
    → prune (bucket_of hits key) now (ticks w) ≡ prune (bucket_of hits' key) now (ticks w)
    → (try_hit hits key limit w now).0 ≡ (try_hit hits' key limit w now).0
unfolding try_hit
try_hit_answer hits hits' key limit w now e = ground arith

-- `penalty` answers what `try_hit` would answer at the same time, if the limit admits anything.
pub penalty-try_hit :
    (hits : Hits) (key : Text) (limit w now : ℕ)
    → 0 < limit
    → (penalty hits key limit w now).0 ≡ (try_hit hits key limit w now).0
unfolding penalty try_hit prune
penalty-try_hit hits key limit w now h = ground arith

-- A call of `penalty` is invisible: every `try_hit` on any key that comes after it, with the same
-- window, answers as if it had not been made.
pub try_hit-penalty :
    (hits : Hits) (key other : Text) (limit limit' w now later_on : ℕ)
    → now ≤ later_on
    → (try_hit (penalty hits key limit w now).1 other limit' w later_on).0
      ≡ (try_hit hits other limit' w later_on).0
try_hit-penalty hits key other limit limit' w now later_on h =
    try_hit_answer _ _ other limit' w later_on (
      ground (
        arith,
        penalty_bucket hits key other limit w now,
        text_beq_iff key other,
        prune-prune (bucket_of hits key) now later_on (ticks w),
      ))

pub clear_bucket :
    (hits : Hits) (key other : Text)
    → key ≢ other
    → bucket_of (clear hits key) other ≡ bucket_of hits other
unfolding clear
clear_bucket hits key other apart =
    ground (arith, bucket_of-remove key other hits, beq_false key other apart)

-- After `clear` the key is admitted again, by any limit that admits anything; no other bucket
-- changes.
pub clear_lem :
    (hits : Hits) (key : Text) (limit w now : ℕ)
    → 0 < limit
    → ((try_hit (clear hits key) key limit w now).0 ≡ return 0)
      × ((other : Text) → key ≢ other → bucket_of (clear hits key) other ≡ bucket_of hits other)
unfolding clear try_hit prune
clear_lem hits key limit w now h = (
  ground (arith, bucket_of-remove key key hits, beq_refl key),
  (λ other apart. clear_bucket hits key other apart),
)

-- `clear_prefix` empties the buckets under the prefix, and leaves every other one.
pub clear_prefix_lem :
    (hits : Hits) (prefix key : Text)
    → bucket_of (clear_prefix hits prefix) key
      ≡ (if starts_with prefix key then [] else bucket_of hits key)
unfolding clear_prefix bucket_of lookup
clear_prefix_lem [] prefix key = ground arith
clear_prefix_lem ((i, w) ∷ hits) prefix key =
    ground (arith, text_beq_iff i key, clear_prefix_lem hits prefix key)
