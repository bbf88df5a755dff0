-- ===== src/WindowStore/Retry.antt =====
-- What the seconds that `try_hit` returns are worth to a caller who waits for them.
use lycosa.Prelude.{
  ℕ, suc, ◌+◌, ◌-◌, ◌*◌, ◌≤◌, ◌<◌, List, [], ◌∷◌, ◌++◌, Text, length, nat_comparable,
  text_comparable, beq_refl, ◌≡◌, refl, ap, arith,
}
use native.Mathlib.Decide.{dec_le}
use lycosa.Prelude.Dict.{assign}
use lycosa.WindowStore.{
  Hits, return, second, ticks, bucket_of, prune, retry_after, retry_of, try_hit,
}
use lycosa.WindowStore.Bucket.{
  bucket_of-assign, length-prune-le, prune_fresh, prune_stale, prune_oldest,
}

-- A rejected call finds a full bucket, leaves it in the table, and names its oldest hit.
pub record IsRejection (hits : Hits) (key : Text) (limit window now wait : ℕ) : Type 0 where
  pub oldest : ℕ
  pub later : List ℕ
  pub left : prune (bucket_of hits key) now window ≡ oldest ∷ later
  pub full : limit ≤ suc (length later)
  pub stated : retry_after oldest now window ≡ wait

bucket_of-assign_self :
    (key : Text) (bucket : List ℕ) (hits : Hits) → bucket_of (assign key bucket hits) key ≡ bucket
bucket_of-assign_self key bucket hits =
    ground (arith, bucket_of-assign key key bucket hits, beq_refl key)

rejected_bucket :
    (hits : Hits) (key : Text) (bucket : List ℕ) (limit window now wait : ℕ)
    → prune (bucket_of hits key) now window ≡ bucket
    → limit ≤ length bucket
    → retry_of bucket now window ≡ return (suc wait)
    → IsRejection hits key limit window now (suc wait)
unfolding retry_of
rejected_bucket hits key [] limit window now wait e full r = cc
rejected_bucket hits key (oldest ∷ later) limit window now wait e full r = record {
  oldest = oldest;
  later = later;
  left = e;
  full = omega arith;
  stated = cc;
}

try_hit_full :
    (hits : Hits) (key : Text) (limit w now : ℕ)
    → limit ≤ length (prune (bucket_of hits key) now (ticks w))
    → try_hit hits key limit w now ≡ (
      retry_of (prune (bucket_of hits key) now (ticks w)) now (ticks w),
      assign key (prune (bucket_of hits key) now (ticks w)) hits,
    )
unfolding try_hit
try_hit_full hits key limit w now h = ground arith

pub try_hit_room :
    (hits : Hits) (key : Text) (limit w now : ℕ)
    → length (prune (bucket_of hits key) now (ticks w)) < limit
    → try_hit hits key limit w now
      ≡ (return 0, assign key (prune (bucket_of hits key) now (ticks w) ++ now ∷ []) hits)
unfolding try_hit
try_hit_room hits key limit w now h = ground arith

-- What a rejection by `try_hit` finds, and what it leaves in the table.
try_hit_rejected :
    (hits : Hits) (key : Text) (limit w now wait : ℕ) (after : Hits)
    → try_hit hits key limit w now ≡ (return (suc wait), after)
    → (r : IsRejection hits key limit (ticks w) now (suc wait)) × (bucket_of after key
        ≡ r.oldest ∷ r.later)
try_hit_rejected hits key limit w now wait after e =
    let bucket = prune (bucket_of hits key) now (ticks w) in
    elim (dec_le limit (length bucket)) [
      | yes full ↦
          let told = try_hit_full hits key limit w now full in
          let r = rejected_bucket hits key bucket limit (ticks w) now wait refl full (cc) in
          (r, cc (bucket_of-assign_self key bucket hits, r.left))
      | no room ↦ absurd (ground (arith, try_hit_room hits key limit w now))
    ]

-- A call that was told to wait `wait` seconds is admitted at any time later than that, if nobody
-- else hit the key in the meantime and the bucket was not over the limit.
pub try_hit_after_wait :
    (hits after : Hits) (key : Text) (limit w now later_on wait : ℕ)
    → length (bucket_of hits key) ≤ limit
    → try_hit hits key limit w now ≡ (return (suc wait), after)
    → now + suc wait * second < later_on
    → (try_hit after key limit w later_on).0 ≡ return 0
unfolding retry_after
try_hit_after_wait hits after key limit w now later_on wait fits e late =
    let (r, kept) = try_hit_rejected hits key limit w now wait after e in
    let old : r.oldest + ticks w < later_on = omega (arith, r.stated) in
    let size : length (prune (bucket_of hits key) now (ticks w)) ≡ suc (length r.later) =
      rw r.left in
    let room : length (prune (bucket_of after key) later_on (ticks w)) < limit = rw kept (
      omega (
        arith,
        prune_stale r.oldest r.later later_on (ticks w) old,
        size,
        length-prune-le (bucket_of hits key) now (ticks w),
      )) in
    rw (try_hit_room after key limit w later_on room)

-- No shorter wait is enough: up to a second before the stated time, the call is rejected again.
pub try_hit_before_wait :
    (hits after : Hits) (key : Text) (limit w now sooner wait : ℕ)
    → try_hit hits key limit w now ≡ (return (suc wait), after)
    → sooner ≤ now + wait * second
    → (again : ℕ) × ((try_hit after key limit w sooner).0 ≡ return (suc again))
unfolding retry_after retry_of
try_hit_before_wait hits after key limit w now sooner wait e soon =
    let (r, kept) = try_hit_rejected hits key limit w now wait after e in
    let fresh : sooner ≤ r.oldest + ticks w =
      omega (arith, r.stated, prune_oldest (bucket_of hits key) now (ticks w) r.left) in
    let same : prune (bucket_of after key) sooner (ticks w) ≡ r.oldest ∷ r.later =
      cc (kept, prune_fresh r.oldest r.later sooner (ticks w) fresh) in
    let full : limit ≤ length (prune (bucket_of after key) sooner (ticks w)) = rw same r.full in
    let told = try_hit_full after key limit w sooner full in
    (retry_after r.oldest sooner (ticks w) - 1, rw (told, same) (ap return (omega arith)))
