-- ===== src/WindowStore/Bound.antt =====
-- The bound that the rate limiter is for, over whole runs of calls: in no closed interval of the
-- window's length are more than `limit` hits of one key admitted.
use lycosa.Prelude.{
  ℕ, zero, suc, ◌+◌, ◌≤◌, ◌<◌, Bool, true, false, ◌&&◌, List, [], ◌∷◌, ◌++◌, Text, length,
  length-append, ltb, leb, if◌then◌else◌, ◌==◌, nat_comparable, text_beq_iff, text_comparable, ◌≡◌,
  refl, arith,
}
use native.Mathlib.Decide.{dec_le}
use native.Mathlib.Nat.{le_refl}
use lycosa.Prelude.Dict.{lookup}
use lycosa.WindowStore.{
  Hits, Outcome, return, index_error, ticks, bucket_of, prune, try_hit, penalty, retry_of,
  retry_after,
}
use lycosa.WindowStore.Bucket.{bucket_of-assign, length-prune-le}
use lycosa.WindowStore.Frame.{penalty_bucket}

-- A call of the store, with the time at which it is made.
pub data Call : Type 0 where
  hit : Text → ℕ → Call
  peek : Text → ℕ → Call

abbrev pub time : Call → ℕ
time (hit key now) = now
time (peek key now) = now

-- The clock does not go back from one call to the next, nor before `start`.
abbrev pub IsTimed : ℕ → List Call → Type 0
IsTimed start [] = Unit {0}
IsTimed start (call ∷ calls) = (start ≤ time call) × IsTimed (time call) calls

abbrev pub admits : Outcome ℕ → Bool
admits (return zero) = true
admits (return (suc wait)) = false
admits index_error = false

-- The admitted hits, in order.
unfoldable pub admitted : ℕ → ℕ → Hits → List Call → List (Text × ℕ)
admitted limit w hits [] = []
admitted limit w hits (hit key now ∷ calls) =
    let (answer, after) = try_hit hits key limit w now in
    let rest = admitted limit w after calls in if admits answer then (key, now) ∷ rest else rest
admitted limit w hits (peek key now ∷ calls) =
    admitted limit w (penalty hits key limit w now).1 calls

-- How many of the hits lie in the closed interval from `from`, of the window's length.
unfoldable pub within : ℕ → ℕ → List ℕ → ℕ
within from window [] = 0
within from window (t ∷ ts) =
    let rest = within from window ts in
    if leb from t && leb t (from + window) then suc rest else rest

-- The times of the admitted hits of one key.
unfoldable pub times_of : Text → List (Text × ℕ) → List ℕ
times_of key [] = []
times_of key ((k, t) ∷ log) = let rest = times_of key log in if k == key then t ∷ rest else rest

within-le-length : (from window : ℕ) (ts : List ℕ) → within from window ts ≤ length ts
unfolding within
within-le-length from window [] = omega arith
within-le-length from window (t ∷ ts) = ground (arith, within-le-length from window ts)

within-append :
    (from window : ℕ) (xs ys : List ℕ)
    → within from window (xs ++ ys) ≡ within from window xs + within from window ys
unfolding within
within-append from window [] ys = omega arith
within-append from window (x ∷ xs) ys = ground (arith, within-append from window xs ys)

-- Pruning drops nothing that lies in one interval with a time at or after `now`.
within-prune :
    (from window now : ℕ) (bucket : List ℕ)
    → now ≤ from + window
    → within from window (prune bucket now window) ≡ within from window bucket
unfolding within prune
within-prune from window now [] h = refl
within-prune from window now (t ∷ bucket) h = ground (arith, within-prune from window now bucket)

-- Nothing that is admitted later lies in an interval that has passed.
within_passed :
    (limit w from : ℕ) (key : Text) (start : ℕ) (hits : Hits) (calls : List Call)
    → IsTimed start calls
    → from + ticks w < start
    → within from (ticks w) (times_of key (admitted limit w hits calls)) ≡ 0
unfolding admitted times_of within
within_passed limit w from key start hits [] timed h = refl
within_passed limit w from key start hits (hit k now ∷ calls) timed h =
    let (answer, after) = try_hit hits k limit w now in
    ground (arith, within_passed limit w from key now after calls)
within_passed limit w from key start hits (peek k now ∷ calls) timed h =
    within_passed limit w from key now _ calls timed.1 (omega arith)

retry_of-admits : (bucket : List ℕ) (now window : ℕ) → admits (retry_of bucket now window) ≡ false
unfolding retry_of retry_after
retry_of-admits [] now window = refl
retry_of-admits (oldest ∷ later) now window = ground arith

-- A call of `try_hit` admits exactly when the pruned bucket has room.
pub try_hit-admits :
    (hits : Hits) (key : Text) (limit w now : ℕ)
    → admits (try_hit hits key limit w now).0
      ≡ ltb (length (prune (bucket_of hits key) now (ticks w))) limit
unfolding try_hit
try_hit-admits hits key limit w now =
    ground (arith, retry_of-admits (prune (bucket_of hits key) now (ticks w)) now (ticks w))

pub try_hit_bucket :
    (hits : Hits) (k key : Text) (limit w now : ℕ)
    → bucket_of (try_hit hits k limit w now).1 key ≡ (
        if k == key
        then if admits (try_hit hits k limit w now).0
          then prune (bucket_of hits key) now (ticks w) ++ now ∷ []
          else prune (bucket_of hits key) now (ticks w)
        else bucket_of hits key)
unfolding try_hit
try_hit_bucket hits k key limit w now =
    let bucket = prune (bucket_of hits k) now (ticks w) in
    ground (
      arith,
      text_beq_iff k key,
      retry_of-admits bucket now (ticks w),
      bucket_of-assign k key bucket hits,
      bucket_of-assign k key (bucket ++ now ∷ []) hits,
    )

-- One call of `try_hit` moves an admitted hit of the key into the bucket.
bound_step :
    (limit w from : ℕ) (key k : Text) (now : ℕ) (hits : Hits) (rest : List (Text × ℕ))
    → now ≤ from + ticks w
    → within from (ticks w) (bucket_of (try_hit hits k limit w now).1 key)
        + within from (ticks w) (times_of key rest)
      ≤ limit
    → within from (ticks w) (bucket_of hits key)
        + within from
            (ticks w)
            (times_of key (if admits (try_hit hits k limit w now).0 then (k, now) ∷ rest else rest))
      ≤ limit
unfolding times_of within
bound_step limit w from key k now hits rest recent ih =
    let window = ticks w in
    let bucket = prune (bucket_of hits key) now window in
    ground (
      arith,
      try_hit_bucket hits k key limit w now,
      within-append from window bucket (now ∷ []),
      within-prune from window now (bucket_of hits key),
    )

-- After one call the bucket still holds at most `limit` hits.
fits_step :
    (limit w : ℕ) (key k : Text) (now : ℕ) (hits : Hits)
    → length (bucket_of hits key) ≤ limit
    → length (bucket_of (try_hit hits k limit w now).1 key) ≤ limit
fits_step limit w key k now hits h =
    let bucket = prune (bucket_of hits key) now (ticks w) in
    ground (
      arith,
      text_beq_iff k key,
      try_hit_bucket hits k key limit w now,
      try_hit-admits hits k limit w now,
      length-append bucket (now ∷ []),
      length-prune-le (bucket_of hits key) now (ticks w),
    )

peek_fits :
    (limit w : ℕ) (key k : Text) (now : ℕ) (hits : Hits)
    → length (bucket_of hits key) ≤ limit
    → length (bucket_of (penalty hits k limit w now).1 key) ≤ limit
peek_fits limit w key k now hits h = ground (
  arith,
  text_beq_iff k key,
  penalty_bucket hits k key limit w now,
  length-prune-le (bucket_of hits key) now (ticks w),
)

peek_within :
    (limit w from : ℕ) (key k : Text) (now : ℕ) (hits : Hits)
    → now ≤ from + ticks w
    → within from (ticks w) (bucket_of (penalty hits k limit w now).1 key)
      ≡ within from (ticks w) (bucket_of hits key)
peek_within limit w from key k now hits h = ground (
  arith,
  text_beq_iff k key,
  penalty_bucket hits k key limit w now,
  within-prune from (ticks w) now (bucket_of hits key),
)

-- The calls at or after the end of an interval add nothing to it.
bound_passed :
    (limit w from : ℕ) (key : Text) (start : ℕ) (hits : Hits) (calls : List Call)
    → IsTimed start calls
    → from + ticks w < start
    → length (bucket_of hits key) ≤ limit
    → within from (ticks w) (bucket_of hits key)
        + within from (ticks w) (times_of key (admitted limit w hits calls))
      ≤ limit
bound_passed limit w from key start hits calls timed passed h = omega (
  arith,
  within_passed limit w from key start hits calls timed passed,
  within-le-length from (ticks w) (bucket_of hits key),
)

bound_from :
    (limit w from : ℕ) (key : Text) (start : ℕ) (hits : Hits) (calls : List Call)
    → IsTimed start calls
    → length (bucket_of hits key) ≤ limit
    → within from (ticks w) (bucket_of hits key)
        + within from (ticks w) (times_of key (admitted limit w hits calls))
      ≤ limit
unfolding admitted
bound_from limit w from key start hits [] timed h =
    unfold times_of within in omega (arith, within-le-length from (ticks w) (bucket_of hits key))
bound_from limit w from key start hits (hit k now ∷ calls) timed h =
    let after = (try_hit hits k limit w now).1 in
    let later =
      bound_from limit w from key now after calls timed.1 (fits_step limit w key k now hits h) in
    elim (dec_le now (from + ticks w)) [
      | yes recent ↦
          bound_step limit w from key k now hits (admitted limit w after calls) recent later
      | no passed ↦
          bound_passed limit w from key now hits (hit k now ∷ calls) (le_refl now, timed.1)
            (omega arith) h
    ]
bound_from limit w from key start hits (peek k now ∷ calls) timed h =
    let after = (penalty hits k limit w now).1 in
    let later =
      bound_from limit w from key now after calls timed.1 (peek_fits limit w key k now hits h) in
    elim (dec_le now (from + ticks w)) [
      | yes recent ↦ omega (arith, peek_within limit w from key k now hits recent, later)
      | no passed ↦
          bound_passed limit w from key now hits (peek k now ∷ calls) (le_refl now, timed.1)
            (omega arith) h
    ]

-- Over any run of calls of `try_hit` and `penalty` that starts from the empty store, on any keys,
-- with one limit and one window, at times that do not go back: no closed interval of the window's
-- length holds more than `limit` admitted hits of one key.
pub admitted-le-limit :
    (limit w from : ℕ) (key : Text) (calls : List Call)
    → IsTimed 0 calls
    → within from (ticks w) (times_of key (admitted limit w [] calls)) ≤ limit
unfolding bucket_of lookup
admitted-le-limit limit w from key calls timed =
    omega (arith, bound_from limit w from key 0 [] calls timed (omega arith))
