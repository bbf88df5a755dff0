-- ===== src/WindowStore.antt =====
-- backend/app/core/window_store.py: the in-process sliding-window hit store. Times are whole
-- ticks of the monotonic clock, `second` ticks to a second. `now - window_seconds` is never
-- formed, since it may lie before the clock's origin: a hit is older than the window when
-- `hit + window < now`.
mod Bucket
pub mod Frame
pub mod Retry
pub mod Bound
use lycosa.Prelude.{
  ℕ, ◌+◌, ◌-◌, ◌*◌, ◌/◌, Bool, Option, none, some, List, [], ◌∷◌, ◌++◌, Text, length, ltb, leb, max,
  starts_with, if◌then◌else◌, text_comparable,
}
use lycosa.Prelude.Dict.{lookup, assign, remove}

-- One second of the clock, in ticks.
abbrev pub second : ℕ
second = 1_000_000

-- What a call does: it returns, or `bucket[0]` of an empty deque raises.
pub data Outcome {ℓ} (A : Type ℓ) : Type ℓ where
  return : A → Outcome A
  index_error : Outcome A

-- `self._hits`: the buckets by key, each with its oldest hit first.
abbrev pub Hits : Type 0
Hits = List (Text × List ℕ)

-- `window_seconds` in ticks.
abbrev pub ticks : ℕ → ℕ
ticks seconds = seconds * second

-- `max(1, math.ceil(oldest - window_start))`, for `window_start = now - window`.
unfoldable pub retry_after : ℕ → ℕ → ℕ → ℕ
retry_after oldest now window = max 1 ((oldest + window - now + (second - 1)) / second)

unfoldable pub prune : List ℕ → ℕ → ℕ → List ℕ
prune [] now window = []
prune (hit ∷ bucket) now window =
    let rest = prune bucket now window in if ltb (hit + window) now then rest else hit ∷ bucket

-- `self._hits.get(key)`, with the empty deque for a key that is not there.
unfoldable pub bucket_of : Hits → Text → List ℕ
bucket_of hits key = elim (lookup key hits) [ none ↦ [] | some bucket ↦ bucket ]

-- `_retry_after(bucket[0], window_start)`
unfoldable pub retry_of : List ℕ → ℕ → ℕ → Outcome ℕ
retry_of [] now window = index_error
retry_of (oldest ∷ bucket) now window = return (retry_after oldest now window)

unfoldable pub try_hit : Hits → Text → ℕ → ℕ → ℕ → Outcome ℕ × Hits
try_hit hits key limit window_seconds now =
    let window = ticks window_seconds in
    let bucket = prune (bucket_of hits key) now window in
    if leb limit (length bucket)
    then (retry_of bucket now window, assign key bucket hits)
    else (return 0, assign key (bucket ++ now ∷ []) hits)

-- `if not bucket: return 0` covers a missing key and an empty deque.
unfoldable pub penalty : Hits → Text → ℕ → ℕ → ℕ → Outcome ℕ × Hits
penalty hits key limit window_seconds now = elim (bucket_of hits key) [
  | [] ↦ (return 0, hits)
  | oldest ∷ later ↦
      let window = ticks window_seconds in
      let bucket = prune (oldest ∷ later) now window in
      if ltb (length bucket) limit
      then (return 0, assign key bucket hits)
      else (retry_of bucket now window, assign key bucket hits)
]

unfoldable pub add : Hits → Text → ℕ → ℕ → Hits
add hits key window_seconds now =
    assign key (prune (bucket_of hits key) now (ticks window_seconds) ++ now ∷ []) hits

unfoldable pub clear : Hits → Text → Hits
clear hits key = remove key hits

unfoldable pub clear_prefix : Hits → Text → Hits
clear_prefix [] prefix = []
clear_prefix ((key, bucket) ∷ hits) prefix =
    let rest = clear_prefix hits prefix in
    if starts_with prefix key then rest else (key, bucket) ∷ rest
