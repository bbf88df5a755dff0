-- ===== src/RateLimit.antt =====
-- backend/app/core/ratelimit.py over the in-process window store, which raises neither a RedisError
-- nor an OSError, so that its fail-open branch does not arise. The inner application acts on a state
-- of its own.
pub mod Separation
use lycosa.Prelude.{
  ℕ, zero, suc, ◌+◌, ◌-◌, ◌*◌, ◌/◌, ◌^◌, ◌≤◌, ◌<◌, min, max, Bool, true, false, not, ◌&&◌, ◌||◌,
  Option, none, some, List, [], ◌∷◌, ◌++◌, map, append-nil, append_assoc, Text, text, String,
  length, take, drop, get_elem?, length-append, length-map, length-take-le, All, All-append, any,
  keep_if, is_in, ltb, leb, nat_beq, if◌then◌else◌, ltb→lt, lt→ltb, leb→le, le→leb, nat_beq_iff,
  Bool-cases, Option-cases, Comparable, ◌==◌, nat_comparable, text_beq, text_beq_iff,
  text_comparable, beq_refl, beq_false, ◌≡◌, refl, sym, ap, ◌∙◌, subst, ◌≢◌, ◌↔◌, ◌⊎◌, inl, inr,
  starts_with, contains, join, arith,
}
use lycosa.WindowStore.{Hits, Outcome, return, index_error, try_hit}

abbrev pub exempt_paths : List Text
exempt_paths = text "/healthz" ∷ text "/docs" ∷ text "/openapi.json" ∷ []

unfoldable pub is_exempt : Text → Bool
is_exempt path = is_in path exempt_paths

-- `_client_key`
abbrev pub client_key : Option Text → Text
client_key none = text "rl:ip:unknown"
client_key (some []) = text "rl:ip:unknown"
client_key (some (c ∷ ip)) = text "rl:ip:" ++ c ∷ ip

-- The inner application's response, the answer 429 with its `Retry-After`, or the exception of the
-- store.
pub data Dispatched (R : Type 0) : Type 0 where
  passed : R → Dispatched R
  limited : ℕ → Dispatched R
  store_broke : Dispatched R

module _ {X R : Type 0} (call_next : X → R × X) (enabled : Bool) (requests window_seconds : ℕ) where
  abbrev pub pass_on : Hits → X → Dispatched R × Hits × X
  pass_on hits x = let (response, x') = call_next x in (passed response, hits, x')

  -- `if retry_after:` and what follows it.
  unfoldable pub after_hit : Outcome ℕ → Hits → X → Dispatched R × Hits × X
  after_hit index_error hits x = (store_broke, hits, x)
  after_hit (return zero) hits x = pass_on hits x
  after_hit (return (suc wait)) hits x = (limited (suc wait), hits, x)

  unfoldable pub dispatch : Text → Option Text → ℕ → Hits → X → Dispatched R × Hits × X
  unfolding after_hit
  dispatch path ip now hits x =
      if not enabled || is_exempt path
      then pass_on hits x
      else let (outcome, hits') = try_hit hits (client_key ip) requests window_seconds now in
        after_hit outcome hits' x
