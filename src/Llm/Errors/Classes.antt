-- ===== src/Llm/Errors/Classes.antt =====
-- Theorems on the classification of backend/app/llm/errors.py.
use lycosa.Prelude.{
  ℕ, ◌≤◌, not, ◌&&◌, ◌||◌, Option, none, some, [], ◌∷◌, Text, leb, Option-cases, ◌==◌,
  nat_comparable, text_comparable, ◌≡◌, ◌⊎◌, inl, inr, arith,
}
use lycosa.Llm.Errors.{
  ErrorKind, retryable, max_retry_after, Seconds, nan, negative, ticks_of, Json, clamp_retry_after,
  hinted, context_hints, model_hints, quota_hints, classify_http, carried, parse_retry_after,
  from_http, rate_limit, provider_unavailable,
}

-- A response is classified as retryable exactly when it names no context limit and no missing
-- model, and its status is 408, or 429 without a word on the quota, or at least 500.
pub classify_http-retryable :
    (status : ℕ) (signals : Text)
    → retryable (classify_http status signals)
      ≡ not (hinted context_hints signals)
        && not (hinted model_hints signals)
        && (status == 408 || (status == 429 && not (hinted quota_hints signals)) || leb 500 status)
unfolding classify_http
classify_http-retryable status signals = ground arith

clamp_retry_after-le :
    (seconds : Seconds) {d : ℕ} → clamp_retry_after seconds ≡ some d → d ≤ max_retry_after
unfolding clamp_retry_after
clamp_retry_after-le nan e = cc
clamp_retry_after-le negative e = ground arith
clamp_retry_after-le (ticks_of n) e = ground arith

carried-some :
    (kind : ErrorKind) (delay : Option ℕ) {d : ℕ}
    → carried kind delay ≡ some d
    → (delay ≡ some d) × ((kind ≡ rate_limit) ⊎ (kind ≡ provider_unavailable))
carried-some kind delay e = ground arith

module _ (lower : Text → Text) (str : Json → Text) (seconds_of : Text → Option Seconds)
    (seconds_until : Text → Option Seconds) (strip : Text → Text) where
  pub parse_retry_after-le :
      (header : Option Text) {d : ℕ}
      → parse_retry_after lower str seconds_of seconds_until strip header ≡ some d
      → d ≤ max_retry_after
  unfolding parse_retry_after
  parse_retry_after-le none e = cc
  parse_retry_after-le (some []) e = cc
  parse_retry_after-le (some (c ∷ value)) {d} e =
      let value' = strip (c ∷ value) in
      elim (Option-cases (seconds_of value')) [
        | inr (seconds, found) ↦ clamp_retry_after-le seconds {d = d} (ground arith)
        | inl missing ↦ elim (Option-cases (seconds_until value')) [
          | inr (seconds, found) ↦ clamp_retry_after-le seconds {d = d} (ground arith)
          | inl missing' ↦ absurd (ground arith)
        ]
      ]

  -- An HTTP error carries a delay only if it is a rate limit or an unavailable provider, and the
  -- delay is at most 60 seconds.
  pub from_http-retry_after :
      (status : ℕ) (body : Json) (provider : Text) (header : Option Text) {d : ℕ}
      → (from_http lower str seconds_of seconds_until strip status body provider header).retry_after
        ≡ some d
      → (d ≤ max_retry_after)
        × (((from_http lower str seconds_of seconds_until strip status body provider header).kind
              ≡ rate_limit)
            ⊎ ((from_http lower str seconds_of seconds_until strip status body provider header).kind
                ≡ provider_unavailable))
  unfolding from_http
  from_http-retry_after status body provider header {d} e =
      let kind =
        (from_http lower str seconds_of seconds_until strip status body provider header).kind in
      let (parsed, which) =
        carried-some kind (parse_retry_after lower str seconds_of seconds_until strip header)
          {d = d} e in
      (parse_retry_after-le header {d = d} parsed, which)
