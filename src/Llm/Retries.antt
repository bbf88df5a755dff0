-- ===== src/Llm/Retries.antt =====
-- `backoff_delay`, `_Budget` and `with_retries` of backend/app/llm/gateway.py. Times are ticks,
-- 1_000_000 to a second. The clock, the random number, the wait and the provider's call are the
-- runtime's and act on a state `X` of their own. `time.monotonic` and `asyncio.timeout` are asked
-- each time that the source asks them. What is called and how long is waited is kept in a log,
-- which the code does not read.
pub mod Budget
pub mod Attempts
use lycosa.Prelude.{
  ℕ, zero, suc, ◌+◌, ◌-◌, ◌*◌, ◌/◌, ◌^◌, ◌≤◌, ◌<◌, min, max, Bool, true, false, not, ◌&&◌, ◌||◌,
  Option, none, some, List, [], ◌∷◌, ◌++◌, map, append-nil, append_assoc, Text, text, String,
  length, take, drop, get_elem?, length-append, length-map, length-take-le, All, All-append, any,
  keep_if, is_in, ltb, leb, nat_beq, if◌then◌else◌, ltb→lt, lt→ltb, leb→le, le→leb, nat_beq_iff,
  Bool-cases, Option-cases, Comparable, ◌==◌, nat_comparable, text_beq, text_beq_iff,
  text_comparable, beq_refl, beq_false, ◌≡◌, refl, sym, ap, ◌∙◌, subst, ◌≢◌, ◌↔◌, ◌⊎◌, inl, inr,
  starts_with, contains, join, arith,
}
use lycosa.WindowStore.{second}
use lycosa.Llm.Errors.{ErrorKind, LlmError, retryable, plain_error, llm_timeout, malformed_response}

-- How `await call()` under `asyncio.timeout` ends. `other_error` is an exception that
-- `with_retries` does not catch.
pub data CallOutcome (A : Type 0) : Type 0 where
  value : A → CallOutcome A
  timed_out : CallOutcome A
  failed : LlmError → CallOutcome A
  bad_shape : CallOutcome A
  other_error : CallOutcome A

-- How `with_retries` ends: the result and the attempts made; the error, with the attribute
-- `attempts` if it was set; an exception that passes through.
pub data Retried (A : Type 0) : Type 0 where
  returned : A → ℕ → Retried A
  raised : LlmError → Option ℕ → Retried A
  escaped : Retried A
  out_of_fuel : Retried A

pub data Effect : Type 0 where
  called : ℕ → Effect
  slept : ℕ → Effect

pub record World (X : Type 0) : Type 0 where
  pub ext : X
  pub log : List Effect

abbrev pub max_backoff : ℕ
max_backoff = 20 * second

-- `0.5 * (2**attempt)` seconds.
abbrev pub base_delay : ℕ → ℕ
base_delay attempt = (second / 2) * 2 ^ attempt

-- `delay = max(delay, retry_after)` if there is one.
abbrev pub at_least : ℕ → Option ℕ → ℕ
at_least delay none = delay
at_least delay (some retry_after) = max delay retry_after

-- The runtime: `time.monotonic()`, `random.uniform(0, bound)` and `sleep(delay)`.
pub record Runtime (X : Type 0) : Type 0 where
  pub now : X → ℕ × X
  pub uniform : ℕ → X → ℕ × X
  pub sleep : ℕ → X → X

module _ {X : Type 0} (runtime : Runtime X) where
  open runtime use {now, uniform, sleep}

  unfoldable pub backoff_delay : ℕ → Option ℕ → X → ℕ × X
  backoff_delay attempt retry_after x =
      let (jitter, x') = uniform (base_delay attempt / 2) x in
      (min (at_least (base_delay attempt + jitter) retry_after) max_backoff, x')

  -- `budget is not None` and `budget.remaining() <= 0`, for a budget that ends at the given time.
  unfoldable pub exhausted : Option ℕ → X → Bool × X
  exhausted none x = (false, x)
  exhausted (some ends_at) x = let (t, x') = now x in (leb ends_at t, x')

  -- `deadline if budget is None else min(deadline, budget.remaining())`. A limit below zero and a
  -- limit of zero both end the call at once.
  unfoldable pub limit_of : ℕ → Option ℕ → X → ℕ × X
  limit_of deadline none x = (deadline, x)
  limit_of deadline (some ends_at) x = let (t, x') = now x in (min deadline (ends_at - t), x')

  -- `budget is not None and delay >= budget.remaining()`
  unfoldable pub too_long : ℕ → Option ℕ → X → Bool × X
  too_long delay none x = (false, x)
  too_long delay (some ends_at) x = let (t, x') = now x in (leb ends_at (t + delay), x')

  module _ {A : Type 0} (max_retries deadline : ℕ) (budget : Option ℕ)
      (call : ℕ → X → CallOutcome A × X) where
    -- The part of the loop below the `try`, and the next turn of the loop.
    unfoldable pub after_error :
        LlmError → ℕ → (World X → Retried A × World X) → World X → Retried A × World X
    after_error error attempt again w =
        if not (retryable error.kind) || ltb max_retries attempt
        then (raised error (some attempt), w)
        else let (delay, x) = backoff_delay (attempt - 1) error.retry_after w.ext in
          let (late, x') = too_long delay budget x in
          if late
          then (raised error (some attempt), record w { ext = x' })
          else again (record { ext = sleep delay x'; log = w.log ++ slept delay ∷ [] })

    -- The `try` and its handlers.
    unfoldable pub settle :
        CallOutcome A → ℕ → (World X → Retried A × World X) → World X → Retried A × World X
    settle (value a) attempt again w = (returned a attempt, w)
    settle timed_out attempt again w = after_error (plain_error llm_timeout) attempt again w
    settle (failed error) attempt again w = after_error error attempt again w
    settle bad_shape attempt again w = after_error (plain_error malformed_response) attempt again w
    settle other_error attempt again w = (escaped, w)

    -- `attempt += 1`, the check of the budget, and the call under its limit.
    unfoldable pub attempt_once :
        ℕ → (World X → Retried A × World X) → World X → Retried A × World X
    attempt_once attempt again w =
        let (over, x) = exhausted budget w.ext in
        if over
        then (
          raised
              (record (plain_error llm_timeout) {
                public_message = text "The LLM request ran out of its overall time budget";
              })
              none,
          record w { ext = x },
        )
        else let (limit, x') = limit_of deadline budget x in
          let (outcome, x'') = call limit x' in
          settle outcome attempt again (record { ext = x''; log = w.log ++ called limit ∷ [] })

    -- The `while True` loop after `done` attempts.
    unfoldable pub retry_loop : ℕ → ℕ → World X → Retried A × World X
    retry_loop zero done w = (out_of_fuel, w)
    retry_loop (suc fuel) done w = attempt_once (done + 1) (λ w'. retry_loop fuel (done + 1) w') w

    unfoldable pub with_retries : World X → Retried A × World X
    with_retries = retry_loop (max_retries + 1) 0
