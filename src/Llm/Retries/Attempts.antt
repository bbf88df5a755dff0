-- ===== src/Llm/Retries/Attempts.antt =====
-- How often `with_retries` calls the provider, and how long it waits.
use lycosa.Prelude.{
  ℕ, zero, suc, ◌+◌, ◌-◌, ◌≤◌, true, not, ◌||◌, Option, [], ◌∷◌, All, All-append, ltb, Bool-cases,
  nat_comparable, text_comparable, ◌≡◌, refl, inl, inr, arith,
}
use lycosa.Llm.Errors.{LlmError, retryable, plain_error, llm_timeout, malformed_response}
use lycosa.Llm.Retries.{
  CallOutcome, value, timed_out, failed, bad_shape, other_error, Retried, called, slept, World,
  max_backoff, Runtime, backoff_delay, exhausted, limit_of, too_long, after_error, settle,
  attempt_once, retry_loop, with_retries,
}
use lycosa.Llm.Retries.Budget.{
  calls, IsBounded, calls-append, IsFinal, IsSound, too_long-IsOutOfTime, exhausted-IsOutOfTime,
}

module _ {A X : Type 0} (runtime : Runtime X) (max_retries deadline : ℕ) (budget : Option ℕ)
    (call : ℕ → X → CallOutcome A × X) where
  backoff_delay-le :
      (attempt : ℕ) (retry_after : Option ℕ) (x : X)
      → (backoff_delay runtime attempt retry_after x).0 ≤ max_backoff
  unfolding backoff_delay
  backoff_delay-le attempt retry_after x = omega arith

  limit_of-le : (x : X) → (limit_of runtime deadline budget x).0 ≤ deadline
  unfolding limit_of
  limit_of-le x = ground arith

  stop-IsFinal :
      (error : LlmError) (attempt : ℕ) (x : X)
      → attempt ≤ max_retries + 1
      → not (retryable error.kind) || ltb max_retries attempt ≡ true
      → IsFinal runtime max_retries budget error attempt x
  stop-IsFinal error attempt x high stop = elim (Bool-cases (retryable error.kind)) [
    | inl again ↦ inr (inl (ground arith))
    | inr never ↦ inl never
  ]

  -- What the rest of the loop has to do after `attempt` calls.
  abbrev Continues : ℕ → (World X → Retried A × World X) → Type 0
  Continues attempt again =
      (w : World X)
      → calls w.log ≡ attempt
      → All (IsBounded deadline) w.log
      → attempt ≤ max_retries
      → IsSound runtime max_retries deadline budget (again w)

  after_error-IsSound :
      (error : LlmError) (attempt : ℕ) (again : World X → Retried A × World X) (w : World X)
      → calls w.log ≡ attempt
      → All (IsBounded deadline) w.log
      → 1 ≤ attempt
      → attempt ≤ max_retries + 1
      → Continues attempt again
      → IsSound runtime max_retries deadline budget
          (after_error runtime max_retries deadline budget call error attempt again w)
  unfolding after_error calls
  after_error-IsSound error attempt again w made fine low high next =
      elim (Bool-cases (not (retryable error.kind) || ltb max_retries attempt)) [
        | inl stop ↦ rw stop (record {
          counted = (made, low, high, stop-IsFinal error attempt w.ext high stop);
          bounded = fine;
        })
        | inr go ↦
            let (delay, x) = backoff_delay runtime (attempt - 1) error.retry_after w.ext in
            let (late, x') = too_long runtime delay budget x in
            elim (Bool-cases late) [
              | inl over ↦
                  rw (go, over)
                    (record {
                      counted = (
                        made,
                        low,
                        high,
                        inr (
                            inr (record {
                              start = w.ext;
                              out_of_time = too_long-IsOutOfTime runtime budget delay x over;
                            })),
                      );
                      bounded = fine;
                    })
              | inr waits ↦
                  rw (go, waits)
                    (next _ (omega (arith, calls-append w.log (slept delay ∷ [])))
                      (All-append (IsBounded deadline) w.log _ fine
                        (backoff_delay-le (attempt - 1) error.retry_after w.ext, tt))
                      (ground arith))
            ]
      ]

  settle-IsSound :
      (outcome : CallOutcome A) (attempt : ℕ) (again : World X → Retried A × World X) (w : World X)
      → calls w.log ≡ attempt
      → All (IsBounded deadline) w.log
      → 1 ≤ attempt
      → attempt ≤ max_retries + 1
      → Continues attempt again
      → IsSound runtime max_retries deadline budget
          (settle runtime max_retries deadline budget call outcome attempt again w)
  unfolding settle
  settle-IsSound (value a) attempt again w made fine low high next = record {
    counted = (made, low, high);
    bounded = fine;
  }
  settle-IsSound timed_out attempt again w made fine low high next =
      after_error-IsSound (plain_error llm_timeout) attempt again w made fine low high next
  settle-IsSound (failed error) attempt again w made fine low high next =
      after_error-IsSound error attempt again w made fine low high next
  settle-IsSound bad_shape attempt again w made fine low high next =
      after_error-IsSound (plain_error malformed_response) attempt again w made fine low high next
  settle-IsSound other_error attempt again w made fine low high next = record {
    counted = (omega arith, omega arith);
    bounded = fine;
  }

  attempt_once-IsSound :
      (done : ℕ) (again : World X → Retried A × World X) (w : World X)
      → calls w.log ≡ done
      → All (IsBounded deadline) w.log
      → done ≤ max_retries
      → Continues (done + 1) again
      → IsSound runtime max_retries deadline budget
          (attempt_once runtime max_retries deadline budget call (done + 1) again w)
  unfolding attempt_once calls
  attempt_once-IsSound done again w made fine high next =
      let (over, x) = exhausted runtime budget w.ext in
      elim (Bool-cases over) [
        | inl late ↦ rw late (record {
          counted = (refl, (w.ext, exhausted-IsOutOfTime runtime budget w.ext late), omega arith);
          bounded = fine;
        })
        | inr in_time ↦
            let (limit, x') = limit_of runtime deadline budget x in
            let (outcome, x'') = call limit x' in
            rw in_time (
              settle-IsSound outcome (done + 1) again _
                (omega (arith, calls-append w.log (called limit ∷ [])))
                (All-append (IsBounded deadline) w.log _ fine (limit_of-le x, tt)) (omega arith)
                (omega arith) next)
      ]

  retry_loop-IsSound :
      (fuel done : ℕ) (w : World X)
      → done + fuel ≡ max_retries + 1
      → done ≤ max_retries
      → calls w.log ≡ done
      → All (IsBounded deadline) w.log
      → IsSound runtime max_retries deadline budget
          (retry_loop runtime max_retries deadline budget call fuel done w)
  unfolding retry_loop
  retry_loop-IsSound zero done w total high made fine = absurd (omega arith)
  retry_loop-IsSound (suc fuel) done w total high made fine =
      attempt_once-IsSound done _ w made fine high (λ w' made' fine' more.
        retry_loop-IsSound fuel (done + 1) w' (omega arith) more made' fine')

  -- A call of `with_retries` always ends. It makes at most `max_retries + 1` calls to the provider
  -- and reports the number that it made. It raises an error that it could retry only after the last
  -- of them, or if its last reading of the clock showed that the wait would reach the end of the
  -- budget; an error without `attempts` only if that reading showed the budget to have ended. No wait is longer
  -- than 20 seconds, and no call's limit longer than the deadline.
  pub with_retries-IsSound :
      (x : X)
      → IsSound runtime max_retries deadline budget
          (with_retries runtime max_retries deadline budget call (record { ext = x; log = [] }))
  unfolding with_retries calls
  with_retries-IsSound x =
      retry_loop-IsSound (max_retries + 1) 0 _ (omega arith) (omega arith) refl tt
