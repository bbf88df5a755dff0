-- ===== src/Llm/Retries/Budget.antt =====
-- What the log and the last reading of the clock say at the end of `with_retries`.
use lycosa.Prelude.{
  ℕ, suc, ◌+◌, ◌-◌, ◌≤◌, true, false, Option, none, some, List, [], ◌∷◌, ◌++◌, All, Option-cases,
  nat_comparable, text_comparable, ◌≡◌, refl, ◌⊎◌, inl, inr, arith,
}
use lycosa.Llm.Errors.{LlmError, retryable, llm_timeout}
use lycosa.Llm.Retries.{
  Retried, returned, raised, escaped, out_of_fuel, Effect, called, slept, World, max_backoff,
  Runtime, backoff_delay, exhausted, too_long,
}

unfoldable pub calls : List Effect → ℕ
calls [] = 0
calls (called limit ∷ log) = suc (calls log)
calls (slept delay ∷ log) = calls log

-- Every wait in the log is at most 20 seconds, and every limit at most `deadline`.
abbrev pub IsBounded : ℕ → Effect → Type 0
IsBounded deadline (called limit) = limit ≤ deadline
IsBounded deadline (slept delay) = delay ≤ max_backoff

pub calls-append : (xs ys : List Effect) → calls (xs ++ ys) ≡ calls xs + calls ys
unfolding calls
calls-append [] ys = omega arith
calls-append (called limit ∷ xs) ys = omega (arith, calls-append xs ys)
calls-append (slept delay ∷ xs) ys = calls-append xs ys

-- The last reading of the clock, which left the given state, found less time before the end of the
-- budget than the wait that was asked for.
pub record IsOutOfTime {X : Type 0} (runtime : Runtime X) (budget : Option ℕ) (delay : ℕ)
    (before after : X) : Type 0 where
  pub ends_at : ℕ
  pub given : budget ≡ some ends_at
  pub spent : ends_at ≤ (runtime.now before).0 + delay
  pub last : (runtime.now before).1 ≡ after

module _ {X : Type 0} (runtime : Runtime X) (max_retries : ℕ) (budget : Option ℕ) where
  -- The wait before the next attempt would reach the end of the budget.
  pub record CannotWait (error : LlmError) (n : ℕ) (after : X) : Type 0 where
    pub start : X
    pub out_of_time :
        IsOutOfTime runtime budget
          (backoff_delay runtime (n - 1) error.retry_after start).0
          (backoff_delay runtime (n - 1) error.retry_after start).1
          after

  -- Why an error is raised after `n` attempts, in the state that is left.
  abbrev pub IsFinal : LlmError → ℕ → X → Type 0
  IsFinal error n x =
      (retryable error.kind ≡ false) ⊎ ((n ≡ max_retries + 1) ⊎ CannotWait error n x)

  -- What the end says of the number of calls that the log shows.
  abbrev pub Counts : {A : Type 0} → Retried A → ℕ → X → Type 0
  Counts (returned a n) made x = (made ≡ n) × (1 ≤ n) × (n ≤ max_retries + 1)
  Counts (raised error (some n)) made x =
      (made ≡ n) × (1 ≤ n) × (n ≤ max_retries + 1) × IsFinal error n x
  Counts (raised error none) made x =
      (error.kind ≡ llm_timeout)
      × ((before : X) × IsOutOfTime runtime budget 0 before x)
      × (made ≤ max_retries)
  Counts escaped made x = (1 ≤ made) × (made ≤ max_retries + 1)
  Counts out_of_fuel made x = ⊥

-- What holds of the end of a call of `with_retries`.
pub record IsSound {A X : Type 0} (runtime : Runtime X) (max_retries deadline : ℕ)
    (budget : Option ℕ) (end : Retried A × World X) : Type 0 where
  pub counted : Counts runtime max_retries budget end.0 (calls end.1.log) end.1.ext
  pub bounded : All (IsBounded deadline) end.1.log

module _ {X : Type 0} (runtime : Runtime X) (budget : Option ℕ) where
  pub too_long-IsOutOfTime :
      (delay : ℕ) (x : X)
      → (too_long runtime delay budget x).0 ≡ true
      → IsOutOfTime runtime budget delay x (too_long runtime delay budget x).1
  unfolding too_long
  too_long-IsOutOfTime delay x late = elim (Option-cases budget) [
    | inl free ↦ absurd (ground (arith, free, late))
    | inr (ends_at, given) ↦ record {
      ends_at = ends_at;
      given = given;
      spent = ground (arith, given, late);
      last = rw given refl;
    }
  ]

  pub exhausted-IsOutOfTime :
      (x : X)
      → (exhausted runtime budget x).0 ≡ true
      → IsOutOfTime runtime budget 0 x (exhausted runtime budget x).1
  unfolding exhausted
  exhausted-IsOutOfTime x late = elim (Option-cases budget) [
    | inl free ↦ absurd (ground (arith, free, late))
    | inr (ends_at, given) ↦ record {
      ends_at = ends_at;
      given = given;
      spent = ground (arith, given, late);
      last = rw given refl;
    }
  ]
