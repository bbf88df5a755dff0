-- ===== src/Llm/Gateway/Fallback.antt =====
-- Which entry of a route `generate` answers from, and what it has recorded by then.
use lycosa.Prelude.{
  ℕ, ◌+◌, Bool, false, some, List, [], ◌∷◌, length, Bool-cases, nat_comparable, text_comparable,
  ◌≡◌, ◌++◌, refl, inl, inr, arith,
}
use lycosa.Llm.Errors.{LlmError, plain_error, no_route}
use lycosa.Llm.Routing.{Target}
use lycosa.Llm.Retries.{Runtime, exhausted}
use lycosa.Llm.Retries.Budget.{exhausted-IsOutOfTime}
use lycosa.Llm.Gateway.{
  UsageRow, Skipped, State, Services, Answer, answered, rejected, aborted, unfinished, End, row_of,
  settle_target, generate_from, generate,
}
use lycosa.Llm.Gateway.Entries.{
  Ends, Answers, call_target-Answers, nothing_tried, Ends-stopped, Ends-cons,
}

module _ {X C : Type 0} (runtime : Runtime X) (services : Services X C)
    (max_retries request_timeout total_timeout : ℕ) (requires_privacy : Bool) where
  abbrev EndsHere :
      ℕ → List Target → ℕ → List Target → List UsageRow → List Skipped → End × State X → Type 0
  EndsHere = Ends runtime services max_retries request_timeout total_timeout requires_privacy

  settle_target-Ends :
      (target : Target) (targets : List Target) (ends_at index total : ℕ) (asked : List Target)
      (s : State X) (skipped : List Skipped)
      (later : List Skipped → LlmError → State X → End × State X) (answer : Answer)
      → s.asked ≡ asked ++ target ∷ []
      → ((skipped' : List Skipped) (error : LlmError) (s' : State X)
          → EndsHere ends_at targets
              (index + 1)
              s'.asked
              s'.rows
              skipped'
              (later skipped' error s'))
      → Answers runtime services max_retries request_timeout total_timeout requires_privacy answer
      → EndsHere ends_at (target ∷ targets) index asked s.rows skipped (
          settle_target runtime services max_retries request_timeout total_timeout requires_privacy
            target index total skipped later answer s)
  unfolding settle_target nothing_tried
  settle_target-Ends target targets ends_at index total asked s skipped later
        (answered response attempts) now_asked rest good =
      record {
        before = [];
        after = targets;
        split = refl;
        place = omega arith;
        failures = [];
        added = refl;
        failed = tt;
        one_each = refl;
        listed = omega arith;
        called = now_asked;
        attempted = good;
      }
  settle_target-Ends target targets ends_at index total asked s skipped later
        (rejected error attempts) now_asked rest good =
      Ends-cons runtime services max_retries request_timeout total_timeout requires_privacy target
        targets ends_at index asked s.asked s.rows _ skipped
        (row_of target false (some error) attempts index false) _ _ (refl, refl) refl now_asked
        (rest _ error _)
  settle_target-Ends target targets ends_at index total asked s skipped later aborted now_asked rest
        good =
      (
        target,
        targets,
        skipped,
        nothing_tried runtime services max_retries request_timeout total_timeout requires_privacy
            (target ∷ targets) asked s.asked (target ∷ []) s.rows skipped now_asked,
        refl,
      )
  settle_target-Ends target targets ends_at index total asked s skipped later unfinished now_asked
        rest good =
      good

  generate_from-Ends :
      (ends_at total index : ℕ) (targets : List Target) (skipped : List Skipped) (last : LlmError)
      (s : State X)
      → EndsHere ends_at targets index s.asked s.rows skipped (
          generate_from runtime services max_retries request_timeout total_timeout requires_privacy
            ends_at total index targets skipped last s)
  unfolding generate_from
  generate_from-Ends ends_at total index [] skipped last s =
      Ends-stopped runtime services max_retries request_timeout total_timeout requires_privacy
        ends_at index [] skipped last s (inl refl)
  generate_from-Ends ends_at total index (target ∷ targets) skipped last s =
      let (over, x) = exhausted runtime (some ends_at) s.ext in
      elim (Bool-cases over) [
        | inl late ↦ rw late (
            Ends-stopped runtime services max_retries request_timeout total_timeout requires_privacy
              ends_at index (target ∷ targets) skipped last (record s { ext = x })
              (inr (s.ext, exhausted-IsOutOfTime runtime (some ends_at) s.ext late)))
        | inr in_time ↦ rw in_time (
            settle_target-Ends target targets ends_at index total s.asked _ skipped _ _ refl
              (λ skipped' error s'.
                generate_from-Ends ends_at total (index + 1) targets skipped' error s')
              (call_target-Answers runtime services max_retries request_timeout total_timeout
                requires_privacy target ends_at x))
      ]

  -- A call of `generate` always ends. If it returns, the answer is that of one entry: each entry
  -- before it was tried, failed and left one failed row and one skipped entry, no entry after it was
  -- asked, and the last row is that of the answer, with its place and between 1 and
  -- `max_retries + 1` attempts. If it raises an `LLMError`, the entries that it asked, each once and
  -- in order, each failed and left one row and one skipped entry, and they are all of the entries,
  -- unless its last reading of the clock showed the time of the call to have ended. If another
  -- exception passes through, the entry at which it happened is the last that was asked and leaves
  -- no row.
  pub generate-Ends :
      (targets : List Target) (s : State X)
      → EndsHere ((runtime.now s.ext).0 + total_timeout) targets 0 s.asked s.rows [] (
          generate runtime services max_retries request_timeout total_timeout requires_privacy
            targets s)
  unfolding generate
  generate-Ends [] s =
      Ends-stopped runtime services max_retries request_timeout total_timeout requires_privacy _ 0
        [] [] (plain_error no_route) s (inl refl)
  generate-Ends (target ∷ targets) s =
      let (t, x) = runtime.now s.ext in
      generate_from-Ends (t + total_timeout) (length (target ∷ targets)) 0 (target ∷ targets) []
        (plain_error no_route) (record s { ext = x })
