-- ===== src/Workflow/Runs/Attempts.antt =====
-- The rows that `_run_step_with_retries` writes.
use lycosa.Prelude.{
  ℕ, zero, suc, ◌+◌, some, List, [], ◌∷◌, ◌++◌, append-nil, append_assoc, Text, text,
  nat_comparable, text_comparable, ◌≡◌, refl, sym, ◌∙◌,
}
use lycosa.Workflow.Definition.{StepDef, id_of}
use lycosa.Workflow.Execution.{
  step_running, step_succeeded, step_failed, StepRun, World, Services, StepEnd, commit, gave,
  step_raised, step_crashed, or_text, new_step_run, Produced, output, error, Attempt, made, broke,
}
use lycosa.Workflow.Runs.{
  retries_of, end_attempt, after_attempt, attempt_step, attempts_from, run_step_with_retries,
}

-- The rows of a step that ends so, its attempts numbered from `n` with `left` to go: failed ones,
-- then one that succeeded, or is left running.
pub data Attempted (step : StepDef) : ℕ → ℕ → Text → List StepRun → StepEnd → Type 0 where
  gives :
      {n left : ℕ} {last : Text} (row : StepRun)
      → row.step_id ≡ id_of step
      → row.attempt ≡ n
      → row.status ≡ step_succeeded
      → Attempted step n (suc left) last (row ∷ []) (gave (or_text [] row.output))
  gives_up : {n : ℕ} {last : Text} → Attempted step n 0 last [] (step_raised last)
  breaks :
      {n left : ℕ} {last : Text} (row : StepRun)
      → row.step_id ≡ id_of step
      → row.status ≡ step_running
      → row.attempt ≡ n
      → Attempted step n (suc left) last (row ∷ []) step_crashed
  fails :
      {n left : ℕ} {last : Text} (row : StepRun) {rows : List StepRun} {end : StepEnd} (e : Text)
      → row.step_id ≡ id_of step
      → row.attempt ≡ n
      → row.status ≡ step_failed
      → row.error ≡ some e
      → Attempted step (n + 1) left e rows end
      → Attempted step n (suc left) last (row ∷ rows) end

-- The rows after the attempts are `base` and those of the attempts.
pub record Writes {X : Type 0} (step : StepDef) (n left : ℕ) (last : Text) (base : List StepRun)
    (result : StepEnd × World X) : Type 0 where
  pub rows : List StepRun
  pub written : result.1.step_runs ≡ base ++ rows
  pub attempted : Attempted step n left last rows result.0

module _ {X : Type 0} (services : Services X) (repr : Text → Text) where
  end_attempt-Writes :
      (step : StepDef) (n left : ℕ) (last : Text) (base : List StepRun) (row : StepRun)
      (produced : Produced) (again : Text → World X → StepEnd × World X) (w : World X)
      → row.step_id ≡ id_of step
      → row.attempt ≡ n
      → ((e : Text) (w' : World X) → Writes step (n + 1) left e w'.step_runs (again e w'))
      → Writes step n (suc left) last base (end_attempt services repr base row produced again w)
  unfolding end_attempt
  end_attempt-Writes step n left last base row (output o) again w of_step numbered next =
      let row' = record row { status = step_succeeded; output = o } in
      record { rows = row' ∷ []; written = refl; attempted = gives row' of_step numbered refl }
  end_attempt-Writes step n left last base row (error e) again w of_step numbered next =
      let row' = record row { status = step_failed; error = some e } in
      let later = next e (commit (record w { step_runs = base ++ row' ∷ [] })) in
      record {
        rows = row' ∷ later.rows;
        written = later.written ∙ append_assoc base (row' ∷ []) later.rows;
        attempted = fails row' e of_step numbered refl refl later.attempted;
      }

  after_attempt-Writes :
      (step : StepDef) (n left : ℕ) (last : Text) (base : List StepRun) (result : Attempt × X)
      (again : Text → World X → StepEnd × World X) (w : World X)
      → w.step_runs ≡ base ++ new_step_run step step_running n ∷ []
      → ((e : Text) (w' : World X) → Writes step (n + 1) left e w'.step_runs (again e w'))
      → Writes step n
          (suc left)
          last
          base
          (after_attempt services repr base (new_step_run step step_running n) result again w)
  unfolding after_attempt
  after_attempt-Writes step n left last base (broke, x) again w written next = record {
    rows = new_step_run step step_running n ∷ [];
    written = written;
    attempted = breaks (new_step_run step step_running n) refl refl refl;
  }
  after_attempt-Writes step n left last base (made produced task_id outputs, x) again w written
        next =
      let (t, x') = services.now x in
      end_attempt-Writes step n left last base
        (record (new_step_run step step_running n) { task_id = task_id; finished_at = some t })
        produced again _ refl refl next

  attempts_from-Writes :
      (step : StepDef) (left n : ℕ) (last : Text) (w : World X)
      → Writes step n left last w.step_runs (attempts_from services repr step left n last w)
  unfolding attempts_from attempt_step
  attempts_from-Writes step zero n last w = record {
    rows = [];
    written = sym (append-nil w.step_runs);
    attempted = gives_up;
  }
  attempts_from-Writes step (suc left) n last w =
      after_attempt-Writes step n left last w.step_runs _ _ _ refl
        (λ e w'. attempts_from-Writes step left (n + 1) e w')

  -- A step writes one row for each attempt, numbered from 1, all with its identifier; at most
  -- `retries + 1` for a task and one for a step of another kind. Each but the last has failed with
  -- its error. The step gives the output of a last row that succeeded, or raises the error of the
  -- last row once all the attempts are used up, or leaves the last row running when an exception
  -- passes through.
  pub run_step_with_retries-Attempted :
      (step : StepDef) (w : World X)
      → Writes step 1
          (retries_of step + 1)
          (text "unknown")
          w.step_runs
          (run_step_with_retries services repr step w)
  unfolding run_step_with_retries
  run_step_with_retries-Attempted step w =
      attempts_from-Writes step (retries_of step + 1) 1 (text "unknown") w
