-- ===== src/Workflow/Entry/Resume.antt =====
-- What an approval, or a rejection, does with a run that an execution left paused.
use lycosa.Prelude.{
  Bool, true, some, List, [], ◌∷◌, ◌++◌, Text, any, any-nil, any-tail, if◌then◌else◌, Bool-cases,
  nat_comparable, text_comparable, beq_refl, ◌≡◌, refl, sym, ap, subst, inl, inr,
}
use lycosa.Workflow.Definition.{StepDef, id_of, ids_here, valid, validate_from, validate_references}
use lycosa.Workflow.Definition.Order.{checked_step, distinct}
use lycosa.Workflow.Execution.{
  paused, StepRun, waits, run_approved, run_rejected, World, Services, returned, audit,
}
use lycosa.Workflow.Runs.{execute_from}
use lycosa.Workflow.Runs.Settled.{Fits, IsSettled, execute_from-IsSettled}
use lycosa.Workflow.Entry.{
  steps_after, resolve_row, decided, settle_approval, with_row, with_step, with_definition,
  resume_run, approve_run,
}

steps_after-from :
    (seen : List Text) (before : List StepDef) (step : StepDef) (after : List StepDef)
    → validate_from seen (before ++ step ∷ after) ≡ valid
    → steps_after (id_of step) (before ++ step ∷ after) ≡ some after
unfolding steps_after
steps_after-from seen [] step after checked = rw (beq_refl (id_of step)) refl
steps_after-from seen (first ∷ before) step after checked =
    let (new, known, rest) = checked_step seen first (before ++ step ∷ after) checked in
    rw (distinct seen first before step after checked)
      (steps_after-from (ids_here first ++ seen) before step after rest)

-- In a definition that validates, the steps behind the first one with the identifier of a step are
-- those behind that step.
pub steps_after-validated :
    (before : List StepDef) (step : StepDef) (after : List StepDef)
    → validate_references (before ++ step ∷ after) ≡ valid
    → steps_after (id_of step) (before ++ step ∷ after) ≡ some after
unfolding validate_references
steps_after-validated before step after checked = steps_after-from [] before step after checked

-- A row that waits is found, and exactly it is changed.
resolve_row-some :
    (id : Text) (change : StepRun → StepRun) (rows : List StepRun)
    → any (waits id) rows ≡ true
    → (front : List StepRun) × (row : StepRun) × (back : List StepRun) × (rows
        ≡ front ++ row ∷ back)
      × (waits id row ≡ true)
      × (resolve_row id change rows ≡ some (front ++ change row ∷ back))
unfolding resolve_row
resolve_row-some id change [] pending = absurd (any-nil (waits id) pending)
resolve_row-some id change (row ∷ rows) pending = elim (Bool-cases (waits id row)) [
  | inl here ↦ ([], row, rows, refl, here, rw here refl)
  | inr there ↦
      let (front, found, back, e, waiting, resolved) =
        resolve_row-some id change rows (any-tail (waits id) row rows there pending) in
      (row ∷ front, found, back, ap (λ l. row ∷ l) e, waiting, rw (there, resolved) refl)
]

module _ {X : Type 0} (services : Services X) (repr : Text → Text) where
  -- The world in which the decision on a row takes effect.
  abbrev pub decided_world : Bool → List StepRun → StepRun → List StepRun → World X → World X
  decided_world approved front row back w =
      let (t, x) = services.now w.ext in
      audit (if approved then run_approved else run_rejected)
        (record w { ext = x; step_runs = front ++ decided approved t row ∷ back })

  -- `approve_run` decides on the row of one of the steps, and goes on with those behind it.
  pub record Resumes (steps : List StepDef) (approved : Bool) (w : World X) : Type 0 where
    pub before : List StepDef
    pub step : StepDef
    pub after : List StepDef
    pub split : steps ≡ before ++ step ∷ after
    pub at_step : w.run.current_step ≡ some (id_of step)
    pub front : List StepRun
    pub row : StepRun
    pub back : List StepRun
    pub rows : w.step_runs ≡ front ++ row ∷ back
    pub waiting : waits (id_of step) row ≡ true
    pub goes_on :
        let settled =
          settle_approval services repr approved
            (id_of step)
            after
            (decided_world approved front row back w) in
        approve_run services repr steps approved w ≡ (inr settled.0, settled.1)

  approve_run-settles :
      (steps : List StepDef) (step : StepDef) (after : List StepDef) (approved : Bool) (w : World X)
      (rows : List StepRun)
      → validate_references steps ≡ valid
      → w.run.status ≡ paused
      → w.run.current_step ≡ some (id_of step)
      → steps_after (id_of step) steps ≡ some after
      → resolve_row (id_of step) (decided approved (services.now w.ext).0) w.step_runs ≡ some rows
      → approve_run services repr steps approved w ≡ (
          let settled = settle_approval services repr approved (id_of step) after (
            audit
              (if approved then run_approved else run_rejected)
              (record w { ext = (services.now w.ext).1; step_runs = rows })) in
          (inr settled.0, settled.1))
  unfolding approve_run resume_run
  approve_run-settles steps step after approved w rows checked is_paused current found resolved =
      simp (
        approve_run, is_paused, resume_run, checked, with_definition, current, found, with_step,
        resolved, with_row,
      )

  resume_run-settles :
      (before : List StepDef) (step : StepDef) (after : List StepDef) (approved : Bool)
      (w : World X)
      → validate_references (before ++ step ∷ after) ≡ valid
      → w.run.status ≡ paused
      → w.run.current_step ≡ some (id_of step)
      → any (waits (id_of step)) w.step_runs ≡ true
      → Resumes (before ++ step ∷ after) approved w
  unfolding approve_run resume_run
  resume_run-settles before step after approved w checked is_paused current pending =
      let t = (services.now w.ext).0 in
      let (front, row, back, rows, waiting, resolved) =
        resolve_row-some (id_of step) (decided approved t) w.step_runs pending in
      record {
        before = before;
        step = step;
        after = after;
        split = refl;
        at_step = current;
        front = front;
        row = row;
        back = back;
        rows = rows;
        waiting = waiting;
        goes_on =
            approve_run-settles _ step after approved w _ checked is_paused current
              (steps_after-validated before step after checked) resolved;
      }

  paused_at_step :
      (steps : List StepDef) (w w' : World X)
      → execute_from services repr steps w ≡ (returned, w')
      → w'.run.status ≡ paused
      → Fits steps w' paused
  unfolding IsSettled
  paused_at_step steps w w' ends is_paused =
      let settled =
        subst (λ end. IsSettled steps end) ends (execute_from-IsSettled services repr steps w) in
      subst (λ status. Fits steps w' status) is_paused settled.1

  -- A run that an execution of a valid definition has left paused can be decided on: the decision
  -- raises no exception on the way, resolves one row of the step at which the run stands, and goes
  -- on with exactly the steps behind that step.
  pub resume_after_pause :
      (steps : List StepDef) (approved : Bool) (w w' : World X)
      → validate_references steps ≡ valid
      → execute_from services repr steps w ≡ (returned, w')
      → w'.run.status ≡ paused
      → Resumes steps approved w'
  unfolding Fits
  resume_after_pause steps approved w w' checked ends is_paused =
      let (before, step, after, split, current, pending) =
        paused_at_step steps w w' ends is_paused in
      subst (λ l. Resumes l approved w') (sym split)
        (resume_run-settles before step after approved w'
          (subst (λ l. validate_references l ≡ valid) split checked) is_paused current pending)
