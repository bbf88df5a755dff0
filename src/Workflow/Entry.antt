-- ===== src/Workflow/Entry.antt =====
-- The entry points of backend/app/services/workflow.py: `start_run`, `resume_run`, and the handler
-- `approve_run` of backend/app/api/v1/workflows.py that guards the second.
pub mod Resume
pub mod Lease
use lycosa.Prelude.{
  ℕ, zero, suc, ◌+◌, ◌-◌, ◌*◌, ◌/◌, ◌^◌, ◌≤◌, ◌<◌, min, max, Bool, true, false, not, ◌&&◌, ◌||◌,
  Option, none, some, List, [], ◌∷◌, ◌++◌, map, append-nil, append_assoc, Text, text, String,
  length, take, drop, get_elem?, length-append, length-map, length-take-le, All, All-append, any,
  keep_if, is_in, ltb, leb, nat_beq, if◌then◌else◌, ltb→lt, lt→ltb, leb→le, le→leb, nat_beq_iff,
  Bool-cases, Option-cases, Comparable, ◌==◌, nat_comparable, text_beq, text_beq_iff,
  text_comparable, beq_refl, beq_false, ◌≡◌, refl, sym, ap, ◌∙◌, subst, ◌≢◌, ◌↔◌, ◌⊎◌, inl, inr,
  starts_with, contains, join, arith,
}
use lycosa.Workflow.Definition.{StepDef, id_of, Validated, valid, validate_references}
use lycosa.Workflow.Execution.{
  RunStatus, running, paused, succeeded, failed, StepStatus, step_running, step_succeeded,
  step_failed, step_skipped, pending_approval, StepRun, waits, Run, Event, started, run_started,
  run_approved, run_rejected, World, Services, End, returned, crashed, commit, audit, publish,
  record_output,
}
use lycosa.Workflow.Runs.{executing, finish, execute_from}

-- The run that `start_run` adds.
abbrev pub new_run : ℕ → Text → ℕ → Run
new_run id input now = record {
  id = id;
  input = input;
  status = running;
  outputs = [];
  current_step = none;
  error = none;
  finished_at = none;
  heartbeat_at = some now;
}

-- The steps behind the first one with the identifier, `definition.steps[index + 1:]`.
unfoldable pub steps_after : Text → List StepDef → Option (List StepDef)
steps_after id [] = none
steps_after id (step ∷ steps) =
    let rest = steps_after id steps in if id_of step == id then some steps else rest

-- The rows with that row resolved.
unfoldable pub resolve_row : Text → (StepRun → StepRun) → List StepRun → Option (List StepRun)
resolve_row id change [] = none
resolve_row id change (row ∷ rows) =
    let rest = resolve_row id change rows in
    if waits id row
    then some (change row ∷ rows)
    else elim rest [ none ↦ none | some rows' ↦ some (row ∷ rows') ]

-- What the decision does to the row.
abbrev pub decided : Bool → ℕ → StepRun → StepRun
decided true t row = record row { status = step_succeeded; finished_at = some t }
decided false t row = record row {
  status = step_failed;
  error = some (text "rejected by operator");
  finished_at = some t;
}

module _ {X : Type 0} (services : Services X) (repr : Text → Text) where
  open services use {now}

  -- `start_run` of a definition that validates, or does not and raises.
  unfoldable pub start_valid : Validated → List StepDef → ℕ → Text → World X → End × World X
  unfolding executing execute_from
  start_valid valid steps id input w =
      let (t, x) = now w.ext in
      let w' = record w { ext = x; run = new_run id input t } in
      executing (execute_from services repr steps) (commit (audit run_started (publish started w')))
  start_valid _ steps id input w = (crashed, w)

  -- `start_run`, with the identifier of the new row.
  unfoldable pub start_run : List StepDef → ℕ → Text → World X → End × World X
  unfolding start_valid
  start_run steps id input w = start_valid (validate_references steps) steps id input w

  -- The part of `resume_run` after the audit entry.
  unfoldable pub settle_approval : Bool → Text → List StepDef → World X → End × World X
  unfolding executing execute_from finish
  settle_approval false id steps w = (
    returned,
    finish services repr failed (some (text "step " ++ (repr id ++ text " rejected"))) w,
  )
  settle_approval true id steps w =
      let w' = record_output id (text "approved") w in
      let (t, x) = now w'.ext in
      executing (execute_from services repr steps) (
        commit
          (record w' { ext = x; run = record w'.run { status = running; heartbeat_at = some t } }))

  -- `resume_run` once it has looked for the row; a row that is missing raises.
  unfoldable pub with_row :
      Bool → Text → List StepDef → Option (List StepRun) → X → World X → End × World X
  unfolding settle_approval
  with_row approved id rest none x w = (crashed, w)
  with_row approved id rest (some rows) x w = settle_approval approved id rest (
      audit (if approved then run_approved else run_rejected)
        (record w { ext = x; step_runs = rows }))

  -- `resume_run` once it has looked for the step; a step that is missing raises.
  unfoldable pub with_step : Bool → Text → Option (List StepDef) → World X → End × World X
  unfolding with_row resolve_row
  with_step approved id none w = (crashed, w)
  with_step approved id (some rest) w =
      let (t, x) = now w.ext in
      with_row approved id rest (resolve_row id (decided approved t) w.step_runs) x w

  -- The steps of a definition that validates.
  unfoldable pub with_definition : Validated → List StepDef → Bool → World X → End × World X
  unfolding with_step steps_after
  with_definition valid steps approved w = elim w.run.current_step [
    | none ↦ (crashed, w)
    | some id ↦ with_step approved id (steps_after id steps) w
  ]
  with_definition _ steps approved w = (crashed, w)

  unfoldable pub resume_run : List StepDef → Bool → World X → End × World X
  unfolding with_definition
  resume_run steps approved w = with_definition (validate_references steps) steps approved w

  -- The answer of `approve_run`: the status it refuses with, or the end of `resume_run`.
  unfoldable pub approve_run : List StepDef → Bool → World X → (ℕ ⊎ End) × World X
  unfolding resume_run
  approve_run steps approved w = elim w.run.status [
    | paused ↦ let (end, w') = resume_run steps approved w in (inr end, w')
    | _ ↦ (inl 409, w)
  ]
