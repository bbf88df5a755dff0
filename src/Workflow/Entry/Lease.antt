-- ===== src/Workflow/Entry/Lease.antt =====
-- The set of live runs around an execution.
use lycosa.Prelude.{
  ℕ, zero, suc, ◌+◌, Bool, true, false, Option, none, some, List, [], ◌∷◌, Text, is_in, Bool-cases,
  Option-cases, nat_comparable, text_comparable, ◌≡◌, refl, ap, ◌∙◌, inl, inr, arith,
}
use lycosa.Prelude.Sets.{add_to, discard, discard-add_to}
use lycosa.Workflow.Definition.{
  StepDef, task, retrieve, approval, parallel, Validated, valid, duplicate_id, unknown_ref,
  validate_references,
}
use lycosa.Workflow.Execution.{
  StepRun, World, Services, step_running, new_step_run, End, StepEnd, gave, step_raised,
  step_crashed, output, error, Attempt, made, broke, is_skipped,
}
use lycosa.Workflow.Runs.{
  begin_step, pause, executing, end_attempt, after_attempt, attempt_step, attempts_from,
  run_step_with_retries, finish, skip_step, after_step, perform, turn, execute_from,
}
use lycosa.Workflow.Entry.{
  start_valid, start_run, steps_after, settle_approval, with_row, with_step, with_definition,
  resume_run, approve_run,
}

-- The set of live runs, and the run that is executed.
pub record IsAt {X : Type 0} (ids : List ℕ) (id : ℕ) (w : World X) : Type 0 where
  pub same_live : w.live ≡ ids
  pub same_run : w.run.id ≡ id

-- The same of the world that a call leaves.
pub record Keeps {E X : Type 0} (ids : List ℕ) (id : ℕ) (result : E × World X) : Type 0 where
  pub at : IsAt ids id result.1

module _ {X : Type 0} (services : Services X) (repr : Text → Text) (ids : List ℕ) (id : ℕ) where
  after_attempt-Keeps :
      (base : List StepRun) (row : StepRun) (result : Attempt × X)
      (again : Text → World X → StepEnd × World X) (w : World X)
      → IsAt ids id w
      → ((e : Text) (w' : World X) → IsAt ids id w' → Keeps ids id (again e w'))
      → Keeps ids id (after_attempt services repr base row result again w)
  unfolding after_attempt end_attempt
  after_attempt-Keeps base row (broke, x) again w at next = record {
    at = record { same_live = at.same_live; same_run = at.same_run };
  }
  after_attempt-Keeps base row (made (output o) task_id outputs, x) again w at next = record {
    at = record { same_live = at.same_live; same_run = at.same_run };
  }
  after_attempt-Keeps base row (made (error e) task_id outputs, x) again w at next =
      next e _ (record { same_live = at.same_live; same_run = at.same_run })

  attempts_from-Keeps :
      (step : StepDef) (left n : ℕ) (last : Text) (w : World X)
      → IsAt ids id w
      → Keeps ids id (attempts_from services repr step left n last w)
  unfolding attempts_from attempt_step
  attempts_from-Keeps step zero n last w at = record { at = at }
  attempts_from-Keeps step (suc left) n last w at =
      after_attempt-Keeps w.step_runs (new_step_run step step_running n) _ _ _
        (record { same_live = at.same_live; same_run = at.same_run })
        (λ e w' at'. attempts_from-Keeps step left (n + 1) e w' at')

  -- What the rest of an execution keeps.
  abbrev Continues : (World X → End × World X) → Type 0
  Continues again = (w : World X) → IsAt ids id w → Keeps ids id (again w)

  after_step-Keeps :
      (step : StepDef) (result : StepEnd × World X) (again : World X → End × World X)
      → Keeps ids id result
      → Continues again
      → Keeps ids id (after_step services repr step result again)
  unfolding after_step finish
  after_step-Keeps step (gave given, w) again kept next =
      next _ (record { same_live = kept.at.same_live; same_run = kept.at.same_run })
  after_step-Keeps step (step_raised e, w) again kept next = record {
    at = record { same_live = kept.at.same_live; same_run = kept.at.same_run };
  }
  after_step-Keeps step (step_crashed, w) again kept next = record { at = kept.at }

  run-Keeps :
      (step : StepDef) (again : World X → End × World X) (w : World X)
      → IsAt ids id w
      → Continues again
      → Keeps ids id
          (after_step services repr step (run_step_with_retries services repr step w) again)
  unfolding run_step_with_retries
  run-Keeps step again w at next =
      after_step-Keeps step _ again (attempts_from-Keeps step _ 1 _ w at) next

  perform-Keeps :
      (step : StepDef) (again : World X → End × World X) (w : World X)
      → IsAt ids id w
      → Continues again
      → Keeps ids id (perform services repr step again w)
  unfolding perform pause
  perform-Keeps (approval i condition message) again w at next = record {
    at = record { same_live = at.same_live; same_run = at.same_run };
  }
  perform-Keeps (task step) again w at next = run-Keeps (task step) again w at next
  perform-Keeps (retrieve i condition query collection top_k) again w at next =
      run-Keeps (retrieve i condition query collection top_k) again w at next
  perform-Keeps (parallel i condition steps) again w at next =
      run-Keeps (parallel i condition steps) again w at next

  turn-Keeps :
      (step : StepDef) (again : World X → End × World X)
      → Continues again
      → Continues (turn services repr step again)
  unfolding turn begin_step skip_step
  turn-Keeps step again next w at = elim (Bool-cases (is_skipped step w.run.outputs)) [
    | inl skipped ↦
        rw skipped (next _ (record { same_live = at.same_live; same_run = at.same_run }))
    | inr met ↦ rw met (
        perform-Keeps step again _ (record { same_live = at.same_live; same_run = at.same_run })
          next)
  ]

  execute_from-Keeps : (steps : List StepDef) → Continues (execute_from services repr steps)
  unfolding execute_from finish
  execute_from-Keeps [] w at = record {
    at = record { same_live = at.same_live; same_run = at.same_run };
  }
  execute_from-Keeps (step ∷ steps) w at = turn-Keeps step _ (execute_from-Keeps steps) w at

module _ {X : Type 0} (services : Services X) (repr : Text → Text) where
  executing-live :
      (steps : List StepDef) (w : World X)
      → is_in w.run.id w.live ≡ false
      → (executing (execute_from services repr steps) w).1.live ≡ w.live
  unfolding executing
  executing-live steps w out =
      let kept =
        execute_from-Keeps services repr (add_to w.run.id w.live) w.run.id steps
          (record w { live = add_to w.run.id w.live })
          (record { same_live = refl; same_run = refl }) in
      ap (discard w.run.id) kept.at.same_live ∙ discard-add_to w.run.id w.live out

  start_valid-live :
      (checked : Validated) (steps : List StepDef) (id : ℕ) (input : Text) (w : World X)
      → is_in id w.live ≡ false
      → (start_valid services repr checked steps id input w).1.live ≡ w.live
  unfolding start_valid
  start_valid-live valid steps id input w out = executing-live steps _ out
  start_valid-live (duplicate_id i) steps id input w out = refl
  start_valid-live (unknown_ref i) steps id input w out = refl

  -- Starting a run leaves the set of live runs as it was, however the execution ends, if the run
  -- is not in the set.
  pub start_run-live :
      (steps : List StepDef) (id : ℕ) (input : Text) (w : World X)
      → is_in id w.live ≡ false
      → (start_run services repr steps id input w).1.live ≡ w.live
  unfolding start_run
  start_run-live steps id input w out =
      start_valid-live (validate_references steps) steps id input w out

  settle_approval-live :
      (approved : Bool) (id : Text) (steps : List StepDef) (w : World X)
      → is_in w.run.id w.live ≡ false
      → (settle_approval services repr approved id steps w).1.live ≡ w.live
  unfolding settle_approval finish
  settle_approval-live true id steps w out = executing-live steps _ out
  settle_approval-live false id steps w out = refl

  with_row-live :
      (approved : Bool) (id : Text) (steps : List StepDef) (rows : Option (List StepRun)) (x : X)
      (w : World X)
      → is_in w.run.id w.live ≡ false
      → (with_row services repr approved id steps rows x w).1.live ≡ w.live
  unfolding with_row
  with_row-live approved id steps none x w out = refl
  with_row-live approved id steps (some rows) x w out = settle_approval-live approved id steps _ out

  with_step-live :
      (approved : Bool) (id : Text) (steps : Option (List StepDef)) (w : World X)
      → is_in w.run.id w.live ≡ false
      → (with_step services repr approved id steps w).1.live ≡ w.live
  unfolding with_step
  with_step-live approved id none w out = refl
  with_step-live approved id (some steps) w out = with_row-live approved id steps _ _ w out

  with_definition-live :
      (checked : Validated) (steps : List StepDef) (approved : Bool) (w : World X)
      → is_in w.run.id w.live ≡ false
      → (with_definition services repr checked steps approved w).1.live ≡ w.live
  unfolding with_definition
  with_definition-live valid steps approved w out = elim (Option-cases w.run.current_step) [
    | inl absent ↦ simp (with_definition, absent)
    | inr (id, there) ↦
        simp (with_definition, there) (with_step-live approved id (steps_after id steps) w out)
  ]
  with_definition-live (duplicate_id id) steps approved w out = refl
  with_definition-live (unknown_ref id) steps approved w out = refl

  -- A decision on a run leaves the set of live runs as it was, however it ends, if the run is not
  -- in the set.
  pub approve_run-live :
      (steps : List StepDef) (approved : Bool) (w : World X)
      → is_in w.run.id w.live ≡ false
      → (approve_run services repr steps approved w).1.live ≡ w.live
  unfolding approve_run resume_run
  approve_run-live steps approved w out =
      ground (arith, with_definition-live (validate_references steps) steps approved w out)
