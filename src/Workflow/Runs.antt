-- ===== src/Workflow/Runs.antt =====
-- `_run_step_with_retries`, `_execute_from`, `start_run`, `resume_run` and what they call, in
-- backend/app/services/workflow.py. The loop over the steps is a recursion on the steps that are
-- left; a continuation is the next turn of a loop.
pub mod Gate
pub mod Attempts
pub mod Settled
use lycosa.Prelude.{
  ℕ, zero, suc, ◌+◌, ◌-◌, ◌*◌, ◌/◌, ◌^◌, ◌≤◌, ◌<◌, min, max, Bool, true, false, not, ◌&&◌, ◌||◌,
  Option, none, some, List, [], ◌∷◌, ◌++◌, map, append-nil, append_assoc, Text, text, String,
  length, take, drop, get_elem?, length-append, length-map, length-take-le, All, All-append, any,
  keep_if, is_in, ltb, leb, nat_beq, if◌then◌else◌, ltb→lt, lt→ltb, leb→le, le→leb, nat_beq_iff,
  Bool-cases, Option-cases, Comparable, ◌==◌, nat_comparable, text_beq, text_beq_iff,
  text_comparable, beq_refl, beq_false, ◌≡◌, refl, sym, ap, ◌∙◌, subst, ◌≢◌, ◌↔◌, ◌⊎◌, inl, inr,
  starts_with, contains, join, arith,
}
use lycosa.Prelude.Sets.{add_to, discard}
use lycosa.Workflow.Template.{render}
use lycosa.Workflow.Definition.{
  TaskStep, StepDef, task, retrieve, approval, parallel, id_of, valid, validate_references,
}
use lycosa.Workflow.Execution.{
  RunStatus, running, paused, succeeded, failed, StepStatus, step_running, step_succeeded,
  step_failed, step_skipped, pending_approval, StepRun, Run, Event, started, paused_at,
  step_completed, finished, alert, run_started, run_approved, run_rejected, run_paused,
  run_finished, World, Services, End, returned, crashed, StepEnd, gave, step_raised, step_crashed,
  or_text, commit, audit, publish, record_output, add_step_run, new_step_run, is_skipped, Produced,
  output, error, Attempt, made, broke, run_once,
}

-- `step.retries if isinstance(step, TaskStepDef) else 0`
abbrev pub retries_of : StepDef → ℕ
retries_of (task step) = step.retries
retries_of _ = 0

-- `x or None`
abbrev pub or_none : Text → Option Text
or_none [] = none
or_none (c ∷ s) = some (c ∷ s)

module _ {X : Type 0} where
  -- `run.current_step = step.id` and the commit.
  unfoldable pub begin_step : StepDef → World X → World X
  begin_step step w = commit (record w { run = record w.run { current_step = some (id_of step) } })

  -- What `_execute_from` does with an approval step.
  unfoldable pub pause : StepDef → Text → World X → World X
  pause step message w =
      let row = record (new_step_run step pending_approval 1) {
        output = or_none (render message w.run.input w.run.outputs);
      } in
      publish (paused_at (id_of step)) (
        commit (
          audit run_paused
            (record (add_step_run row w) { run = record w.run { status = paused } })))

  -- `_executing`: the run is in the set while the body runs, and is taken out however it ends.
  unfoldable pub executing : (World X → End × World X) → World X → End × World X
  unfolding add_to discard
  executing body w =
      let (end, w') = body (record w { live = add_to w.run.id w.live }) in
      (end, record w' { live = discard w.run.id w'.live })

module _ {X : Type 0} (services : Services X) (repr : Text → Text) where
  open services use {now}

  -- The end of an attempt: the row, and the return or the next turn of the loop. `rows` are those
  -- before the attempt's own.
  unfoldable pub end_attempt :
      List StepRun
      → StepRun
      → Produced
      → (Text → World X → StepEnd × World X)
      → World X
      → StepEnd × World X
  end_attempt rows row (output o) again w = (
    gave (or_text [] o),
    commit
        (record w { step_runs = rows ++ record row { status = step_succeeded; output = o } ∷ [] }),
  )
  end_attempt rows row (error e) again w = again e (
      commit
        (record w { step_runs = rows ++ record row { status = step_failed; error = some e } ∷ [] }))

  -- The rest of a turn once `run_once` is back.
  unfoldable pub after_attempt :
      List StepRun
      → StepRun
      → Attempt × X
      → (Text → World X → StepEnd × World X)
      → World X
      → StepEnd × World X
  unfolding end_attempt
  after_attempt rows row (broke, x) again w = (step_crashed, record w { ext = x })
  after_attempt rows row (made produced task_id outputs, x) again w =
      let (t, x') = now x in
      end_attempt rows (record row { task_id = task_id; finished_at = some t }) produced again
        (record w { ext = x'; run = record w.run { outputs = outputs } })

  unfoldable pub attempt_step :
      StepDef → ℕ → (Text → World X → StepEnd × World X) → World X → StepEnd × World X
  unfolding after_attempt run_once
  attempt_step step attempt again w =
      let row = new_step_run step step_running attempt in
      let w' = commit (add_step_run row w) in
      after_attempt w.step_runs row (run_once services repr step w'.run w'.ext) again w'

  -- The loop of `_run_step_with_retries` with `left` attempts to go.
  unfoldable pub attempts_from : StepDef → ℕ → ℕ → Text → World X → StepEnd × World X
  unfolding attempt_step
  attempts_from step zero attempt last_error w = (step_raised last_error, w)
  attempts_from step (suc left) attempt last_error w =
      attempt_step step attempt (λ e w'. attempts_from step left (attempt + 1) e w') w

  unfoldable pub run_step_with_retries : StepDef → World X → StepEnd × World X
  unfolding attempts_from
  run_step_with_retries step w = attempts_from step (retries_of step + 1) 1 (text "unknown") w

  -- `if status == RunStatus.FAILED`
  abbrev pub alert_of : RunStatus → Option Text → World X → World X
  alert_of failed why w = publish (alert w.run.id why) w
  alert_of _ why w = w

  -- `_finish`
  unfoldable pub finish : RunStatus → Option Text → World X → World X
  finish status why w =
      let (t, x) = now w.ext in
      alert_of status why (
        publish (finished status why) (
          commit (
            audit (run_finished status) (record w {
              ext = x;
              run = record w.run { status = status; error = why; finished_at = some t };
            }))))

  -- The row of a step whose condition is not met.
  unfoldable pub skip_step : StepDef → World X → World X
  skip_step step w =
      let (t, x) = now w.ext in
      commit (
        add_step_run (record (new_step_run step step_skipped 1) { finished_at = some t })
          (record w { ext = x }))

  -- What follows `_run_step_with_retries`.
  unfoldable pub after_step :
      StepDef → StepEnd × World X → (World X → End × World X) → End × World X
  unfolding finish
  after_step step (gave given, w) again =
      again (publish (step_completed (id_of step)) (commit (record_output (id_of step) given w)))
  after_step step (step_raised e, w) again = (
    returned,
    finish failed (some (text "step " ++ (repr (id_of step) ++ (text " failed: " ++ e)))) w,
  )
  after_step step (step_crashed, w) again = (crashed, w)

  -- A step whose condition is met.
  unfoldable pub perform : StepDef → (World X → End × World X) → World X → End × World X
  unfolding pause run_step_with_retries after_step
  perform (approval id condition message) again w =
      (returned, pause (approval id condition message) message w)
  perform step again w = after_step step (run_step_with_retries step w) again

  -- One turn of the loop of `_execute_from`.
  unfoldable pub turn : StepDef → (World X → End × World X) → World X → End × World X
  unfolding begin_step skip_step perform is_skipped
  turn step again w =
      let w' = begin_step step w in
      if is_skipped step w'.run.outputs then again (skip_step step w') else perform step again w'

  unfoldable pub execute_from : List StepDef → World X → End × World X
  unfolding turn finish
  execute_from [] w = (returned, finish succeeded none w)
  execute_from (step ∷ steps) w = turn step (λ w'. execute_from steps w') w
