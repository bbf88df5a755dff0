-- ===== src/Workflow/Execution.antt =====
-- The executor of backend/app/services/workflow.py. The run is the session's object, `stored` what
-- its last commit wrote; the rows of the steps, the audit log, the events and the set of live runs
-- stand beside it. `submit_task`, `retrieve`, the sessions of a parallel step and the clock act on a
-- state `X` of their own. Metrics and log lines are left out.
use lycosa.Prelude.{
  ℕ, Bool, true, false, not, ◌&&◌, Option, none, some, List, [], ◌∷◌, ◌++◌, map, Text, text,
  if◌then◌else◌, ◌==◌, nat_comparable, text_comparable, contains, join,
}
use lycosa.Prelude.Dict.{assign}
use lycosa.Workflow.Template.{Outputs, output_in, render}
use lycosa.Workflow.Definition.{
  WhenClause, Settings, TaskStep, StepDef, task, retrieve, approval, parallel, id_of, when_of,
}

pub data RunStatus : Type 0 where
  running paused succeeded failed : RunStatus

pub data StepStatus : Type 0 where
  step_running step_succeeded step_failed step_skipped pending_approval : StepStatus

pub data Kind : Type 0 where
  task_kind retrieve_kind approval_kind parallel_kind : Kind

abbrev pub kind_of : StepDef → Kind
kind_of (task step) = task_kind
kind_of (retrieve id condition query collection top_k) = retrieve_kind
kind_of (approval id condition message) = approval_kind
kind_of (parallel id condition steps) = parallel_kind

pub record StepRun : Type 0 where
  pub step_id : Text
  pub kind : Kind
  pub status : StepStatus
  pub attempt : ℕ
  pub task_id : Option ℕ
  pub output : Option Text
  pub error : Option Text
  pub finished_at : Option ℕ

pub record Run : Type 0 where
  pub id : ℕ
  pub input : Text
  pub status : RunStatus
  pub outputs : Outputs
  pub current_step : Option Text
  pub error : Option Text
  pub finished_at : Option ℕ
  pub heartbeat_at : Option ℕ

pub data Event : Type 0 where
  started : Event
  paused_at : Text → Event
  step_completed : Text → Event
  finished : RunStatus → Option Text → Event
  alert : ℕ → Option Text → Event

pub data Audited : Type 0 where
  run_started run_approved run_rejected run_paused : Audited
  run_finished : RunStatus → Audited

pub record World (X : Type 0) : Type 0 where
  pub ext : X
  pub run : Run
  pub stored : Run
  pub step_runs : List StepRun
  pub audits : List Audited
  pub events : List Event
  pub live : List ℕ

-- The request that `_run_task` makes of the orchestrator.
pub record TaskBody : Type 0 where
  pub prompt : Text
  pub knowledge_query : Option Text
  pub settings : Settings

-- The task that `submit_task` returns.
pub record TaskDone : Type 0 where
  pub id : ℕ
  pub succeeded : Bool
  pub output : Option Text
  pub error : Option Text

-- A call that returns, or raises.
pub data Called (A : Type 0) : Type 0 where
  got : A → Called A
  threw : Text → Called A

pub record Services (X : Type 0) : Type 0 where
  pub now : X → ℕ × X
  pub submit_task : TaskBody → X → Called TaskDone × X
  pub retrieve_text : Text → Option Text → ℕ → X → Called Text × X
  pub gather : List TaskBody → X → Called (List TaskDone) × X

-- How an execution ends: `return run`, or an exception.
pub data End : Type 0 where
  returned : End
  crashed : End

-- What `_run_step_with_retries` ends with.
pub data StepEnd : Type 0 where
  gave : Text → StepEnd
  step_raised : Text → StepEnd
  step_crashed : StepEnd

-- `x or ""`, and `error or "task failed"`.
abbrev pub or_text : Text → Option Text → Text
or_text other none = other
or_text other (some []) = other
or_text other (some (c ∷ s)) = c ∷ s

module _ {X : Type 0} where
  -- `await db.commit()`
  abbrev pub commit : World X → World X
  commit w = record w { stored = w.run }

  abbrev pub audit : Audited → World X → World X
  audit entry w = record w { audits = w.audits ++ entry ∷ [] }

  abbrev pub publish : Event → World X → World X
  publish event w = record w { events = w.events ++ event ∷ [] }

  -- `_record_output`
  abbrev pub record_output : Text → Text → World X → World X
  record_output step_id output w = record w {
    run = record w.run { outputs = assign step_id output w.run.outputs };
  }

  abbrev pub add_step_run : StepRun → World X → World X
  add_step_run row w = record w { step_runs = w.step_runs ++ row ∷ [] }

abbrev pub new_step_run : StepDef → StepStatus → ℕ → StepRun
new_step_run step status attempt = record {
  step_id = id_of step;
  kind = kind_of step;
  status = status;
  attempt = attempt;
  task_id = none;
  output = none;
  error = none;
  finished_at = none;
}

abbrev pub is_pending : StepStatus → Bool
is_pending pending_approval = true
is_pending _ = false

-- The row that `resume_run` resolves: the first of the step that waits for approval.
abbrev pub waits : Text → StepRun → Bool
waits id row = row.step_id == id && is_pending row.status

-- `_condition_met`
unfoldable pub condition_met : WhenClause → Outputs → Bool
condition_met clause outputs =
    let output = output_in outputs clause.step in
    elim clause.contains [
      | some part ↦ contains part output
      | none ↦ elim clause.equals [ none ↦ false | some whole ↦ output == whole ]
    ]

-- Whether the step has a condition that is not met.
unfoldable pub is_skipped : StepDef → Outputs → Bool
unfolding condition_met
is_skipped step outputs = elim (when_of step) [
  | none ↦ false
  | some clause ↦ not (condition_met clause outputs)
]

-- `render(step.knowledge_query, ...) if step.knowledge_query else None`
abbrev pub rendered_query : Option Text → Run → Option Text
rendered_query none run = none
rendered_query (some []) run = none
rendered_query (some (c ∷ s)) run = some (render (c ∷ s) run.input run.outputs)

unfoldable pub body_of : Run → TaskStep → TaskBody
body_of run step = record {
  prompt = render step.prompt run.input run.outputs;
  knowledge_query = rendered_query step.knowledge_query run;
  settings = step.settings;
}

-- The output, or the error, of a finished task.
pub data Produced : Type 0 where
  output : Option Text → Produced
  error : Text → Produced

abbrev pub produced : TaskDone → Produced
produced done =
    if done.succeeded then output done.output else error (or_text (text "task failed") done.error)

-- `[f"{sub_id}: {error}" ...]`
unfoldable pub failures_of : List TaskStep → List TaskDone → List Text
failures_of (step ∷ steps) (done ∷ results) = elim (produced done) [
  | output o ↦ failures_of steps results
  | error e ↦ (step.id ++ (text ": " ++ e)) ∷ failures_of steps results
]
failures_of _ _ = []

-- `output or ""` of each result.
abbrev pub text_of : TaskDone → Text
text_of done = or_text [] done.output

-- The loop of `_record_output` over the results of a parallel step.
unfoldable pub record_all : List TaskStep → List TaskDone → Outputs → Outputs
record_all (step ∷ steps) (done ∷ results) outputs =
    record_all steps results (assign step.id (text_of done) outputs)
record_all _ _ outputs = outputs

-- The output or the error of one attempt, or the exception that passes through, with the task's
-- identifier and what is recorded in the context.
pub data Attempt : Type 0 where
  made : Produced → Option ℕ → Outputs → Attempt
  broke : Attempt

-- The end of `_run_parallel`.
unfoldable pub parallel_result : List TaskStep → List TaskDone → Outputs → Attempt
unfolding failures_of record_all join
parallel_result steps results outputs = elim (failures_of steps results) [
  | [] ↦
      made (output (some (join (text "\n\n") (map text_of results)))) none
        (record_all steps results outputs)
  | failure ∷ failures ↦ made (error (join (text "; ") (failure ∷ failures))) none outputs
]

module _ {X : Type 0} (services : Services X) (repr : Text → Text) where
  open services use {now, submit_task, retrieve_text, gather}

  -- The `if`/`elif` of one attempt: `_run_task`, `retrieve`, `_run_parallel`. An approval step does
  -- not come here.
  unfoldable pub run_once : StepDef → Run → X → Attempt × X
  unfolding body_of parallel_result
  run_once (task step) run x =
      let (called, x') = submit_task (body_of run step) x in
      (
        elim called [
          | got done ↦ made (produced done) (some done.id) run.outputs
          | threw message ↦ broke
        ],
        x',
      )
  run_once (retrieve id condition query collection top_k) run x =
      let (called, x') = retrieve_text (render query run.input run.outputs) collection top_k x in
      (
        elim called [
          | got found ↦ made (output (some found)) none run.outputs
          | threw message ↦ made (error message) none run.outputs
        ],
        x',
      )
  run_once (parallel id condition steps) run x =
      let (called, x') = gather (map (body_of run) steps) x in
      (
        elim called [
          | got results ↦ parallel_result steps results run.outputs
          | threw message ↦ broke
        ],
        x',
      )
  run_once (approval id condition message) run x = (broke, x)
