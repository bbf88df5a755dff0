-- ===== src/Tests/Workflow.antt =====
-- The workflow engine at a small definition: a draft that fails once, a gate, and a report.
use lycosa.Prelude.{
  ℕ, ◌+◌, true, false, none, some, List, [], ◌∷◌, ◌++◌, Text, text, String, All, is_in, ltb,
  nat_comparable, text_comparable, ◌≡◌, refl,
}
use lycosa.Prelude.Dict.{lookup, assign}
use lycosa.Workflow.Template.{
  render, output_in, template_refs, match_step, match_template, value_of,
}
use lycosa.Workflow.Definition.{
  Settings, TaskStep, StepDef, task, approval, parallel, ids_here, all_refs, valid,
  validate_references,
}
use lycosa.Workflow.Definition.Order.{seen_after, validate_references-order}
use lycosa.Workflow.Execution.{paused, failed, World, got, threw, Services, returned}
use lycosa.Workflow.Runs.{retries_of, run_step_with_retries, execute_from}
use lycosa.Workflow.Runs.Gate.{execute_from_gate}
use lycosa.Workflow.Runs.Attempts.{Writes, run_step_with_retries-Attempted}
use lycosa.Workflow.Runs.Settled.{IsSettled, execute_from-IsSettled}
use lycosa.Workflow.Entry.{new_run, start_run, approve_run}
use lycosa.Workflow.Entry.Resume.{Resumes, resume_after_pause}

program : Unit {0}
unfolding lookup assign render output_in template_refs match_step match_template value_of
    validate_references execute_from start_run approve_run
program = tt

abbrev settings : Settings
settings = record {
  model = none;
  provider = text "ollama";
  requires_privacy = false;
  max_tokens = 4096;
  task_type = none;
  knowledge_collection = none;
  llm_account_id = none;
  route = none;
}

abbrev task_of : String → String → ℕ → TaskStep
task_of id prompt retries = record {
  id = text id;
  condition = none;
  prompt = text prompt;
  knowledge_query = none;
  retries = retries;
  settings = settings;
}

abbrev draft : StepDef
draft = task (task_of "draft" "On {{ input }}" 1)

abbrev gate : StepDef
gate = approval (text "gate") none (text "Publish {{steps.draft.output}}?")

abbrev report : StepDef
report = task (task_of "report" "Report {{ steps.draft.output }}" 0)

abbrev steps : List StepDef
steps = draft ∷ gate ∷ report ∷ []

-- The clock counts the calls; the first task fails, and a task answers with its prompt.
abbrev services : Services ℕ
services = record {
  now = λ x. (x, x + 1);
  submit_task = λ body x. (
    got (record {
      id = x;
      succeeded = ltb 1 x;
      output = some body.prompt;
      error = some (text "busy");
    }),
    x + 1,
  );
  retrieve_text = λ query collection top_k x. (threw (text "no collection"), x + 1);
  gather = λ bodies x. (got [], x + 1);
}

abbrev repr : Text → Text
repr id = text "'" ++ (id ++ text "'")

abbrev idle : World ℕ
idle = record {
  ext = 0;
  run = new_run 7 (text "bees") 0;
  stored = new_run 7 (text "bees") 0;
  step_runs = [];
  audits = [];
  events = [];
  live = 3 ∷ [];
}

steps-valid : validate_references steps ≡ valid
unfolding program
steps-valid = refl

-- Two substeps of one parallel step may have the same identifier.
twins-valid :
    validate_references
      (parallel (text "both") none (task_of "a" "One" 0 ∷ task_of "a" "Two" 0 ∷ []) ∷ [])
    ≡ valid
unfolding program
twins-valid = refl

-- The message of an approval step may refer to a step that does not exist.
message-valid :
    validate_references (approval (text "gate") none (text "{{steps.no.output}}") ∷ []) ≡ valid
unfolding program
message-valid = refl

abbrev waiting : World ℕ
waiting = (execute_from services repr steps idle).1

waiting-returned : execute_from services repr steps idle ≡ (returned, waiting)
unfolding program
waiting-returned = refl

waiting-paused : waiting.run.status ≡ paused
unfolding program
waiting-paused = refl

draft-output : output_in waiting.run.outputs (text "draft") ≡ text "On bees"
unfolding program
draft-output = refl

report-output :
    output_in (approve_run services repr steps true waiting).1.run.outputs (text "report")
    ≡ text "Report On bees"
unfolding program
report-output = refl

rejected-failed : (approve_run services repr steps false waiting).1.run.status ≡ failed
unfolding program
rejected-failed = refl

validate_references-order_example :
    All (λ ref. is_in ref (seen_after (draft ∷ gate ∷ []) []) ≡ true) (all_refs report)
    × All (λ id. is_in id (seen_after (draft ∷ gate ∷ []) []) ≡ false) (ids_here report)
validate_references-order_example =
    validate_references-order (draft ∷ gate ∷ []) report [] steps-valid

execute_from_gate_example :
    execute_from services repr (draft ∷ gate ∷ report ∷ []) idle
    ≡ execute_from services repr (draft ∷ gate ∷ []) idle
execute_from_gate_example =
    execute_from_gate services repr (draft ∷ []) (report ∷ []) [] (text "gate")
      (text "Publish {{steps.draft.output}}?") idle

run_step_with_retries-Attempted_example :
    Writes draft 1
      (retries_of draft + 1)
      (text "unknown")
      idle.step_runs
      (run_step_with_retries services repr draft idle)
run_step_with_retries-Attempted_example = run_step_with_retries-Attempted services repr draft idle

execute_from-IsSettled_example : IsSettled steps (execute_from services repr steps idle)
execute_from-IsSettled_example = execute_from-IsSettled services repr steps idle

resume_after_pause_example : Resumes services repr steps true waiting
resume_after_pause_example =
    resume_after_pause services repr steps true idle waiting steps-valid waiting-returned
      waiting-paused

new_run-free : is_in 7 idle.live ≡ false
new_run-free = refl

waiting-live : is_in waiting.run.id waiting.live ≡ false
unfolding program
waiting-live = refl
