-- ===== src/Orchestrator/Dispatch.antt =====
-- `_finish`, `_finish_execution`, `_dispatch`, `_dispatch_cloud`, and the loop of `_execute` over the
-- candidates. A continuation is the next turn of the loop. Metrics and log lines are left out.
pub mod Attempts
use lycosa.Prelude.{
  ℕ, zero, suc, ◌+◌, ◌-◌, ◌*◌, ◌/◌, ◌^◌, ◌≤◌, ◌<◌, min, max, Bool, true, false, not, ◌&&◌, ◌||◌,
  Option, none, some, List, [], ◌∷◌, ◌++◌, map, append-nil, append_assoc, Text, text, String,
  length, take, drop, get_elem?, length-append, length-map, length-take-le, All, All-append, any,
  keep_if, is_in, ltb, leb, nat_beq, if◌then◌else◌, ltb→lt, lt→ltb, leb→le, le→leb, nat_beq_iff,
  Bool-cases, Option-cases, Comparable, ◌==◌, nat_comparable, text_beq, text_beq_iff,
  text_comparable, beq_refl, beq_false, ◌≡◌, refl, sym, ap, ◌∙◌, subst, ◌≢◌, ◌↔◌, ◌⊎◌, inl, inr,
  starts_with, contains, join, arith,
}
use lycosa.Prelude.Dict.{assign}
use lycosa.Llm.Errors.{Json, object, string, boolean, number, get}
use lycosa.Llm.Gateway.{replace, redacted}
use lycosa.Orchestrator.State.{
  TaskStatus, queued, assigned, running, succeeded, failed, ExecutionStatus, execution_running,
  execution_succeeded, execution_failed, TaskCreate, TaskResult, Execution, Task, Node, Decision,
  Called, got, threw, Reply, Dispatched, replied, http_error, broke, CloudAnswer, success_body,
  not_success, caught, uncaught, cloud, agent, TaskAudit, task_finished, task_routing, task_end,
  World, Services, End, returned, crashed, commit, audit, publish, called,
}

-- `_select_model`: the requested model, if it is not empty, or the first model of the first runtime
-- that has one.
unfoldable pub first_model : List (List Text) → Option Text
first_model [] = none
first_model ([] ∷ runtimes) = first_model runtimes
first_model ((model ∷ models) ∷ runtimes) = some model

unfoldable pub select_model : Node → Option Text → Option Text
unfolding first_model
select_model node (some (c ∷ requested)) = some (c ∷ requested)
select_model node _ = first_model node.models

-- `options` with what the request sets explicitly, and without a GPU for a decision that says so.
abbrev pub with_option : Text → Option Json → List (Text × Json) → List (Text × Json)
with_option key none options = options
with_option key (some value) options = assign key value options

abbrev pub dispatch_options : TaskCreate → Decision → List (Text × Json)
dispatch_options body decision =
    let options =
      with_option (text "temperature") body.temperature_set
        (with_option (text "num_predict") body.max_tokens_set body.options) in
    if decision.cpu_only then assign (text "num_gpu") (number (text "0") true) options else options

abbrev pub reply_failed : Text → Reply
reply_failed why = record { success = false; output = none; error = some (some why) }

-- The result of `_dispatch_cloud` for a decoded body: its output with the credential hidden, if the
-- body says that it succeeded.
unfoldable pub cloud_output : Text → Json → Reply
unfolding replace get
cloud_output credential (object fields) = elim (get (text "status") fields) [
  | string status ↦
      if status == text "succeeded"
      then elim (get (text "output") fields) [
        | string output ↦ record {
          success = true;
          output = some (replace credential redacted output);
          error = none;
        }
        | _ ↦ reply_failed (text "Cloud execution failed")
      ]
      else reply_failed (text "Cloud execution failed")
  | _ ↦ reply_failed (text "Cloud execution failed")
]
cloud_output credential _ = reply_failed (text "Cloud execution failed")

unfoldable pub cloud_reply : Text → CloudAnswer → Dispatched
unfolding cloud_output
cloud_reply credential (success_body body) = replied (cloud_output credential body)
cloud_reply credential not_success = replied (reply_failed (text "Cloud execution failed"))
cloud_reply credential caught = replied (reply_failed (text "Cloud execution failed"))
cloud_reply credential uncaught = broke

-- `outcome.get('error', 'agent reported failure')`, in an f-string.
abbrev pub failure_text : Reply → Text
failure_text reply = elim reply.error [
  | none ↦ text "agent reported failure"
  | some e ↦ elim e [ none ↦ text "None" | some why ↦ why ]
]

-- `outcome.get("error")`
abbrev pub error_of : Reply → Option Text
error_of reply = elim reply.error [ none ↦ none | some e ↦ e ]

abbrev pub node_text : Node → Text → Text
node_text node why = text "node " ++ (node.name ++ (text ": " ++ why))

-- The row of an attempt before it is over.
abbrev pub new_execution : Node → ℕ → Execution
new_execution node attempt = record {
  node_id = node.id;
  attempt = attempt;
  status = execution_running;
  output = none;
  error = none;
  finished_at = none;
}

module _ {X : Type 0} (services : Services X) where
  open services use {now, provider_key, post_agent, post_cloud}

  -- `_finish`
  unfoldable pub finish : TaskStatus → Option TaskResult → Option Text → World X → World X
  finish status result error w =
      let (t, x) = now w.ext in
      publish (task_finished status error) (
        commit (
          audit (task_end status) (record w {
            ext = x;
            task = record w.task {
              status = status;
              result = result;
              error = error;
              finished_at = some t;
            };
          })))

  -- `_finish_execution` on the last row, which is the one of this attempt; `rows` are those before.
  unfoldable pub finish_execution :
      List Execution → Execution → ExecutionStatus → Option Text → Option Text → World X → World X
  finish_execution rows row status output error w =
      let (t, x) = now w.ext in
      commit (record w {
        ext = x;
        executions =
            rows
            ++ record row { status = status; output = output; error = error; finished_at = some t }
              ∷ [];
      })

  -- `_dispatch_cloud`. A secret store that is not available is caught.
  unfoldable pub dispatch_cloud :
      Node → TaskCreate → Text → Called (Option Text) → World X → Dispatched × World X
  unfolding cloud_reply
  dispatch_cloud node body prompt (threw why) w =
      (replied (reply_failed (text "Cloud execution failed")), w)
  dispatch_cloud node body prompt (got none) w =
      (replied (reply_failed (text "Provider credential unavailable")), w)
  dispatch_cloud node body prompt (got (some [])) w =
      (replied (reply_failed (text "Provider credential unavailable")), w)
  dispatch_cloud node body prompt (got (some (c ∷ credential))) w =
      let (answer, x) = post_cloud node body prompt (c ∷ credential) w.ext in
      (cloud_reply (c ∷ credential) answer, called (cloud node.id prompt) (record w { ext = x }))

  -- `_dispatch`
  unfoldable pub call_agent : Decision → TaskCreate → Text → Text → World X → Dispatched × World X
  call_agent decision body model prompt w =
      let options = dispatch_options body decision in
      let (answer, x) = post_agent decision.node model prompt options w.ext in
      (answer, called (agent decision.node.id model prompt) (record w { ext = x }))

  unfoldable pub call_cloud : Decision → TaskCreate → Text → World X → Dispatched × World X
  unfolding dispatch_cloud
  call_cloud decision body prompt w =
      let (key, x) = provider_key body.provider w.ext in
      dispatch_cloud decision.node body prompt key (record w { ext = x })

  -- The call of an attempt.
  unfoldable pub dispatch : Decision → TaskCreate → Text → Text → World X → Dispatched × World X
  unfolding call_agent call_cloud
  dispatch decision body model prompt w =
      if body.provider == text "ollama"
      then call_agent decision body model prompt w
      else call_cloud decision body prompt w

  -- What follows the call. `rows` are the rows of the attempts before.
  unfoldable pub after_dispatch :
      List Execution
      → Execution
      → Decision
      → Text
      → Dispatched
      → (Text → World X → End × World X)
      → World X
      → End × World X
  unfolding finish finish_execution
  after_dispatch rows row decision model (http_error why) again w =
      again (node_text decision.node why)
        (finish_execution rows row execution_failed none (some why) w)
  after_dispatch rows row decision model broke again w = (crashed, w)
  after_dispatch rows row decision model (replied reply) again w =
      if reply.success
      then (
        returned,
        finish succeeded
            (some (record {
              output = reply.output;
              model = some model;
              node = some decision.node.id;
              refusal = false;
            }))
            none (finish_execution rows row execution_succeeded reply.output none w),
      )
      else again (node_text decision.node (failure_text reply))
          (finish_execution rows row execution_failed none (error_of reply) w)

  -- The attempt once its model is selected.
  unfoldable pub with_model :
      List Execution
      → Execution
      → Decision
      → TaskCreate
      → Text
      → Option Text
      → (Text → World X → End × World X)
      → World X
      → End × World X
  unfolding dispatch after_dispatch
  with_model rows row decision body prompt none again w =
      again (node_text decision.node (text "no models available")) (
        finish_execution rows row execution_failed none (some (text "node advertises no models")) w)
  with_model rows row decision body prompt (some model) again w =
      let (answer, w') = dispatch decision body model prompt w in
      after_dispatch rows row decision model answer again w'

  -- `if task.started_at is None`
  abbrev pub start_if_new : ℕ → Option ℕ → Option ℕ
  start_if_new t none = some t
  start_if_new t (some started) = some started

  -- The rows and the status of an attempt, up to the commit before its call. One reading of the
  -- clock stands for two.
  unfoldable pub begin_attempt : Decision → ℕ → World X → World X
  begin_attempt decision attempt w =
      let (t, x) = now w.ext in
      let w' = audit (task_routing (some decision.node.id)) w in
      commit (record w' {
        ext = x;
        task = record w.task {
          status = running;
          assigned_at = some t;
          node_id = some decision.node.id;
          started_at = start_if_new t w.task.started_at;
        };
        executions = w.executions ++ new_execution decision.node attempt ∷ [];
      })

  -- One turn of the loop over the candidates.
  unfoldable pub attempt_node :
      Decision → ℕ → TaskCreate → Text → (Text → World X → End × World X) → World X → End × World X
  unfolding begin_attempt with_model select_model
  attempt_node decision attempt body prompt again w =
      with_model w.executions (new_execution decision.node attempt) decision body prompt
        (select_model decision.node body.model) again (begin_attempt decision attempt w)

  -- The loop over `candidates[:max_attempts]`, and what follows it; `error` makes the text of the
  -- last error into that of the task.
  unfoldable pub attempts_from :
      List Decision → ℕ → TaskCreate → Text → (Text → Text) → Text → World X → End × World X
  unfolding attempt_node finish
  attempts_from [] attempt body prompt error last_error w =
      (returned, finish failed none (some (error last_error)) w)
  attempts_from (decision ∷ decisions) attempt body prompt error last_error w =
      attempt_node decision attempt body prompt
        (λ e w'. attempts_from decisions (attempt + 1) body prompt error e w') w
