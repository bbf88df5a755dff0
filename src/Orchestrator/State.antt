-- ===== src/Orchestrator/State.antt =====
-- The rows of a task and of its executions (backend/app/models/task.py), the request, and what the
-- orchestrator calls. As in the workflow engine the task is the session's object, and `stored` what
-- its last commit wrote; the calls that leave the controller are kept in a log.
use lycosa.Prelude.{
  ℕ, Bool, true, false, Option, none, some, List, [], ◌∷◌, ◌++◌, Text, nat_comparable,
  text_comparable,
}
use lycosa.Llm.Errors.{Json}
use lycosa.Orchestrator.Classifier.{TaskType}

pub data TaskStatus : Type 0 where
  queued assigned running succeeded failed : TaskStatus

pub data ExecutionStatus : Type 0 where
  execution_running execution_succeeded execution_failed : ExecutionStatus

-- `TaskCreate`; the options of an agent are a list of names and values.
pub record TaskCreate : Type 0 where
  pub prompt : Text
  pub task_type : Option TaskType
  pub model : Option Text
  pub options : List (Text × Json)
  pub max_tokens_set : Option Json
  pub temperature_set : Option Json
  pub knowledge_query : Option Text
  pub knowledge_collection : Option Text
  pub provider : Text
  pub requires_privacy : Bool
  pub llm_account_id : Option ℕ
  pub route : Option Text

-- The result of a task that succeeded: its output, the model, the node, and whether it is the
-- refusal of a task without relevant knowledge.
pub record TaskResult : Type 0 where
  pub output : Option Text
  pub model : Option Text
  pub node : Option ℕ
  pub refusal : Bool

pub record Execution : Type 0 where
  pub node_id : ℕ
  pub attempt : ℕ
  pub status : ExecutionStatus
  pub output : Option Text
  pub error : Option Text
  pub finished_at : Option ℕ

pub record Task : Type 0 where
  pub id : ℕ
  pub task_type : TaskType
  pub status : TaskStatus
  pub result : Option TaskResult
  pub error : Option Text
  pub node_id : Option ℕ
  pub queued_at : ℕ
  pub assigned_at : Option ℕ
  pub started_at : Option ℕ
  pub finished_at : Option ℕ
  pub heartbeat_at : Option ℕ

pub record Node : Type 0 where
  pub id : ℕ
  pub name : Text
  pub models : List (List Text)

-- A `RoutingDecision`, as far as the orchestrator looks at it.
pub record Decision : Type 0 where
  pub node : Node
  pub cpu_only : Bool

-- A call that returns, or raises an exception with a text.
pub data Called (A : Type 0) : Type 0 where
  got : A → Called A
  threw : Text → Called A

-- What `retrieve` finds: whether there are chunks, and their text.
pub record Knowledge : Type 0 where
  pub has_chunks : Bool
  pub context_text : Text

-- The outcome of a route that leaves the nodes aside: an error, or a result.
pub data Outcome : Type 0 where
  outcome_error : Text → Outcome
  outcome : TaskResult → Outcome

-- What an agent answers: whether the status is `succeeded`, the output, and the error if the key
-- is there.
pub record Reply : Type 0 where
  pub success : Bool
  pub output : Option Text
  pub error : Option (Option Text)

-- How the dispatch of a task to a node ends: a reply, an `httpx.HTTPError`, or another exception.
pub data Dispatched : Type 0 where
  replied : Reply → Dispatched
  http_error : Text → Dispatched
  broke : Dispatched

-- The answer to the request of `_dispatch_cloud`, if it is a success, and the ways in which the
-- request fails that are caught there.
pub data CloudAnswer : Type 0 where
  success_body : Json → CloudAnswer
  not_success : CloudAnswer
  caught : CloudAnswer
  uncaught : CloudAnswer

-- The calls that leave the controller.
pub data Effect : Type 0 where
  retrieved : Text → Effect
  llm_layer : (requires_privacy : Bool) → (prompt : Text) → Effect
  external : Text → Text → Effect
  cloud : (node_id : ℕ) → (prompt : Text) → Effect
  agent : (node_id : ℕ) → (model : Text) → (prompt : Text) → Effect

pub data TaskEvent : Type 0 where
  task_started : TaskEvent
  task_finished : TaskStatus → Option Text → TaskEvent

pub data TaskAudit : Type 0 where
  task_submit : TaskAudit
  task_routing : Option ℕ → TaskAudit
  task_end : TaskStatus → TaskAudit

pub record World (X : Type 0) : Type 0 where
  pub ext : X
  pub task : Task
  pub stored : Task
  pub executions : List Execution
  pub audits : List TaskAudit
  pub events : List TaskEvent
  pub live : List ℕ
  pub calls : List Effect

pub record Services (X : Type 0) : Type 0 where
  pub now : X → ℕ × X
  pub retrieve : Text → Option Text → X → Called Knowledge × X
  pub complete_llm_task : TaskCreate → Text → X → Called Outcome × X
  pub complete_external : TaskCreate → Text → X → Called Outcome × X
  pub provider_key : Text → X → Called (Option Text) × X
  pub route_candidates : TaskType → TaskCreate → Bool → X → Called (List Decision) × X
  pub post_agent : Node → Text → Text → List (Text × Json) → X → Dispatched × X
  pub post_cloud : Node → TaskCreate → Text → Text → X → CloudAnswer × X

-- How `submit_task` ends: `return task`, or an exception.
pub data End : Type 0 where
  returned : End
  crashed : End

abbrev pub uses_llm_layer : TaskCreate → Bool
uses_llm_layer body = elim body.llm_account_id [
  | some account ↦ true
  | none ↦ elim body.route [ none ↦ false | some route ↦ true ]
]

module _ {X : Type 0} where
  -- `await db.commit()`
  abbrev pub commit : World X → World X
  commit w = record w { stored = w.task }

  abbrev pub audit : TaskAudit → World X → World X
  audit entry w = record w { audits = w.audits ++ entry ∷ [] }

  abbrev pub publish : TaskEvent → World X → World X
  publish event w = record w { events = w.events ++ event ∷ [] }

  abbrev pub called : Effect → World X → World X
  called effect w = record w { calls = w.calls ++ effect ∷ [] }
