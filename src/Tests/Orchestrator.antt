-- ===== src/Tests/Orchestrator.antt =====
-- The orchestrator with two nodes, of which the first fails.
use lycosa.Prelude.{
  arith, any, ℕ, ◌+◌, true, false, none, some, List, [], ◌∷◌, Text, text, String, length, All, ltb,
  if◌then◌else◌, nat_comparable, text_comparable, ◌≡◌, refl,
}
use lycosa.Orchestrator.Classifier.{TaskType, general, classify}
use lycosa.Orchestrator.State.{
  succeeded, TaskCreate, Task, Node, Decision, got, threw, Knowledge, replied, http_error,
  not_success, World, Services, End,
}
use lycosa.Orchestrator.Leases.{TaskRow, TaskTables, Renewals, is_stale, reap_from}
use lycosa.Orchestrator.Leases.Complete.{reap_from_complete}
use lycosa.Orchestrator.Dispatch.{attempts_from, select_model}
use lycosa.Orchestrator.Dispatch.Attempts.{Writes, attempts_from-Writes}
use lycosa.Orchestrator.Submit.{
  new_task, execute, submit_task, grounded_prompt, refusal_result, attempts_error,
  knowledge_query_of, is_ollama,
}
use lycosa.Orchestrator.Submit.Settled.{IsSettled, submit_task-IsSettled}
use lycosa.Orchestrator.Submit.Privacy.{IsOnSite, submit_task-IsOnSite}
use lycosa.Orchestrator.Submit.Grounding.{Carries, execute-Carries}

program : Unit {0}
unfolding any is_stale reap_from classify submit_task execute attempts_from refusal_result
    attempts_error knowledge_query_of is_ollama select_model Carries IsOnSite grounded_prompt
program = tt

abbrev node_of : ℕ → String → Node
node_of id name = record { id = id; name = text name; models = [] ∷ (text "llama" ∷ []) ∷ [] }

abbrev decision_of : ℕ → String → Decision
decision_of id name = record { node = node_of id name; cpu_only = false }

abbrev candidates : List Decision
candidates = decision_of 1 "a" ∷ decision_of 2 "b" ∷ []

abbrev found : Knowledge
found = record { has_chunks = true; context_text = text "Bees dance." }

abbrev not_found : Knowledge
not_found = record { has_chunks = false; context_text = [] }

-- The clock counts the calls; an agent answers only once it is past 6.
abbrev services_with : Knowledge → Services ℕ
services_with knowledge = record {
  now = λ x. (x, x + 1);
  retrieve = λ query collection x. (got knowledge, x);
  complete_llm_task = λ body prompt x. (threw (text "none"), x);
  complete_external = λ body prompt x. (threw (text "none"), x);
  provider_key = λ provider x. (got none, x);
  route_candidates = λ task_type body available x. (got candidates, x);
  post_agent = λ node model prompt options x. (
    if ltb x 5
        then http_error (text "refused")
        else replied (record { success = true; output = some (text "yes"); error = none }),
    x + 1,
  );
  post_cloud = λ node body prompt key x. (not_success, x);
}

abbrev show : ℕ → Text
show n = text "2"

abbrev type_name : TaskType → Text
type_name task_type = text "general"

abbrev body : TaskCreate
body = record {
  prompt = text "How do bees talk?";
  task_type = some general;
  model = none;
  options = [];
  max_tokens_set = none;
  temperature_set = none;
  knowledge_query = some (text "bees");
  knowledge_collection = none;
  provider = text "ollama";
  requires_privacy = true;
  llm_account_id = none;
  route = none;
}

abbrev empty_task : Task
empty_task = new_task (services_with found) 2 show type_name 0 general 0

abbrev idle : World ℕ
idle = record {
  ext = 0;
  task = empty_task;
  stored = empty_task;
  executions = [];
  audits = [];
  events = [];
  live = [];
  calls = [];
}

abbrev same : Text → Text
same t = t

abbrev run : End × World ℕ
run = submit_task (services_with found) 2 show type_name same body 9 idle

second_answers : run.1.task.status ≡ succeeded
unfolding program
second_answers = refl

two_rows : length run.1.executions ≡ 2
unfolding program
two_rows = refl

submit_task-IsSettled_example : IsSettled run
submit_task-IsSettled_example =
    submit_task-IsSettled (services_with found) 2 show type_name same body 9 idle

submit_task-IsOnSite_example : All IsOnSite run.1.calls
submit_task-IsOnSite_example =
    submit_task-IsOnSite (services_with found) 2 show type_name same body 9 idle refl tt

attempts_from-Writes_example :
    Writes candidates 1 []
      (attempts_from (services_with found) candidates 1 body body.prompt same [] idle)
attempts_from-Writes_example =
    attempts_from-Writes (services_with found) candidates 1 body body.prompt same [] idle

execute-Carries_example :
    All
      (Carries (grounded_prompt (text "Bees dance.") body.prompt))
      (execute (services_with found) 2 show type_name body general idle).1.calls
unfolding program
execute-Carries_example =
    execute-Carries (services_with found) 2 show type_name body general (text "bees") found idle
      refl refl refl refl tt

abbrev row_of : ℕ → TaskRow
row_of id = record {
  task = new_task (services_with found) 2 show type_name id general 100;
  executions = [];
}

abbrev tasks : TaskTables
tasks = record { rows = row_of 1 ∷ row_of 2 ∷ []; audits = []; events = [] }

-- The second task is renewed before its claim.
abbrev selected : List (TaskRow × ℕ × Renewals)
selected = (row_of 1, 1_001, []) ∷ (row_of 2, 1_002, (2 ∷ [], 1_001) ∷ []) ∷ []

one_reaped : (reap_from 1_000 300 selected (0, tasks)).0 ≡ 1
unfolding program
one_reaped = refl

reap_from_complete_example :
    All (λ row. is_stale 1_000 300 row ≡ false) (reap_from 1_000 300 selected (0, tasks)).1.rows
unfolding program
reap_from_complete_example =
    reap_from_complete 1_000 300 selected 0 tasks (tt, ((omega arith, tt), tt)) (refl, (refl, tt))
