-- ===== src/Tests/Bridge.antt =====
-- A private task by way of the LLM layer, with a local account behind a policy.
use lycosa.Prelude.{ℕ, true, none, some, [], ◌∷◌, Text, text, nat_comparable, text_comparable, refl}
use lycosa.Orchestrator.Classifier.{coding}
use lycosa.Orchestrator.State.{TaskCreate}
use lycosa.Llm.Accounts.{ProviderKind, local, Account}
use lycosa.Llm.Routing.{Tables, Policy}
use lycosa.Llm.Gateway.{Response}
use lycosa.Llm.TaskBridge.{FinishReason, stop, complete_task, operator}
use lycosa.Llm.TaskBridge.Private.{AreAll, IsOwnLocal, complete_task-AreAll}
use lycosa.Tests.Llm.{runtime, account_of, services, fresh}

abbrev near : Account
near = record (account_of 2 "ollama") { is_local = true }

abbrev policy : Policy
policy = record {
  owner_user_id = none;
  purpose = text "coding";
  chain = record { account_id = some 2; model = some (text "m") } ∷ [];
}

abbrev db : Tables
db = record { accounts = account_of 1 "openai" ∷ near ∷ []; policies = policy ∷ []; audited = [] }

abbrev kind_of : Text → ProviderKind
kind_of provider = local

abbrev body : TaskCreate
body = record {
  prompt = text "Sort a list.";
  task_type = some coding;
  model = none;
  options = [];
  max_tokens_set = none;
  temperature_set = none;
  knowledge_query = none;
  knowledge_collection = none;
  provider = text "ollama";
  requires_privacy = true;
  llm_account_id = none;
  route = some (text "auto");
}

abbrev reason_of : Response → FinishReason
reason_of response = stop

abbrev same : Text → Text
same t = t

abbrev show : ℕ → Text
show n = text "1"

complete_task-AreAll_example :
    AreAll
      (IsOwnLocal kind_of db.accounts (operator (some 7) none))
      (complete_task kind_of db runtime services 2 30_000_000 60_000_000 reason_of same show body
        coding
        (some 7)
        none
        fresh).1
complete_task-AreAll_example =
    complete_task-AreAll kind_of db runtime services 2 30_000_000 60_000_000 reason_of same show
      body coding (some 7) none fresh refl (record { asked = tt; written = tt })
