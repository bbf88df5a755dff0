-- ===== src/Lib.antt =====
-- Lycosa's controller (backend/app): the parts that decide who may do what, how often, by which
-- provider and in which order.
--
-- The parts and how they interact:
--   * The window store counts hits per key. The rate limiter and the login guard ask it before a
--     request goes on.
--   * The LLM layer answers a prompt. Accounts say who may use which provider; a routing policy is a
--     chain of accounts and models for a purpose; `resolve` makes a route of it; the gateway tries
--     the entries of a route in order, each with retries, and writes a usage row for each.
--     Every socket of a call goes through the address policy of its account.
--   * A task is submitted to the orchestrator, which retrieves knowledge, picks a route (the LLM
--     layer through the task bridge, an external provider, or a node) and tries the candidates of
--     the scheduler in order.
--   * A workflow is a list of steps. The engine runs them in order, hands tasks to the orchestrator,
--     retries them, stops at an approval step, and goes on when an operator has decided.
--
-- The files:
--   Prelude         tests, lists, dictionaries and texts that the models share.
--   WindowStore     backend/app/core/window_store.py, class InProcessWindowStore. A deque of hits is
--                   a list of times, the dict an association list. Children: Bucket and Frame (what
--                   a call changes), Retry (the stated waiting time), Bound (the limit).
--   Login           backend/app/core/loginguard.py and the handler login of
--                   backend/app/api/v1/auth.py, with the throttle of password checks in Throttle.
--   RateLimit       backend/app/core/ratelimit.py, and in Separation the limiter beside the guard
--                   in one store.
--   Llm/Errors      backend/app/llm/errors.py: the classes of errors are constructors of ErrorKind.
--   Llm/Retries     backend/app/llm/gateway.py: backoff_delay, _Budget, with_retries.
--   Llm/Accounts    backend/app/llm/accounts.py: the access rules, get_account, require_account.
--   Llm/Endpoints   backend/app/llm/accounts.py and backend/app/core/agenturl.py: the URL of an
--                   account and the address policy of its calls.
--   Llm/Management  backend/app/llm/accounts.py: create_account, update_account, delete_account,
--                   with the credential rows of backend/app/llm/vault.py.
--   Llm/NetPolicy   backend/app/llm/netpolicy.py: AddressPolicy, resolve_checked, connect_tcp.
--   Llm/Routing     backend/app/llm/routing.py: get_policy, set_policy, delete_policy, resolve.
--   Llm/Gateway     backend/app/llm/gateway.py: generate, _record, _note_fallback, _redact.
--   Llm/TaskBridge  backend/app/llm/task_bridge.py: complete_task.
--   Orchestrator    backend/app/services/orchestrator.py: Submit has submit_task and _execute,
--                   Dispatch the loop over the candidates, Leases heartbeat_live_tasks and
--                   reap_stale_tasks; Classifier is
--                   backend/app/services/classifier.py.
--   Scheduler       backend/app/services/scheduler.py: rank_candidates and, in Route,
--                   route_candidates.
--   Chunks          backend/app/services/knowledge/loader.py: chunk_text.
--   Workflow/Template, Workflow/Definition
--                   the templates, and the checks of backend/app/schemas/workflow.py.
--   Workflow/Execution, Workflow/Runs, Workflow/Entry
--                   backend/app/services/workflow.py: one attempt of a step; the loops over attempts
--                   and steps; start_run, resume_run and, of backend/app/api/v1/workflows.py, the
--                   handler approve_run.
--   Workflow/Leases backend/app/services/workflow.py: heartbeat_live_runs and reap_stale_runs.
--   Tests           runs at small inputs.
--
-- How the models stand to the code. State is passed explicitly: what a session's object holds and
-- what was last committed are two fields. Exceptions are values of the result types. Texts are
-- lists of code points. Times are whole microseconds (Retry-After and the window store), since the
-- code compares and subtracts them alone. What the controller calls outside its own code is a
-- parameter: the clock, the random number, the wait, the providers' adapters, the agents on the
-- nodes, the resolver and the sockets, the cipher, retrieval, for the workflow engine also
-- submit_task, and Python's lower, str, strip, urlsplit, ipaddress and parsing of numbers and
-- dates. They act on a state of their own, of any type, and nothing is assumed of them but what a
-- theorem states as a hypothesis.
--
-- Bounds and fuel: the loop `while True` of with_retries runs on fuel for max_retries + 1 turns,
-- and the windows over a paragraph in chunk_text on fuel for its length; the theorems on both show
-- that this is enough. Every other loop is a recursion on the list that it goes over. Numbers have
-- no bound, as Python's have none.
--
-- Not modelled: streaming, the Redis store and its scripts, the rest of the knowledge base, the
-- adapters of the providers, the cipher of the vault and OAuth, authentication, the nodes' agent
-- and the desktop application; metrics, log lines, latency and cost.
pub mod Prelude
pub mod WindowStore
pub mod Login
pub mod RateLimit
pub mod Orchestrator
pub mod Scheduler
pub mod Chunks
pub mod Llm
pub mod Workflow
mod Tests
