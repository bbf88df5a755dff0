-- ===== src/Orchestrator/Submit.antt =====
-- `submit_task` and `_execute`: the knowledge that goes into the prompt, the route that the request
-- takes, and the end of the task.
pub mod Settled
pub mod Calls
pub mod Privacy
pub mod Grounding
use lycosa.Prelude.{
  ℕ, zero, suc, ◌+◌, ◌-◌, ◌*◌, ◌/◌, ◌^◌, ◌≤◌, ◌<◌, min, max, Bool, true, false, not, ◌&&◌, ◌||◌,
  Option, none, some, List, [], ◌∷◌, ◌++◌, map, append-nil, append_assoc, Text, text, String,
  length, take, drop, get_elem?, length-append, length-map, length-take-le, All, All-append, any,
  keep_if, is_in, ltb, leb, nat_beq, if◌then◌else◌, ltb→lt, lt→ltb, leb→le, le→leb, nat_beq_iff,
  Bool-cases, Option-cases, Comparable, ◌==◌, nat_comparable, text_beq, text_beq_iff,
  text_comparable, beq_refl, beq_false, ◌≡◌, refl, sym, ap, ◌∙◌, subst, ◌≢◌, ◌↔◌, ◌⊎◌, inl, inr,
  starts_with, contains, join, arith,
}
use lycosa.Prelude.Sets.{add_to, discard}
use lycosa.Orchestrator.Classifier.{TaskType, retrieval, classify, preferred_roles}
use lycosa.Orchestrator.State.{
  TaskStatus, queued, running, succeeded, failed, TaskCreate, TaskResult, Task, Decision, Called,
  got, threw, Knowledge, Outcome, outcome_error, outcome, retrieved, llm_layer, external,
  task_started, task_submit, task_routing, World, Services, End, returned, crashed, uses_llm_layer,
  commit, audit, publish, called,
}
use lycosa.Orchestrator.Dispatch.{finish, attempts_from}

unfoldable pub grounded_refusal : Text
grounded_refusal = text "I cannot answer this based on the retrieved knowledge."

unfoldable pub grounding_instruction : Text
unfolding grounded_refusal
grounding_instruction =
    text "Answer the task using ONLY the retrieved context below. "
    ++ (text "Do not use any outside or prior knowledge. If the context does not "
        ++ (text "contain the answer, reply with exactly this sentence: \""
            ++ (grounded_refusal ++ text "\"\n\n")))

-- `_grounded_prompt`
unfoldable pub grounded_prompt : Text → Text → Text
unfolding grounding_instruction
grounded_prompt context_text task_prompt =
    grounding_instruction
    ++ (text "Retrieved context:\n" ++ (context_text ++ (text "\n\n---\n\nTask: " ++ task_prompt)))

-- `body.provider == "ollama"`
unfoldable pub is_ollama : TaskCreate → Bool
is_ollama body = body.provider == text "ollama"

-- `body.provider not in {"ollama", "anthropic"}`
unfoldable pub is_external : TaskCreate → Bool
unfolding is_ollama
is_external body = not (is_ollama body) && not (body.provider == text "anthropic")

-- `body.knowledge_query or (body.prompt if task_type == TaskType.RETRIEVAL else None)`, and
-- `if knowledge_query`.
abbrev pub or_prompt : Text → TaskType → Option Text
or_prompt [] task_type = none
or_prompt (c ∷ prompt) retrieval = some (c ∷ prompt)
or_prompt (c ∷ prompt) _ = none

unfoldable pub knowledge_query_of : TaskCreate → TaskType → Option Text
knowledge_query_of body task_type = elim body.knowledge_query [
  | none ↦ or_prompt body.prompt task_type
  | some query ↦ elim query [ [] ↦ or_prompt body.prompt task_type | c ∷ q ↦ some (c ∷ q) ]
]

-- The result of a task for which nothing relevant was retrieved.
unfoldable pub refusal_result : TaskResult
refusal_result = record {
  output = some grounded_refusal;
  model = none;
  node = none;
  refusal = true;
}

-- `bool(provider_key(...))`, and a store that is not available.
abbrev pub has_key : Called (Option Text) → Bool
has_key (threw why) = false
has_key (got none) = false
has_key (got (some [])) = false
has_key (got (some (c ∷ key))) = true

module _ {X : Type 0} (services : Services X) (max_attempts : ℕ) (show : ℕ → Text)
    (type_name : TaskType → Text) where
  open services use {
    now, retrieve, complete_llm_task, complete_external, provider_key, route_candidates,
  }

  -- The status and the times before a call that leaves the nodes aside.
  unfoldable pub begin_call : World X → World X
  begin_call w =
      let (t, x) = now w.ext in
      commit (record w { ext = x; task = record w.task { status = running; started_at = some t } })

  -- What follows such a call.
  unfoldable pub after_call : Called Outcome → World X → End × World X
  unfolding finish
  after_call (threw why) w = (crashed, w)
  after_call (got (outcome_error why)) w = (returned, finish services failed none (some why) w)
  after_call (got (outcome result)) w =
      (returned, finish services succeeded (some result) none (audit (task_routing none) w))

  unfoldable pub no_node_error : TaskType → Text
  unfolding preferred_roles
  no_node_error task_type =
      text "No compatible online node for task type '"
      ++ (type_name task_type
          ++ (text "' (needs an online node with role in ["
              ++ (join (text ", ") (preferred_roles task_type)
                  ++ text "] and a reachable agent; check node status and role assignments)")))

  -- The text of the error of a task whose attempts all failed.
  unfoldable pub attempts_error : ℕ → Text → Text
  attempts_error candidates last_error =
      text "all "
      ++ (show (min candidates max_attempts) ++ (text " attempt(s) failed; last: " ++ last_error))

  -- The candidates, and the loop over them.
  unfoldable pub with_candidates :
      TaskCreate → TaskType → Text → Called (List Decision) → World X → End × World X
  unfolding finish attempts_from attempts_error no_node_error
  with_candidates body task_type prompt (threw why) w = (crashed, w)
  with_candidates body task_type prompt (got []) w =
      (returned, finish services failed none (some (no_node_error task_type)) w)
  with_candidates body task_type prompt (got (decision ∷ decisions)) w =
      attempts_from services (take max_attempts (decision ∷ decisions)) 1 body prompt
        (attempts_error (length (decision ∷ decisions))) (text "unknown") w

  -- `credentials_available`
  unfoldable pub read_key : TaskCreate → X → Bool × X
  read_key body x = let (key, x') = provider_key body.provider x in (has_key key, x')

  unfoldable pub credentials : TaskCreate → X → Bool × X
  unfolding is_ollama read_key
  credentials body x =
      if not (is_ollama body) && not body.requires_privacy then read_key body x else (false, x)

  unfoldable pub llm_route : TaskCreate → Text → World X → End × World X
  unfolding begin_call after_call
  llm_route body prompt w =
      let w' = begin_call w in
      let (result, x) = complete_llm_task body prompt w'.ext in
      after_call result (called (llm_layer body.requires_privacy prompt) (record w' { ext = x }))

  unfoldable pub external_route : TaskCreate → Text → World X → End × World X
  unfolding begin_call after_call
  external_route body prompt w =
      let w' = begin_call w in
      let (result, x) = complete_external body prompt w'.ext in
      after_call result (called (external body.provider prompt) (record w' { ext = x }))

  unfoldable pub node_route : TaskCreate → TaskType → Text → World X → End × World X
  unfolding with_candidates credentials
  node_route body task_type prompt w =
      let (available, x) = credentials body w.ext in
      let (decisions, x') = route_candidates task_type body available x in
      with_candidates body task_type prompt decisions (record w { ext = x' })

  -- What `_execute` does once the prompt is known.
  unfoldable pub route_task : TaskCreate → TaskType → Text → World X → End × World X
  unfolding llm_route external_route node_route is_external
  route_task body task_type prompt w =
      if uses_llm_layer body
      then llm_route body prompt w
      else if is_external body
      then external_route body prompt w
      else node_route body task_type prompt w

  -- What follows `retrieve`.
  unfoldable pub after_retrieve : TaskCreate → TaskType → Called Knowledge → World X → End × World X
  unfolding route_task finish grounded_prompt refusal_result is_ollama
  after_retrieve body task_type (threw why) w =
      if not (is_ollama body) || uses_llm_layer body
      then (
        returned,
        finish services failed none
            (some (text "Knowledge retrieval failed; external execution cancelled")) w,
      )
      else route_task body task_type body.prompt w
  after_retrieve body task_type (got knowledge) w =
      if knowledge.has_chunks
      then route_task body task_type (grounded_prompt knowledge.context_text body.prompt) w
      else (returned, finish services succeeded (some refusal_result) none w)

  unfoldable pub with_knowledge : TaskCreate → TaskType → Option Text → World X → End × World X
  unfolding after_retrieve route_task
  with_knowledge body task_type none w = route_task body task_type body.prompt w
  with_knowledge body task_type (some query) w =
      let (knowledge, x) = retrieve query body.knowledge_collection w.ext in
      after_retrieve body task_type knowledge (called (retrieved query) (record w { ext = x }))

  unfoldable pub execute : TaskCreate → TaskType → World X → End × World X
  unfolding with_knowledge knowledge_query_of finish is_ollama
  execute body task_type w =
      if not (is_ollama body) && body.requires_privacy
      then (
        returned,
        finish services failed none
            (some (text "Privacy requires local execution; external providers are denied")) w,
      )
      else with_knowledge body task_type (knowledge_query_of body task_type) w

  -- `_executing`
  unfoldable pub executing : (World X → End × World X) → World X → End × World X
  executing run w =
      let (end, w') = run (record w { live = add_to w.task.id w.live }) in
      (end, record w' { live = discard w.task.id w'.live })

  abbrev pub new_task : ℕ → TaskType → ℕ → Task
  new_task id task_type t = record {
    id = id;
    task_type = task_type;
    status = queued;
    result = none;
    error = none;
    node_id = none;
    queued_at = t;
    assigned_at = none;
    started_at = none;
    finished_at = none;
    heartbeat_at = some t;
  }

  -- `submit_task`, with the identifier of the new row; `w` holds no row of executions yet.
  unfoldable pub submit_task : (Text → Text) → TaskCreate → ℕ → World X → End × World X
  unfolding classify execute executing
  submit_task lower body id w =
      let task_type = classify lower body.prompt body.task_type in
      let (t, x) = now w.ext in
      let w' = record w { ext = x; task = new_task id task_type t; executions = [] } in
      executing (execute body task_type) (commit (audit task_submit (publish task_started w')))
