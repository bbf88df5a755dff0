-- ===== src/Orchestrator/Submit/Calls.antt =====
-- The calls of a route, once its prompt is known.
use lycosa.Prelude.{
  ℕ, ◌+◌, true, false, Option, none, some, List, [], ◌∷◌, Text, text, length, take, All, All-append,
  Bool-cases, ◌==◌, nat_comparable, text_comparable, ◌≡◌, inl, inr,
}
use lycosa.Orchestrator.Classifier.{TaskType}
use lycosa.Orchestrator.State.{
  TaskCreate, Execution, Decision, Called, got, threw, Outcome, outcome_error, outcome, Dispatched,
  replied, http_error, broke, Effect, llm_layer, external, cloud, agent, World, Services, End,
  uses_llm_layer, called,
}
use lycosa.Orchestrator.Dispatch.{
  finish, finish_execution, dispatch_cloud, call_agent, call_cloud, dispatch, after_dispatch,
  with_model, begin_attempt, attempt_node, attempts_from, select_model, new_execution,
}
use lycosa.Orchestrator.Submit.{
  begin_call, after_call, with_candidates, llm_route, external_route, node_route, is_external,
  is_ollama, route_task, attempts_error,
}

-- What a predicate on calls needs to say of those with the prompt of a request.
pub record Covers (P : Effect → Type 0) (body : TaskCreate) (prompt : Text) : Type 0 where
  pub at_agent : (id : ℕ) (model : Text) → P (agent id model prompt)
  pub at_cloud : (id : ℕ) → is_ollama body ≡ false → P (cloud id prompt)
  pub at_layer : P (llm_layer body.requires_privacy prompt)
  pub at_external : is_external body ≡ true → P (external body.provider prompt)

module _ {X : Type 0} (services : Services X) (P : Effect → Type 0) where
  -- A property of every call so far.
  abbrev pub Throughout : End × World X → Type 0
  Throughout result = All P result.1.calls

  pub called-All :
      (effect : Effect) (w : World X) → P effect → All P w.calls → All P (called effect w).calls
  called-All effect w here before = All-append P w.calls (effect ∷ []) before (here, tt)

  after_dispatch-All :
      (base : List Execution) (row : Execution) (decision : Decision) (model : Text)
      (answer : Dispatched) (again : Text → World X → End × World X) (w : World X)
      → ((e : Text) (w' : World X) → All P w'.calls → Throughout (again e w'))
      → All P w.calls
      → Throughout (after_dispatch services base row decision model answer again w)
  unfolding after_dispatch finish finish_execution
  after_dispatch-All base row decision model (http_error why) again w next before = next _ _ before
  after_dispatch-All base row decision model broke again w next before = before
  after_dispatch-All base row decision model (replied reply) again w next before =
      elim (Bool-cases reply.success) [
        | inl good ↦ rw good before
        | inr bad ↦ rw bad (next _ _ before)
      ]

  module _ (body : TaskCreate) (prompt : Text) (covers : Covers P body prompt) where
    dispatch_cloud-All :
        (decision : Decision) (key : Called (Option Text)) (w : World X)
        → is_ollama body ≡ false
        → All P w.calls
        → All P (dispatch_cloud services decision.node body prompt key w).1.calls
    unfolding dispatch_cloud
    dispatch_cloud-All decision (threw why) w far before = before
    dispatch_cloud-All decision (got none) w far before = before
    dispatch_cloud-All decision (got (some [])) w far before = before
    dispatch_cloud-All decision (got (some (c ∷ key))) w far before =
        called-All (cloud decision.node.id prompt) w (covers.at_cloud decision.node.id far) before

    dispatch-All :
        (decision : Decision) (model : Text) (w : World X)
        → All P w.calls
        → All P (dispatch services decision body model prompt w).1.calls
    unfolding dispatch call_agent call_cloud is_ollama
    dispatch-All decision model w before = elim (Bool-cases (body.provider == text "ollama")) [
      | inl local ↦ rw local (
          called-All (agent decision.node.id model prompt) w
            (covers.at_agent decision.node.id model) before)
      | inr far ↦
          let (key, x) = services.provider_key body.provider w.ext in
          rw far (dispatch_cloud-All decision key (record w { ext = x }) far before)
    ]

    with_model-All :
        (base : List Execution) (row : Execution) (decision : Decision) (model : Option Text)
        (again : Text → World X → End × World X) (w : World X)
        → ((e : Text) (w' : World X) → All P w'.calls → Throughout (again e w'))
        → All P w.calls
        → Throughout (with_model services base row decision body prompt model again w)
    unfolding with_model finish_execution
    with_model-All base row decision none again w next before = next _ _ before
    with_model-All base row decision (some model) again w next before =
        let (answer, w') = dispatch services decision body model prompt w in
        after_dispatch-All base row decision model answer again w' next
          (dispatch-All decision model w before)

    attempts_from-All :
        (decisions : List Decision) (n : ℕ) (error : Text → Text) (last : Text) (w : World X)
        → All P w.calls
        → Throughout (attempts_from services decisions n body prompt error last w)
    unfolding attempts_from attempt_node begin_attempt finish
    attempts_from-All [] n error last w before = before
    attempts_from-All (decision ∷ decisions) n error last w before =
        with_model-All w.executions (new_execution decision.node n) decision
          (select_model decision.node body.model) _ _
          (λ e w'. attempts_from-All decisions (n + 1) error e w') before

module _ {X : Type 0} (services : Services X) (max_attempts : ℕ) (show : ℕ → Text)
    (type_name : TaskType → Text) (P : Effect → Type 0) where
  after_call-All :
      (result : Called Outcome) (w : World X)
      → All P w.calls
      → All P (after_call services max_attempts show type_name result w).1.calls
  unfolding after_call finish
  after_call-All (threw why) w before = before
  after_call-All (got (outcome_error why)) w before = before
  after_call-All (got (outcome result)) w before = before

  module _ (body : TaskCreate) (prompt : Text) (covers : Covers P body prompt) where
    with_candidates-All :
        (task_type : TaskType) (decisions : Called (List Decision)) (w : World X)
        → All P w.calls
        → All P
            (with_candidates services max_attempts show type_name body task_type prompt decisions
              w).1.calls
    unfolding with_candidates finish
    with_candidates-All task_type (threw why) w before = before
    with_candidates-All task_type (got []) w before = before
    with_candidates-All task_type (got (decision ∷ decisions)) w before =
        attempts_from-All services P body prompt covers (take max_attempts (decision ∷ decisions)) 1
          (attempts_error services max_attempts show type_name (length (decision ∷ decisions)))
          (text "unknown") w before

    -- Whatever route a request takes, a predicate on calls that covers those with its prompt holds
    -- of all that are made.
    pub route_task-All :
        (task_type : TaskType) (w : World X)
        → All P w.calls
        → All P (route_task services max_attempts show type_name body task_type prompt w).1.calls
    unfolding route_task llm_route external_route node_route begin_call
    route_task-All task_type w before = elim (Bool-cases (uses_llm_layer body)) [
      | inl layer ↦ rw layer (
          after_call-All _ _ (
            called-All services P (llm_layer body.requires_privacy prompt) w covers.at_layer
              before))
      | inr legacy ↦ elim (Bool-cases (is_external body)) [
        | inl far ↦
            rw (legacy, far)
              (after_call-All _ _ (
                called-All services P (external body.provider prompt) w (covers.at_external far)
                  before))
        | inr near ↦ rw (legacy, near) (with_candidates-All task_type _ _ before)
      ]
    ]
