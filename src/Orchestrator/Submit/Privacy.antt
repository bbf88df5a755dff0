-- ===== src/Orchestrator/Submit/Privacy.antt =====
-- The calls of a request that requires privacy.
use lycosa.Prelude.{
  ℕ, true, not, ◌||◌, Option, none, some, Text, All, Bool-cases, nat_comparable, text_comparable,
  ◌≡◌, inl, inr, arith,
}
use lycosa.Orchestrator.Classifier.{TaskType, classify}
use lycosa.Orchestrator.State.{
  TaskCreate, Called, got, threw, Knowledge, Effect, retrieved, llm_layer, external, cloud, World,
  Services, uses_llm_layer,
}
use lycosa.Orchestrator.Dispatch.{finish}
use lycosa.Orchestrator.Submit.{
  is_external, is_ollama, after_retrieve, with_knowledge, knowledge_query_of, execute, executing,
  submit_task, grounded_prompt,
}
use lycosa.Orchestrator.Submit.Calls.{Covers, called-All, route_task-All}

-- A call that does not hand the prompt to a provider of the cloud: one that retrieves, one to an
-- agent for a model of its own, or one to the layer of language models that is told that the request
-- requires privacy.
unfoldable pub IsOnSite : Effect → Type 0
IsOnSite (external provider prompt) = ⊥
IsOnSite (cloud id prompt) = ⊥
IsOnSite (llm_layer private prompt) = private ≡ true
IsOnSite _ = Unit

IsOnSite-Covers :
    (body : TaskCreate) (prompt : Text)
    → is_ollama body ≡ true
    → body.requires_privacy ≡ true
    → Covers IsOnSite body prompt
unfolding IsOnSite is_external
IsOnSite-Covers body prompt local private = record {
  at_agent = λ id model. tt;
  at_cloud = λ id far. ground (arith, far, local);
  at_layer = private;
  at_external = λ far. ground (arith, far, local);
}

module _ {X : Type 0} (services : Services X) (max_attempts : ℕ) (show : ℕ → Text)
    (type_name : TaskType → Text) where
  module _ (body : TaskCreate) (local : is_ollama body ≡ true)
      (private : body.requires_privacy ≡ true) where
    after_retrieve-IsOnSite :
        (task_type : TaskType) (knowledge : Called Knowledge) (w : World X)
        → All IsOnSite w.calls
        → All IsOnSite
            (after_retrieve services max_attempts show type_name body task_type knowledge w).1.calls
    unfolding after_retrieve finish
    after_retrieve-IsOnSite task_type (threw why) w before =
        elim (Bool-cases (not (is_ollama body) || uses_llm_layer body)) [
          | inl stop ↦ rw stop before
          | inr go ↦ rw go (
              route_task-All services max_attempts show type_name IsOnSite body body.prompt
                (IsOnSite-Covers body body.prompt local private) task_type w before)
        ]
    after_retrieve-IsOnSite task_type (got knowledge) w before =
        elim (Bool-cases knowledge.has_chunks) [
          | inl some_found ↦
              let prompt = grounded_prompt knowledge.context_text body.prompt in
              rw some_found (
                route_task-All services max_attempts show type_name IsOnSite body prompt
                  (IsOnSite-Covers body prompt local private) task_type w before)
          | inr none_found ↦ rw none_found before
        ]

    with_knowledge-IsOnSite :
        (task_type : TaskType) (query : Option Text) (w : World X)
        → All IsOnSite w.calls
        → All IsOnSite
            (with_knowledge services max_attempts show type_name body task_type query w).1.calls
    unfolding with_knowledge IsOnSite
    with_knowledge-IsOnSite task_type none w before =
        route_task-All services max_attempts show type_name IsOnSite body body.prompt
          (IsOnSite-Covers body body.prompt local private) task_type w before
    with_knowledge-IsOnSite task_type (some query) w before =
        after_retrieve-IsOnSite task_type _ _
          (called-All services IsOnSite (retrieved query) w tt before)

  execute-IsOnSite :
      (body : TaskCreate) (task_type : TaskType) (w : World X)
      → body.requires_privacy ≡ true
      → All IsOnSite w.calls
      → All IsOnSite (execute services max_attempts show type_name body task_type w).1.calls
  unfolding execute finish
  execute-IsOnSite body task_type w private before = elim (Bool-cases (is_ollama body)) [
    | inl local ↦
        simp (local, private)
          (with_knowledge-IsOnSite body local private task_type (knowledge_query_of body task_type)
            w before)
    | inr far ↦ simp (far, private) before
  ]

  -- A request that requires privacy leaves `submit_task` only for the retrieval, for the model of an
  -- agent, and for the layer of language models, which is told that it requires privacy: neither the
  -- controller's call of an external provider nor an agent's call of one in the cloud is made,
  -- whatever is retrieved, whatever the nodes answer and however often it is tried again.
  pub submit_task-IsOnSite :
      (lower : Text → Text) (body : TaskCreate) (id : ℕ) (w : World X)
      → body.requires_privacy ≡ true
      → All IsOnSite w.calls
      → All IsOnSite (submit_task services max_attempts show type_name lower body id w).1.calls
  unfolding submit_task executing
  submit_task-IsOnSite lower body id w private before =
      execute-IsOnSite body (classify lower body.prompt body.task_type) _ private before
