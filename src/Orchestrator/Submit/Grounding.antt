-- ===== src/Orchestrator/Submit/Grounding.antt =====
-- What the retrieved knowledge decides.
use lycosa.Prelude.{
  ℕ, true, false, not, ◌&&◌, some, Text, All, nat_comparable, text_comparable, ◌≡◌, refl,
}
use lycosa.Orchestrator.Classifier.{TaskType}
use lycosa.Orchestrator.State.{
  TaskCreate, got, Knowledge, Effect, retrieved, llm_layer, external, cloud, agent, World, Services,
  called,
}
use lycosa.Orchestrator.Submit.{
  is_ollama, after_retrieve, with_knowledge, knowledge_query_of, execute, grounded_prompt,
}
use lycosa.Orchestrator.Submit.Calls.{Covers, called-All, route_task-All}

-- A call that hands on this prompt, or retrieves.
unfoldable pub Carries : Text → Effect → Type 0
Carries prompt (retrieved query) = Unit
Carries prompt (llm_layer private p) = p ≡ prompt
Carries prompt (external provider p) = p ≡ prompt
Carries prompt (cloud id p) = p ≡ prompt
Carries prompt (agent id model p) = p ≡ prompt

Carries-Covers : (body : TaskCreate) (prompt : Text) → Covers (Carries prompt) body prompt
unfolding Carries
Carries-Covers body prompt = record {
  at_agent = λ id model. refl;
  at_cloud = λ id far. refl;
  at_layer = refl;
  at_external = λ far. refl;
}

module _ {X : Type 0} (services : Services X) (max_attempts : ℕ) (show : ℕ → Text)
    (type_name : TaskType → Text) where
  open services use {retrieve}

  -- Where the knowledge base returns chunks, every later call of the task hands on the grounded
  -- prompt, never the prompt of the request alone.
  pub execute-Carries :
      (body : TaskCreate) (task_type : TaskType) (query : Text) (knowledge : Knowledge)
      (w : World X)
      → (not (is_ollama body) && body.requires_privacy) ≡ false
      → knowledge_query_of body task_type ≡ some query
      → (retrieve query body.knowledge_collection w.ext).0 ≡ got knowledge
      → knowledge.has_chunks ≡ true
      → All (Carries (grounded_prompt knowledge.context_text body.prompt)) w.calls
      → All
          (Carries (grounded_prompt knowledge.context_text body.prompt))
          (execute services max_attempts show type_name body task_type w).1.calls
  unfolding execute with_knowledge after_retrieve Carries
  execute-Carries body task_type query knowledge w allowed asked found some_found before =
      let prompt = grounded_prompt knowledge.context_text body.prompt in
      let w' =
        called (retrieved query)
          (record w { ext = (retrieve query body.knowledge_collection w.ext).1 }) in
      simp (execute, allowed, asked, with_knowledge, found, after_retrieve, some_found)
        (route_task-All services max_attempts show type_name (Carries prompt) body prompt
          (Carries-Covers body prompt) task_type w'
          (called-All services (Carries prompt) (retrieved query) w tt before))
