-- ===== src/Orchestrator/Submit/Settled.antt =====
-- How `submit_task` leaves a task.
use lycosa.Prelude.{
  ℕ, ◌+◌, not, ◌&&◌, ◌||◌, Option, none, some, List, [], ◌∷◌, Text, text, length, take, All,
  Bool-cases, nat_comparable, text_comparable, ◌≡◌, refl, sym, subst, ◌≢◌, inl, inr, arith,
}
use lycosa.Orchestrator.Classifier.{TaskType, classify}
use lycosa.Orchestrator.State.{
  TaskStatus, succeeded, failed, TaskCreate, TaskResult, Execution, Task, Decision, Called, got,
  threw, Knowledge, Outcome, outcome_error, outcome, Dispatched, replied, http_error, broke, World,
  Services, End, returned, crashed, uses_llm_layer, commit, audit, publish, task_routing,
  task_started, task_submit,
}
use lycosa.Orchestrator.Dispatch.{
  new_execution, finish, after_dispatch, with_model, attempt_node, attempts_from,
}
use lycosa.Orchestrator.Dispatch.Attempts.{IsDone, Writes, Attempted-IsDone, attempts_from-Writes}
use lycosa.Orchestrator.Submit.{
  after_call, with_candidates, llm_route, external_route, node_route, is_external, is_ollama,
  route_task, after_retrieve, with_knowledge, knowledge_query_of, execute, executing, submit_task,
  new_task, attempts_error,
}
use lycosa.Prelude.Sets.{add_to, discard}

-- What the status of a task says of it.
unfoldable pub Finished : Task → TaskStatus → Type 0
Finished task succeeded = (task.result ≢ none) × (task.error ≡ none)
Finished task failed = (task.result ≡ none) × (task.error ≢ none)
Finished task _ = ⊥

-- What holds of an execution that returns: the task is committed as it is, it has finished, and no
-- row of an attempt is left running.
unfoldable pub IsSettled : {X : Type 0} → End × World X → Type 0
unfolding Finished
IsSettled (returned, w) =
    (w.stored ≡ w.task)
    × (w.task.finished_at ≢ none)
    × Finished w.task w.task.status
    × All IsDone w.executions
IsSettled (crashed, w) = Unit

module _ {X : Type 0} (services : Services X) where
  failed-IsSettled :
      (why : Text) (w : World X)
      → All IsDone w.executions
      → IsSettled (returned, finish services failed none (some why) w)
  unfolding finish IsSettled
  failed-IsSettled why w finished =
      (refl, (λ e. ground arith), (refl, (λ e. ground arith)), finished)

  succeeded-IsSettled :
      (result : TaskResult) (w : World X)
      → All IsDone w.executions
      → IsSettled (returned, finish services succeeded (some result) none w)
  unfolding finish IsSettled
  succeeded-IsSettled result w finished =
      (refl, (λ e. ground arith), ((λ e. ground arith), refl), finished)

  -- The part of the statement that does not read the rows.
  unfoldable IsOver : End × World X → Type 0
  unfolding Finished
  IsOver (returned, w) =
      (w.stored ≡ w.task) × (w.task.finished_at ≢ none) × Finished w.task w.task.status
  IsOver (crashed, w) = Unit

  after_dispatch-IsOver :
      (base : List Execution) (row : Execution) (decision : Decision) (model : Text)
      (answer : Dispatched) (again : Text → World X → End × World X) (w : World X)
      → ((e : Text) (w' : World X) → IsOver (again e w'))
      → IsOver (after_dispatch services base row decision model answer again w)
  unfolding after_dispatch IsOver finish
  after_dispatch-IsOver base row decision model (http_error why) again w next = next _ _
  after_dispatch-IsOver base row decision model broke again w next = tt
  after_dispatch-IsOver base row decision model (replied reply) again w next =
      elim (Bool-cases reply.success) [
        | inl good ↦ rw good (refl, (λ e. ground arith), ((λ e. ground arith), refl))
        | inr bad ↦ rw bad (next _ _)
      ]

  with_model-IsOver :
      (base : List Execution) (row : Execution) (decision : Decision) (body : TaskCreate)
      (prompt : Text) (model : Option Text) (again : Text → World X → End × World X) (w : World X)
      → ((e : Text) (w' : World X) → IsOver (again e w'))
      → IsOver (with_model services base row decision body prompt model again w)
  unfolding with_model
  with_model-IsOver base row decision body prompt none again w next = next _ _
  with_model-IsOver base row decision body prompt (some model) again w next =
      after_dispatch-IsOver base row decision model _ again _ next

  attempts_from-IsOver :
      (decisions : List Decision) (n : ℕ) (body : TaskCreate) (prompt : Text) (error : Text → Text)
      (last : Text) (w : World X)
      → IsOver (attempts_from services decisions n body prompt error last w)
  unfolding attempts_from attempt_node IsOver finish
  attempts_from-IsOver [] n body prompt error last w =
      (refl, (λ e. ground arith), (refl, (λ e. ground arith)))
  attempts_from-IsOver (decision ∷ decisions) n body prompt error last w =
      with_model-IsOver w.executions (new_execution decision.node n) decision body prompt _ _ _
        (λ e w'. attempts_from-IsOver decisions (n + 1) body prompt error e w')

  -- With the rows of the loop the statement is whole.
  over-IsSettled :
      (decisions : List Decision) (n : ℕ) (result : End × World X)
      → IsOver result
      → Writes decisions n [] result
      → IsSettled result
  unfolding IsOver IsSettled
  over-IsSettled decisions n (crashed, w) over writes = tt
  over-IsSettled decisions n (returned, w) (same, ended, fits) writes = (
    same,
    ended,
    fits,
    subst (All IsDone) (sym writes.written) (Attempted-IsDone writes.attempted),
  )

  loop-IsSettled :
      (decisions : List Decision) (n : ℕ) (body : TaskCreate) (prompt : Text) (error : Text → Text)
      (last : Text) (w : World X)
      → w.executions ≡ []
      → IsSettled (attempts_from services decisions n body prompt error last w)
  loop-IsSettled decisions n body prompt error last w fresh =
      let result = attempts_from services decisions n body prompt error last w in
      over-IsSettled decisions n result (attempts_from-IsOver decisions n body prompt error last w)
        (subst (λ base. Writes {X = X} decisions n base result) fresh
          (attempts_from-Writes services decisions n body prompt error last w))

none_yet : {X : Type 0} (w : World X) → w.executions ≡ [] → All IsDone w.executions
none_yet w none_left = subst (All IsDone) (sym none_left) tt

module _ {X : Type 0} (services : Services X) (max_attempts : ℕ) (show : ℕ → Text)
    (type_name : TaskType → Text) where
  after_call-IsSettled :
      (result : Called Outcome) (w : World X)
      → w.executions ≡ []
      → IsSettled (after_call services max_attempts show type_name result w)
  unfolding after_call IsSettled
  after_call-IsSettled (threw why) w fresh = tt
  after_call-IsSettled (got (outcome_error why)) w fresh =
      failed-IsSettled services why w (none_yet w fresh)
  after_call-IsSettled (got (outcome result)) w fresh =
      succeeded-IsSettled services result (audit (task_routing none) w) (none_yet w fresh)

  with_candidates-IsSettled :
      (body : TaskCreate) (task_type : TaskType) (prompt : Text)
      (decisions : Called (List Decision)) (w : World X)
      → w.executions ≡ []
      → IsSettled
          (with_candidates services max_attempts show type_name body task_type prompt decisions w)
  unfolding with_candidates IsSettled
  with_candidates-IsSettled body task_type prompt (threw why) w fresh = tt
  with_candidates-IsSettled body task_type prompt (got []) w fresh =
      failed-IsSettled services _ w (none_yet w fresh)
  with_candidates-IsSettled body task_type prompt (got (decision ∷ decisions)) w fresh =
      loop-IsSettled services (take max_attempts (decision ∷ decisions)) 1 body prompt
        (attempts_error services max_attempts show type_name (length (decision ∷ decisions)))
        (text "unknown") w fresh

  route_task-IsSettled :
      (body : TaskCreate) (task_type : TaskType) (prompt : Text) (w : World X)
      → w.executions ≡ []
      → IsSettled (route_task services max_attempts show type_name body task_type prompt w)
  unfolding route_task llm_route external_route node_route
  route_task-IsSettled body task_type prompt w fresh = elim (Bool-cases (uses_llm_layer body)) [
    | inl layer ↦ rw layer (after_call-IsSettled _ _ fresh)
    | inr legacy ↦ elim (Bool-cases (is_external body)) [
      | inl far ↦ rw (legacy, far) (after_call-IsSettled _ _ fresh)
      | inr near ↦ rw (legacy, near) (with_candidates-IsSettled body task_type prompt _ _ fresh)
    ]
  ]

  after_retrieve-IsSettled :
      (body : TaskCreate) (task_type : TaskType) (knowledge : Called Knowledge) (w : World X)
      → w.executions ≡ []
      → IsSettled (after_retrieve services max_attempts show type_name body task_type knowledge w)
  unfolding after_retrieve
  after_retrieve-IsSettled body task_type (threw why) w fresh =
      elim (Bool-cases (not (is_ollama body) || uses_llm_layer body)) [
        | inl stop ↦ rw stop (failed-IsSettled services _ w (none_yet w fresh))
        | inr go ↦ rw go (route_task-IsSettled body task_type _ w fresh)
      ]
  after_retrieve-IsSettled body task_type (got knowledge) w fresh =
      elim (Bool-cases knowledge.has_chunks) [
        | inl some_found ↦ rw some_found (route_task-IsSettled body task_type _ w fresh)
        | inr none_found ↦ rw none_found (succeeded-IsSettled services _ w (none_yet w fresh))
      ]

  with_knowledge-IsSettled :
      (body : TaskCreate) (task_type : TaskType) (query : Option Text) (w : World X)
      → w.executions ≡ []
      → IsSettled (with_knowledge services max_attempts show type_name body task_type query w)
  unfolding with_knowledge
  with_knowledge-IsSettled body task_type none w fresh =
      route_task-IsSettled body task_type body.prompt w fresh
  with_knowledge-IsSettled body task_type (some query) w fresh =
      after_retrieve-IsSettled body task_type _ _ fresh

  execute-IsSettled :
      (body : TaskCreate) (task_type : TaskType) (w : World X)
      → w.executions ≡ []
      → IsSettled (execute services max_attempts show type_name body task_type w)
  unfolding execute
  execute-IsSettled body task_type w fresh =
      elim (Bool-cases (not (is_ollama body) && body.requires_privacy)) [
        | inl denied ↦ rw denied (failed-IsSettled services _ w (none_yet w fresh))
        | inr allowed ↦
            rw allowed
              (with_knowledge-IsSettled body task_type (knowledge_query_of body task_type) w fresh)
      ]

  leave-IsSettled :
      (live : List ℕ) (result : End × World X)
      → IsSettled result
      → IsSettled (result.0, record result.1 { live = live })
  unfolding IsSettled
  leave-IsSettled live (returned, w) settled = settled
  leave-IsSettled live (crashed, w) settled = settled

  executing-IsSettled :
      (run : World X → End × World X) (w : World X)
      → ((w' : World X) → w'.executions ≡ w.executions → IsSettled (run w'))
      → IsSettled (executing services max_attempts show type_name run w)
  unfolding executing
  executing-IsSettled run w settles =
      let w' = record w { live = add_to w.task.id w.live } in
      leave-IsSettled (discard w.task.id (run w').1.live) (run w') (settles w' refl)

  -- A call of `submit_task` that returns leaves the task as it was last committed, and finished:
  -- it has succeeded with a result and without an error, or failed with an error and without a
  -- result, and no row of an attempt is left running.
  pub submit_task-IsSettled :
      (lower : Text → Text) (body : TaskCreate) (id : ℕ) (w : World X)
      → IsSettled (submit_task services max_attempts show type_name lower body id w)
  unfolding submit_task
  submit_task-IsSettled lower body id w =
      let task_type = classify lower body.prompt body.task_type in
      let (t, x) = services.now w.ext in
      let fresh = record w {
        ext = x;
        task = new_task services max_attempts show type_name id task_type t;
        executions = [];
      } in
      executing-IsSettled (execute services max_attempts show type_name body task_type)
        (commit (audit task_submit (publish task_started fresh)))
        (λ w' kept. execute-IsSettled body task_type w' kept)
