-- ===== src/Orchestrator/Dispatch/Attempts.antt =====
-- The rows that the loop over the candidates writes.
use lycosa.Prelude.{
  ℕ, ◌+◌, ◌≤◌, true, Option, none, some, List, [], ◌∷◌, ◌++◌, append-nil, append_assoc, Text, text,
  length, All, Bool-cases, ◌==◌, nat_comparable, text_comparable, ◌≡◌, refl, sym, ◌∙◌, ◌≢◌, inl,
  inr, arith,
}
use lycosa.Orchestrator.State.{
  TaskStatus, succeeded, failed, execution_running, execution_succeeded, execution_failed,
  TaskCreate, Execution, Decision, Called, got, threw, Reply, Dispatched, replied, http_error,
  broke, World, Services, End, returned, crashed, commit,
}
use lycosa.Orchestrator.Dispatch.{
  error_of, failure_text, node_text, new_execution, finish, finish_execution, select_model,
  dispatch_cloud, dispatch, after_dispatch, with_model, begin_attempt, attempt_node, attempts_from,
}

-- The rows of a loop over decisions, its attempts numbered from `n`, with the end of the loop and
-- the status in which it leaves the task: failed rows, then one that succeeded, or is left running.
pub data Attempted : List Decision → ℕ → List Execution → End → TaskStatus → Type 0 where
  used_up : {n : ℕ} → Attempted [] n [] returned failed
  succeeds :
      {decision : Decision} {rest : List Decision} {n : ℕ} (row : Execution)
      → row.node_id ≡ decision.node.id
      → row.attempt ≡ n
      → row.status ≡ execution_succeeded
      → Attempted (decision ∷ rest) n (row ∷ []) returned succeeded
  breaks :
      {decision : Decision} {rest : List Decision} {n : ℕ} {status : TaskStatus} (row : Execution)
      → row.node_id ≡ decision.node.id
      → row.attempt ≡ n
      → row.status ≡ execution_running
      → Attempted (decision ∷ rest) n (row ∷ []) crashed status
  fails :
      {decision : Decision} {rest : List Decision} {n : ℕ} {rows : List Execution} {end : End}
      {status : TaskStatus} (row : Execution)
      → row.node_id ≡ decision.node.id
      → row.attempt ≡ n
      → row.status ≡ execution_failed
      → Attempted rest (n + 1) rows end status
      → Attempted (decision ∷ rest) n (row ∷ rows) end status

-- The rows after the loop are `base` and those of its attempts.
pub record Writes {X : Type 0} (decisions : List Decision) (n : ℕ) (base : List Execution)
    (result : End × World X) : Type 0 where
  pub rows : List Execution
  pub written : result.1.executions ≡ base ++ rows
  pub attempted : Attempted decisions n rows result.0 result.1.task.status

-- No more rows than decisions.
pub length-Attempted-le :
    {decisions : List Decision} {n : ℕ} {rows : List Execution} {end : End} {status : TaskStatus}
    → Attempted decisions n rows end status
    → length rows ≤ length decisions
length-Attempted-le used_up = omega arith
length-Attempted-le (succeeds row a b c) = omega arith
length-Attempted-le (breaks row a b c) = omega arith
length-Attempted-le (fails row a b c rest) = omega (arith, length-Attempted-le rest)

-- A row that is over.
abbrev pub IsDone : Execution → Type 0
IsDone row = row.status ≢ execution_running

-- Once the loop returns, no row is left running.
pub Attempted-IsDone :
    {decisions : List Decision} {n : ℕ} {rows : List Execution} {status : TaskStatus}
    → Attempted decisions n rows returned status
    → All IsDone rows
Attempted-IsDone used_up = tt
Attempted-IsDone (succeeds row a b c) = ((λ e. cc), tt)
Attempted-IsDone (fails row a b c rest) = ((λ e. cc), Attempted-IsDone rest)

module _ {X : Type 0} (services : Services X) where
  -- What is known of the rest of the loop after the attempt `n`.
  abbrev Continues : List Decision → ℕ → (Text → World X → End × World X) → Type 0
  Continues rest n again = (e : Text) (w : World X) → Writes rest (n + 1) w.executions (again e w)

  after_failure-Writes :
      (decision : Decision) (rest : List Decision) (n : ℕ) (base : List Execution) (row : Execution)
      (output error : Option Text) (why : Text) (again : Text → World X → End × World X)
      (w : World X)
      → row.node_id ≡ decision.node.id
      → row.attempt ≡ n
      → Continues rest n again
      → Writes
          (decision ∷ rest)
          n
          base
          (again why (finish_execution services base row execution_failed output error w))
  unfolding finish_execution
  after_failure-Writes decision rest n base row output error why again w here numbered next =
      let (t, x) = services.now w.ext in
      let row' : Execution = record row {
        status = execution_failed;
        output = output;
        error = error;
        finished_at = some t;
      } in
      let later = next why (commit (record w { ext = x; executions = base ++ row' ∷ [] })) in
      record {
        rows = row' ∷ later.rows;
        written = later.written ∙ append_assoc base (row' ∷ []) later.rows;
        attempted = fails row' here numbered refl later.attempted;
      }

  after_success-Writes :
      (decision : Decision) (rest : List Decision) (n : ℕ) (base : List Execution) (row : Execution)
      (model : Text) (reply : Reply) (again : Text → World X → End × World X) (w : World X)
      → reply.success ≡ true
      → row.node_id ≡ decision.node.id
      → row.attempt ≡ n
      → Writes
          (decision ∷ rest)
          n
          base
          (after_dispatch services base row decision model (replied reply) again w)
  unfolding after_dispatch finish finish_execution
  after_success-Writes decision rest n base row model reply again w good here numbered =
      rw good (record { rows = _ ∷ []; written = refl; attempted = succeeds _ here numbered refl })

  after_dispatch-Writes :
      (decision : Decision) (rest : List Decision) (n : ℕ) (base : List Execution) (row : Execution)
      (model : Text) (answer : Dispatched) (again : Text → World X → End × World X) (w : World X)
      → row.node_id ≡ decision.node.id
      → row.attempt ≡ n
      → row.status ≡ execution_running
      → w.executions ≡ base ++ row ∷ []
      → Continues rest n again
      → Writes
          (decision ∷ rest)
          n
          base
          (after_dispatch services base row decision model answer again w)
  unfolding after_dispatch
  after_dispatch-Writes decision rest n base row model (http_error why) again w here numbered new
        written next =
      after_failure-Writes decision rest n base row none (some why) (node_text decision.node why)
        again w here numbered next
  after_dispatch-Writes decision rest n base row model broke again w here numbered new written
        next =
      record { rows = row ∷ []; written = written; attempted = breaks row here numbered new }
  after_dispatch-Writes decision rest n base row model (replied reply) again w here numbered new
        written next =
      elim (Bool-cases reply.success) [
        | inl good ↦
            after_success-Writes decision rest n base row model reply again w good here numbered
        | inr bad ↦
            simp (after_dispatch, bad)
              (after_failure-Writes decision rest n base row none (error_of reply)
                (node_text decision.node (failure_text reply)) again w here numbered next)
      ]

  dispatch_cloud-executions :
      (decision : Decision) (body : TaskCreate) (prompt : Text) (key : Called (Option Text))
      (w : World X)
      → (dispatch_cloud services decision.node body prompt key w).1.executions ≡ w.executions
  unfolding dispatch_cloud
  dispatch_cloud-executions decision body prompt (threw why) w = refl
  dispatch_cloud-executions decision body prompt (got none) w = refl
  dispatch_cloud-executions decision body prompt (got (some [])) w = refl
  dispatch_cloud-executions decision body prompt (got (some (c ∷ key))) w = refl

  dispatch-executions :
      (decision : Decision) (body : TaskCreate) (model prompt : Text) (w : World X)
      → (dispatch services decision body model prompt w).1.executions ≡ w.executions
  unfolding dispatch
  dispatch-executions decision body model prompt w =
      elim (Bool-cases (body.provider == text "ollama")) [
        | inl local ↦ rw local refl
        | inr far ↦ rw far (dispatch_cloud-executions decision body prompt _ _)
      ]

  with_model-Writes :
      (decision : Decision) (rest : List Decision) (n : ℕ) (base : List Execution)
      (body : TaskCreate) (prompt : Text) (model : Option Text)
      (again : Text → World X → End × World X) (w : World X)
      → w.executions ≡ base ++ new_execution decision.node n ∷ []
      → Continues rest n again
      → Writes (decision ∷ rest) n base (
          with_model services base
            (new_execution decision.node n)
            decision
            body
            prompt
            model
            again
            w)
  unfolding with_model
  with_model-Writes decision rest n base body prompt none again w written next =
      after_failure-Writes decision rest n base (new_execution decision.node n) none
        (some (text "node advertises no models"))
        (node_text decision.node (text "no models available")) again w refl refl next
  with_model-Writes decision rest n base body prompt (some model) again w written next =
      let (answer, w') = dispatch services decision body model prompt w in
      after_dispatch-Writes decision rest n base (new_execution decision.node n) model answer again
        w' refl refl refl (dispatch-executions decision body model prompt w ∙ written) next

  -- The loop over the candidates writes one row for each attempt, at the candidates in their order
  -- and numbered from `n`. Each row but the last has failed. If the loop returns, either the last
  -- row has succeeded and so has the task, or every candidate was tried and the task has failed; if
  -- an exception passes through, the last row is left running.
  pub attempts_from-Writes :
      (decisions : List Decision) (n : ℕ) (body : TaskCreate) (prompt : Text) (error : Text → Text)
      (last : Text) (w : World X)
      → Writes decisions n w.executions
          (attempts_from services decisions n body prompt error last w)
  unfolding attempts_from finish attempt_node begin_attempt
  attempts_from-Writes [] n body prompt error last w = record {
    rows = [];
    written = sym (append-nil w.executions);
    attempted = used_up;
  }
  attempts_from-Writes (decision ∷ decisions) n body prompt error last w =
      with_model-Writes decision decisions n w.executions body prompt
        (select_model decision.node body.model) _ _ refl
        (λ e w'. attempts_from-Writes decisions (n + 1) body prompt error e w')
