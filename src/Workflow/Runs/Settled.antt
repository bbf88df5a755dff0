-- ===== src/Workflow/Runs/Settled.antt =====
-- How `_execute_from` leaves a run.
use lycosa.Prelude.{
  true, none, some, List, [], ◌∷◌, ◌++◌, Text, any, any-append-last, Bool-cases, nat_comparable,
  text_comparable, beq_refl, ◌≡◌, refl, ap, ◌≢◌, inl, inr, arith,
}
use lycosa.Workflow.Definition.{StepDef, task, retrieve, approval, parallel, id_of}
use lycosa.Workflow.Execution.{
  RunStatus, running, paused, succeeded, failed, waits, World, Services, End, returned, crashed,
  StepEnd, gave, step_raised, step_crashed, is_skipped,
}
use lycosa.Workflow.Runs.{begin_step, pause, finish, after_step, perform, turn, execute_from}

-- What the status of a run says of it, after an execution of `steps`.
unfoldable pub Fits : {X : Type 0} → List StepDef → World X → RunStatus → Type 0
Fits steps w running = ⊥
-- It waits at one of the steps, for which there is a row to resolve.
Fits steps w paused =
    (before : List StepDef) × (step : StepDef) × (after : List StepDef) × (steps
      ≡ before ++ step ∷ after)
    × (w.run.current_step ≡ some (id_of step))
    × (any (waits (id_of step)) w.step_runs ≡ true)
Fits steps w succeeded = (w.run.finished_at ≢ none) × (w.run.error ≡ none)
Fits steps w failed = (w.run.finished_at ≢ none) × (w.run.error ≢ none)

-- What holds of an execution that returns: the run is committed as it is, and its status fits.
unfoldable pub IsSettled : {X : Type 0} → List StepDef → End × World X → Type 0
IsSettled steps (returned, w) = (w.stored ≡ w.run) × Fits steps w w.run.status
IsSettled steps (crashed, w) = Unit

module _ {X : Type 0} (services : Services X) (repr : Text → Text) where
  -- A step in front does not matter.
  Fits-cons :
      (step : StepDef) (steps : List StepDef) (w : World X) (status : RunStatus)
      → Fits steps w status
      → Fits (step ∷ steps) w status
  unfolding Fits
  Fits-cons step steps w running fits = fits
  Fits-cons step steps w paused (before, s, after, e, current, pending) =
      (step ∷ before, s, after, ap (λ l. step ∷ l) e, current, pending)
  Fits-cons step steps w succeeded fits = fits
  Fits-cons step steps w failed fits = fits

  IsSettled-cons :
      (step : StepDef) (steps : List StepDef) (result : End × World X)
      → IsSettled steps result
      → IsSettled (step ∷ steps) result
  unfolding IsSettled
  IsSettled-cons step steps (returned, w) (committed, fits) =
      (committed, Fits-cons step steps w w.run.status fits)
  IsSettled-cons step steps (crashed, w) settled = tt

  pause-IsSettled :
      (step : StepDef) (steps : List StepDef) (message : Text) (w : World X)
      → w.run.current_step ≡ some (id_of step)
      → IsSettled (step ∷ steps) (returned, pause step message w)
  unfolding IsSettled Fits pause
  pause-IsSettled step steps message w current = (
    refl,
    (
      [],
      step,
      steps,
      refl,
      current,
      any-append-last _ w.step_runs _ (rw (beq_refl (id_of step)) refl),
    ),
  )

  failed-IsSettled :
      (steps : List StepDef) (why : Text) (w : World X)
      → IsSettled steps (returned, finish services repr failed (some why) w)
  unfolding IsSettled Fits finish
  failed-IsSettled steps why w = (refl, ((λ e. ground arith), (λ e. ground arith)))

  after_step-IsSettled :
      (step : StepDef) (steps : List StepDef) (result : StepEnd × World X)
      (again : World X → End × World X)
      → ((w' : World X) → IsSettled steps (again w'))
      → IsSettled (step ∷ steps) (after_step services repr step result again)
  unfolding after_step IsSettled
  after_step-IsSettled step steps (gave given, w) again next = IsSettled-cons step steps _ (next _)
  after_step-IsSettled step steps (step_raised e, w) again next =
      failed-IsSettled (step ∷ steps) _ w
  after_step-IsSettled step steps (step_crashed, w) again next = tt

  perform-IsSettled :
      (step : StepDef) (steps : List StepDef) (again : World X → End × World X) (w : World X)
      → w.run.current_step ≡ some (id_of step)
      → ((w' : World X) → IsSettled steps (again w'))
      → IsSettled (step ∷ steps) (perform services repr step again w)
  unfolding perform
  perform-IsSettled (approval id condition message) steps again w current next =
      pause-IsSettled (approval id condition message) steps message w current
  perform-IsSettled (task step) steps again w current next =
      after_step-IsSettled (task step) steps _ again next
  perform-IsSettled (retrieve id condition query collection top_k) steps again w current next =
      after_step-IsSettled (retrieve id condition query collection top_k) steps _ again next
  perform-IsSettled (parallel id condition substeps) steps again w current next =
      after_step-IsSettled (parallel id condition substeps) steps _ again next

  turn-IsSettled :
      (step : StepDef) (steps : List StepDef) (again : World X → End × World X) (w : World X)
      → ((w' : World X) → IsSettled steps (again w'))
      → IsSettled (step ∷ steps) (turn services repr step again w)
  unfolding turn begin_step
  turn-IsSettled step steps again w next = elim (Bool-cases (is_skipped step w.run.outputs)) [
    | inl skipped ↦ rw skipped (IsSettled-cons step steps _ (next _))
    | inr met ↦ rw met (perform-IsSettled step steps again _ refl next)
  ]

  -- An execution that returns leaves the run as it was last committed, and never running: it has
  -- finished, with an error just if it failed, or it waits at one of its steps that has a row to
  -- resolve.
  pub execute_from-IsSettled :
      (steps : List StepDef) (w : World X) → IsSettled steps (execute_from services repr steps w)
  unfolding execute_from finish IsSettled Fits
  execute_from-IsSettled [] w = (refl, ((λ e. ground arith), refl))
  execute_from-IsSettled (step ∷ steps) w =
      turn-IsSettled step steps _ w (execute_from-IsSettled steps)
