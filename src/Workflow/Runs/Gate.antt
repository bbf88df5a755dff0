-- ===== src/Workflow/Runs/Gate.antt =====
-- The approval step as a gate of `_execute_from`.
use lycosa.Prelude.{none, List, [], ◌∷◌, ◌++◌, Text, nat_comparable, text_comparable, ◌≡◌, refl, ap}
use mathlib.Core.Path.{fun_ext}
use lycosa.Workflow.Definition.{StepDef, approval}
use lycosa.Workflow.Execution.{World, Services, is_skipped}
use lycosa.Workflow.Runs.{begin_step, perform, turn, execute_from}

module _ {X : Type 0} (services : Services X) (repr : Text → Text) where
  -- Whatever stands behind an approval step without a condition has no influence on an execution
  -- that has the step before it: neither on what is called nor on how the run is left.
  pub execute_from_gate :
      (before after after' : List StepDef) (id message : Text) (w : World X)
      → execute_from services repr (before ++ approval id none message ∷ after) w
        ≡ execute_from services repr (before ++ approval id none message ∷ after') w
  unfolding execute_from turn begin_step perform is_skipped
  execute_from_gate [] after after' id message w = refl
  execute_from_gate (step ∷ before) after after' id message w =
      ap (λ again. turn services repr step again w)
        (fun_ext (λ w'. execute_from_gate before after after' id message w'))
