-- ===== src/Workflow/Definition/Order.antt =====
-- What a definition that validates promises of the order and the identifiers of its steps.
use lycosa.Prelude.{
  true, false, none, List, [], ◌∷◌, ◌++◌, Text, All, is_in, ◌==◌, nat_comparable, text_comparable,
  ◌≡◌, refl, subst, arith,
}
use lycosa.Workflow.Definition.{
  StepDef, task, retrieve, approval, parallel, id_of, ids_here, all_refs, valid, first_seen,
  all_seen, validate_from, validate_references,
}

is_in-append : (id : Text) (xs ys : List Text) → is_in id (xs ++ ys) ≡ false → is_in id ys ≡ false
is_in-append id [] ys out = out
is_in-append id (x ∷ xs) ys out = is_in-append id xs ys (ground arith)

is_in-head : (id x : Text) (xs : List Text) → is_in id (x ∷ xs) ≡ false → (x == id) ≡ false
is_in-head id x xs out = ground arith

-- The first identifier of a step is its own.
own_first : (step : StepDef) → (rest : List Text) × (ids_here step ≡ id_of step ∷ rest)
unfolding ids_here
own_first (task step) = ([], refl)
own_first (retrieve id condition query collection top_k) = ([], refl)
own_first (approval id condition message) = ([], refl)
own_first (parallel id condition steps) = (_, refl)

-- What one turn of the loop has checked.
pub checked_step :
    (seen : List Text) (step : StepDef) (steps : List StepDef)
    → validate_from seen (step ∷ steps) ≡ valid
    → (first_seen seen (ids_here step) ≡ none)
      × (all_seen seen (all_refs step) ≡ true)
      × (validate_from (ids_here step ++ seen) steps ≡ valid)
unfolding validate_from
checked_step seen step steps checked = (ground arith, ground arith, ground arith)

first_seen-none :
    (seen : List Text) (id : Text) (ids : List Text)
    → first_seen seen (id ∷ ids) ≡ none
    → is_in id seen ≡ false
unfolding first_seen
first_seen-none seen id ids e = ground arith

-- No step repeats an identifier that was seen before.
pub unseen :
    (seen : List Text) (before : List StepDef) (step : StepDef) (after : List StepDef)
    → validate_from seen (before ++ step ∷ after) ≡ valid
    → is_in (id_of step) seen ≡ false
unseen seen [] step after checked =
    let (new, known, rest) = checked_step seen step after checked in
    let (ids, e) = own_first step in
    first_seen-none seen (id_of step) ids (subst (λ l. first_seen seen l ≡ none) e new)
unseen seen (first ∷ before) step after checked =
    let (new, known, rest) = checked_step seen first (before ++ step ∷ after) checked in
    is_in-append (id_of step) (ids_here first) seen
      (unseen (ids_here first ++ seen) before step after rest)

-- Whether the identifier of a step is that of one before it.
pub distinct :
    (seen : List Text) (first : StepDef) (before : List StepDef) (step : StepDef)
    (after : List StepDef)
    → validate_from seen (first ∷ before ++ step ∷ after) ≡ valid
    → (id_of first == id_of step) ≡ false
distinct seen first before step after checked =
    let (new, known, rest) = checked_step seen first (before ++ step ∷ after) checked in
    let (ids, e) = own_first first in
    let out = unseen (ids_here first ++ seen) before step after rest in
    is_in-head (id_of step) (id_of first) (ids ++ seen)
      (subst (λ l. is_in (id_of step) (l ++ seen) ≡ false) e out)

-- The identifiers that the loop has seen after the steps.
pub seen_after : List StepDef → List Text → List Text
seen_after [] seen = seen
seen_after (step ∷ steps) seen = seen_after steps (ids_here step ++ seen)

all_seen-All :
    (seen refs : List Text) → all_seen seen refs ≡ true → All (λ ref. is_in ref seen ≡ true) refs
unfolding all_seen
all_seen-All seen [] known = tt
all_seen-All seen (ref ∷ refs) known = (ground arith, all_seen-All seen refs (ground arith))

first_seen-All :
    (seen ids : List Text) → first_seen seen ids ≡ none → All (λ id. is_in id seen ≡ false) ids
unfolding first_seen
first_seen-All seen [] new = tt
first_seen-All seen (id ∷ ids) new = (ground arith, first_seen-All seen ids (ground arith))

validate_from-order :
    (seen : List Text) (before : List StepDef) (step : StepDef) (after : List StepDef)
    → validate_from seen (before ++ step ∷ after) ≡ valid
    → All (λ ref. is_in ref (seen_after before seen) ≡ true) (all_refs step)
      × All (λ id. is_in id (seen_after before seen) ≡ false) (ids_here step)
unfolding seen_after
validate_from-order seen [] step after checked =
    let (new, known, rest) = checked_step seen step after checked in
    (all_seen-All seen (all_refs step) known, first_seen-All seen (ids_here step) new)
validate_from-order seen (first ∷ before) step after checked =
    let (new, known, rest) = checked_step seen first (before ++ step ∷ after) checked in
    validate_from-order (ids_here first ++ seen) before step after rest

-- In a definition that validates, every step that is referred to in the condition of a step, in its
-- prompt or query, or in the prompts and queries of its parallel steps, stands before it, and no
-- identifier of the step is one of those before it. The message of an approval and the conditions
-- of parallel steps are not among these references.
pub validate_references-order :
    (before : List StepDef) (step : StepDef) (after : List StepDef)
    → validate_references (before ++ step ∷ after) ≡ valid
    → All (λ ref. is_in ref (seen_after before []) ≡ true) (all_refs step)
      × All (λ id. is_in id (seen_after before []) ≡ false) (ids_here step)
unfolding validate_references
validate_references-order before step after checked =
    validate_from-order [] before step after checked
