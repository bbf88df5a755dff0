-- ===== src/Workflow/Definition.antt =====
-- The workflow definitions of backend/app/schemas/workflow.py, and the check of references between
-- steps. The patterns and ranges of single fields are pydantic's; the fields of a task step that
-- the executor only hands on are kept together in `settings`.
pub mod Order
use lycosa.Prelude.{
  ℕ, zero, suc, ◌+◌, ◌-◌, ◌*◌, ◌/◌, ◌^◌, ◌≤◌, ◌<◌, min, max, Bool, true, false, not, ◌&&◌, ◌||◌,
  Option, none, some, List, [], ◌∷◌, ◌++◌, map, append-nil, append_assoc, Text, text, String,
  length, take, drop, get_elem?, length-append, length-map, length-take-le, All, All-append, any,
  keep_if, is_in, ltb, leb, nat_beq, if◌then◌else◌, ltb→lt, lt→ltb, leb→le, le→leb, nat_beq_iff,
  Bool-cases, Option-cases, Comparable, ◌==◌, nat_comparable, text_beq, text_beq_iff,
  text_comparable, beq_refl, beq_false, ◌≡◌, refl, sym, ap, ◌∙◌, subst, ◌≢◌, ◌↔◌, ◌⊎◌, inl, inr,
  starts_with, contains, join, arith,
}
use lycosa.Workflow.Template.{template_refs}

pub record WhenClause : Type 0 where
  pub step : Text
  pub contains : Option Text
  pub equals : Option Text

-- task_type, model, provider, requires_privacy, max_tokens, knowledge_collection, llm_account_id
-- and route.
pub record Settings : Type 0 where
  pub model : Option Text
  pub provider : Text
  pub requires_privacy : Bool
  pub max_tokens : ℕ
  pub task_type : Option Text
  pub knowledge_collection : Option Text
  pub llm_account_id : Option ℕ
  pub route : Option Text

pub record TaskStep : Type 0 where
  pub id : Text
  pub condition : Option WhenClause
  pub prompt : Text
  pub knowledge_query : Option Text
  pub retries : ℕ
  pub settings : Settings

pub data StepDef : Type 0 where
  task : TaskStep → StepDef
  retrieve : (id : Text) → Option WhenClause → (query : Text) → Option Text → (top_k : ℕ) → StepDef
  approval : (id : Text) → Option WhenClause → (message : Text) → StepDef
  parallel : (id : Text) → Option WhenClause → List TaskStep → StepDef

abbrev pub id_of : StepDef → Text
id_of (task step) = step.id
id_of (retrieve id condition query collection top_k) = id
id_of (approval id condition message) = id
id_of (parallel id condition steps) = id

abbrev pub when_of : StepDef → Option WhenClause
when_of (task step) = step.condition
when_of (retrieve id condition query collection top_k) = condition
when_of (approval id condition message) = condition
when_of (parallel id condition steps) = condition

-- `_exactly_one`
unfoldable pub exactly_one : WhenClause → Bool
exactly_one clause = elim clause.contains [
  | none ↦ elim clause.equals [ none ↦ false | some e ↦ true ]
  | some c ↦ elim clause.equals [ none ↦ true | some e ↦ false ]
]

-- `self.knowledge_query or ""`
abbrev pub or_empty : Option Text → Text
or_empty none = []
or_empty (some t) = t

-- `TaskStepDef.template_refs`
unfoldable pub task_refs : TaskStep → List Text
task_refs step = template_refs (step.prompt ++ (text " " ++ or_empty step.knowledge_query))

unfoldable pub all_task_refs : List TaskStep → List Text
unfolding task_refs
all_task_refs [] = []
all_task_refs (step ∷ steps) = task_refs step ++ all_task_refs steps

unfoldable pub step_refs : StepDef → List Text
unfolding all_task_refs task_refs
step_refs (task step) = task_refs step
step_refs (retrieve id condition query collection top_k) = template_refs query
step_refs (approval id condition message) = []
step_refs (parallel id condition steps) = all_task_refs steps

-- `step.id` and the substeps of a parallel step.
unfoldable pub ids_here : StepDef → List Text
ids_here (parallel id condition steps) = id ∷ map (λ (step : TaskStep). step.id) steps
ids_here step = id_of step ∷ []

-- `refs | {step.when.step}`
unfoldable pub all_refs : StepDef → List Text
unfolding step_refs
all_refs step = elim (when_of step) [
  | none ↦ step_refs step
  | some clause ↦ step_refs step ++ clause.step ∷ []
]

pub data Validated : Type 0 where
  valid : Validated
  duplicate_id : Text → Validated
  unknown_ref : Text → Validated

-- The first of the identifiers that was seen before.
unfoldable pub first_seen : List Text → List Text → Option Text
first_seen seen [] = none
first_seen seen (id ∷ ids) =
    let rest = first_seen seen ids in if is_in id seen then some id else rest

-- Whether `refs - seen` is empty.
unfoldable pub all_seen : List Text → List Text → Bool
all_seen seen [] = true
all_seen seen (ref ∷ refs) = is_in ref seen && all_seen seen refs

-- The loop of `_validate_references`.
unfoldable pub validate_from : List Text → List StepDef → Validated
unfolding first_seen all_seen all_refs ids_here
validate_from seen [] = valid
validate_from seen (step ∷ steps) =
    let rest = validate_from (ids_here step ++ seen) steps in
    elim (first_seen seen (ids_here step)) [
      | some id ↦ duplicate_id id
      | none ↦ if all_seen seen (all_refs step) then rest else unknown_ref (id_of step)
    ]

unfoldable pub validate_references : List StepDef → Validated
unfolding validate_from
validate_references steps = validate_from [] steps
