-- ===== src/Scheduler.antt =====
-- backend/app/services/scheduler.py: the nodes that may run a task, best first. Floating-point
-- numbers, the registry of providers, the settings and the catalogue of models are parameters. The
-- texts of the reasons are left out.
pub mod Route
pub mod Memory
pub mod Candidate
pub mod Ranked
pub mod Placement
pub mod Eligible
use lycosa.Prelude.{
  ℕ, zero, suc, ◌+◌, ◌-◌, ◌*◌, ◌/◌, ◌%◌, ◌^◌, ◌≤◌, ◌<◌, min, max, Bool, true, false, not, ◌&&◌,
  ◌||◌, Option, none, some, List, [], ◌∷◌, ◌++◌, map, append-nil, append_assoc, Text, text, String,
  length, take, drop, get_elem?, length-append, length-map, length-take-le, All, All-append, any,
  keep_if, is_in, ltb, leb, nat_beq, if◌then◌else◌, ltb→lt, lt→ltb, leb→le, le→leb, nat_beq_iff,
  Bool-cases, Option-cases, Comparable, ◌==◌, nat_comparable, text_beq, text_beq_iff,
  text_comparable, beq_refl, beq_false, ◌≡◌, refl, sym, ap, ◌∙◌, subst, ◌≢◌, ◌↔◌, ◌⊎◌, inl, inr,
  starts_with, contains, join, arith,
}
use lycosa.Llm.Endpoints.{Urls, is_valid_agent_url, is_empty}
use lycosa.Orchestrator.Classifier.{TaskType, preferred_roles}

-- The floating-point numbers that scores are made of.
pub record Floats : Type 1 where
  pub Number : Type 0
  pub of_nat : ℕ → Number
  pub plus : Number → Number → Number
  pub minus : Number → Number → Number
  pub times : Number → Number → Number
  pub over : Number → Number → Number
  pub less : Number → Number → Bool
  pub truncated : Number → Number

pub record Gpu (F : Type 0) : Type 0 where
  pub index : Option ℕ
  pub available : Bool
  pub total : Option F
  pub used : Option F
  pub utilization : Option F

-- A row of a node, with what its hardware profile and its metrics say.
pub record NodeRow (F : Type 0) : Type 0 where
  pub id : ℕ
  pub online : Bool
  pub agent_url : Option Text
  pub agent_token : Option Text
  pub role : Option Text
  pub recommended_role : Option Text
  pub models : List Text
  pub ram_gb : Option F
  pub gpu_vram_gb : Option F
  pub cpu_percent : F
  pub ram_percent : F
  pub running_tasks : F
  pub last_heartbeat_at : Option ℕ
  pub ollama_down : Bool
  pub ram_available : Option F
  pub gpus : List (Gpu F)
  pub cloud_capable : Bool

-- What a request asks of a node.
pub record Demand (F : Type 0) : Type 0 where
  pub is_cloud : Bool
  pub model : Option Text
  pub requires_privacy : Bool
  pub required_vram : Option F
  pub required_ram : Option F
  pub allow_cpu_fallback : Bool

pub record Settings (F : Type 0) : Type 0 where
  pub cloud_models : List Text
  pub heartbeat_timeout : ℕ
  pub cloud_allowed : ℕ → Bool
  pub cloud_origin : ℕ → Option Text
  pub vram_margin : F
  pub catalog : Text → Option (F × F)

pub record RoutingDecision (F : Type 0) : Type 0 where
  pub node : NodeRow F
  pub model : Text
  pub score : F
  pub gpu_index : Option ℕ
  pub cpu_only : Bool

-- `a or b` on optional texts.
abbrev pub text_or : Option Text → Option Text → Option Text
text_or none other = other
text_or (some []) other = other
text_or (some (c ∷ t)) other = some (c ∷ t)

-- `_effective_role`
unfoldable pub effective_role : {F : Type 0} → NodeRow F → Option Text
effective_role node = text_or node.role node.recommended_role

abbrev pub first_of : List Text → Option Text
first_of [] = none
first_of (t ∷ ts) = some t

-- The place of a role in the order of preference; `none` where it is not in it.
unfoldable pub role_rank : Text → List Text → Option ℕ
role_rank role [] = none
role_rank role (r ∷ roles) =
    let later = role_rank role roles in
    if role == r then some 0 else elim later [ none ↦ none | some n ↦ some (n + 1) ]

abbrev pub rank_of : Option Text → List Text → Option ℕ
rank_of none roles = none
rank_of (some role) roles = role_rank role roles

abbrev pub is_given {ℓ} : {A : Type ℓ} → Option A → Bool
is_given none = false
is_given (some a) = true

-- `list.sort(key=..., reverse=True)`, which keeps the order of equal keys.
unfoldable pub insert_by : {A : Type 0} → (A → A → Bool) → A → List A → List A
insert_by less a [] = a ∷ []
insert_by less a (b ∷ rest) =
    let later = insert_by less a rest in if less a b then b ∷ later else a ∷ b ∷ rest

unfoldable pub sort_by : {A : Type 0} → (A → A → Bool) → List A → List A
unfolding insert_by
sort_by less [] = []
sort_by less (a ∷ rest) = insert_by less a (sort_by less rest)

module _ (floats : Floats) (urls : Urls) where
  open floats use {Number, of_nat, plus, minus, times, over, less, truncated}

  abbrev pub number_or : Option Number → Number
  number_or none = of_nat 0
  number_or (some n) = n

  -- Python's `min(a, b)` of two numbers.
  abbrev pub smaller : Number → Number → Number
  smaller a b = if less b a then b else a

  abbrev pub larger : Number → Number → Number
  larger a b = if less a b then b else a

  -- `value` of `most` in tenths: `min(value or 0, most) / most * 10`
  abbrev pub share : Option Number → ℕ → Number
  share value most =
      times (over (smaller (number_or value) (of_nat most)) (of_nat most)) (of_nat 10)

  abbrev pub has_model : Option Text → NodeRow Number → Bool
  has_model none node = false
  has_model (some model) node = is_in model node.models

  -- `_score`
  unfoldable pub score_of : NodeRow Number → ℕ → ℕ → Option Text → Number
  score_of node rank total model =
      let base = of_nat ((total - rank) * 100) in
      let sized = plus (plus base (share node.ram_gb 128)) (share node.gpu_vram_gb 48) in
      let fitting = if has_model model node then plus sized (of_nat 20) else sized in
      minus
        (minus (minus fitting (over node.cpu_percent (of_nat 10)))
          (over node.ram_percent (of_nat 10)))
        (times node.running_tasks (of_nat 5))

  -- The `where` of the query, and the test of the URL.
  unfoldable pub is_dispatchable : NodeRow Number → Bool
  unfolding is_valid_agent_url
  is_dispatchable node =
      node.online && (is_given node.agent_token && is_valid_agent_url urls node.agent_url)

  -- The scored nodes of `rank_candidates`; no caller excludes any.
  unfoldable pub scored :
      List Text → Option Text → List (NodeRow Number) → List (Number × NodeRow Number)
  unfolding is_dispatchable effective_role role_rank score_of
  scored roles model [] = []
  scored roles model (node ∷ nodes) =
      let rest = scored roles model nodes in
      if is_dispatchable node
      then elim (rank_of (effective_role node) roles) [
        | none ↦ rest
        | some rank ↦ (score_of node rank (length roles) model, node) ∷ rest
      ]
      else rest

  abbrev pub scored_less : Number × NodeRow Number → Number × NodeRow Number → Bool
  scored_less a b = less a.0 b.0

  abbrev pub second_of : Number × NodeRow Number → NodeRow Number
  second_of (score, node) = node

  -- `rank_candidates`
  unfoldable pub rank_candidates :
      TaskType → Option Text → List (NodeRow Number) → List (NodeRow Number)
  unfolding preferred_roles scored sort_by
  rank_candidates task_type model nodes =
      map second_of (sort_by scored_less (scored (preferred_roles task_type) model nodes))
