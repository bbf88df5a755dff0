-- ===== src/Scheduler/Route.antt =====
-- `route_candidates` of backend/app/services/scheduler.py.
use lycosa.Prelude.{
  ℕ, ◌-◌, ◌*◌, Bool, true, false, not, ◌&&◌, ◌||◌, Option, none, some, List, [], ◌∷◌, Text, text,
  length, is_in, ltb, if◌then◌else◌, ◌==◌, nat_comparable, text_comparable, starts_with,
}
use lycosa.Llm.Endpoints.{Urls}
use lycosa.Orchestrator.Classifier.{TaskType, preferred_roles}
use lycosa.Scheduler.{
  Floats, Gpu, NodeRow, Demand, Settings, RoutingDecision, text_or, effective_role, first_of,
  rank_of, is_given, sort_by, rank_candidates, larger,
}

-- A value, or the ZeroDivisionError that leaves the function.
pub data Divided {ℓ} (A : Type ℓ) : Type ℓ where
  divided : A → Divided A
  zero_division : Divided A

abbrev pub map_divided {ℓ ℓ'} : {A : Type ℓ} {B : Type ℓ'} → (A → B) → Divided A → Divided B
map_divided f (divided a) = divided (f a)
map_divided f zero_division = zero_division

-- One turn of a loop that appends at most one element, before the rest of the loop.
abbrev pub collect {ℓ} : {A : Type ℓ} → Divided (Option A) → Divided (List A) → Divided (List A)
collect zero_division rest = zero_division
collect (divided none) rest = rest
collect (divided (some a)) rest = map_divided (◌∷◌ a) rest

module _ (floats : Floats) (urls : Urls) (settings : Settings (floats.Number)) where
  open floats use {Number, of_nat, plus, minus, times, over, less, truncated}

  -- Whether the last heartbeat is recent enough for the request.
  unfoldable pub is_fresh : ℕ → Demand Number → NodeRow Number → Bool
  is_fresh now demand node = elim node.last_heartbeat_at [
    | none ↦ not (is_given demand.required_vram || demand.is_cloud)
    | some last ↦ not (ltb (settings.heartbeat_timeout * 1_000_000) (now - last))
  ]

  abbrev pub origin_matches : Option Text → Option Text → Bool
  origin_matches (some a) (some b) = a == b
  origin_matches _ _ = false

  abbrev pub is_https : Option Text → Bool
  is_https none = false
  is_https (some url) = starts_with (text "https://") url

  -- The tests on a node for a cloud provider.
  unfoldable pub is_cloud_node : NodeRow Number → Bool
  is_cloud_node node =
      settings.cloud_allowed node.id
      && (is_https node.agent_url
          && (origin_matches (settings.cloud_origin node.id) node.agent_url && node.cloud_capable))

  -- A GPU that is measured and has room, with its score.
  abbrev pub free_of : Number → Number → Number
  free_of total used = larger floats urls (of_nat 0) (minus total used)

  abbrev pub has_room : Option Number → Number → Bool
  has_room none free = true
  has_room (some required) free = not (less free (plus required settings.vram_margin))

  abbrev pub or_full : Option Number → Number
  or_full none = of_nat 100
  or_full (some used) = used

  abbrev pub tenths : ℕ → Number
  tenths n = over (of_nat n) (of_nat 10)

  abbrev pub gpu_score : Number → Number → Option Number → Number
  gpu_score total free used =
      minus (times (over free total) (of_nat 60)) (times (or_full used) (tenths 4))

  abbrev pub is_zero : Number → Bool
  is_zero n = not (less n (of_nat 0)) && not (less (of_nat 0) n)

  unfoldable pub measured :
      Option Number → Gpu Number → Number → Number → Divided (Option (Number × Option ℕ))
  measured required gpu total used =
      if not gpu.available
      then divided none
      else if not (has_room required (free_of total used))
      then divided none
      else if is_zero total
      then zero_division
      else divided (some (gpu_score total (free_of total used) gpu.utilization, gpu.index))

  unfoldable pub gpu_candidate : Option Number → Gpu Number → Divided (Option (Number × Option ℕ))
  unfolding measured
  gpu_candidate required gpu = elim gpu.total [
    | none ↦ divided none
    | some total ↦ elim gpu.used [
      | none ↦ divided none
      | some used ↦ measured required gpu total used
    ]
  ]

  unfoldable pub gpu_candidates :
      Option Number → List (Gpu Number) → Divided (List (Number × Option ℕ))
  unfolding gpu_candidate
  gpu_candidates required [] = divided []
  gpu_candidates required (gpu ∷ gpus) =
      let rest = gpu_candidates required gpus in collect (gpu_candidate required gpu) rest

  -- With a requirement, all of the GPUs or none: Ollama chooses among them.
  abbrev pub all_or_none :
      Option Number → List (Gpu Number) → List (Number × Option ℕ) → List (Number × Option ℕ)
  all_or_none required gpus found =
      if is_given required && not (length found == length gpus) then [] else found

  unfoldable pub usable_gpus :
      Option Number → List (Gpu Number) → Divided (List (Number × Option ℕ))
  unfolding gpu_candidates
  usable_gpus required gpus = map_divided (all_or_none required gpus) (gpu_candidates required gpus)

  -- `min(candidates, key=...)` with a requirement, `max` without; the first of equals.
  abbrev pub better : Option Number → Number × Option ℕ → Number × Option ℕ → Bool
  better none a b = less b.0 a.0
  better (some required) a b = less a.0 b.0

  unfoldable pub best :
      Option Number → Number × Option ℕ → List (Number × Option ℕ) → Number × Option ℕ
  best required c [] = c
  best required c (d ∷ rest) =
      if better required d c then best required d rest else best required c rest

  abbrev pub catalog_number : (Number × Number → Number) → Option (Number × Number) → Option Number
  catalog_number pick none = none
  catalog_number pick (some entry) = some (truncated (times (pick entry) (of_nat 1_024)))

  abbrev pub or_estimate : Option Number → Bool → Option Number → Option Number
  or_estimate (some given) has_gpus estimate = some given
  or_estimate none true estimate = estimate
  or_estimate none false estimate = none

  abbrev pub has_gpus : List (Gpu Number) → Bool
  has_gpus [] = false
  has_gpus (gpu ∷ gpus) = true

  -- `required_vram`, from the request or the catalogue.
  unfoldable pub vram_needed : Demand Number → NodeRow Number → Text → Option Number
  vram_needed demand node model =
      or_estimate demand.required_vram (has_gpus node.gpus)
        (catalog_number (λ entry. entry.0) (settings.catalog model))

  -- `body.required_ram_mb or ...`; 0 counts as not given.
  abbrev pub or_catalog : Option Number → Option Number → Option Number
  or_catalog none estimate = estimate
  or_catalog (some n) estimate = if is_zero n then estimate else some n

  abbrev pub ram_needed : Demand Number → Text → Option Number
  ram_needed demand model =
      or_catalog demand.required_ram (catalog_number (λ entry. entry.1) (settings.catalog model))

  -- Whether an amount that is needed is known to be there; `none` needed is not known here.
  abbrev pub is_enough : Option Number → Option Number → Bool
  is_enough (some available) (some needed) = not (less available needed)
  is_enough _ _ = false

  abbrev pub meets : Option Number → Option Number → Bool
  meets available none = true
  meets available (some needed) = is_enough available (some needed)

  abbrev pub decision : NodeRow Number → Text → Number → Option ℕ → Bool → RoutingDecision Number
  decision node model score gpu cpu_only = record {
    node = node;
    model = model;
    score = score;
    gpu_index = gpu;
    cpu_only = cpu_only;
  }

  -- The place of a local model: a GPU, the CPU, or unknown.
  unfoldable pub placed :
      Demand Number
      → NodeRow Number
      → Text
      → Number
      → Option Number
      → List (Number × Option ℕ)
      → Option (RoutingDecision Number)
  unfolding best
  placed demand node model score required (c ∷ found) =
      let (points, gpu) = best required c found in
      some (decision node model (plus score points) gpu false)
  placed demand node model score none [] = some (decision node model score none false)
  placed demand node model score (some required) [] =
      if demand.allow_cpu_fallback && is_enough node.ram_available (ram_needed demand model)
      then some (decision node model score none true)
      else none

  -- The branch of a local provider.
  unfoldable pub local_decision :
      Demand Number → NodeRow Number → Text → Number → Divided (Option (RoutingDecision Number))
  unfolding placed usable_gpus vram_needed
  local_decision demand node model score =
      if node.ollama_down
      then divided none
      else if not (is_in model node.models)
      then divided none
      else if not (meets node.ram_available demand.required_ram)
      then divided none
      else map_divided (placed demand node model score (vram_needed demand node model))
          (usable_gpus (vram_needed demand node model) node.gpus)

  -- The score before the GPUs; `role_points` is that of the role.
  unfoldable pub base_score : NodeRow Number → ℕ → Number
  base_score node role_points =
      minus
        (minus (minus (of_nat role_points) (times node.cpu_percent (tenths 1)))
          (times node.ram_percent (tenths 2)))
        (times node.running_tasks (of_nat 10))

  unfoldable pub decision_with :
      Demand Number → NodeRow Number → ℕ → Option Text → Divided (Option (RoutingDecision Number))
  unfolding local_decision base_score is_cloud_node
  decision_with demand node role_points none = divided none
  decision_with demand node role_points (some []) = divided none
  decision_with demand node role_points (some (c ∷ model)) =
      if demand.is_cloud
      then (if is_cloud_node node
          then divided (some (decision node (c ∷ model) (base_score node role_points) none false))
          else divided none)
      else local_decision demand node (c ∷ model) (base_score node role_points)

  -- One turn of the loop; `none` is `continue`.
  abbrev pub points_of : List Text → Option ℕ → ℕ
  points_of roles none = 0
  points_of roles (some rank) = (length roles - rank) * 100

  unfoldable pub decide :
      List Text → ℕ → Demand Number → NodeRow Number → Divided (Option (RoutingDecision Number))
  unfolding is_fresh effective_role decision_with
  decide roles now demand node =
      if is_fresh now demand node
      then decision_with demand node (points_of roles (rank_of (effective_role node) roles))
          (text_or demand.model (first_of node.models))
      else divided none

  unfoldable pub decisions_from :
      List Text
      → ℕ
      → Demand Number
      → List (NodeRow Number)
      → Divided (List (RoutingDecision Number))
  unfolding decide
  decisions_from roles now demand [] = divided []
  decisions_from roles now demand (node ∷ nodes) =
      let rest = decisions_from roles now demand nodes in
      collect (decide roles now demand node) rest

  abbrev pub decision_less : RoutingDecision Number → RoutingDecision Number → Bool
  decision_less a b = less a.score b.score

  abbrev pub in_cloud_models : Option Text → Bool
  in_cloud_models none = false
  in_cloud_models (some model) = is_in model settings.cloud_models

  unfoldable pub route_candidates :
      TaskType
      → ℕ
      → Demand Number
      → Bool
      → List (NodeRow Number)
      → Divided (List (RoutingDecision Number))
  unfolding preferred_roles rank_candidates decisions_from sort_by
  route_candidates task_type now demand credentials_available nodes =
      if demand.is_cloud
        && (demand.requires_privacy
            || (not credentials_available || not (in_cloud_models demand.model)))
      then divided []
      else map_divided (sort_by decision_less) (
          decisions_from (preferred_roles task_type) now demand
            (rank_candidates floats urls task_type demand.model nodes))
