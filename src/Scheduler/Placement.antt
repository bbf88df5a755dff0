-- ===== src/Scheduler/Placement.antt =====
-- Where a decision of `route_candidates` of backend/app/services/scheduler.py runs its model.
use lycosa.Prelude.{
  ℕ, true, false, ◌&&◌, Option, none, some, List, [], ◌∷◌, Text, All, is_in, Bool-cases,
  Option-cases, nat_comparable, text_comparable, ◌≡◌, ◌≢◌, refl, sym, ap, ◌∙◌, subst, inl, inr,
  arith,
}
use lycosa.Scheduler.Route.{
  Divided, divided, zero_division, map_divided, is_cloud_node, meets, is_enough, ram_needed,
  decision_with, local_decision, placed, vram_needed, usable_gpus, base_score,
}
use lycosa.Scheduler.Memory.{
  HasZeroTotal, usable_gpus-HasZeroTotal, HasRoom, Suffices, vram_needed_lem, is_enough-Suffices,
  meets-Suffices, usable_gpus-HasRoom,
}
use lycosa.Llm.Endpoints.{Urls}
use lycosa.Scheduler.{Floats, Gpu, NodeRow, Demand, Settings, RoutingDecision}
use lycosa.Scheduler.Candidate.{
  RunsIn, on_gpus, on_cpu, HasModel, RunsOn, in_cloud, on_node, cloud-IsApproved,
}

module _ (floats : Floats) (urls : Urls) (settings : Settings (floats.Number)) where
  open floats use {Number, less}

  -- Of a decision, if there is one: it is for the node, and says where the node runs the model.
  unfoldable pub Decides : Demand Number → NodeRow Number → Option (RoutingDecision Number) → Type 0
  Decides demand node none = Unit
  Decides demand node (some d) = (d.node ≡ node) × RunsOn floats urls settings demand d

  -- And of an exception: the node has a GPU with a total of 0.
  unfoldable pub Runs :
      Demand Number → NodeRow Number → Divided (Option (RoutingDecision Number)) → Type 0
  unfolding Decides
  Runs demand node (divided decided) = Decides demand node decided
  Runs demand node zero_division =
      (demand.is_cloud ≡ false) × HasZeroTotal floats urls settings node.gpus

  -- The amount of VRAM that is needed has room on the GPUs found, if there are any.
  abbrev Roomy : Option Number → List (Number × Option ℕ) → List (Gpu Number) → Type 0
  Roomy required [] gpus = Unit
  Roomy required (c ∷ found) gpus =
      (needed : Number)
      → required ≡ some needed
      → (gpus ≢ []) × All (HasRoom floats urls settings needed) gpus

  usable_gpus-Roomy :
      (required : Option Number) (gpus : List (Gpu Number)) (found : List (Number × Option ℕ))
      → usable_gpus floats urls settings required gpus ≡ divided found
      → Roomy required found gpus
  usable_gpus-Roomy required gpus [] e = tt
  usable_gpus-Roomy required gpus (c ∷ found) e = λ needed given.
      usable_gpus-HasRoom floats urls settings needed gpus {c = c} {found = found} (rw given at e)

  placed-Runs :
      (demand : Demand Number) (node : NodeRow Number) (model : Text) (score : Number)
      (required : Option Number) (found : List (Number × Option ℕ))
      → vram_needed floats urls settings demand node model ≡ required
      → Roomy required found node.gpus
      → demand.is_cloud ≡ false
      → ((d : RoutingDecision Number)
          → d.node ≡ node
          → d.model ≡ model
          → RunsIn floats urls settings demand d
          → HasModel floats urls settings demand d)
      → Decides demand node (placed floats urls settings demand node model score required found)
  unfolding placed Decides
  placed-Runs demand node model score required (c ∷ found) needs roomy local has_model = (
    refl,
    on_node local (
        has_model _ refl refl (
          on_gpus refl (λ needed wants.
            roomy needed
              (sym needs ∙ vram_needed_lem floats urls settings demand node model needed wants)))),
  )
  placed-Runs demand node model score none [] needs roomy local has_model = (
    refl,
    on_node local (
        has_model _ refl refl (
          on_gpus refl (λ needed wants. absurd (
            ground (
              arith,
              needs,
              vram_needed_lem floats urls settings demand node model needed wants,
            ))))),
  )
  placed-Runs demand node model score (some required) [] needs roomy local has_model =
      elim (Bool-cases (
        demand.allow_cpu_fallback
        && is_enough floats urls settings node.ram_available
            (ram_needed floats urls settings demand model))) [
              | inl on_it ↦ elim (Option-cases (ram_needed floats urls settings demand model)) [
                | inl unknown ↦ absurd (ground (arith, unknown, on_it))
                | inr (needed, known) ↦
                    simp (placed, on_it)
                      (
                        refl,
                        on_node local (
                            has_model _ refl refl (
                              on_cpu needed refl (ground (arith, on_it)) known (
                                is_enough-Suffices floats urls settings node.ram_available needed
                                  (ground (arith, on_it, known))))),
                      )
              ]
              | inr nowhere ↦ simp (placed, nowhere) tt
            ]

  -- The place of the model among the GPUs that are usable, if nothing was divided by zero.
  map_divided-Runs :
      (demand : Demand Number) (node : NodeRow Number) (model : Text) (score : Number)
      (usable : Divided (List (Number × Option ℕ)))
      → usable_gpus floats urls settings
          (vram_needed floats urls settings demand node model)
          node.gpus
        ≡ usable
      → demand.is_cloud ≡ false
      → ((d : RoutingDecision Number)
          → d.node ≡ node
          → d.model ≡ model
          → RunsIn floats urls settings demand d
          → HasModel floats urls settings demand d)
      → Runs demand node (
          map_divided
            (placed floats urls settings demand node model score
              (vram_needed floats urls settings demand node model))
            usable)
  unfolding Runs
  map_divided-Runs demand node model score (divided found) e local has_model =
      placed-Runs demand node model score (vram_needed floats urls settings demand node model) found
        refl (usable_gpus-Roomy _ node.gpus found e) local has_model
  map_divided-Runs demand node model score zero_division e local has_model =
      (local, usable_gpus-HasZeroTotal floats urls settings _ node.gpus e)

  local_decision-Runs :
      (demand : Demand Number) (node : NodeRow Number) (model : Text) (score : Number)
      → demand.is_cloud ≡ false
      → Runs demand node (local_decision floats urls settings demand node model score)
  unfolding local_decision Runs Decides
  local_decision-Runs demand node model score local = elim (Bool-cases node.ollama_down) [
    | inl down ↦ simp (local_decision, down) tt
    | inr up ↦ elim (Bool-cases (is_in model node.models)) [
      | inr lacks ↦ simp (local_decision, up, lacks) tt
      | inl has_it ↦
          elim (Bool-cases (meets floats urls settings node.ram_available demand.required_ram)) [
            | inr short ↦ simp (local_decision, up, has_it, short) tt
            | inl ram ↦
                simp (local_decision, up, has_it, ram)
                  (map_divided-Runs demand node model score
                    (usable_gpus floats urls settings
                      (vram_needed floats urls settings demand node model) node.gpus)
                    refl local
                    (λ d same_node same_model memory. record {
                      up = ap (λ n. n.ollama_down) same_node ∙ up;
                      installed =
                          subst (λ n. is_in d.model n.models ≡ true) (sym same_node)
                            (subst (λ m. is_in m node.models ≡ true) (sym same_model) has_it);
                      ram = λ needed given.
                          subst (λ n. Suffices floats urls settings n.ram_available needed)
                            (sym same_node)
                            (meets-Suffices floats urls settings node.ram_available
                              demand.required_ram needed ram given);
                      memory = memory;
                    }))
          ]
    ]
  ]

  pub decision_with-Runs :
      (demand : Demand Number) (node : NodeRow Number) (points : ℕ) (model : Option Text)
      → Runs demand node (decision_with floats urls settings demand node points model)
  unfolding decision_with Runs Decides
  decision_with-Runs demand node points none = tt
  decision_with-Runs demand node points (some []) = tt
  decision_with-Runs demand node points (some (c ∷ model)) = elim (Bool-cases demand.is_cloud) [
    | inl far ↦ elim (Bool-cases (is_cloud_node floats urls settings node)) [
      | inl approved ↦
          simp (decision_with, far, approved)
            (refl, in_cloud far (cloud-IsApproved floats urls settings node approved))
      | inr barred ↦ simp (decision_with, far, barred) tt
    ]
    | inr local ↦
        simp (decision_with, local)
          (local_decision-Runs demand node (c ∷ model) (base_score floats urls settings node points)
            local)
  ]
