-- ===== src/Scheduler/Eligible.antt =====
-- What every candidate satisfies.
use lycosa.Prelude.{
  ℕ, Bool, not, ◌&&◌, ◌||◌, Option, none, some, List, [], ◌∷◌, Text, All, Bool-cases,
  nat_comparable, text_comparable, sym, subst, inl, inr,
}
use mathlib.Core.List.{Memᴰ}
use lycosa.Scheduler.Route.{
  Divided, divided, zero_division, map_divided, collect, is_fresh, decide, decisions_from,
  decision_less, route_candidates, in_cloud_models,
}
use lycosa.Llm.Endpoints.{Urls}
use lycosa.Orchestrator.Classifier.{TaskType, preferred_roles}
use lycosa.Scheduler.{
  Floats, NodeRow, Demand, Settings, RoutingDecision, rank_candidates, scored, scored_less, sort_by,
}
use lycosa.Scheduler.Candidate.{
  IsZeroNode, Routes, routed, raised, IsFit, IsHeard, IsEligible, fresh-IsHeard,
}
use lycosa.Scheduler.Ranked.{IsChosen, sort_by-All, scored-All, second_of-All}
use lycosa.Scheduler.Placement.{Decides, Runs, decision_with-Runs}

module _ (floats : Floats) (urls : Urls) (settings : Settings (floats.Number)) where
  open floats use {Number, less}

  module _ (nodes : List (NodeRow Number)) (roles : List Text) (now : ℕ)
      (demand : Demand Number) where
    -- The decision for a node that is chosen is eligible.
    unfoldable Suits : Divided (Option (RoutingDecision Number)) → Type 0
    Suits (divided none) = Unit
    Suits (divided (some d)) = IsEligible floats urls settings nodes roles now demand d
    Suits zero_division = IsZeroNode floats urls settings nodes roles now demand

    Runs-Suits :
        (node : NodeRow Number) (decided : Divided (Option (RoutingDecision Number)))
        → IsChosen floats urls settings nodes roles node
        → IsHeard floats urls settings now demand node
        → Runs floats urls settings demand node decided
        → Suits decided
    unfolding Runs Decides Suits
    Runs-Suits node (divided none) chosen fresh runs = tt
    Runs-Suits node (divided (some d)) (listed, fit) fresh (same, runs) = record {
      listed = subst (λ n. Memᴰ n nodes) (sym same) listed;
      fit = subst (IsFit floats urls settings roles) (sym same) fit;
      fresh = subst (IsHeard floats urls settings now demand) (sym same) fresh;
      runs = runs;
    }
    Runs-Suits node zero_division (listed, fit) fresh (local, gpu) = record {
      node = node;
      listed = listed;
      fit = fit;
      fresh = fresh;
      local = local;
      gpu = gpu;
    }

    decide-Suits :
        (node : NodeRow Number)
        → IsChosen floats urls settings nodes roles node
        → Suits (decide floats urls settings roles now demand node)
    unfolding decide Suits
    decide-Suits node chosen = elim (Bool-cases (is_fresh floats urls settings now demand node)) [
      | inl fresh ↦
          simp (decide, fresh)
            (Runs-Suits node _ chosen (fresh-IsHeard floats urls settings now demand node fresh)
              (decision_with-Runs floats urls settings demand node _ _))
      | inr stale ↦ simp (decide, stale) tt
    ]

    collect-Routes :
        (decided : Divided (Option (RoutingDecision Number)))
        (rest : Divided (List (RoutingDecision Number)))
        → Suits decided
        → Routes floats urls settings nodes roles now demand rest
        → Routes floats urls settings nodes roles now demand (collect decided rest)
    unfolding Suits
    collect-Routes zero_division rest suits others = raised suits
    collect-Routes (divided none) rest suits others = others
    collect-Routes (divided (some d)) (divided found) suits (routed others) = routed (suits, others)
    collect-Routes (divided (some d)) zero_division suits (raised z) = raised z

    decisions_from-Routes :
        (ranked : List (NodeRow Number))
        → All (IsChosen floats urls settings nodes roles) ranked
        → Routes floats urls settings nodes roles now demand
            (decisions_from floats urls settings roles now demand ranked)
    unfolding decisions_from
    decisions_from-Routes [] chosen = routed tt
    decisions_from-Routes (node ∷ ranked) (first, chosen) =
        collect-Routes (decide floats urls settings roles now demand node) _
          (decide-Suits node first) (decisions_from-Routes ranked chosen)

    sorted-Routes :
        (found : Divided (List (RoutingDecision Number)))
        → Routes floats urls settings nodes roles now demand found
        → Routes floats urls settings nodes roles now demand
            (map_divided (sort_by (decision_less floats urls settings)) found)
    sorted-Routes (divided found) (routed eligible) = routed (
        sort_by-All (IsEligible floats urls settings nodes roles now demand)
          (decision_less floats urls settings) found eligible)
    sorted-Routes zero_division (raised z) = raised z

  -- Every candidate that `route_candidates` returns is eligible. It is one of the nodes, online with a
  -- token and a valid URL, has a role that fits the task, and a heartbeat within the time limit, or
  -- none where the request is not for a cloud provider and names no amount of VRAM. It is a cloud node
  -- that is approved, or has the model, a runtime that is not down and the RAM that the request asks
  -- for. Where an amount of VRAM is needed, by the request or the catalogue, each of its GPUs has it
  -- free with the margin; but for a decision for the CPU alone, which is made only where the request
  -- allows it and the RAM is known to be enough. If no list is returned, a ZeroDivisionError is
  -- raised, for a request that is not for a cloud provider, and one of the nodes that would be
  -- considered has a GPU with a total of 0.
  pub route_candidates-Routes :
      (task_type : TaskType) (now : ℕ) (demand : Demand Number) (available : Bool)
      (nodes : List (NodeRow Number))
      → Routes floats urls settings nodes
          (preferred_roles task_type)
          now
          demand
          (route_candidates floats urls settings task_type now demand available nodes)
  unfolding route_candidates rank_candidates
  route_candidates-Routes task_type now demand available nodes =
      let roles = preferred_roles task_type in
      let chosen =
        sort_by-All (λ pair. IsChosen floats urls settings nodes roles pair.1)
          (scored_less floats urls) (scored floats urls roles demand.model nodes)
          (scored-All floats urls settings roles demand.model nodes) in
      elim (Bool-cases (
        demand.is_cloud
        && (demand.requires_privacy
            || (not available || not (in_cloud_models floats urls settings demand.model))))) [
              | inl denied ↦ simp (route_candidates, denied) (routed tt)
              | inr allowed ↦
                  simp (route_candidates, allowed)
                    (sorted-Routes nodes roles now demand
                      (decisions_from floats urls settings roles now demand
                        (rank_candidates floats urls task_type demand.model nodes))
                      (decisions_from-Routes nodes roles now demand
                        (rank_candidates floats urls task_type demand.model nodes)
                        (second_of-All floats urls settings roles nodes _ chosen)))
            ]
