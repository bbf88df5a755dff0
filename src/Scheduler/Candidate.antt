-- ===== src/Scheduler/Candidate.antt =====
-- What a candidate of `route_candidates` of backend/app/services/scheduler.py has to satisfy.
use lycosa.Prelude.{
  ℕ, ◌-◌, ◌*◌, ◌≤◌, true, false, none, some, List, [], Text, All, is_in, Option-cases,
  nat_comparable, text_comparable, ◌≡◌, ◌≢◌, inl, inr, arith,
}
use mathlib.Core.List.{Memᴰ}
use lycosa.Scheduler.Route.{
  Divided, divided, zero_division, is_fresh, is_cloud_node, is_https, origin_matches, ram_needed,
}
use lycosa.Llm.Endpoints.{Urls, is_valid_agent_url}
use lycosa.Scheduler.{
  Floats, NodeRow, Demand, Settings, RoutingDecision, is_dispatchable, effective_role, rank_of,
  is_given,
}
use lycosa.Scheduler.Memory.{HasZeroTotal, HasRoom, NeedsVram, Suffices}

module _ (floats : Floats) (urls : Urls) (settings : Settings (floats.Number)) where
  open floats use {Number, less}

  -- A node that is online, with a token and a valid URL of its agent, and a role that fits.
  pub record IsFit (roles : List Text) (node : NodeRow Number) : Type 0 where
    pub dispatchable :
        (node.online ≡ true)
        × (is_given node.agent_token ≡ true)
        × (is_valid_agent_url urls node.agent_url ≡ true)
    pub rank : ℕ
    pub fits : rank_of (effective_role node) roles ≡ some rank

  -- A cloud node that the settings approve for its URL, which is one of HTTPS.
  pub record IsApproved (node : NodeRow Number) : Type 0 where
    pub allowed : settings.cloud_allowed node.id ≡ true
    pub secure : is_https floats urls settings node.agent_url ≡ true
    pub origin :
        origin_matches floats urls settings (settings.cloud_origin node.id) node.agent_url ≡ true
    pub capable : node.cloud_capable ≡ true

  -- The last heartbeat is within the time limit; a node that has sent none serves only requests that
  -- are not for a cloud provider and name no amount of VRAM.
  pub data IsHeard (now : ℕ) (demand : Demand Number) (node : NodeRow Number) : Type 0 where
    heard :
        (last : ℕ)
        → node.last_heartbeat_at ≡ some last
        → now - last ≤ settings.heartbeat_timeout * 1_000_000
        → IsHeard now demand node
    never_heard :
        node.last_heartbeat_at ≡ none
        → demand.required_vram ≡ none
        → demand.is_cloud ≡ false
        → IsHeard now demand node

  -- The memory for the model: with an amount of VRAM needed, every GPU of the node has room for it;
  -- on the CPU alone, which the request allows, the node has the RAM that is needed.
  pub data RunsIn (demand : Demand Number) (d : RoutingDecision Number) : Type 0 where
    on_gpus :
        d.cpu_only ≡ false
        → ((needed : Number)
            → NeedsVram floats urls settings demand d.node d.model needed
            → (d.node.gpus ≢ []) × All (HasRoom floats urls settings needed) d.node.gpus)
        → RunsIn demand d
    on_cpu :
        (needed : Number)
        → d.cpu_only ≡ true
        → demand.allow_cpu_fallback ≡ true
        → ram_needed floats urls settings demand d.model ≡ some needed
        → Suffices floats urls settings d.node.ram_available needed
        → RunsIn demand d

  -- A node with the model and a runtime that is not down, the RAM that the request asks for, and the
  -- memory for the model.
  pub record HasModel (demand : Demand Number) (d : RoutingDecision Number) : Type 0 where
    pub up : d.node.ollama_down ≡ false
    pub installed : is_in d.model d.node.models ≡ true
    pub ram :
        (needed : Number)
        → demand.required_ram ≡ some needed
        → Suffices floats urls settings d.node.ram_available needed
    pub memory : RunsIn demand d

  -- Where a decision runs its model.
  pub data RunsOn (demand : Demand Number) (d : RoutingDecision Number) : Type 0 where
    in_cloud : demand.is_cloud ≡ true → IsApproved d.node → RunsOn demand d
    on_node : demand.is_cloud ≡ false → HasModel demand d → RunsOn demand d

  pub record IsEligible (nodes : List (NodeRow Number)) (roles : List Text) (now : ℕ)
      (demand : Demand Number) (d : RoutingDecision Number) : Type 0 where
    pub listed : Memᴰ d.node nodes
    pub fit : IsFit roles d.node
    pub fresh : IsHeard now demand d.node
    pub runs : RunsOn demand d

  -- A node for which a division by zero leaves the function: it fits, and the total of one of its
  -- GPUs is 0.
  pub record IsZeroNode (nodes : List (NodeRow Number)) (roles : List Text) (now : ℕ)
      (demand : Demand Number) : Type 0 where
    pub node : NodeRow Number
    pub listed : Memᴰ node nodes
    pub fit : IsFit roles node
    pub fresh : IsHeard now demand node
    pub local : demand.is_cloud ≡ false
    pub gpu : HasZeroTotal floats urls settings node.gpus

  -- What `route_candidates` returns or raises.
  pub data Routes (nodes : List (NodeRow Number)) (roles : List Text) (now : ℕ)
      (demand : Demand Number) : Divided (List (RoutingDecision Number)) → Type 0 where
    routed :
        {found : List (RoutingDecision Number)}
        → All (IsEligible nodes roles now demand) found
        → Routes nodes roles now demand (divided found)
    raised : IsZeroNode nodes roles now demand → Routes nodes roles now demand zero_division

  pub is_dispatchable_lem :
      (node : NodeRow Number)
      → is_dispatchable floats urls node ≡ true
      → (node.online ≡ true)
        × (is_given node.agent_token ≡ true)
        × (is_valid_agent_url urls node.agent_url ≡ true)
  unfolding is_dispatchable
  is_dispatchable_lem node e = ground (arith, e)

  pub cloud-IsApproved :
      (node : NodeRow Number) → is_cloud_node floats urls settings node ≡ true → IsApproved node
  unfolding is_cloud_node
  cloud-IsApproved node e = record {
    allowed = ground (arith, e);
    secure = ground (arith, e);
    origin = ground (arith, e);
    capable = ground (arith, e);
  }

  pub fresh-IsHeard :
      (now : ℕ) (demand : Demand Number) (node : NodeRow Number)
      → is_fresh floats urls settings now demand node ≡ true
      → IsHeard now demand node
  unfolding is_fresh
  fresh-IsHeard now demand node e = elim (Option-cases node.last_heartbeat_at) [
    | inl silent ↦ never_heard silent (ground (arith, silent, e)) (ground (arith, silent, e))
    | inr (last, sent) ↦ heard last sent (ground (arith, sent, e))
  ]
