-- ===== src/Tests/Scheduler.antt =====
-- Two nodes with whole numbers for scores: one idle, one that is too small for the request.
use lycosa.Prelude.{
  ℕ, ◌+◌, ◌-◌, ◌*◌, ◌/◌, true, false, Option, none, some, List, [], ◌∷◌, text, length, map, ltb,
  nat_comparable, text_comparable, ◌≡◌, refl, starts_with, contains,
}
use lycosa.Llm.Endpoints.{Urls, port_of, is_valid_agent_url}
use lycosa.Orchestrator.Classifier.{general, preferred_roles}
use lycosa.Scheduler.{Floats, Gpu, NodeRow, Demand, Settings, RoutingDecision}
use lycosa.Scheduler.Route.{route_candidates, Divided, divided, zero_division, map_divided}
use lycosa.Scheduler.Candidate.{Routes}
use lycosa.Scheduler.Eligible.{route_candidates-Routes}

program : Unit {0}
unfolding contains route_candidates preferred_roles is_valid_agent_url starts_with
program = tt

abbrev floats : Floats
floats = record {
  Number = ℕ;
  of_nat = λ n. n;
  plus = λ a b. a + b;
  minus = λ a b. a - b;
  times = λ a b. a * b;
  over = λ a b. a / b;
  less = λ a b. ltb a b;
  truncated = λ a. a;
}

abbrev urls : Urls
urls = record {
  split = λ url. some (record {
    scheme = text "http";
    netloc = url;
    hostname = text "box";
    username = none;
    password = none;
    path = [];
    query = [];
    fragment = [];
    port = port_of 9;
  });
  unsplit = λ scheme netloc path. netloc;
  show = λ n. text "9";
  strip = λ t. t;
}

abbrev node_of : ℕ → ℕ → NodeRow ℕ
node_of id ram = record {
  id = id;
  online = true;
  agent_url = some (text "http://box:9");
  agent_token = some (text "t");
  role = some (text "hybrid");
  recommended_role = none;
  models = text "llama" ∷ [];
  ram_gb = some ram;
  gpu_vram_gb = none;
  cpu_percent = ram;
  ram_percent = 10;
  running_tasks = 0;
  last_heartbeat_at = some 100;
  ollama_down = false;
  ram_available = some (ram * 1_000);
  gpus = [];
  cloud_capable = false;
}

abbrev demand_of : Option ℕ → Demand ℕ
demand_of ram = record {
  is_cloud = false;
  model = some (text "llama");
  requires_privacy = true;
  required_vram = none;
  required_ram = ram;
  allow_cpu_fallback = false;
}

abbrev settings : Settings ℕ
settings = record {
  cloud_models = [];
  heartbeat_timeout = 60;
  cloud_allowed = λ id. false;
  cloud_origin = λ id. none;
  vram_margin = 1_024;
  catalog = λ model. none;
}

abbrev nodes : List (NodeRow ℕ)
nodes = node_of 1 8 ∷ node_of 2 64 ∷ []

abbrev found : Option ℕ → Divided (List (RoutingDecision ℕ))
found ram = route_candidates floats urls settings general 200 (demand_of ram) true nodes

abbrev ids : List (RoutingDecision ℕ) → List ℕ
ids = map (λ (d : RoutingDecision ℕ). d.node.id)

both_fit : map_divided length (found none) ≡ divided 2
unfolding program
both_fit = refl

one_fits : map_divided length (found (some 16_000)) ≡ divided 1
unfolding program
one_fits = refl

-- A node with one GPU, and a request for an amount of its memory.
abbrev gpu_of : ℕ → Gpu ℕ
gpu_of used = record {
  index = some 0;
  available = true;
  total = some 16_000;
  used = some used;
  utilization = none;
}

abbrev gpu_nodes : List (NodeRow ℕ)
gpu_nodes =
    record (node_of 3 8) { gpus = gpu_of 1_000 ∷ [] }
    ∷ record (node_of 4 8) { gpus = gpu_of 1_000 ∷ gpu_of 15_000 ∷ [] }
    ∷ []

abbrev gpu_demand : Demand ℕ
gpu_demand = record (demand_of (some 4_000)) { required_vram = some 8_000 }

abbrev on_gpu : Divided (List (RoutingDecision ℕ))
on_gpu = route_candidates floats urls settings general 200 gpu_demand true gpu_nodes

-- The node of which every GPU has the room.
one_has_room : map_divided ids on_gpu ≡ divided (3 ∷ [])
unfolding program
one_has_room = refl

-- A node that reports a GPU without memory stops the routing of every node.
abbrev broken_gpu : Gpu ℕ
broken_gpu = record (gpu_of 0) { total = some 0 }

broken_node :
    route_candidates floats urls settings general 200
      (demand_of none)
      true
      (record (node_of 5 8) { gpus = broken_gpu ∷ [] } ∷ nodes)
    ≡ zero_division
unfolding program
broken_node = refl

route_candidates-Routes_example :
    Routes floats urls settings gpu_nodes (preferred_roles general) 200 gpu_demand on_gpu
route_candidates-Routes_example =
    route_candidates-Routes floats urls settings general 200 gpu_demand true gpu_nodes
