-- ===== src/Scheduler/Memory.antt =====
-- The memory behind a decision of `route_candidates` of backend/app/services/scheduler.py.
use lycosa.Prelude.{
  ℕ, ◌≤◌, true, false, Option, none, some, List, [], ◌∷◌, length, All, Option-cases, nat_comparable,
  text_comparable, Text, ◌≡◌, refl, sym, ap, subst, ◌≢◌, inl, inr, arith, ◌⊎◌,
}
use mathlib.Core.List.{Memᴰ}
use lycosa.Scheduler.Route.{
  Divided, divided, zero_division, collect, is_zero, measured, gpu_candidate, gpu_candidates,
  usable_gpus, vram_needed, has_gpus, meets, is_enough,
}
use lycosa.Llm.Endpoints.{Urls}
use lycosa.Scheduler.{Floats, Gpu, NodeRow, Demand, Settings, larger}

pub Divided-cases : {A : Type 0} (d : Divided A) → ((a : A) × (d ≡ divided a)) ⊎ (d ≡ zero_division)
Divided-cases (divided a) = inl (a, refl)
Divided-cases zero_division = inr refl

collect-divided :
    {A : Type 0} (first : Divided (Option A)) (rest : Divided (List A)) {found : List A}
    → collect first rest ≡ divided found
    → ((first ≡ divided none) × (rest ≡ divided found))
      ⊎ ((a : A) × (others : List A) × (first ≡ divided (some a))
          × (rest ≡ divided others)
          × (found ≡ a ∷ others))
collect-divided zero_division rest e = absurd (ground (arith, e))
collect-divided (divided none) rest e = inl (refl, e)
collect-divided (divided (some a)) zero_division e = absurd (ground (arith, e))
collect-divided (divided (some a)) (divided others) e = inr (a, others, refl, refl, cc e)

pub collect-zero :
    {A : Type 0} (first : Divided (Option A)) (rest : Divided (List A))
    → collect first rest ≡ zero_division
    → (first ≡ zero_division) ⊎ (rest ≡ zero_division)
collect-zero zero_division rest e = inl refl
collect-zero (divided none) rest e = inr e
collect-zero (divided (some a)) zero_division e = inr refl
collect-zero (divided (some a)) (divided others) e = absurd (ground (arith, e))

module _ (floats : Floats) (urls : Urls) (settings : Settings (floats.Number)) where
  open floats use {Number, of_nat, plus, minus, times, less, truncated}

  -- A GPU that is available and measured, with the amount and the margin free.
  pub record HasRoom (needed : Number) (gpu : Gpu Number) : Type 0 where
    pub total : Number
    pub used : Number
    pub available : gpu.available ≡ true
    pub of_total : gpu.total ≡ some total
    pub of_used : gpu.used ≡ some used
    pub roomy :
        less (larger floats urls (of_nat 0) (minus total used)) (plus needed settings.vram_margin)
        ≡ false

  -- The memory that is asked for: by the request, or by the catalogue for a node with GPUs.
  pub data NeedsVram (demand : Demand Number) (node : NodeRow Number) (model : Text)
      (needed : Number) : Type 0 where
    asked : demand.required_vram ≡ some needed → NeedsVram demand node model needed
    estimated :
        (entry : Number × Number)
        → demand.required_vram ≡ none
        → has_gpus floats urls settings node.gpus ≡ true
        → settings.catalog model ≡ some entry
        → needed ≡ truncated (times entry.0 (of_nat 1_024))
        → NeedsVram demand node model needed

  -- An amount that is known and at least the one that is needed.
  pub record Suffices (known : Option Number) (needed : Number) : Type 0 where
    pub amount : Number
    pub measured : known ≡ some amount
    pub enough : less amount needed ≡ false

  pub vram_needed_lem :
      (demand : Demand Number) (node : NodeRow Number) (model : Text) (needed : Number)
      → NeedsVram demand node model needed
      → vram_needed floats urls settings demand node model ≡ some needed
  unfolding vram_needed
  vram_needed_lem demand node model needed (asked given) = rw given refl
  vram_needed_lem demand node model needed (estimated entry free gpus listed same) =
      rw (free, gpus, listed) (ap some (sym same))

  pub is_enough-Suffices :
      (known : Option Number) (needed : Number)
      → is_enough floats urls settings known (some needed) ≡ true
      → Suffices known needed
  is_enough-Suffices none needed e = absurd (ground (arith, e))
  is_enough-Suffices (some amount) needed e = record {
    amount = amount;
    measured = refl;
    enough = ground (arith, e);
  }

  pub meets-Suffices :
      (known asked_for : Option Number) (needed : Number)
      → meets floats urls settings known asked_for ≡ true
      → asked_for ≡ some needed
      → Suffices known needed
  meets-Suffices known asked_for needed e given =
      is_enough-Suffices known needed
        (subst (λ a. meets floats urls settings known a ≡ true) given e)

  -- A GPU of the list that is measured and has a total of 0.
  pub record HasZeroTotal (gpus : List (Gpu Number)) : Type 0 where
    pub gpu : Gpu Number
    pub listed : Memᴰ gpu gpus
    pub total : Number
    pub of_total : gpu.total ≡ some total
    pub zero_total : is_zero floats urls settings total ≡ true

  measured-HasRoom :
      (needed : Number) (gpu : Gpu Number) (total used : Number) {c : Number × Option ℕ}
      → gpu.total ≡ some total
      → gpu.used ≡ some used
      → measured floats urls settings (some needed) gpu total used ≡ divided (some c)
      → HasRoom needed gpu
  unfolding measured
  measured-HasRoom needed gpu total used {c} t u e = record {
    total = total;
    used = used;
    available = ground (arith, e);
    of_total = t;
    of_used = u;
    roomy = ground (arith, e);
  }

  gpu_candidate-HasRoom :
      (needed : Number) (gpu : Gpu Number) {c : Number × Option ℕ}
      → gpu_candidate floats urls settings (some needed) gpu ≡ divided (some c)
      → HasRoom needed gpu
  unfolding gpu_candidate
  gpu_candidate-HasRoom needed gpu {c} e = elim (Option-cases gpu.total) [
    | inl missing ↦ absurd (ground (arith, missing, e))
    | inr (total, t) ↦ elim (Option-cases gpu.used) [
      | inl missing ↦ absurd (ground (arith, t, missing, e))
      | inr (used, u) ↦ measured-HasRoom needed gpu total used {c = c} t u (rw (t, u) at e)
    ]
  ]

  gpu_candidate-HasZeroTotal :
      (required : Option Number) (gpu : Gpu Number) (gpus : List (Gpu Number))
      → gpu_candidate floats urls settings required gpu ≡ zero_division
      → HasZeroTotal (gpu ∷ gpus)
  unfolding gpu_candidate measured
  gpu_candidate-HasZeroTotal required gpu gpus e = elim (Option-cases gpu.total) [
    | inl missing ↦ absurd (ground (arith, missing, e))
    | inr (total, t) ↦ elim (Option-cases gpu.used) [
      | inl missing ↦ absurd (ground (arith, t, missing, e))
      | inr (used, u) ↦ record {
        gpu = gpu;
        listed = Memᴰ.head refl;
        total = total;
        of_total = t;
        zero_total = ground (arith, t, u, e);
      }
    ]
  ]

  length-gpu_candidates-le :
      (required : Option Number) (gpus : List (Gpu Number)) {found : List (Number × Option ℕ)}
      → gpu_candidates floats urls settings required gpus ≡ divided found
      → length found ≤ length gpus
  unfolding gpu_candidates
  length-gpu_candidates-le required [] e = ground (arith, e)
  length-gpu_candidates-le required (gpu ∷ gpus) {found} e =
      elim (collect-divided (gpu_candidate floats urls settings required gpu)
        (gpu_candidates floats urls settings required gpus) {found = found} e) [
          | inl (nothing, rest) ↦
              omega (arith, length-gpu_candidates-le required gpus {found = found} rest)
          | inr (c, found', taken, rest, same) ↦
              omega (
                arith,
                length-gpu_candidates-le required gpus {found = found'} rest,
                ap length same,
              )
        ]

  gpu_candidates-HasRoom :
      (needed : Number) (gpus : List (Gpu Number)) {found : List (Number × Option ℕ)}
      → gpu_candidates floats urls settings (some needed) gpus ≡ divided found
      → length found ≡ length gpus
      → All (HasRoom needed) gpus
  unfolding gpu_candidates
  gpu_candidates-HasRoom needed [] e full = tt
  gpu_candidates-HasRoom needed (gpu ∷ gpus) {found} e full =
      elim (collect-divided (gpu_candidate floats urls settings (some needed) gpu)
        (gpu_candidates floats urls settings (some needed) gpus) {found = found} e) [
          | inl (nothing, rest) ↦ absurd (
              omega (arith, full, length-gpu_candidates-le (some needed) gpus {found = found} rest))
          | inr (c, found', taken, rest, same) ↦ (
            gpu_candidate-HasRoom needed gpu {c = c} taken,
            gpu_candidates-HasRoom needed gpus {found = found'} rest
                (omega (arith, full, ap length same)),
          )
        ]

  gpu_candidates-HasZeroTotal :
      (required : Option Number) (gpus : List (Gpu Number))
      → gpu_candidates floats urls settings required gpus ≡ zero_division
      → HasZeroTotal gpus
  unfolding gpu_candidates
  gpu_candidates-HasZeroTotal required [] e = absurd (ground (arith, e))
  gpu_candidates-HasZeroTotal required (gpu ∷ gpus) e = elim (collect-zero _ _ e) [
    | inl first ↦ gpu_candidate-HasZeroTotal required gpu gpus first
    | inr later ↦
        let z = gpu_candidates-HasZeroTotal required gpus later in
        record {
          gpu = z.gpu;
          listed = Memᴰ.tail z.listed;
          total = z.total;
          of_total = z.of_total;
          zero_total = z.zero_total;
        }
  ]

  -- Where a GPU is chosen for an amount, every GPU of the node has room for it.
  pub usable_gpus-HasRoom :
      (needed : Number) (gpus : List (Gpu Number)) {c : Number × Option ℕ}
      {found : List (Number × Option ℕ)}
      → usable_gpus floats urls settings (some needed) gpus ≡ divided (c ∷ found)
      → (gpus ≢ []) × All (HasRoom needed) gpus
  unfolding usable_gpus gpu_candidates
  usable_gpus-HasRoom needed [] e = absurd (ground (arith, e))
  usable_gpus-HasRoom needed (gpu ∷ gpus) {c} {found} e =
      elim (Divided-cases (gpu_candidates floats urls settings (some needed) (gpu ∷ gpus))) [
        | inl (all, done) ↦ (
          (λ none_there. ground (arith, none_there)),
          gpu_candidates-HasRoom needed (gpu ∷ gpus) {found = all} done
              (ground (arith, rw done at e)),
        )
        | inr zero_there ↦ absurd (ground (arith, rw zero_there at e))
      ]

  pub usable_gpus-HasZeroTotal :
      (required : Option Number) (gpus : List (Gpu Number))
      → usable_gpus floats urls settings required gpus ≡ zero_division
      → HasZeroTotal gpus
  unfolding usable_gpus
  usable_gpus-HasZeroTotal required gpus e =
      elim (Divided-cases (gpu_candidates floats urls settings required gpus)) [
        | inl (all, done) ↦ absurd (ground (arith, rw done at e))
        | inr zero_there ↦ gpu_candidates-HasZeroTotal required gpus zero_there
      ]
