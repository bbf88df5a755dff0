-- ===== src/Scheduler/Ranked.antt =====
-- The nodes of `rank_candidates` of backend/app/services/scheduler.py.
use lycosa.Prelude.{
  Bool, Option, List, [], ◌∷◌, map, Text, All, Bool-cases, Option-cases, nat_comparable,
  text_comparable, inl, inr, refl,
}
use mathlib.Core.List.{Memᴰ}
use lycosa.Llm.Endpoints.{Urls}
use lycosa.Scheduler.{
  Floats, NodeRow, Settings, insert_by, sort_by, is_dispatchable, scored, second_of, effective_role,
  rank_of,
}
use lycosa.Scheduler.Candidate.{IsFit, is_dispatchable_lem}

module _ {A : Type 0} (P : A → Type 0) (less : A → A → Bool) where
  insert_by-All : (a : A) (xs : List A) → P a → All P xs → All P (insert_by less a xs)
  unfolding insert_by
  insert_by-All a [] here others = (here, tt)
  insert_by-All a (b ∷ xs) here (first, others) = elim (Bool-cases (less a b)) [
    | inl below ↦ rw below (first, insert_by-All a xs here others)
    | inr above ↦ rw above (here, (first, others))
  ]

  pub sort_by-All : (xs : List A) → All P xs → All P (sort_by less xs)
  unfolding sort_by
  sort_by-All [] holds = tt
  sort_by-All (a ∷ xs) (here, others) =
      insert_by-All a (sort_by less xs) here (sort_by-All xs others)

module _ (floats : Floats) (urls : Urls) (settings : Settings (floats.Number)) where
  open floats use {Number, less}

  -- A node of a list that fits.
  abbrev pub IsChosen : List (NodeRow Number) → List Text → NodeRow Number → Type 0
  IsChosen nodes roles node = Memᴰ node nodes × IsFit floats urls settings roles node

  further :
      (roles : List Text) (node : NodeRow Number) (nodes : List (NodeRow Number))
      (pairs : List (Number × NodeRow Number))
      → All (λ pair. IsChosen nodes roles pair.1) pairs
      → All (λ pair. IsChosen (node ∷ nodes) roles pair.1) pairs
  further roles node nodes [] chosen = tt
  further roles node nodes (pair ∷ pairs) ((listed, fit), chosen) =
      ((Memᴰ.tail listed, fit), further roles node nodes pairs chosen)

  pub scored-All :
      (roles : List Text) (model : Option Text) (nodes : List (NodeRow Number))
      → All (λ pair. IsChosen nodes roles pair.1) (scored floats urls roles model nodes)
  unfolding scored
  scored-All roles model [] = tt
  scored-All roles model (node ∷ nodes) =
      let later =
        further roles node nodes (scored floats urls roles model nodes)
          (scored-All roles model nodes) in
      elim (Bool-cases (is_dispatchable floats urls node)) [
        | inl good ↦ elim (Option-cases (rank_of (effective_role node) roles)) [
          | inl unfit ↦ simp (scored, good, unfit) later
          | inr (rank, fits) ↦
              simp (scored, good, fits)
                (
                  (
                    Memᴰ.head refl,
                    record {
                      dispatchable = is_dispatchable_lem floats urls settings node good;
                      rank = rank;
                      fits = fits;
                    },
                  ),
                  later,
                )
        ]
        | inr bad ↦ simp (scored, bad) later
      ]

  pub second_of-All :
      (roles : List Text) (nodes : List (NodeRow Number)) (pairs : List (Number × NodeRow Number))
      → All (λ pair. IsChosen nodes roles pair.1) pairs
      → All (IsChosen nodes roles) (map (second_of floats urls) pairs)
  second_of-All roles nodes [] fit = tt
  second_of-All roles nodes ((score, node) ∷ pairs) (first, fit) =
      (first, second_of-All roles nodes pairs fit)
