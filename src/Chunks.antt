-- ===== src/Chunks.antt =====
-- `chunk_text` of backend/app/services/knowledge/loader.py. Which characters are white space is a
-- parameter.
pub mod Bounds
use lycosa.Prelude.{
  ℕ, zero, suc, ◌+◌, ◌-◌, ◌*◌, ◌/◌, ◌%◌, ◌^◌, ◌≤◌, ◌<◌, min, max, Bool, true, false, not, ◌&&◌,
  ◌||◌, Option, none, some, List, [], ◌∷◌, ◌++◌, map, append-nil, append_assoc, Text, text, String,
  length, take, drop, get_elem?, length-append, length-map, length-take-le, All, All-append, any,
  keep_if, is_in, ltb, leb, nat_beq, if◌then◌else◌, ltb→lt, lt→ltb, leb→le, le→leb, nat_beq_iff,
  Bool-cases, Option-cases, Comparable, ◌==◌, nat_comparable, text_beq, text_beq_iff,
  text_comparable, beq_refl, beq_false, ◌≡◌, refl, sym, ap, ◌∙◌, subst, ◌≢◌, ◌↔◌, ◌⊎◌, inl, inr,
  starts_with, contains, join, arith,
}

module _ (is_space : ℕ → Bool) where
  -- `s.lstrip()`
  unfoldable pub strip_start : Text → Text
  strip_start [] = []
  strip_start (c ∷ rest) = let later = strip_start rest in if is_space c then later else c ∷ rest

  abbrev pub is_empty : Text → Bool
  is_empty [] = true
  is_empty (c ∷ rest) = false

  -- `s.rstrip()`
  unfoldable pub strip_end : Text → Text
  strip_end [] = []
  strip_end (c ∷ rest) =
      let kept = strip_end rest in if is_empty kept && is_space c then [] else c ∷ kept

  unfoldable pub strip : Text → Text
  unfolding strip_start strip_end
  strip s = strip_end (strip_start s)

  -- The first part of a split, one character longer.
  abbrev pub onto_first : ℕ → List Text → List Text
  onto_first c [] = (c ∷ []) ∷ []
  onto_first c (part ∷ parts) = (c ∷ part) ∷ parts

  -- `text.split("\n\n")`; `skip` says that the second newline of a separator is still to come.
  unfoldable pub split_from : Bool → Text → List Text
  split_from skip [] = [] ∷ []
  split_from true (c ∷ rest) = split_from false rest
  split_from false (c ∷ rest) =
      let after = split_from true rest in
      let within = split_from false rest in
      if starts_with (10 ∷ 10 ∷ []) (c ∷ rest) then [] ∷ after else onto_first c within

  -- `[p.strip() for p in parts if p.strip()]`
  unfoldable pub stripped : List Text → List Text
  unfolding strip
  stripped [] = []
  stripped (part ∷ parts) =
      let rest = stripped parts in if is_empty (strip part) then rest else strip part ∷ rest

  module _ (size overlap : ℕ) where
    -- The `while` over a paragraph, from `start` on, on fuel; `none` when the fuel runs out.
    unfoldable pub windows : ℕ → Text → Option (List Text)
    unfolding strip
    windows fuel [] = some []
    windows zero (c ∷ rest) = none
    windows (suc fuel) (c ∷ rest) =
        let later = windows fuel (drop (size - overlap) (c ∷ rest)) in
        elim later [ none ↦ none | some chunks ↦ some (strip (take size (c ∷ rest)) ∷ chunks) ]

    -- `flush`, on the chunks so far.
    unfoldable pub flush : List Text → Text → List Text
    unfolding strip
    flush chunks current = if is_empty (strip current) then chunks else chunks ++ strip current ∷ []

    -- `f"{current}\n\n{paragraph}" if current else paragraph`
    abbrev pub joined : Text → Text → Text
    joined [] paragraph = paragraph
    joined (c ∷ current) paragraph = (c ∷ current) ++ (10 ∷ 10 ∷ paragraph)

    -- The chunks of an oversized paragraph behind those that are flushed.
    abbrev pub with_windows :
        Option (List Text) → List Text → (List Text → Option (List Text)) → Option (List Text)
    with_windows none chunks next = none
    with_windows (some split) chunks next = next (chunks ++ split)

    -- The loop over the paragraphs.
    unfoldable pub pack : List Text → List Text → Text → Option (List Text)
    unfolding windows flush
    pack [] chunks current = some (flush chunks current)
    pack (paragraph ∷ paragraphs) chunks current =
        if ltb size (length paragraph)
        then with_windows (windows (length paragraph) paragraph) (flush chunks current)
            (λ chunks'. pack paragraphs chunks' [])
        else if ltb size (length current + length paragraph + 2)
        then pack paragraphs (flush chunks current) paragraph
        else pack paragraphs chunks (joined current paragraph)

    unfoldable pub chunk_text : Text → Option (List Text)
    unfolding stripped split_from pack
    chunk_text t = pack (stripped (split_from false t)) [] []
