-- ===== src/Tests/Chunks.antt =====
-- Texts in chunks of seven characters.
use lycosa.Prelude.{
  ℕ, Bool, some, [], ◌∷◌, text, leb, nat_comparable, text_comparable, ◌≡◌, refl, starts_with, arith,
}
use lycosa.Chunks.{chunk_text}
use lycosa.Chunks.Bounds.{IsChunked, chunk_text-IsChunked}

program : Unit {0}
unfolding chunk_text starts_with
program = tt

abbrev is_blank : ℕ → Bool
is_blank c = leb c 32

packed :
    chunk_text is_blank 7 2 (text " a\n\nbcd\n\nefghij")
    ≡ some (text "a\n\nbcd" ∷ text "efghij" ∷ [])
unfolding program
packed = refl

overlapping :
    chunk_text is_blank 7 2 (text "abcdefghij") ≡ some (text "abcdefg" ∷ text "fghij" ∷ [])
unfolding program
overlapping = refl

-- A window of white space within a long paragraph becomes an empty chunk.
empty_chunk :
    chunk_text is_blank 3 1 (text "a        b") ≡ some (text "a" ∷ [] ∷ [] ∷ [] ∷ text "b" ∷ [])
unfolding program
empty_chunk = refl

chunk_text-IsChunked_example : IsChunked is_blank 7 2 (chunk_text is_blank 7 2 (text "abcdefghij"))
chunk_text-IsChunked_example = chunk_text-IsChunked is_blank 7 2 (text "abcdefghij") (omega arith)
