-- ===== src/Chunks/Bounds.antt =====
-- The number and the length of the chunks.
use lycosa.Prelude.{
  ℕ, zero, suc, ◌+◌, ◌-◌, ◌≤◌, ◌<◌, Bool, false, Option, some, List, [], ◌∷◌, ◌++◌, Text, length,
  take, drop, length-append, length-take-le, All, All-append, ltb, Bool-cases, nat_comparable,
  text_comparable, ◌≡◌, refl, inl, inr, arith,
}
use lycosa.Chunks.{
  strip_start, strip_end, strip, is_empty, windows, flush, joined, pack, stripped, split_from,
  chunk_text,
}

length-drop : (n : ℕ) (t : Text) → length (drop n t) ≤ length t
length-drop zero t = omega arith
length-drop (suc n) [] = omega arith
length-drop (suc n) (c ∷ t) = omega (arith, length-drop n t)

length-drop-le : (n : ℕ) (t : Text) (c : ℕ) → 1 ≤ n → length (drop n (c ∷ t)) ≤ length t
length-drop-le zero t c some_step = absurd (omega (arith, some_step))
length-drop-le (suc n) t c some_step = length-drop n t

module _ (is_space : ℕ → Bool) where
  length-strip_start-le : (s : Text) → length (strip_start is_space s) ≤ length s
  unfolding strip_start
  length-strip_start-le [] = omega arith
  length-strip_start-le (c ∷ rest) = ground (arith, length-strip_start-le rest)

  length-strip_end-le : (s : Text) → length (strip_end is_space s) ≤ length s
  unfolding strip_end
  length-strip_end-le [] = omega arith
  length-strip_end-le (c ∷ rest) = ground (arith, length-strip_end-le rest)

  length-strip-le : (s : Text) → length (strip is_space s) ≤ length s
  unfolding strip
  length-strip-le s =
      omega (arith, length-strip_end-le (strip_start is_space s), length-strip_start-le s)

  module _ (size overlap : ℕ) where
    abbrev IsShort : Text → Type 0
    IsShort chunk = length chunk ≤ size

    -- The loops return, and no chunk is longer than `size`.
    pub record IsChunked (result : Option (List Text)) : Type 0 where
      pub chunks : List Text
      pub returns : result ≡ some chunks
      pub short : All IsShort chunks

    windows-IsChunked :
        (fuel : ℕ) (paragraph : Text)
        → overlap < size
        → length paragraph ≤ fuel
        → IsChunked (windows is_space size overlap fuel paragraph)
    unfolding windows
    windows-IsChunked fuel [] wide enough = record { chunks = []; returns = refl; short = tt }
    windows-IsChunked zero (c ∷ rest) wide enough = absurd (omega (arith, enough))
    windows-IsChunked (suc fuel) (c ∷ rest) wide enough =
        let later =
          windows-IsChunked fuel (drop (size - overlap) (c ∷ rest)) wide
            (omega (arith, enough, length-drop-le (size - overlap) rest c (omega (arith, wide)))) in
        record {
          chunks = strip is_space (take size (c ∷ rest)) ∷ later.chunks;
          returns = simp (windows, later.returns) refl;
          short = (
            omega (arith, length-strip-le (take size (c ∷ rest)), length-take-le size (c ∷ rest)),
            later.short,
          );
        }

    flush-IsShort :
        (chunks : List Text) (current : Text)
        → All IsShort chunks
        → length current ≤ size
        → All IsShort (flush is_space size overlap chunks current)
    unfolding flush
    flush-IsShort chunks current before here =
        elim (Bool-cases (is_empty is_space (strip is_space current))) [
          | inl blank ↦ simp (flush, blank) before
          | inr filled ↦
              simp (flush, filled)
                (All-append IsShort chunks (strip is_space current ∷ []) before
                  (omega (arith, length-strip-le current, here), tt))
        ]

    length-joined-le :
        (current paragraph : Text)
        → length paragraph ≤ size
        → length current + length paragraph + 2 ≤ size
        → length (joined is_space size overlap current paragraph) ≤ size
    length-joined-le [] paragraph fits together = fits
    length-joined-le (c ∷ current) paragraph fits together =
        omega (arith, together, length-append current (10 ∷ 10 ∷ paragraph))

    pack-IsChunked :
        (paragraphs : List Text) (chunks : List Text) (current : Text)
        → overlap < size
        → All IsShort chunks
        → length current ≤ size
        → IsChunked (pack is_space size overlap paragraphs chunks current)
    unfolding pack
    pack-IsChunked [] chunks current wide before here = record {
      chunks = flush is_space size overlap chunks current;
      returns = refl;
      short = flush-IsShort chunks current before here;
    }
    pack-IsChunked (paragraph ∷ paragraphs) chunks current wide before here =
        let flushed = flush is_space size overlap chunks current in
        let kept = flush-IsShort chunks current before here in
        elim (Bool-cases (ltb size (length paragraph))) [
          | inl long ↦
              let split = windows-IsChunked (length paragraph) paragraph wide (omega arith) in
              simp (pack, long, split.returns)
                (pack-IsChunked paragraphs (flushed ++ split.chunks) [] wide
                  (All-append IsShort flushed split.chunks kept split.short) (omega arith))
          | inr fits ↦ elim (Bool-cases (ltb size (length current + length paragraph + 2))) [
            | inl full ↦
                simp (pack, fits, full)
                  (pack-IsChunked paragraphs flushed paragraph wide kept (ground (arith, fits)))
            | inr room ↦
                simp (pack, fits, room)
                  (pack-IsChunked paragraphs chunks (joined is_space size overlap current paragraph)
                    wide before
                    (length-joined-le current paragraph (ground (arith, fits))
                      (ground (arith, room))))
          ]
        ]

    -- With an overlap that is smaller than the size, `chunk_text` returns on every text, with chunks
    -- of `size` characters at most.
    pub chunk_text-IsChunked :
        (t : Text) → overlap < size → IsChunked (chunk_text is_space size overlap t)
    unfolding chunk_text
    chunk_text-IsChunked t wide =
        pack-IsChunked (stripped is_space (split_from is_space false t)) [] [] wide tt (omega arith)
