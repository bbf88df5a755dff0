-- ===== src/Prelude/Sets.antt =====
-- A Python set of numbers as a list without repetitions.
use Prim.Native.Nat.{ℕ}
use mathlib.Core.Bool.{false}
use mathlib.Core.List.{List, [], ◌∷◌}
use mathlib.Core.Path.{◌≡◌, refl, ap}
use native.Mathlib.Omega.{arith}
use lycosa.Prelude.Tests.{if◌then◌else◌, ◌==◌, nat_comparable, beq_refl}
use lycosa.Prelude.Lists.{is_in}

-- `s.add(id)`
unfoldable pub add_to : ℕ → List ℕ → List ℕ
add_to id ids = if is_in id ids then ids else id ∷ ids

-- `s.discard(id)`
unfoldable pub discard : ℕ → List ℕ → List ℕ
discard id [] = []
discard id (i ∷ ids) = let rest = discard id ids in if i == id then rest else i ∷ rest

discard-id : (id : ℕ) (ids : List ℕ) → is_in id ids ≡ false → discard id ids ≡ ids
unfolding discard
discard-id id [] out = refl
discard-id id (i ∷ ids) out = rw (head out) (ap (λ l. i ∷ l) (discard-id id ids (tail out)))
  where
    head : is_in id (i ∷ ids) ≡ false → (i == id) ≡ false
    head e = ground arith

    tail : is_in id (i ∷ ids) ≡ false → is_in id ids ≡ false
    tail e = ground arith

pub discard-add_to :
    (id : ℕ) (ids : List ℕ) → is_in id ids ≡ false → discard id (add_to id ids) ≡ ids
unfolding discard add_to
discard-add_to id ids out = rw (out, beq_refl id) (discard-id id ids out)
