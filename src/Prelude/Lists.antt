-- ===== src/Prelude/Lists.antt =====
-- Lists measured by native numbers, and predicates over their members.
use Prim.Native.Nat.{ℕ, zero, suc, ◌+◌, ◌≤◌}
use mathlib.Core.Bool.{Bool, true, false, ◌||◌}
use mathlib.Core.List.{List, [], ◌∷◌, ◌++◌, map}
use mathlib.Core.Option.{Option, none, some}
use mathlib.Core.Path.{◌≡◌, refl, ap, subst}
use native.Mathlib.Omega.{arith}
use mathlib.Core.Logic.{inl, inr}
use lycosa.Prelude.Tests.{Comparable, ◌==◌, Bool-cases}

module _ {ℓ} {A : Type ℓ} where
  abbrev pub length : List A → ℕ
  length [] = 0
  length (x ∷ xs) = suc (length xs)

  abbrev pub take : ℕ → List A → List A
  take zero xs = []
  take (suc n) [] = []
  take (suc n) (x ∷ xs) = x ∷ take n xs

  abbrev pub drop : ℕ → List A → List A
  drop zero xs = xs
  drop (suc n) [] = []
  drop (suc n) (x ∷ xs) = drop n xs

  abbrev pub get_elem? : List A → ℕ → Option A
  get_elem? [] i = none
  get_elem? (x ∷ xs) zero = some x
  get_elem? (x ∷ xs) (suc i) = get_elem? xs i

  pub length-append : (xs ys : List A) → length (xs ++ ys) ≡ length xs + length ys
  length-append [] ys = omega arith
  length-append (x ∷ xs) ys = omega (arith, length-append xs ys)

  pub length-take-le : (n : ℕ) (xs : List A) → length (take n xs) ≤ n
  length-take-le (suc n) (x ∷ xs) = omega (arith, length-take-le n xs)
  length-take-le (suc n) [] = omega arith
  length-take-le zero xs = omega arith

  -- Every member satisfies the predicate, as a tuple that the tactics read.
  abbrev pub All {κ} : (A → Type κ) → List A → Type κ
  All Holds = elim [ [] ↦ Unit | a ∷ (rest → others) ↦ Holds a × others ]

  module _ {κ} (Holds : A → Type κ) where
    pub All-append :
        (front back : List A) → All Holds front → All Holds back → All Holds (front ++ back)
    All-append [] back _ both = both
    All-append (a ∷ front) back (first, others) both = (first, All-append front back others both)

  -- Python's `any`.
  unfoldable pub any : (A → Bool) → List A → Bool
  any p [] = false
  any p (x ∷ xs) = p x || any p xs

  pub any-nil : (test : A → Bool) → any test [] ≡ true → ⊥
  unfolding any
  any-nil test holds = subst (λ b. elim b [ true ↦ ⊥ | false ↦ Unit {0} ]) holds tt

  pub any-tail :
      (test : A → Bool) (x : A) (xs : List A)
      → test x ≡ false
      → any test (x ∷ xs) ≡ true
      → any test xs ≡ true
  unfolding any
  any-tail test x xs fails holds = rw fails at holds

  pub any-All : (test : A → Bool) (xs : List A) → any test xs ≡ false → All (λ x. test x ≡ false) xs
  unfolding any
  any-All test [] fails = tt
  any-All test (x ∷ xs) fails = elim (Bool-cases (test x)) [
    | inl holds ↦ ground (arith, holds, fails)
    | inr misses ↦ (misses, any-All test xs (rw misses at fails))
  ]

  pub any-append-last :
      (test : A → Bool) (xs : List A) (x : A) → test x ≡ true → any test (xs ++ x ∷ []) ≡ true
  unfolding any
  any-append-last test [] x holds = rw holds refl
  any-append-last test (y ∷ xs) x holds =
      rw (any-append-last test xs x holds)
        (elim (test y) as (λ b. (b || true) ≡ true) [ true ↦ refl | false ↦ refl ])

  -- The comprehension `[x for x in xs if p(x)]`.
  pub keep_if : (A → Bool) → List A → List A
  keep_if p [] = []
  keep_if p (x ∷ xs) = elim (p x) [ true ↦ x ∷ keep_if p xs | false ↦ keep_if p xs ]

module _ {ℓ κ} {A : Type ℓ} {B : Type κ} where
  pub length-map : (xs : List A) (f : A → B) → length (map f xs) ≡ length xs
  length-map [] f = refl
  length-map (x ∷ xs) f = ap suc (length-map xs f)

-- Python's `in` on a list or a set.
module _ {ℓ} {A : Type ℓ} ⦃e : Comparable A⦄ where
  abbrev pub is_in : A → List A → Bool
  is_in a [] = false
  is_in a (x ∷ xs) = (x == a) || is_in a xs
