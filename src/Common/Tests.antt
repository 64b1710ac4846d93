-- ===== src/Common/Tests.antt =====
-- Boolean tests on numbers and byte strings, and the conditional.
use Prim.Native.Nat.{ℕ, zero, suc, ◌≤◌, ◌<◌, compare, Ordering}
use mathlib.Core.Path.{◌≡◌, refl}
use mathlib.Core.Logic.{◌↔◌, ◌⊎◌, inl, inr}
use mathlib.Core.Bool.{Bool, true, false, ◌&&◌}
use mathlib.Core.List.{List, [], ◌∷◌}
use native.Mathlib.Omega.{arith}

abbrev pub ltb : ℕ → ℕ → Bool
ltb a b = elim (compare a b) [ Ordering.lt ↦ true | _ ↦ false ]

abbrev pub leb : ℕ → ℕ → Bool
leb a b = elim (compare a b) [ Ordering.gt ↦ false | _ ↦ true ]

infix 50 ◌==◌
abbrev pub ◌==◌ : ℕ → ℕ → Bool
a == b = elim (compare a b) [ Ordering.eq ↦ true | _ ↦ false ]

infix 1 if◌then◌else◌
abbrev pub if◌then◌else◌ {ℓ} : {A : Type ℓ} → Bool → A → A → A
if true then x else y = x
if false then x else y = y

pub ==_iff : (a b : ℕ) → ((a == b) ≡ true) ↔ (a ≡ b)
==_iff a b = ground arith

pub lt→ltb : (a b : ℕ) → a < b → ltb a b ≡ true
lt→ltb a b h = ground arith

pub le→ltb : (a b : ℕ) → b ≤ a → ltb a b ≡ false
le→ltb a b h = ground arith

pub ltb→lt : (a b : ℕ) → ltb a b ≡ true → a < b
ltb→lt a b h = ground arith

pub ltb→le : (a b : ℕ) → ltb a b ≡ false → b ≤ a
ltb→le a b h = ground arith

-- To split on a computed value and keep the equation.
pub Bool-cases : (b : Bool) → (b ≡ true) ⊎ (b ≡ false)
Bool-cases true = inl refl
Bool-cases false = inr refl

pub ℕ-cases : (n : ℕ) → (n ≡ 0) ⊎ ((m : ℕ) × (n ≡ suc m))
ℕ-cases zero = inl refl
ℕ-cases (suc m) = inr (m, refl)

-- Go's bytes.Equal.
unfoldable pub equal : List ℕ → List ℕ → Bool
equal [] [] = true
equal [] (y ∷ ys) = false
equal (x ∷ xs) [] = false
equal (x ∷ xs) (y ∷ ys) = x == y && equal xs ys

pub equal_iff : (xs ys : List ℕ) → (equal xs ys ≡ true) ↔ (xs ≡ ys)
unfolding equal
equal_iff [] [] = ground arith
equal_iff [] (y ∷ ys) = ground arith
equal_iff (x ∷ xs) [] = ground arith
equal_iff (x ∷ xs) (y ∷ ys) = ground (arith, equal_iff xs ys)

pub equal_refl : (xs : List ℕ) → equal xs xs ≡ true
equal_refl xs = (equal_iff xs xs).1 refl

-- Go's bytes.Compare, also the order of strings.
unfoldable pub compare_bytes : List ℕ → List ℕ → Ordering
compare_bytes [] [] = Ordering.eq
compare_bytes [] (y ∷ ys) = Ordering.lt
compare_bytes (x ∷ xs) [] = Ordering.gt
compare_bytes (x ∷ xs) (y ∷ ys) =
    let later = compare_bytes xs ys in
    elim (compare x y) [
      | Ordering.lt ↦ Ordering.lt
      | Ordering.eq ↦ later
      | Ordering.gt ↦ Ordering.gt
    ]

-- `bytes.Compare(a, b) <= 0`
abbrev pub le_bytes : List ℕ → List ℕ → Bool
le_bytes a b = elim (compare_bytes a b) [ Ordering.gt ↦ false | _ ↦ true ]

-- Strictly above, as the negation of `<= 0`.
abbrev pub Above : List ℕ → List ℕ → Type 0
Above a b = le_bytes a b ≡ false

pub Above-irrefl : (a : List ℕ) → ¬ (Above a a)
unfolding compare_bytes
Above-irrefl [] h = cc
Above-irrefl (x ∷ xs) h = ground (arith, Above-irrefl xs)

pub Above-trans : (a b c : List ℕ) → Above a b → Above b c → Above a c
unfolding compare_bytes
Above-trans [] [] c h k = cc
Above-trans [] (y ∷ b) c h k = cc
Above-trans (x ∷ a) b [] h k = refl
Above-trans (x ∷ a) [] (z ∷ c) h k = cc
Above-trans (x ∷ a) (y ∷ b) (z ∷ c) h k = ground (arith, Above-trans a b c)
