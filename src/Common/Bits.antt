-- ===== src/Common/Bits.antt =====
-- Bit operations at variables: `x << k | b` is arithmetic when b has at most k digits.
use Prim.Native.Nat.{
  ℕ, zero, suc, ◌+◌, ◌*◌, ◌/◌, ◌%◌, ◌^◌, ◌≤◌, ◌<◌, max, bit_or, digits, bit_or-bitwise,
}
use mathlib.Core.Path.{◌≡◌, refl, ap}
use native.Mathlib.Nat.{pow-suc}
use native.Mathlib.Omega.{arith}

-- The definition that the native operation stands for, with its fuel as an argument.
abbrev or_digits : ℕ → ℕ → ℕ → ℕ
or_digits n a b = digits (λ d. d) max n a b

or_digits_fuel : (n m a b : ℕ) → a ≤ n → a ≤ m → or_digits n a b ≡ or_digits m a b
or_digits_fuel zero zero zero b p q = refl
or_digits_fuel zero (suc m) zero b p q = refl
or_digits_fuel (suc n) zero zero b p q = refl
or_digits_fuel (suc n) (suc m) zero b p q = refl
or_digits_fuel zero m (suc a) b p q = absurd (omega arith)
or_digits_fuel (suc n) zero (suc a) b p q = absurd (omega arith)
or_digits_fuel (suc n) (suc m) (suc a) b p q =
    omega (arith, or_digits_fuel n m (suc a / 2) (b / 2) (omega arith) (omega arith))

zero-bit_or : (b : ℕ) → bit_or 0 b ≡ b
zero-bit_or b = bit_or-bitwise 0 b

bit_or_step : (a b : ℕ) → bit_or a b ≡ bit_or (a / 2) (b / 2) * 2 + max (a % 2) (b % 2)
bit_or_step zero b = omega (arith, zero-bit_or b, zero-bit_or (b / 2))
bit_or_step (suc a) b = omega (
  arith,
  bit_or-bitwise (suc a) b,
  bit_or-bitwise (suc a / 2) (b / 2),
  or_digits_fuel a (suc a / 2) (suc a / 2) (b / 2) (omega arith) (omega arith),
)

bit_or-zero_fuel : (n a : ℕ) → a ≤ n → bit_or a 0 ≡ a
bit_or-zero_fuel n zero h = refl
bit_or-zero_fuel zero (suc a) h = absurd (omega arith)
bit_or-zero_fuel (suc n) (suc a) h =
    omega (arith, bit_or_step (suc a) 0, bit_or-zero_fuel n (suc a / 2) (omega arith))

bit_or_double : (y b : ℕ) → bit_or (y * 2) b ≡ bit_or y (b / 2) * 2 + b % 2
bit_or_double y b =
    let half : y * 2 / 2 ≡ y = omega arith in
    let even : y * 2 % 2 ≡ 0 = omega arith in rw (bit_or_step (y * 2) b, half, even) (omega arith)

-- Or with a number of at most k digits, behind k zero digits, is a sum.
pub bit_or-eq-add : (k x b : ℕ) → b < 2 ^ k → bit_or (x * 2 ^ k) b ≡ x * 2 ^ k + b
bit_or-eq-add zero x b h =
    let none : b ≡ 0 = omega arith in
    let same : x * 1 ≡ x = omega arith in
    rw (none, same, bit_or-zero_fuel x x (omega arith)) (omega arith)
bit_or-eq-add (suc k) x b h =
    let shifted : x * 2 ^ suc k ≡ x * 2 ^ k * 2 =
      omega (arith, ap (λ (t : ℕ). x * t) (pow-suc 2 k)) in
    rw
      (shifted, bit_or_double (x * 2 ^ k) b, bit_or-eq-add k x (b / 2) (omega (arith, pow-suc 2 k)))
      (omega arith)
