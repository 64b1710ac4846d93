-- ===== src/Common/Integers.antt =====
-- Go's int, and how `%d` prints it.
use Prim.Native.Nat.{ℕ, zero, suc, ◌+◌, ◌-◌, ◌*◌, ◌/◌, ◌%◌, ◌^◌, ◌≤◌, ◌<◌}
use mathlib.Core.Path.{◌≡◌, refl, ap, sym, ◌∙◌, subst}
use mathlib.Core.Logic.{inl, inr}
use mathlib.Core.List.{[], ◌∷◌, ◌++◌}
use native.Mathlib.Omega.{arith}
use lastro.Common.Tests.{ltb, if◌then◌else◌, Bool-cases, ltb→lt}
use lastro.Common.Lists.{Bytes, All, All-append, drop}

-- `pos n` is n, `negsuc n` is -(n + 1).
pub data ℤ : Type 0 where
  pos : ℕ → ℤ
  negsuc : ℕ → ℤ

-- An int of 64 bits.
abbrev pub IsInt : ℤ → Type 0
IsInt (pos n) = n < 2 ^ 63
IsInt (negsuc n) = n < 2 ^ 63

-- The digits of a number of at most `fuel` digits.
unfoldable pub digits : ℕ → ℕ → Bytes
digits zero n = []
digits (suc fuel) n =
    let rest = digits fuel (n / 10) in
    if ltb n 10 then (b'0' + n) ∷ [] else rest ++ ((b'0' + n % 10) ∷ [])

-- 20 digits hold every number below 2 ^ 64.
unfoldable pub decimal : ℤ → Bytes
unfolding digits
decimal (pos n) = digits 20 n
decimal (negsuc n) = b'-' ∷ digits 20 (suc n)

-- The number that digits denote behind those of `acc`.
abbrev value : ℕ → Bytes → ℕ
value acc [] = acc
value acc (d ∷ ds) = value (acc * 10 + (d - b'0')) ds

value-append :
    (acc : ℕ) (xs : Bytes) (d : ℕ) → value acc (xs ++ (d ∷ [])) ≡ value acc xs * 10 + (d - b'0')
value-append acc [] d = refl
value-append acc (x ∷ xs) d = value-append (acc * 10 + (x - b'0')) xs d

pub digits-value : (fuel n : ℕ) → n < 10 ^ fuel → value 0 (digits fuel n) ≡ n
unfolding digits
digits-value zero n h = omega arith
digits-value (suc fuel) n h = elim (Bool-cases (ltb n 10)) [
  | inl small ↦ rw small (omega arith)
  | inr large ↦ rw large (
      value-append 0 (digits fuel (n / 10)) (b'0' + n % 10)
      ∙ omega (arith, digits-value fuel (n / 10) (omega (arith, h))))
]

-- No digit is a sign or an equals sign.
abbrev pub IsDigit : ℕ → Type 0
IsDigit d = (b'0' ≤ d) × (d ≤ b'9')

digits-IsDigit : (fuel n : ℕ) → All IsDigit (digits fuel n)
unfolding digits
digits-IsDigit zero n = tt
digits-IsDigit (suc fuel) n = elim (Bool-cases (ltb n 10)) [
  | inl small ↦ rw small ((omega arith, omega (arith, ltb→lt n 10 small)), tt)
  | inr large ↦ rw large (
      All-append IsDigit (digits fuel (n / 10)) _ (digits-IsDigit fuel (n / 10))
        ((omega arith, omega arith), tt))
]

suc_injective : {m n : ℕ} → suc m ≡ suc n → m ≡ n
suc_injective h = omega arith

digits_injective : (m n : ℕ) → m < 10 ^ 20 → n < 10 ^ 20 → digits 20 m ≡ digits 20 n → m ≡ n
digits_injective m n h k e = sym (digits-value 20 m h) ∙ ap (value 0) e ∙ digits-value 20 n k

unsigned : (m : ℕ) (ds : Bytes) → ¬ (digits 20 m ≡ b'-' ∷ ds)
unsigned m ds e = omega (arith, (subst (All IsDigit) e (digits-IsDigit 20 m)).0.0)

-- Within the bounds of an int, what is printed determines the number.
pub decimal_injective : (m n : ℤ) → IsInt m → IsInt n → decimal m ≡ decimal n → m ≡ n
unfolding decimal
decimal_injective (pos m) (pos n) h k e =
    ap pos (digits_injective m n (omega arith) (omega arith) e)
decimal_injective (pos m) (negsuc n) h k e = absurd (unsigned m (digits 20 (suc n)) e)
decimal_injective (negsuc m) (pos n) h k e = absurd (unsigned n (digits 20 (suc m)) (sym e))
decimal_injective (negsuc m) (negsuc n) h k e =
    ap negsuc
      (suc_injective (digits_injective (suc m) (suc n) (omega arith) (omega arith) (ap (drop 1) e)))

below : (xs : Bytes) → All IsDigit xs → All (λ d. d < b'=') xs
below [] h = tt
below (x ∷ xs) h = (omega (arith, h.0), below xs h.1)

-- What is printed is digits behind an optional minus sign, so it holds no equals sign.
pub decimal-NoEquals : (n : ℤ) → All (λ d. d < b'=') (decimal n)
unfolding decimal
decimal-NoEquals (pos n) = below (digits 20 n) (digits-IsDigit 20 n)
decimal-NoEquals (negsuc n) = (omega arith, below (digits 20 (suc n)) (digits-IsDigit 20 (suc n)))
