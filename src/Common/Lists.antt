-- ===== src/Common/Lists.antt =====
-- Lists measured by native numbers, under the library's names, and byte strings.
use Prim.Native.Nat.{ℕ, zero, suc, ◌+◌, ◌-◌, ◌<◌, min}
use mathlib.Core.Path.{◌≡◌, refl, ap}
use mathlib.Core.List.{List, [], ◌∷◌, ◌++◌}
use native.Mathlib.Omega.{arith}

module _ {ℓ} {A : Type ℓ} where
  abbrev pub length : List A → ℕ
  length [] = 0
  length (x ∷ xs) = suc (length xs)

  abbrev pub take : ℕ → List A → List A
  take zero xs = []
  take (suc n) [] = []
  take (suc n) (x ∷ xs) = x ∷ take n xs

  abbrev pub drop : ℕ → List A → List A
  drop zero xs = xs
  drop (suc n) [] = []
  drop (suc n) (x ∷ xs) = drop n xs

  abbrev pub get_or : List A → ℕ → A → A
  get_or [] i d = d
  get_or (x ∷ xs) zero d = x
  get_or (x ∷ xs) (suc i) d = get_or xs i d

  abbrev pub replicate : ℕ → A → List A
  replicate zero a = []
  replicate (suc n) a = a ∷ replicate n a

  pub length-append : (xs ys : List A) → length (xs ++ ys) ≡ length xs + length ys
  length-append [] ys = omega arith
  length-append (x ∷ xs) ys = omega (arith, length-append xs ys)

  pub length-take : (n : ℕ) (xs : List A) → length (take n xs) ≡ min n (length xs)
  length-take zero xs = omega arith
  length-take (suc n) [] = omega arith
  length-take (suc n) (x ∷ xs) = omega (arith, length-take n xs)

  pub length-drop : (n : ℕ) (xs : List A) → length (drop n xs) ≡ length xs - n
  length-drop zero xs = omega arith
  length-drop (suc n) [] = omega arith
  length-drop (suc n) (x ∷ xs) = omega (arith, length-drop n xs)

  pub take-append-drop : (n : ℕ) (xs : List A) → take n xs ++ drop n xs ≡ xs
  take-append-drop zero xs = refl
  take-append-drop (suc n) [] = refl
  take-append-drop (suc n) (x ∷ xs) = ap (λ r. x ∷ r) (take-append-drop n xs)

module _ {ℓ} {A : Type ℓ} where
  pub take-append : (xs ys : List A) → take (length xs) (xs ++ ys) ≡ xs
  take-append [] ys = refl
  take-append (x ∷ xs) ys = ap (λ r. x ∷ r) (take-append xs ys)

  pub drop-append : (xs ys : List A) → drop (length xs) (xs ++ ys) ≡ ys
  drop-append [] ys = refl
  drop-append (x ∷ xs) ys = drop-append xs ys

abbrev pub All {ℓ κ} : {A : Type ℓ} → (A → Type κ) → List A → Type κ
All P [] = Unit
All P (x ∷ xs) = P x × All P xs

pub All-append {ℓ κ} :
    {A : Type ℓ} (P : A → Type κ) (xs ys : List A) → All P xs → All P ys → All P (xs ++ ys)
All-append P [] ys h k = k
All-append P (x ∷ xs) ys h k = (h.0, All-append P xs ys h.1 k)

pub All-map {ℓ κ μ} :
    {A : Type ℓ} (P : A → Type κ) (Q : A → Type μ)
    → ((x : A) → P x → Q x)
    → (xs : List A) → All P xs
    → All Q xs
All-map P Q f [] h = tt
All-map P Q f (x ∷ xs) h = (f x h.0, All-map P Q f xs h.1)

-- A Go byte slice.
abbrev pub Bytes : Type 0
Bytes = List ℕ

abbrev pub IsByte : ℕ → Type 0
IsByte b = b < 256

abbrev pub IsBytes : Bytes → Type 0
IsBytes = All IsByte

pub length-append_bytes : (xs ys : Bytes) → length (xs ++ ys) ≡ length xs + length ys
length-append_bytes = length-append

pub IsBytes-append : (xs ys : Bytes) → IsBytes xs → IsBytes ys → IsBytes (xs ++ ys)
IsBytes-append [] ys h k = k
IsBytes-append (x ∷ xs) ys h k = (h.0, IsBytes-append xs ys h.1 k)

pub IsBytes-right : (xs ys : Bytes) → IsBytes (xs ++ ys) → IsBytes ys
IsBytes-right [] ys h = h
IsBytes-right (x ∷ xs) ys h = IsBytes-right xs ys h.1

pub IsBytes-left : (xs ys : Bytes) → IsBytes (xs ++ ys) → IsBytes xs
IsBytes-left [] ys h = tt
IsBytes-left (x ∷ xs) ys h = (h.0, IsBytes-left xs ys h.1)

pub IsBytes-take : (n : ℕ) (xs : Bytes) → IsBytes xs → IsBytes (take n xs)
IsBytes-take zero xs h = tt
IsBytes-take (suc n) [] h = tt
IsBytes-take (suc n) (x ∷ xs) h = (h.0, IsBytes-take n xs h.1)

-- To prove a statement for every byte string of length k, one variable a byte.
abbrev pub Each : ℕ → (Bytes → Type 0) → Type 0
Each zero P = P []
Each (suc k) P = (b : ℕ) → Each k (λ x. P (b ∷ x))

pub each_of : (k : ℕ) (P : Bytes → Type 0) → Each k P → (x : Bytes) → length x ≡ k → P x
each_of zero P h [] e = h
each_of zero P h (b ∷ x) e = absurd (omega arith)
each_of (suc k) P h [] e = absurd (omega arith)
each_of (suc k) P h (b ∷ x) e = each_of k (λ y. P (b ∷ y)) (h b) x (omega arith)

-- For `omega`, on byte strings.
pub ruleset lengths = (arith, length-append_bytes)
