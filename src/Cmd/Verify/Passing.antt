-- ===== src/Cmd/Verify/Passing.antt =====
-- What a run of `lastro verify` has passed when it ends with a code that no earlier return gives.
use lastro.Common.{
  ℕ, ◌≡◌, ◌≢◌, ◌↔◌, refl, sym, ◌∙◌, Bool, true, false, Option, none, some, Bytes, List, length, [],
  ◌∷◌, arith, ◌==◌,
}
use lastro.Common.Result.{Result, ok, err}
use lastro.Cmd.{Files, Step, stops, goes, ◌>>=◌, ◌>>◌, stop_if, or_stop, ok_or_stop, returned}
use lastro.Cmd.Verify.{Verification, silent, one_arg, ca_key, read_cas}

abbrev pub code_of : Step Verification Verification → ℕ
code_of s = (returned s).code

module _ {n k : ℕ} (differ : k ≢ n) where
  pub option_passes {ℓ} :
      {A : Type ℓ} (o : Option A) (next : A → Step Verification Verification)
      → code_of (or_stop (silent k) o >>= next) ≡ n
      → (x : A) × (o ≡ some x) × (code_of (next x) ≡ n)
  option_passes none next h = absurd (differ h)
  option_passes (some x) next h = (x, refl, h)

  pub result_passes {ℓ} :
      {A : Type ℓ} (r : Result A) (next : A → Step Verification Verification)
      → code_of (ok_or_stop (silent k) r >>= next) ≡ n
      → (x : A) × (r ≡ ok x) × (code_of (next x) ≡ n)
  result_passes (err e) next h = absurd (differ h)
  result_passes (ok x) next h = (x, refl, h)

pub stop_passes :
    {n : ℕ} (bad : Bool) (o : Verification) (next : Step Verification Verification)
    → o.code ≢ n
    → code_of (stop_if bad o >> next) ≡ n
    → (bad ≡ false) × (code_of next ≡ n)
stop_passes true o next differ h = absurd (differ h)
stop_passes false o next differ h = (refl, h)

-- The files hold these keys, of 32 bytes each.
abbrev pub CaKeys : Files → List Bytes → List Bytes → Type 0
CaKeys w [] [] = Unit {0}
CaKeys w [] (k ∷ ks) = ⊥
CaKeys w (p ∷ ps) [] = ⊥
CaKeys w (p ∷ ps) (k ∷ ks) = ((w.read_file p ≡ some k) × (length k ≡ 32)) × CaKeys w ps ks

pub ca_key_iff :
    (o : Option Bytes) (k : Bytes) → (ca_key o ≡ some k) ↔ ((o ≡ some k) × (length k ≡ 32))
ca_key_iff none k = ground arith
ca_key_iff (some x) k = ground arith

pub read_cas-CaKeys : (w : Files) (ps ks : List Bytes) → CaKeys w ps ks → read_cas w ps ≡ goes ks
unfolding read_cas
read_cas-CaKeys w [] [] h = refl
read_cas-CaKeys w [] (k ∷ ks) h = absurd h
read_cas-CaKeys w (p ∷ ps) [] h = absurd h
read_cas-CaKeys w (p ∷ ps) (k ∷ ks) (h, hs) =
    let found = (ca_key_iff (w.read_file p) k).1 h in rw (found, read_cas-CaKeys w ps ks hs) refl

bind_assoc :
    {A B : Type 0} (s : Step Verification A) (f : A → Step Verification B)
    (g : B → Step Verification Verification)
    → code_of ((s >>= f) >>= g) ≡ code_of (s >>= (λ x. f x >>= g))
bind_assoc (stops o) f g = refl
bind_assoc (goes x) f g = refl

pub cas_passes :
    {n : ℕ} (w : Files) (ps : List Bytes) (next : List Bytes → Step Verification Verification)
    → 2 ≢ n
    → code_of (read_cas w ps >>= next) ≡ n
    → (ks : List Bytes) × CaKeys w ps ks × (code_of (next ks) ≡ n)
unfolding read_cas
cas_passes w [] next differ h = ([], tt, h)
cas_passes w (p ∷ ps) next differ h =
    let (k, found, h1) =
      option_passes differ (ca_key (w.read_file p))
        (λ k. (read_cas w ps >>= (λ ks. goes (k ∷ ks))) >>= next)
        (sym (
            bind_assoc (or_stop (silent 2) (ca_key (w.read_file p)))
              (λ k. read_cas w ps >>= (λ ks. goes (k ∷ ks))) next)
          ∙ h) in
    let (ks, keys, h2) =
      cas_passes w ps (λ ks. next (k ∷ ks)) differ
        (sym (bind_assoc (read_cas w ps) (λ ks. goes (k ∷ ks)) next) ∙ h1) in
    (k ∷ ks, ((ca_key_iff (w.read_file p) k).0 found, keys), h2)

-- Two exit codes that are told apart by evaluation.
pub differ : (k n : ℕ) → (k == n) ≡ false → k ≢ n
differ k n told e = ground arith

pub stop_passes_or :
    {n : ℕ} (bad : Bool) (o : Verification) (next : Step Verification Verification)
    → code_of next ≢ n
    → code_of (stop_if bad o >> next) ≡ n
    → bad ≡ true
stop_passes_or true o next late h = refl
stop_passes_or false o next late h = absurd (late h)

pub one_arg_iff :
    (args : List Bytes) (path : Bytes) → (one_arg args ≡ some path) ↔ (args ≡ path ∷ [])
one_arg_iff [] path = ground arith
one_arg_iff (p ∷ []) path = ground arith
one_arg_iff (p ∷ q ∷ ps) path = ground arith
