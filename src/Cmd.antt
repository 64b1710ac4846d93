-- ===== src/Cmd.antt =====
-- cmd/lastro/main.go: what the subcommands share, the exit codes, the files and early returns.
pub mod Capture
pub mod Resource
pub mod Keygen
pub mod Verify
pub mod Run
use lastro.Common.{
  ℕ, length, ◌==◌, Bool, Option, none, some, Bytes, List, [], ◌∷◌, equal, if◌then◌else◌,
}
use lastro.Common.Integers.{ℤ, pos}
use lastro.Common.Result.{Result, ok, err}

abbrev pub exit_no_receipt : ℕ
exit_no_receipt = 125

abbrev pub exit_no_start : ℕ
exit_no_start = 127

abbrev pub verify_ok : ℕ
verify_ok = 0

abbrev pub verify_invalid : ℕ
verify_invalid = 1

abbrev pub verify_usage : ℕ
verify_usage = 2

abbrev pub verify_unanchored : ℕ
verify_unanchored = 3

-- The file system as one call sees it, and filepath.Join.
pub record Files : Type 0 where
  pub read_file : Bytes → Option Bytes
  pub write_succeeds : Bytes → Bool
  pub exists : Bytes → Bool
  pub mkdir_succeeds : Bytes → Bool
  pub join : Bytes → Bytes → Bytes

-- A command that has returned, or one that goes on with a value.
pub data Step {ℓ κ} (O : Type κ) (A : Type ℓ) : Type (ℓ ⊔ κ) where
  stops : O → Step O A
  goes : A → Step O A

infixl 5 ◌>>=◌
abbrev pub ◌>>=◌ {ℓ κ μ} :
    {A : Type ℓ} {B : Type μ} {O : Type κ} → Step O A → (A → Step O B) → Step O B
stops o >>= next = stops o
goes x >>= next = next x

infixl 5 ◌>>◌
abbrev pub ◌>>◌ {κ μ} : {B : Type μ} {O : Type κ} → Step O (Unit {0}) → Step O B → Step O B
first >> rest = first >>= λ done. rest

-- `if bad { return o }`
abbrev pub stop_if {κ} : {O : Type κ} → Bool → O → Step O (Unit {0})
stop_if bad o = if bad then stops o else goes tt

-- `if err != nil { return o }`, for a call that gives a value or fails.
abbrev pub or_stop {ℓ κ} : {A : Type ℓ} {O : Type κ} → O → Option A → Step O A
or_stop o none = stops o
or_stop o (some x) = goes x

abbrev pub ok_or_stop {ℓ κ} : {A : Type ℓ} {O : Type κ} → O → Result A → Step O A
ok_or_stop o (err e) = stops o
ok_or_stop o (ok x) = goes x

abbrev pub returned {κ} : {O : Type κ} → Step O O → O
returned (stops o) = o
returned (goes o) = o

-- The exit code, and the files written, with their contents, in their order.
pub record Outcome : Type 0 where
  pub code : ℤ
  pub written : List (Bytes × Bytes)

abbrev pub fails : ℕ → Outcome
fails code = record { code = pos code; written = [] }

abbrev pub is_blank : Bytes → Bool
is_blank s = equal s []

-- "sig.key"
abbrev pub sig_key_name : Bytes
sig_key_name = b's' ∷ b'i' ∷ b'g' ∷ b'.' ∷ b'k' ∷ b'e' ∷ b'y' ∷ []

-- `len(b) != n`
abbrev pub of_length : ℕ → Option Bytes → Option Bytes
of_length n none = none
of_length n (some b) = if length b == n then some b else none
