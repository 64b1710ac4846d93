-- ===== src/Cmd/Verify.antt =====
-- cmd/lastro/main.go: cmdVerify. What the flag package gives are the fields of VerifyFlags; the texts
-- that are printed are not modelled, the values in the report are.
pub mod Passing
pub mod Codes
pub mod Receipts
use lastro.Common.{
  ℕ, Bool, true, false, not, ◌&&◌, Option, none, some, Bytes, List, length, [], ◌∷◌, ltb, ◌==◌,
  equal, if◌then◌else◌,
}
use lastro.Wire.Crypto.{Crypto, fingerprint}
use lastro.Wire.Method.{Class, class_of}
use lastro.Wire.Span
use lastro.Wire.Span.{Span, parse_span, verify_sig}
use lastro.Wire.Cert.{Cert, parse_cert}
use lastro.Wire.Validate.{verify_receipt}
use lastro.Cmd.{
  Files, Step, stops, goes, ◌>>=◌, ◌>>◌, stop_if, or_stop, ok_or_stop, returned, verify_ok,
  verify_invalid, verify_usage, verify_unanchored,
}

pub record VerifyFlags : Type 0 where
  pub args : List Bytes
  pub cert_path : Bytes
  pub ca_paths : List Bytes

pub data Verdict : Type 0 where
  unanchored verified : Verdict

-- What the line about the certificate shows.
pub record Window : Type 0 where
  pub not_before : ℕ
  pub not_after : ℕ
  pub in_window : Bool

pub record Report : Type 0 where
  pub verdict : Verdict
  pub resource_id : Bytes
  pub method_id : ℕ
  pub class : Class
  pub ceiling : ℕ
  pub observed_at : ℕ
  pub digest : Bytes
  pub executor : Bytes
  pub window : Option Window

-- The exit code, and the report if one is printed.
pub record Verification : Type 0 where
  pub code : ℕ
  pub report : Option Report

abbrev pub silent : ℕ → Verification
silent code = record { code = code; report = none }

abbrev pub window_of : Span → Cert → Window
window_of span cert = record {
  not_before = cert.not_before;
  not_after = cert.not_after;
  in_window = not (ltb span.observed_at cert.not_before) && ltb span.observed_at cert.not_after;
}

unfoldable pub print_report : Crypto → Span → Class → ℕ → Verdict → Option Cert → Report
print_report c span class ceiling verdict cert = record {
  verdict = verdict;
  resource_id = span.resource_id;
  method_id = span.method_id;
  class = class;
  ceiling = ceiling;
  observed_at = span.observed_at;
  digest = span.digest;
  executor = fingerprint c span.executor;
  window = elim cert [ none ↦ none | some ct ↦ some (window_of span ct) ];
}

-- `fs.NArg() != 1`
abbrev pub one_arg : List Bytes → Option Bytes
one_arg [] = none
one_arg (path ∷ []) = some path
one_arg (path ∷ other ∷ more) = none

-- The read of one CA key: it must have 32 bytes.
abbrev pub ca_key : Option Bytes → Option Bytes
ca_key none = none
ca_key (some k) = if length k == 32 then some k else none

unfoldable pub read_cas : Files → List Bytes → Step Verification (List Bytes)
read_cas w [] = goes []
read_cas w (p ∷ ps) = do
  k ← or_stop (silent verify_usage) (ca_key (w.read_file p))
  trusted ← read_cas w ps
  goes (k ∷ trusted)

abbrev pub is_empty {ℓ} : {A : Type ℓ} → List A → Bool
is_empty [] = true
is_empty (x ∷ xs) = false

module _ (c : Crypto) (w : Files) where
  -- From the certificate on.
  unfoldable pub verify_with_cert : VerifyFlags → Span → Step Verification Verification
  verify_with_cert f span = do
    cert_raw ← or_stop (silent verify_invalid) (w.read_file f.cert_path)
    cert ← ok_or_stop (silent verify_invalid) (parse_cert cert_raw)
    stop_if (is_empty f.ca_paths) (silent verify_usage)
    trusted ← read_cas w f.ca_paths
    ok_or_stop (silent verify_invalid) (verify_receipt c span cert trusted)
    goes (record {
      code = verify_ok;
      report = some (
          print_report c span (class_of span.method_id).0 (class_of span.method_id).1 verified
            (some cert));
    })

  unfoldable pub verify_steps : VerifyFlags → Step Verification Verification
  unfolding verify_with_cert
  verify_steps f = do
    path ← or_stop (silent verify_usage) (one_arg f.args)
    raw ← or_stop (silent verify_invalid) (w.read_file path)
    span ← ok_or_stop (silent verify_invalid) (parse_span raw)
    ok_or_stop (silent verify_invalid) (Span.verify_sig c span)
    stop_if (is_empty f.cert_path) (record {
      code = verify_unanchored;
      report = some (
          print_report c span (class_of span.method_id).0 (class_of span.method_id).1 unanchored
            none);
    })
    verify_with_cert f span

  unfoldable pub cmd_verify : VerifyFlags → Verification
  unfolding verify_steps
  cmd_verify f = returned (verify_steps f)
