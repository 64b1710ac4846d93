-- ===== src/Cmd/Verify/Codes.antt =====
-- The exit codes of `lastro verify`.
use lastro.Common.{◌≡◌, ◌≢◌, ◌↔◌, refl, true, false, some, Bytes, List, [], ◌∷◌}
use lastro.Common.Result.{ok}
use lastro.Wire.Crypto.{Crypto}
use lastro.Wire.Span
use lastro.Wire.Span.{Span, parse_span, verify_sig}
use lastro.Wire.Cert.{Cert, parse_cert}
use lastro.Wire.Validate.{verify_receipt}
use lastro.Wire.Validate.Chain.{verify_receipt_iff}
use lastro.Cmd.{Files}
use lastro.Cmd.Verify.Passing.{
  code_of, option_passes, result_passes, stop_passes, CaKeys, read_cas-CaKeys, cas_passes, differ,
  stop_passes_or, one_arg_iff,
}
use lastro.Cmd.Verify.{
  VerifyFlags, silent, one_arg, is_empty, verify_with_cert, verify_steps, cmd_verify,
}

-- What a verified receipt has.
pub record IsVerified (c : Crypto) (w : Files) (f : VerifyFlags) : Type 0 where
  pub path : Bytes
  pub raw : Bytes
  pub span : Span
  pub cert_raw : Bytes
  pub cert : Cert
  pub trusted : List Bytes
  pub args : f.args ≡ path ∷ []
  pub receipt : w.read_file path ≡ some raw
  pub parsed : parse_span raw ≡ ok span
  pub has_cert : is_empty f.cert_path ≡ false
  pub certificate : w.read_file f.cert_path ≡ some cert_raw
  pub parsed_cert : parse_cert cert_raw ≡ ok cert
  pub has_ca : is_empty f.ca_paths ≡ false
  pub cas : CaKeys w f.ca_paths trusted
  pub accepted : verify_receipt c span cert trusted ≡ ok tt

-- What an unanchored receipt has.
pub record IsUnanchored (c : Crypto) (w : Files) (f : VerifyFlags) : Type 0 where
  pub path : Bytes
  pub raw : Bytes
  pub span : Span
  pub args : f.args ≡ path ∷ []
  pub receipt : w.read_file path ≡ some raw
  pub parsed : parse_span raw ≡ ok span
  pub signed : verify_sig c span ≡ ok tt
  pub no_cert : is_empty f.cert_path ≡ true

module _ (c : Crypto) (w : Files) (f : VerifyFlags) where
  from_verified : IsVerified c w f → (cmd_verify c w f).code ≡ 0
  unfolding cmd_verify verify_steps verify_with_cert
  from_verified v =
      let sig = ((verify_receipt_iff c v.span v.cert v.trusted).0 v.accepted).0 in
      let arg = (one_arg_iff f.args v.path).1 v.args in
      rw
        (
          arg,
          v.receipt,
          v.parsed,
          sig,
          v.has_cert,
          v.certificate,
          v.parsed_cert,
          v.has_ca,
          read_cas-CaKeys w f.ca_paths v.trusted v.cas,
          v.accepted,
        )
        refl

  to_verified : (cmd_verify c w f).code ≡ 0 → IsVerified c w f
  unfolding cmd_verify verify_steps verify_with_cert
  to_verified h =
      let (path, arg, h1) = option_passes (differ 2 0 refl) (one_arg f.args) _ h in
      let (raw, receipt, h2) = option_passes (differ 1 0 refl) (w.read_file path) _ h1 in
      let (span, parsed, h3) = result_passes (differ 1 0 refl) (parse_span raw) _ h2 in
      let (_, sig, h4) = result_passes (differ 1 0 refl) (Span.verify_sig c span) _ h3 in
      let (has_cert, h5) = stop_passes (is_empty f.cert_path) _ _ (differ 3 0 refl) h4 in
      let (cert_raw, certificate, h6) =
        option_passes (differ 1 0 refl) (w.read_file f.cert_path) _ h5 in
      let (cert, parsed_cert, h7) = result_passes (differ 1 0 refl) (parse_cert cert_raw) _ h6 in
      let (has_ca, h8) = stop_passes (is_empty f.ca_paths) (silent 2) _ (differ 2 0 refl) h7 in
      let (trusted, cas, h9) = cas_passes w f.ca_paths _ (differ 2 0 refl) h8 in
      let (_, accepted, h10) =
        result_passes (differ 1 0 refl) (verify_receipt c span cert trusted) _ h9 in
      record {
        path = path;
        raw = raw;
        span = span;
        cert_raw = cert_raw;
        cert = cert;
        trusted = trusted;
        args = (one_arg_iff f.args path).0 arg;
        receipt = receipt;
        parsed = parsed;
        has_cert = has_cert;
        certificate = certificate;
        parsed_cert = parsed_cert;
        has_ca = has_ca;
        cas = cas;
        accepted = accepted;
      }

  with_cert_code : (span : Span) → code_of (verify_with_cert c w f span) ≢ 3
  unfolding verify_with_cert
  with_cert_code span h =
      let (cert_raw, _, h6) = option_passes (differ 1 3 refl) (w.read_file f.cert_path) _ h in
      let (cert, _, h7) = result_passes (differ 1 3 refl) (parse_cert cert_raw) _ h6 in
      let (_, h8) = stop_passes (is_empty f.ca_paths) (silent 2) _ (differ 2 3 refl) h7 in
      let (trusted, _, h9) = cas_passes w f.ca_paths _ (differ 2 3 refl) h8 in
      let (_, _, h10) = result_passes (differ 1 3 refl) (verify_receipt c span cert trusted) _ h9 in
      differ 0 3 refl h10

  to_unanchored : (cmd_verify c w f).code ≡ 3 → IsUnanchored c w f
  unfolding cmd_verify verify_steps
  to_unanchored h =
      let (path, arg, h1) = option_passes (differ 2 3 refl) (one_arg f.args) _ h in
      let (raw, receipt, h2) = option_passes (differ 1 3 refl) (w.read_file path) _ h1 in
      let (span, parsed, h3) = result_passes (differ 1 3 refl) (parse_span raw) _ h2 in
      let (_, sig, h4) = result_passes (differ 1 3 refl) (Span.verify_sig c span) _ h3 in
      let no_cert = stop_passes_or (is_empty f.cert_path) _ _ (with_cert_code span) h4 in
      record {
        path = path;
        raw = raw;
        span = span;
        args = (one_arg_iff f.args path).0 arg;
        receipt = receipt;
        parsed = parsed;
        signed = sig;
        no_cert = no_cert;
      }

  from_unanchored : IsUnanchored c w f → (cmd_verify c w f).code ≡ 3
  unfolding cmd_verify verify_steps
  from_unanchored v =
      let arg = (one_arg_iff f.args v.path).1 v.args in
      rw (arg, v.receipt, v.parsed, v.signed, v.no_cert) refl

  -- `lastro verify` exits with 0 exactly when the receipt and a certificate are given, are read and
  -- parse, at least one CA key is given, each of them has 32 bytes, and the receipt is accepted under
  -- the certificate and these keys; and with 3 exactly when the receipt is read, parses and has a
  -- valid signature, and no certificate is given.
  pub cmd_verify_iff :
      (((cmd_verify c w f).code ≡ 0) ↔ IsVerified c w f)
      × (((cmd_verify c w f).code ≡ 3) ↔ IsUnanchored c w f)
  cmd_verify_iff = ((to_verified, from_verified), (to_unanchored, from_unanchored))
