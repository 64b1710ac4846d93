-- ===== src/Tests/Chains.antt =====
-- The CA signatures, the window and the encoders of certificates.
use lastro.Common.{
  ◌+◌, ◌-◌, ◌^◌, ◌≤◌, ◌≡◌, ◌↔◌, ◌⊎◌, refl, none, some, All, replicate, [], ◌∷◌, arith,
  compare_bytes, equal,
}
use lastro.Common.Result.{ok}
use lastro.Tests.Toy.{toy, public_of}
use lastro.Tests.Certs.{approver, executor, encoded, pairs, trusted, validates}
use lastro.Wire.Cert.{
  CertFields, ca_pairs, parse_cert, encode_cert_tbs, append_cert_signatures, verify_ca_signatures,
  in_set,
}
use lastro.Wire.Cert.Build.{IsCertFields, cert_of, parse-append_cert_signatures}
use lastro.Wire.Crypto.{verify_signed}
use lastro.Wire.Validate.{
  validate_cert_chain_no_clock, check_role_constraints, check_pairs, max_privileged_lifetime_ms,
}
use lastro.Wire.Validate.Chain.{IsWithinPolicy, Vouches}
use lastro.Wire.Validate.Window.{validate_window}
use lastro.Wire.Validate.Signatures.{Signs, verify_ca_signatures_iff, validate-verify_ca_signatures}

validate_window_example :
    ((approver.not_before ≤ approver.not_after)
      × (approver.not_after ≤ approver.not_before + max_privileged_lifetime_ms))
    ⊎ (approver.not_after + (2 ^ 64 - max_privileged_lifetime_ms) ≤ approver.not_before)
validate_window_example =
    validate_window toy approver trusted (omega arith) (omega arith) refl validates

verify_ca_signatures_iff_example :
    ((verify_ca_signatures toy approver (some trusted) ≡ ok tt)
      ↔ All (Vouches toy approver.tbs trusted) (ca_pairs approver))
    × ((verify_ca_signatures toy approver none ≡ ok tt)
        ↔ All (Signs toy approver.tbs) (ca_pairs approver))
verify_ca_signatures_iff_example = verify_ca_signatures_iff toy approver trusted

validate-verify_ca_signatures_example :
    IsWithinPolicy toy approver × (verify_ca_signatures toy approver (some trusted) ≡ ok tt)
validate-verify_ca_signatures_example =
    (validate-verify_ca_signatures toy approver trusted).0 validates

abbrev fields : CertFields
fields = record {
  version = 3;
  role_bits = 8;
  sig_pubkey = public_of 5;
  kex_pubkey = replicate 32 4;
  not_before = 1000;
  not_after = 2000;
  name = 104 ∷ 105 ∷ [];
  scope_ids = replicate 8 0 ∷ [];
}

typed : IsCertFields fields
typed = record {
  version = omega arith;
  role_bits = omega arith;
  sig_pubkey = refl;
  kex_pubkey = refl;
  not_before = omega arith;
  not_after = omega arith;
  scope_ids = (refl, tt);
}

encodes : encode_cert_tbs fields ≡ ok approver.tbs
unfolding encode_cert_tbs
encodes = refl

appends : append_cert_signatures approver.tbs (pairs 8 5 (replicate 8 0)) ≡ ok encoded
unfolding append_cert_signatures compare_bytes
appends = refl

parse-append_cert_signatures_example :
    (parse_cert encoded ≡ ok (cert_of fields approver.tbs (pairs 8 5 (replicate 8 0))))
    × (ca_pairs (cert_of fields approver.tbs (pairs 8 5 (replicate 8 0)))
        ≡ pairs 8 5 (replicate 8 0))
parse-append_cert_signatures_example =
    parse-append_cert_signatures fields approver.tbs encoded (pairs 8 5 (replicate 8 0)) typed
      encodes appends

-- An executor certificate whose window ends before it begins passes without a clock.
inverted :
    validate_cert_chain_no_clock toy
      (record executor { not_before = 18_446_744_073_709_551_615; not_after = 5 })
      trusted
    ≡ ok tt
unfolding validate_cert_chain_no_clock check_role_constraints check_pairs ca_pairs verify_signed
    equal in_set
inverted = refl
