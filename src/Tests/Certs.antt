-- ===== src/Tests/Certs.antt =====
-- Certificates and the receipts that they vouch for.
use lastro.Common.{
  ℕ, ◌≤◌, ◌≡◌, ◌≢◌, refl, true, Bytes, IsBytes, List, length, replicate, [], ◌∷◌, ◌++◌, arith, All,
  equal, compare_bytes,
}
use lastro.Common.Result.{ok}
use lastro.Tests.Toy.{toy, all_bytes, all_bytes-IsBytes, seed_of, public_of, signature}
use lastro.Wire.Crypto.{domain_cert, domain_span, verify_signed, fingerprint}
use lastro.Wire.Span
use lastro.Wire.Span.{SpanFields, Span}
use lastro.Wire.Span.Build.{span_of}
use lastro.Wire.Cert.{Cert, CaPair, ca_pairs, parse_cert, in_set, role_executor}
use lastro.Wire.Cert.Pairs.{Ascending, write_pairs}
use lastro.Wire.Cert.Codec.{IsCert, parse_cert_iff, parse_cert-Ascending}
use lastro.Wire.Validate.{
  has_role, validate_cert_chain_no_clock, verify_receipt, check_role_constraints, check_pairs,
  has_prefix, resource_prefix,
}
use lastro.Wire.Validate.Chain.{
  IsWithinPolicy, Vouches, validate_iff, verify_receipt_iff, approver_two_keys,
}

-- A certificate of the owner of a seed, signed with the seeds of 1s and 2s.
module _ (role seed : ℕ) (scope : Bytes) where
  abbrev pub tbs : Bytes
  tbs =
      3
      ∷ role
      ∷ (public_of seed
          ++ (replicate 32 4
              ++ (0 ∷ 0 ∷ 0 ∷ 0 ∷ 0 ∷ 0 ∷ 3 ∷ 232 ∷ 0 ∷ 0 ∷ 0 ∷ 0 ∷ 0 ∷ 0 ∷ 7 ∷ 208 ∷ 0 ∷ 2 ∷ 104
                  ∷ 105 ∷ 1 ∷ scope)))

  abbrev pub pairs : List CaPair
  pairs =
      record { key = public_of 1; sig = signature domain_cert tbs (seed_of 1) }
      ∷ record { key = public_of 2; sig = signature domain_cert tbs (seed_of 2) }
      ∷ []

  -- Valid from 1000 to 2000.
  abbrev pub cert : Cert
  cert = record {
    version = 3;
    role_bits = role;
    sig_pubkey = public_of seed;
    kex_pubkey = replicate 32 4;
    not_before = 1000;
    not_after = 2000;
    name = 104 ∷ 105 ∷ [];
    scope_count = 1;
    scope_ids = scope;
    ca_sig_count = 2;
    ca_sigs =
        public_of 1
        ++ (signature domain_cert tbs (seed_of 1)
            ++ (public_of 2 ++ signature domain_cert tbs (seed_of 2)));
    tbs = tbs;
  }

abbrev pub trusted : List Bytes
trusted = public_of 2 ∷ public_of 1 ∷ []

abbrev pub approver : Cert
approver = cert 8 5 (replicate 8 0)

abbrev pub encoded : Bytes
encoded = approver.tbs ++ (2 ∷ approver.ca_sigs)

pub encoded-IsBytes : IsBytes encoded
unfolding all_bytes
encoded-IsBytes = all_bytes-IsBytes encoded refl

approver-IsCert : IsCert approver
unfolding ca_pairs write_pairs compare_bytes
approver-IsCert = record {
  version = omega arith;
  role_bits = omega arith;
  sig_pubkey = refl;
  kex_pubkey = refl;
  not_before = omega arith;
  not_after = omega arith;
  name = omega arith;
  scope_count = omega arith;
  scope_ids = refl;
  some_sigs = omega arith;
  few_sigs = omega arith;
  pairs = (refl, (refl, (refl, (refl, (refl, (refl, tt))))));
  ca_sigs = refl;
  tbs = refl;
}

pub parses : parse_cert encoded ≡ ok approver
parses = (parse_cert_iff encoded approver encoded-IsBytes).1 (approver-IsCert, refl)

pub validates : validate_cert_chain_no_clock toy approver trusted ≡ ok tt
unfolding validate_cert_chain_no_clock check_role_constraints check_pairs ca_pairs verify_signed
    equal in_set
validates = refl

parse_cert_iff_example : parse_cert encoded ≡ ok approver
parse_cert_iff_example = (parse_cert_iff encoded approver encoded-IsBytes).1 (approver-IsCert, refl)

parse_cert-Ascending_example :
    Ascending (ca_pairs approver)
    × ((length (ca_pairs approver) ≡ 2)
        × ((1 ≤ approver.ca_sig_count) × (approver.ca_sig_count ≤ 4)))
parse_cert-Ascending_example = parse_cert-Ascending encoded approver encoded-IsBytes parses

validate_iff_example :
    IsWithinPolicy toy approver × All (Vouches toy approver.tbs trusted) (ca_pairs approver)
validate_iff_example = (validate_iff toy approver trusted).0 validates

approver_two_keys_example :
    (p : CaPair) × (q : CaPair) × (p.key ≢ q.key)
    × Vouches toy approver.tbs trusted p
    × Vouches toy approver.tbs trusted q
approver_two_keys_example =
    approver_two_keys toy encoded approver trusted encoded-IsBytes parses validates refl

-- A receipt of the executor with the key of 7s, for a resource below its fingerprint.
abbrev pub executor : Cert
executor = cert 4 7 (replicate 8 0)

abbrev span_fields : SpanFields
span_fields = record {
  version = 2;
  span_id = replicate 16 1;
  trace_id = replicate 16 2;
  resource_id =
      b'b' ∷ b'o' ∷ b'l' ∷ b':' ∷ b'0' ∷ b'7' ∷ b'0' ∷ b'7' ∷ b'0' ∷ b'7' ∷ b'0' ∷ b'7' ∷ b'0'
      ∷ b'7' ∷ b'0' ∷ b'7' ∷ b'0' ∷ b'7' ∷ b'0' ∷ b'7' ∷ b'/' ∷ b'x' ∷ [];
  method_id = 3;
  volatility = 0;
  origin = replicate 32 4;
  observed_at = 1500;
  digest = replicate 32 5;
  executor = public_of 7;
}

abbrev receipt : Span
receipt = span_of span_fields [] (signature domain_span [] (seed_of 7))

accepted : verify_receipt toy receipt executor trusted ≡ ok tt
unfolding verify_receipt Span.verify_sig verify_signed equal validate_cert_chain_no_clock
    check_role_constraints check_pairs ca_pairs in_set has_prefix fingerprint
accepted = refl

verify_receipt_iff_example :
    (Span.verify_sig toy receipt ≡ ok tt)
    × ((validate_cert_chain_no_clock toy executor trusted ≡ ok tt)
        × ((has_role executor.role_bits role_executor ≡ true)
            × ((executor.sig_pubkey ≡ receipt.executor)
                × (has_prefix receipt.resource_id
                      (resource_prefix (fingerprint toy receipt.executor))
                    ≡ true))))
verify_receipt_iff_example = (verify_receipt_iff toy receipt executor trusted).0 accepted
