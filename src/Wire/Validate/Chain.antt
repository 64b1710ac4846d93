-- ===== src/Wire/Validate/Chain.antt =====
-- When a certificate chain and a receipt are accepted.
use lastro.Common.{
  ◌≤◌, ◌≡◌, ◌≢◌, ◌↔◌, ◌⊎◌, bit_or, true, Bytes, IsBytes, length, List, [], ◌∷◌, All, arith,
  equal_iff, Above-irrefl,
}
use lastro.Common.Result.{ok}
use lastro.Wire.Crypto.{Crypto, domain_cert, verify_signed, fingerprint}
use lastro.Wire.Span
use lastro.Wire.Span.{Span}
use lastro.Wire.Cert.{Cert, CaPair, ca_pairs, in_set, parse_cert, role_approver, role_executor}
use lastro.Wire.Cert.Pairs.{Ascending}
use lastro.Wire.Cert.Codec.{parse_cert-Ascending}
use lastro.Wire.Validate.{
  approver_quorum, max_privileged_lifetime_ms, has_role, sub64, check_role_constraints, check_pairs,
  validate_cert_chain_no_clock, has_prefix, resource_prefix, verify_receipt,
}

-- The key is one of the set.
abbrev pub In : Bytes → List Bytes → Type 0
In key [] = ⊥
In key (k ∷ set) = (k ≡ key) ⊎ In key set

pub in_set_iff : (key : Bytes) (set : List Bytes) → (in_set key set ≡ true) ↔ In key set
unfolding in_set
in_set_iff key [] = ground arith
in_set_iff key (k ∷ set) = ground (arith, in_set_iff key set, equal_iff k key)

-- Two pairs at the front of an ascending list have different keys.
first_two :
    {P : CaPair → Type 0} (ps : List CaPair)
    → 2 ≤ length ps
    → Ascending ps
    → All P ps
    → (p : CaPair) × (q : CaPair) × (p.key ≢ q.key) × P p × P q
first_two [] h up all = absurd (omega arith)
first_two (p ∷ []) h up all = absurd (omega arith)
first_two (p ∷ q ∷ ps) h up all =
    (p, q, (λ e. Above-irrefl p.key (rw (← e) at (up.0.0))), all.0, all.1.0)

module _ (c : Crypto) where
  -- The CA key is trusted, and its signature over the TBS verifies.
  abbrev pub Vouches : Bytes → List Bytes → CaPair → Type 0
  Vouches tbs trusted p = (verify_signed c domain_cert tbs p.sig p.key ≡ ok tt) × In p.key trusted

  check_pairs_iff :
      (tbs : Bytes) (trusted : List Bytes) (ps : List CaPair)
      → (check_pairs c tbs trusted ps ≡ ok tt) ↔ All (Vouches tbs trusted) ps
  unfolding check_pairs
  check_pairs_iff tbs trusted [] = ground arith
  check_pairs_iff tbs trusted (p ∷ ps) =
      ground (arith, check_pairs_iff tbs trusted ps, in_set_iff p.key trusted)

  -- What the chain checks ask for, the signatures aside: roles that go together, two CA signatures
  -- for an approver, and a window of at most 30 days for an approver or an executor.
  abbrev pub IsWithinPolicy : Cert → Type 0
  IsWithinPolicy ct =
      (check_role_constraints ct.role_bits ≡ ok tt)
      × ((has_role ct.role_bits role_approver ≡ true → approver_quorum ≤ ct.ca_sig_count)
          × (has_role ct.role_bits (bit_or role_approver role_executor) ≡ true
              → sub64 ct.not_after ct.not_before ≤ max_privileged_lifetime_ms))

  -- The clock-free validation accepts exactly the certificates within the policy for which every
  -- CA key is trusted and every CA signature verifies.
  pub validate_iff :
      (ct : Cert) (trusted : List Bytes)
      → (validate_cert_chain_no_clock c ct trusted ≡ ok tt)
        ↔ (IsWithinPolicy ct × All (Vouches ct.tbs trusted) (ca_pairs ct))
  unfolding validate_cert_chain_no_clock
  validate_iff ct trusted = ground (arith, check_pairs_iff ct.tbs trusted (ca_pairs ct))

  -- A receipt is accepted exactly when its signature verifies, the certificate validates, the
  -- certificate has the executor role and the key of the span, and the resource begins with the
  -- fingerprint of that key.
  pub verify_receipt_iff :
      (span : Span) (ct : Cert) (trusted : List Bytes)
      → (verify_receipt c span ct trusted ≡ ok tt) ↔ (
          (Span.verify_sig c span ≡ ok tt)
          × ((validate_cert_chain_no_clock c ct trusted ≡ ok tt)
              × ((has_role ct.role_bits role_executor ≡ true)
                  × ((ct.sig_pubkey ≡ span.executor)
                      × (has_prefix span.resource_id (resource_prefix (fingerprint c span.executor))
                          ≡ true)))))
  unfolding verify_receipt
  verify_receipt_iff span ct trusted = ground (arith, equal_iff ct.sig_pubkey span.executor)

  -- An approver certificate that parses and validates carries two different trusted keys, each
  -- with a signature over the TBS that verifies.
  pub approver_two_keys :
      (buf : Bytes) (ct : Cert) (trusted : List Bytes)
      → IsBytes buf
      → parse_cert buf ≡ ok ct
      → validate_cert_chain_no_clock c ct trusted ≡ ok tt
      → has_role ct.role_bits role_approver ≡ true
      → (p : CaPair) × (q : CaPair) × (p.key ≢ q.key)
        × Vouches ct.tbs trusted p
        × Vouches ct.tbs trusted q
  approver_two_keys buf ct trusted hb parsed valid role =
      let ((_, (quorum, _)), vouched) = (validate_iff ct trusted).0 valid in
      let (ascending, (count, _)) = parse_cert-Ascending buf ct hb parsed in
      first_two (ca_pairs ct) (omega (arith, quorum role)) ascending vouched
