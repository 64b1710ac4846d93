-- ===== src/Wire/Validate/Signatures.antt =====
-- VerifyCASignatures, and how the clock-free validation relates to it.
use lastro.Common.{◌≡◌, ◌↔◌, Bytes, List, [], ◌∷◌, All, none, some, arith}
use lastro.Common.Result.{ok}
use lastro.Wire.Crypto.{Crypto, domain_cert, verify_signed}
use lastro.Wire.Cert.{Cert, CaPair, ca_pairs, untrusted, verify_ca_loop, verify_ca_signatures}
use lastro.Wire.Validate.{validate_cert_chain_no_clock}
use lastro.Wire.Validate.Chain.{IsWithinPolicy, Vouches, in_set_iff, validate_iff}

module _ (c : Crypto) where
  -- The signature of the pair verifies.
  abbrev pub Signs : Bytes → CaPair → Type 0
  Signs tbs p = verify_signed c domain_cert tbs p.sig p.key ≡ ok tt

  loop_trusted :
      (tbs : Bytes) (trusted : List Bytes) (ps : List CaPair)
      → (verify_ca_loop c tbs (some trusted) ps ≡ ok tt) ↔ All (Vouches c tbs trusted) ps
  unfolding verify_ca_loop untrusted
  loop_trusted tbs trusted [] = ground arith
  loop_trusted tbs trusted (p ∷ ps) =
      ground (arith, loop_trusted tbs trusted ps, in_set_iff p.key trusted)

  loop_nil :
      (tbs : Bytes) (ps : List CaPair) → (verify_ca_loop c tbs none ps ≡ ok tt) ↔ All (Signs tbs) ps
  unfolding verify_ca_loop untrusted
  loop_nil tbs [] = ground arith
  loop_nil tbs (p ∷ ps) = ground (arith, loop_nil tbs ps)

  -- With a set of trusted keys, VerifyCASignatures accepts exactly when every CA key is trusted and
  -- every CA signature verifies; with the nil set, exactly when every CA signature verifies.
  pub verify_ca_signatures_iff :
      (ct : Cert) (trusted : List Bytes)
      → ((verify_ca_signatures c ct (some trusted) ≡ ok tt)
          ↔ All (Vouches c ct.tbs trusted) (ca_pairs ct))
        × ((verify_ca_signatures c ct none ≡ ok tt) ↔ All (Signs ct.tbs) (ca_pairs ct))
  unfolding verify_ca_signatures
  verify_ca_signatures_iff ct trusted =
      (loop_trusted ct.tbs trusted (ca_pairs ct), loop_nil ct.tbs (ca_pairs ct))

  -- The two loops over the CA pairs agree on what they accept: the clock-free validation accepts
  -- exactly when the certificate is within the policy and VerifyCASignatures accepts it with the
  -- same trusted keys.
  pub validate-verify_ca_signatures :
      (ct : Cert) (trusted : List Bytes)
      → (validate_cert_chain_no_clock c ct trusted ≡ ok tt)
        ↔ (IsWithinPolicy c ct × (verify_ca_signatures c ct (some trusted) ≡ ok tt))
  validate-verify_ca_signatures ct trusted =
      let (v, _) = verify_ca_signatures_iff ct trusted in
      let w = validate_iff c ct trusted in
      ((λ e. let (policy, all) = w.0 e in (policy, v.1 all)), (λ (policy, e). w.1 (policy, v.0 e)))
