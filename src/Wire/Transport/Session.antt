-- ===== src/Wire/Transport/Session.antt =====
-- When a binding frame is accepted, and what becomes of the frames that are built.
use lastro.Common.{
  ◌/◌, ◌%◌, ◌^◌, ◌<◌, ◌≤◌, ◌≡◌, ◌↔◌, ◌∙◌, Bytes, List, length, ◌∷◌, ◌++◌, arith, length-append,
}
use lastro.Common.Result.{ok, err, >>=-eq-ok, binding_length}
use lastro.Wire.Crypto.{Crypto, CryptoLaws, domain_binding, verify_signed, sign_tagged}
use lastro.Wire.Crypto.Signing.{verify_signed_own}
use lastro.Wire.Cert.{Cert, parse_cert}
use lastro.Wire.Validate.{validate_cert_chain_no_clock}
use lastro.Wire.Transport.{
  build_binding_frame, parse_binding_frame, verify_binding, verify_binding_frame,
}
use lastro.Wire.Transport.Binding.{parse-split, parse-frame_of}

module _ (c : Crypto) (h : Bytes) (trusted : List Bytes) where
  -- The certificate parses and validates without a clock, and its key signed the transcript hash.
  abbrev pub Binds : Bytes → Bytes → Cert → Type 0
  Binds cert_bytes sig ct =
      (parse_cert cert_bytes ≡ ok ct)
      × ((validate_cert_chain_no_clock c ct trusted ≡ ok tt)
          × (verify_signed c domain_binding h sig ct.sig_pubkey ≡ ok tt))

  verify_binding_iff :
      (cert_bytes sig : Bytes) (ct : Cert)
      → (verify_binding c h trusted (cert_bytes, sig) ≡ ok ct) ↔ Binds cert_bytes sig ct
  unfolding verify_binding
  verify_binding_iff cert_bytes sig ct = ground arith

  -- A frame is accepted with a certificate exactly when it parses into the bytes of that
  -- certificate and a signature, the certificate validates without a clock, and the signature is
  -- one over the transcript hash by the key of the certificate.
  pub verify_binding_frame_iff :
      (frame : Bytes) (ct : Cert)
      → (verify_binding_frame c frame h trusted ≡ ok ct) ↔ (
          (cert_bytes : Bytes) × (sig : Bytes) × (parse_binding_frame frame ≡ ok (cert_bytes, sig))
          × Binds cert_bytes sig ct)
  unfolding verify_binding_frame
  verify_binding_frame_iff frame ct = (
    (λ e.
        let ((cert_bytes, sig), parsed, accepted) =
          >>=-eq-ok (parse_binding_frame frame) (verify_binding c h trusted) e in
        (cert_bytes, sig, parsed, (verify_binding_iff cert_bytes sig ct).0 accepted)),
    λ (cert_bytes, sig, parsed, binds). rw parsed ((verify_binding_iff cert_bytes sig ct).1 binds),
  )

  -- The frame that the owner of a valid certificate builds is accepted by whoever trusts its CAs
  -- and has the same transcript hash.
  pub verify-build_binding_frame :
      (cert_bytes seed : Bytes) (ct : Cert)
      → CryptoLaws c
      → length seed ≡ 32
      → length cert_bytes < 2 ^ 16
      → parse_cert cert_bytes ≡ ok ct
      → validate_cert_chain_no_clock c ct trusted ≡ ok tt
      → ct.sig_pubkey ≡ c.public_key (c.key_from_seed seed)
      → verify_binding_frame c (build_binding_frame c cert_bytes seed h) h trusted ≡ ok ct
  unfolding build_binding_frame sign_tagged
  verify-build_binding_frame cert_bytes seed ct laws n short parsed valid own =
      let sig = c.ed_sign (c.key_from_seed seed) (domain_binding ∷ h) in
      let same : length cert_bytes % 2 ^ 16 ≡ length cert_bytes = omega arith in
      let framed = parse-frame_of cert_bytes sig short (laws.length-ed_sign _ _) in
      (verify_binding_frame_iff (build_binding_frame c cert_bytes seed h) ct).1 (
        cert_bytes,
        sig,
        rw same framed,
        (parsed, (valid, verify_signed_own c domain_binding h seed ct.sig_pubkey laws n own)),
      )

-- The frame of a certificate of 2^16 bytes or more, whose length does not fit its two bytes, is
-- built and refused by the parser.
pub parse-build_binding_frame_long :
    (c : Crypto) (cert_bytes seed h : Bytes)
    → CryptoLaws c
    → 2 ^ 16 ≤ length cert_bytes
    → parse_binding_frame (build_binding_frame c cert_bytes seed h) ≡ err binding_length
unfolding build_binding_frame
parse-build_binding_frame_long c cert_bytes seed h laws long =
    let sig = c.ed_sign (c.key_from_seed seed) (domain_binding ∷ h) in
    let n = length cert_bytes % 2 ^ 16 in
    let size = length-append cert_bytes sig in
    let full = laws.length-ed_sign (c.key_from_seed seed) (domain_binding ∷ h) in
    parse-split (n / 256 % 256) (n / 1 % 256) (cert_bytes ++ sig) ∙ ground (arith, size, full)
