-- ===== src/Wire/Validate.antt =====
-- wire/validate.go.
pub mod Roles
pub mod Chain
pub mod Signatures
pub mod Window
use lastro.Common.{
  ℕ, ◌+◌, ◌-◌, ◌*◌, ◌%◌, ◌^◌, bit_and, bit_or, ◌≡◌, Bool, true, false, not, ◌&&◌, ◌||◌, Bytes, List,
  [], ◌∷◌, ◌++◌, length, ltb, ◌==◌, equal, if◌then◌else◌,
}
use lastro.Common.Result.{
  Result, ok, err, role_pair_forbidden, approver_no_quorum, cert_too_long_lived, untrusted_ca,
  no_executor_role, not_span_signer, wrong_fingerprint, ◌>>=◌, ◌>>◌,
}
use lastro.Wire.Crypto.{Crypto, domain_cert, verify_signed, fingerprint}
use lastro.Wire.Span
use lastro.Wire.Span.{Span}
use lastro.Wire.Cert.{Cert, CaPair, ca_pairs, in_set, role_agent, role_approver, role_executor}

abbrev pub approver_quorum : ℕ
approver_quorum = 2

abbrev pub max_privileged_lifetime_ms : ℕ
max_privileged_lifetime_ms = 2_592_000_000

-- `bits & role != 0`
abbrev pub has_role : ℕ → ℕ → Bool
has_role bits role = not (bit_and bits role == 0)

unfoldable pub check_role_constraints : ℕ → Result (Unit {0})
check_role_constraints role_bits =
    let agent = has_role role_bits role_agent in
    let approver = has_role role_bits role_approver in
    let executor = has_role role_bits role_executor in
    if agent && approver || (agent && executor || approver && executor)
    then err role_pair_forbidden
    else ok tt

-- `a - b` on uint64.
abbrev pub sub64 : ℕ → ℕ → ℕ
sub64 a b = (a + 2 ^ 64 - b) % 2 ^ 64

-- The loop over the CA pairs.
unfoldable pub check_pairs : Crypto → Bytes → List Bytes → List CaPair → Result (Unit {0})
check_pairs c tbs trusted [] = ok tt
check_pairs c tbs trusted (p ∷ ps) =
    let rest = check_pairs c tbs trusted ps in
    verify_signed c domain_cert tbs p.sig p.key
    >> (if not (in_set p.key trusted) then err untrusted_ca else rest)

unfoldable pub validate_cert_chain_no_clock : Crypto → Cert → List Bytes → Result (Unit {0})
validate_cert_chain_no_clock c cert trusted = do
  check_role_constraints cert.role_bits
  if has_role cert.role_bits role_approver && ltb cert.ca_sig_count approver_quorum
      then err approver_no_quorum
      else if has_role cert.role_bits (bit_or role_approver role_executor)
          && ltb max_privileged_lifetime_ms (sub64 cert.not_after cert.not_before)
      then err cert_too_long_lived
      else check_pairs c cert.tbs trusted (ca_pairs cert)

-- Go's bytes.HasPrefix(s, prefix).
unfoldable pub has_prefix : Bytes → Bytes → Bool
has_prefix s [] = true
has_prefix [] (y ∷ prefix) = false
has_prefix (x ∷ s) (y ∷ prefix) = x == y && has_prefix s prefix

-- "bol:" + fp + "/"
abbrev pub resource_prefix : Bytes → Bytes
resource_prefix fp = b'b' ∷ b'o' ∷ b'l' ∷ b':' ∷ (fp ++ (b'/' ∷ []))

unfoldable pub verify_receipt : Crypto → Span → Cert → List Bytes → Result (Unit {0})
verify_receipt c span cert trusted = do
  Span.verify_sig c span
  validate_cert_chain_no_clock c cert trusted
  if not (has_role cert.role_bits role_executor)
      then err no_executor_role
      else if not (equal cert.sig_pubkey span.executor)
      then err not_span_signer
      else if not (has_prefix span.resource_id (resource_prefix (fingerprint c cert.sig_pubkey)))
      then err wrong_fingerprint
      else ok tt
