-- ===== src/Wire/GrantChain.antt =====
-- wire/grantchain.go.
pub mod Scope
pub mod Expiry
pub mod Bound
pub mod Decision
use lastro.Common.{
  ℕ, zero, suc, ◌+◌, ◌-◌, ◌*◌, ◌%◌, ◌^◌, Bool, true, false, not, ◌&&◌, ◌||◌, Bytes, Option, none,
  some, List, take, length, ltb, leb, ◌==◌, equal, if◌then◌else◌,
}
use lastro.Common.Result.{
  Result, ok, err, ◌>>=◌, ◌>>◌, refuse_if, is_err, bad_version, bad_envelope_binding,
  grant_bad_signature, bad_approver_cert, approver_revoked, approver_out_of_scope, bad_subject_cert,
  subject_revoked, subject_out_of_scope, wrong_executor, wrong_subject, no_matching_intent,
  wrong_resource, action_digest_mismatch, expired, outside_window,
}
use lastro.Wire.Cursor.{slice, byte_at}
use lastro.Wire.Crypto.{Crypto, domain_grant, verify_signed, blake2s256}
use lastro.Wire.Grant.{Grant}
use lastro.Wire.Cert.{Cert, len_scope_id, role_agent, role_approver}
use lastro.Wire.Validate.{has_role, validate_cert_chain_no_clock}

abbrev pub body_grant : ℕ
body_grant = 3

pub record PendingIntent : Type 0 where
  pub intent_id : Bytes
  pub sender : Bytes
  pub resource_id : Bytes
  pub action : Bytes

pub record GrantContext : Type 0 where
  pub envelope_body_type : ℕ
  pub envelope_sender : Bytes
  pub own_pubkey : Bytes
  pub trusted_cas : List Bytes
  pub approver_cert : Cert
  pub subject_cert : Cert
  pub pending : PendingIntent
  pub now_ms : ℕ
  pub first_receipt : ℕ
  pub t_max_seconds : ℕ
  pub t_recv_seconds : ℕ
  -- the hook; `none` is nil
  pub is_revoked : Option (Bytes → Bool)

-- Arithmetic on uint64.
abbrev pub add64 : ℕ → ℕ → ℕ
add64 a b = (a + b) % 2 ^ 64

abbrev pub mul64 : ℕ → ℕ → ℕ
mul64 a b = a * b % 2 ^ 64

unfoldable pub check_expiry : ℕ → ℕ → ℕ → ℕ → ℕ → Result (Unit {0})
check_expiry not_after now_ms first_receipt_ms t_max_s t_recv_s = do
  let t_max_ms = mul64 t_max_s 1000
  let t_recv_ms = mul64 t_recv_s 1000
  refuse_if (leb not_after now_ms) expired
  refuse_if (ltb (add64 first_receipt_ms t_max_ms) not_after) expired
  refuse_if (ltb (add64 first_receipt_ms t_recv_ms) now_ms) expired
  ok tt

unfoldable pub validate_cert : Crypto → Cert → List Bytes → ℕ → Result (Unit {0})
validate_cert c cert trusted now_ms = do
  validate_cert_chain_no_clock c cert trusted
  refuse_if (ltb now_ms cert.not_before || leb cert.not_after now_ms) outside_window
  ok tt

-- The loop of certCarriesScope, from index i on with `rounds` rounds left.
unfoldable pub carries_loop : ℕ → ℕ → Bytes → Bytes → Bool
carries_loop zero i scope_ids scope = false
carries_loop (suc rounds) i scope_ids scope =
    let off = i * len_scope_id in
    equal (slice scope_ids off (off + len_scope_id)) scope
    || carries_loop rounds (i + 1) scope_ids scope

unfoldable pub cert_carries_scope : Cert → Bytes → Bool
unfolding carries_loop
cert_carries_scope cert scope = carries_loop cert.scope_count 0 cert.scope_ids scope

-- `for newEnd > 0 && resourceID[newEnd-1] != '/' { newEnd-- }`
unfoldable pub last_slash : Bytes → ℕ → ℕ
last_slash resource_id zero = 0
last_slash resource_id (suc n) =
    if byte_at resource_id n == b'/' then suc n else last_slash resource_id n

-- The outer loop. Each round makes `end` smaller, so as many rounds as bytes are enough.
unfoldable pub scope_loop : Crypto → ℕ → Cert → Bytes → ℕ → Bool
scope_loop c zero cert resource_id end = false
scope_loop c (suc fuel) cert resource_id zero = false
scope_loop c (suc fuel) cert resource_id (suc n) =
    let new_end = last_slash resource_id (suc n) in
    let up = scope_loop c fuel cert resource_id (new_end - 1) in
    if cert_carries_scope cert (take 8 (blake2s256 c (take (suc n) resource_id)))
    then true
    else if new_end == 0
    then false
    else up

unfoldable pub scope_covers_resource : Crypto → Cert → Bytes → Bool
unfolding scope_loop
scope_covers_resource c cert resource_id =
    scope_loop c (length resource_id) cert resource_id (length resource_id)

-- `ctx.IsRevoked != nil && ctx.IsRevoked(key)`
abbrev pub revoked : Option (Bytes → Bool) → Bytes → Bool
revoked none key = false
revoked (some hook) key = hook key

-- The checks 0 to 10, in their order.
unfoldable pub verify_grant : Crypto → Grant → GrantContext → Result (Unit {0})
verify_grant c g ctx = do
  refuse_if (not (g.version == 2)) bad_version
  refuse_if
      (not (ctx.envelope_body_type == body_grant) || not (equal ctx.envelope_sender g.approver))
      bad_envelope_binding
  refuse_if (is_err (verify_signed c domain_grant g.tbs g.sig g.approver)) grant_bad_signature
  refuse_if (is_err (validate_cert c ctx.approver_cert ctx.trusted_cas ctx.now_ms))
      bad_approver_cert
  refuse_if (not (has_role ctx.approver_cert.role_bits role_approver)) bad_approver_cert
  refuse_if (not (equal ctx.approver_cert.sig_pubkey g.approver)) bad_approver_cert
  refuse_if (revoked ctx.is_revoked ctx.approver_cert.sig_pubkey) approver_revoked
  refuse_if
      (leb 3 ctx.approver_cert.version
        && not (scope_covers_resource c ctx.approver_cert g.resource_id))
      approver_out_of_scope
  refuse_if (is_err (validate_cert c ctx.subject_cert ctx.trusted_cas ctx.now_ms)) bad_subject_cert
  refuse_if (not (has_role ctx.subject_cert.role_bits role_agent)) bad_subject_cert
  refuse_if (not (equal ctx.subject_cert.sig_pubkey g.subject)) bad_subject_cert
  refuse_if (revoked ctx.is_revoked ctx.subject_cert.sig_pubkey) subject_revoked
  refuse_if
      (leb 3 ctx.subject_cert.version
        && not (scope_covers_resource c ctx.subject_cert g.resource_id))
      subject_out_of_scope
  refuse_if (not (equal g.executor ctx.own_pubkey)) wrong_executor
  refuse_if (not (equal g.subject ctx.pending.sender)) wrong_subject
  refuse_if (not (equal g.intent_id ctx.pending.intent_id)) no_matching_intent
  refuse_if (not (equal g.resource_id ctx.pending.resource_id)) wrong_resource
  refuse_if (not (equal g.action_digest (blake2s256 c ctx.pending.action))) action_digest_mismatch
  check_expiry g.not_after ctx.now_ms ctx.first_receipt ctx.t_max_seconds ctx.t_recv_seconds
  ok tt
