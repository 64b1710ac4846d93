-- ===== src/Tests/Grants.antt =====
-- Grants and their decision.
use lastro.Common.{
  ℕ, ◌+◌, ◌<◌, ◌≤◌, ◌≡◌, ◌↔◌, refl, true, some, Bytes, IsBytes, replicate, [], ◌∷◌, ◌++◌, arith,
  equal,
}
use lastro.Common.Result.{ok}
use lastro.Tests.Toy.{toy, all_bytes, all_bytes-IsBytes, seed_of, public_of, signature}
use lastro.Tests.Certs.{cert, trusted}
use lastro.Wire.Crypto.{domain_grant, verify_signed, blake2s256}
use lastro.Wire.Cert.{Cert, ca_pairs, in_set}
use lastro.Wire.Validate.{
  check_role_constraints, check_pairs, validate_cert_chain_no_clock, max_privileged_lifetime_ms,
}
use lastro.Wire.Grant.{Grant, parse_grant, encode_grant_tbs}
use lastro.Wire.Grant.Codec.{IsGrant, parse_grant_iff}
use lastro.Wire.GrantChain.{
  GrantContext, verify_grant, validate_cert, check_expiry, scope_covers_resource,
  cert_carries_scope, last_slash,
}
use lastro.Wire.GrantChain.Bound.{IsBound, in_time}
use lastro.Wire.GrantChain.Decision.{verify_grant_iff}
use lastro.Wire.GrantChain.Expiry.{check_expiry_iff, validate_cert_window}
use lastro.Wire.GrantChain.Scope.{Ancestor, Carried, scope_covers_iff}

-- The approver has the key of 5s, the agent that of 6s, the executor that of 7s. Both certificates
-- have the scope "a"; the resource is "a/b".
abbrev scope : Bytes
scope = 97 ∷ replicate 7 0

abbrev resource : Bytes
resource = 97 ∷ 47 ∷ 98 ∷ []

abbrev approver : Cert
approver = cert 8 5 scope

abbrev agent : Cert
agent = cert 2 6 scope

abbrev action : Bytes
action = 1 ∷ 2 ∷ []

abbrev tbs : Bytes
tbs =
    2
    ∷ (replicate 16 1
        ++ (replicate 16 2
            ++ (public_of 5
                ++ (public_of 6
                    ++ (public_of 7
                        ++ (0
                            ∷ 3
                            ∷ 97
                            ∷ 47
                            ∷ 98
                            ∷ 1
                            ∷ 2
                            ∷ (replicate 30 0 ++ (0 ∷ 0 ∷ 0 ∷ 0 ∷ 0 ∷ 0 ∷ 6 ∷ 64 ∷ []))))))))

abbrev grant : Grant
grant = record {
  version = 2;
  grant_id = replicate 16 1;
  intent_id = replicate 16 2;
  approver = public_of 5;
  subject = public_of 6;
  executor = public_of 7;
  resource_id = resource;
  action_digest = 1 ∷ 2 ∷ replicate 30 0;
  not_after = 1600;
  tbs = tbs;
  sig = signature domain_grant tbs (seed_of 5);
}

abbrev encoded : Bytes
encoded = tbs ++ grant.sig

encoded-IsBytes : IsBytes encoded
unfolding all_bytes
encoded-IsBytes = all_bytes-IsBytes encoded refl

grant-IsGrant : IsGrant grant
unfolding encode_grant_tbs
grant-IsGrant = record {
  fields = record {
    version = omega arith;
    grant_id = refl;
    intent_id = refl;
    approver = refl;
    subject = refl;
    executor = refl;
    action_digest = refl;
    not_after = omega arith;
  };
  tbs = refl;
  sig = refl;
}

parse_grant_iff_example : parse_grant encoded ≡ ok grant
parse_grant_iff_example = (parse_grant_iff encoded grant encoded-IsBytes).1 (grant-IsGrant, refl)

-- The grant at a time, in milliseconds.
abbrev context : ℕ → GrantContext
context now = record {
  envelope_body_type = 3;
  envelope_sender = public_of 5;
  own_pubkey = public_of 7;
  trusted_cas = trusted;
  approver_cert = approver;
  subject_cert = agent;
  pending = record {
    intent_id = replicate 16 2;
    sender = public_of 6;
    resource_id = resource;
    action = action;
  };
  now_ms = now;
  first_receipt = 1400;
  t_max_seconds = 1;
  t_recv_seconds = 1;
  is_revoked = some (λ key. equal key (public_of 9));
}

granted : verify_grant toy grant (context 1500) ≡ ok tt
unfolding verify_grant verify_signed validate_cert validate_cert_chain_no_clock
    check_role_constraints check_pairs ca_pairs equal in_set scope_covers_resource
    cert_carries_scope blake2s256 check_expiry last_slash
granted = refl

verify_grant_iff_example :
    IsBound toy grant (context 1500) × (in_time toy grant (context 1500) ≡ ok tt)
verify_grant_iff_example = (verify_grant_iff toy grant (context 1500)).0 granted

-- A millisecond before the end.
granted_late : verify_grant toy grant (context 1599) ≡ ok tt
unfolding verify_grant verify_signed validate_cert validate_cert_chain_no_clock
    check_role_constraints check_pairs ca_pairs equal in_set scope_covers_resource
    cert_carries_scope blake2s256 check_expiry last_slash
granted_late = refl

check_expiry_iff_example :
    (check_expiry 1600 1599 1400 1 1 ≡ ok tt) ↔ ((1599 < 1600) × ((1600 ≤ 2400) × (1599 ≤ 2400)))
check_expiry_iff_example = check_expiry_iff 1600 1599 1400 1 1 (omega arith) (omega arith)

valid_now : validate_cert toy approver trusted 1500 ≡ ok tt
unfolding validate_cert validate_cert_chain_no_clock check_role_constraints check_pairs ca_pairs
    verify_signed equal in_set
valid_now = refl

validate_cert_window_example :
    (approver.not_before < approver.not_after)
    × (approver.not_after ≤ approver.not_before + max_privileged_lifetime_ms)
validate_cert_window_example =
    validate_cert_window toy approver trusted 1500 (omega arith) refl valid_now

covers : scope_covers_resource toy approver resource ≡ true
unfolding scope_covers_resource cert_carries_scope blake2s256 equal last_slash
covers = refl

scope_covers_iff_example :
    (n : ℕ) × Ancestor toy approver resource 3 n × Carried toy approver resource n
scope_covers_iff_example = (scope_covers_iff toy approver resource).0 covers
