-- ===== src/Wire/GrantChain/Bound.antt =====
-- What the checks of a grant before the expiry ask for.
use lastro.Common.{
  ℕ, ◌<◌, ◌≡◌, ◌⊎◌, Bool, true, false, Bytes, arith, equal, equal_iff, equal_refl, leb, refl, not,
  ◌&&◌,
}
use lastro.Common.Result.{Result, ok, err, is_err}
use lastro.Wire.Crypto.{Crypto, domain_grant, verify_signed, blake2s256}
use lastro.Wire.Grant.{Grant}
use lastro.Wire.Cert.{Cert, role_agent, role_approver}
use lastro.Wire.Validate.{has_role}
use lastro.Wire.GrantChain.{
  GrantContext, revoked, check_expiry, validate_cert, scope_covers_resource,
}

-- `!bytes.Equal(a, b)` and the equation.
pub differ_not : {a b : Bytes} → a ≡ b → not (equal a b) ≡ false
differ_not {a} {b} h = rw (h, equal_refl b)

pub same_of : {a b : Bytes} → not (equal a b) ≡ false → a ≡ b
same_of {a} {b} h = ground (arith, equal_iff a b)

pub is_err→ok : (r : Result (Unit {0})) → is_err r ≡ false → r ≡ ok tt
is_err→ok (ok a) h = refl
is_err→ok (err e) h = cc

module _ (c : Crypto) (g : Grant) (ctx : GrantContext) where
  -- The certificate is valid now, has the role and the key, is not revoked, and from version 3 on
  -- its scope covers the resource of the grant.
  pub record Admits (cert : Cert) (role : ℕ) (key : Bytes) : Type 0 where
    pub valid : validate_cert c cert ctx.trusted_cas ctx.now_ms ≡ ok tt
    pub role_bit : has_role cert.role_bits role ≡ true
    pub own_key : cert.sig_pubkey ≡ key
    pub not_revoked : revoked ctx.is_revoked cert.sig_pubkey ≡ false
    pub in_scope : (cert.version < 3) ⊎ (scope_covers_resource c cert g.resource_id ≡ true)

  -- The checks 0 to 9: the version, the envelope, the signature, the two certificates, and what
  -- binds the grant to this executor and to the pending intent.
  pub record IsBound : Type 0 where
    pub version : g.version ≡ 2
    pub body_type : ctx.envelope_body_type ≡ 3
    pub sender : ctx.envelope_sender ≡ g.approver
    pub signature : verify_signed c domain_grant g.tbs g.sig g.approver ≡ ok tt
    pub approver : Admits ctx.approver_cert role_approver g.approver
    pub subject : Admits ctx.subject_cert role_agent g.subject
    pub executor : g.executor ≡ ctx.own_pubkey
    pub intent_sender : g.subject ≡ ctx.pending.sender
    pub intent_id : g.intent_id ≡ ctx.pending.intent_id
    pub resource : g.resource_id ≡ ctx.pending.resource_id
    pub action : g.action_digest ≡ blake2s256 c ctx.pending.action

  abbrev pub in_time : Result (Unit {0})
  in_time =
      check_expiry g.not_after ctx.now_ms ctx.first_receipt ctx.t_max_seconds ctx.t_recv_seconds

  -- The five tests on a certificate.
  module _ (cert : Cert) (role : ℕ) (key : Bytes) where
    abbrev pub unscoped : Bool
    unscoped = leb 3 cert.version && not (scope_covers_resource c cert g.resource_id)

    abbrev pub Tests : Type 0
    Tests =
        (is_err (validate_cert c cert ctx.trusted_cas ctx.now_ms) ≡ false)
        × ((not (has_role cert.role_bits role) ≡ false)
            × ((not (equal cert.sig_pubkey key) ≡ false)
                × ((revoked ctx.is_revoked cert.sig_pubkey ≡ false) × (unscoped ≡ false))))

    pub admits_of : Tests → Admits cert role key
    admits_of (valid, (role_bit, (own_key, (not_revoked, in_scope)))) = record {
      valid = is_err→ok (validate_cert c cert ctx.trusted_cas ctx.now_ms) valid;
      role_bit = ground arith;
      own_key = ground (arith, equal_iff cert.sig_pubkey key);
      not_revoked = not_revoked;
      in_scope = ground arith;
    }

    pub tests_of : Admits cert role key → Tests
    tests_of h = (
      rw h.valid,
      (
        rw h.role_bit,
        (
          ground (arith, equal_iff cert.sig_pubkey key, h.own_key),
          (h.not_revoked, ground (arith, h.in_scope)),
        ),
      ),
    )
