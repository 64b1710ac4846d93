-- ===== src/Wire/GrantChain/Decision.antt =====
-- The grant decision as a whole.
use lastro.Common.{
  List, [], ◌∷◌, ℕ, ◌≡◌, ◌↔◌, Bool, Bytes, arith, equal, equal_iff, equal_refl, refl, sym, ◌∙◌, not,
  ◌||◌, ◌==◌,
}
use lastro.Common.Result.{
  Error, ok, ◌>>◌, is_err, bad_version, bad_envelope_binding, grant_bad_signature,
  bad_approver_cert, approver_revoked, approver_out_of_scope, bad_subject_cert, subject_revoked,
  subject_out_of_scope, wrong_executor, wrong_subject, no_matching_intent, wrong_resource,
  action_digest_mismatch, check-ok, Passes, refuse_all, refuse_all-pass, refuse_all-eq-ok,
}
use lastro.Wire.Crypto.{Crypto, domain_grant, verify_signed, blake2s256}
use lastro.Wire.Grant.{Grant}
use lastro.Wire.Cert.{Cert, role_agent, role_approver}
use lastro.Wire.Validate.{has_role}
use lastro.Wire.GrantChain.{GrantContext, revoked, body_grant, validate_cert, verify_grant}
use lastro.Wire.GrantChain.Bound.{
  differ_not, same_of, is_err→ok, IsBound, in_time, unscoped, admits_of, tests_of,
}

module _ (c : Crypto) (g : Grant) (ctx : GrantContext) where
  abbrev cert_gates :
      Cert → ℕ → Bytes → Error → Error → Error → List (Bool × Error) → List (Bool × Error)
  cert_gates cert role key bad gone outside gates =
      (is_err (validate_cert c cert ctx.trusted_cas ctx.now_ms), bad)
      ∷ (not (has_role cert.role_bits role), bad)
      ∷ (not (equal cert.sig_pubkey key), bad)
      ∷ (revoked ctx.is_revoked cert.sig_pubkey, gone)
      ∷ (unscoped c g ctx cert role key, outside)
      ∷ gates

  -- The checks 0 to 9 with the error of each, in the order of the code.
  abbrev gates : List (Bool × Error)
  gates =
      (not (g.version == 2), bad_version)
      ∷ (
        not (ctx.envelope_body_type == body_grant) || not (equal ctx.envelope_sender g.approver),
        bad_envelope_binding,
      )
      ∷ (is_err (verify_signed c domain_grant g.tbs g.sig g.approver), grant_bad_signature)
      ∷ cert_gates ctx.approver_cert role_approver g.approver bad_approver_cert approver_revoked
          approver_out_of_scope
          (cert_gates ctx.subject_cert role_agent g.subject bad_subject_cert subject_revoked
            subject_out_of_scope
            ((not (equal g.executor ctx.own_pubkey), wrong_executor)
              ∷ (not (equal g.subject ctx.pending.sender), wrong_subject)
              ∷ (not (equal g.intent_id ctx.pending.intent_id), no_matching_intent)
              ∷ (not (equal g.resource_id ctx.pending.resource_id), wrong_resource)
              ∷ (
                not (equal g.action_digest (blake2s256 c ctx.pending.action)),
                action_digest_mismatch,
              )
              ∷ []))

  verify_grant-gates : verify_grant c g ctx ≡ refuse_all gates (in_time c g ctx >> ok tt)
  unfolding verify_grant
  verify_grant-gates = refl

  IsBound-Passes : IsBound c g ctx → Passes gates
  IsBound-Passes h =
      let (av, (ar, (ak, (an, as_)))) =
        tests_of c g ctx ctx.approver_cert role_approver g.approver h.approver in
      let (sv, (sr, (sk, (sn, ss)))) =
        tests_of c g ctx ctx.subject_cert role_agent g.subject h.subject in
      (
        rw h.version,
        (
          rw (h.body_type, h.sender, equal_refl g.approver),
          (
            rw h.signature,
            (
              av,
              (
                ar,
                (
                  ak,
                  (
                    an,
                    (
                      as_,
                      (
                        sv,
                        (
                          sr,
                          (
                            sk,
                            (
                              sn,
                              (
                                ss,
                                (
                                  differ_not h.executor,
                                  (
                                    differ_not h.intent_sender,
                                    (
                                      differ_not h.intent_id,
                                      (differ_not h.resource, (differ_not h.action, tt)),
                                    ),
                                  ),
                                ),
                              ),
                            ),
                          ),
                        ),
                      ),
                    ),
                  ),
                ),
              ),
            ),
          ),
        ),
      )

  Passes-IsBound : Passes gates → IsBound c g ctx
  Passes-IsBound
        (
          version,
          (
            envelope,
            (
              signature,
              (
                av,
                (
                  ar,
                  (
                    ak,
                    (
                      an,
                      (
                        as_,
                        (
                          sv,
                          (
                            sr,
                            (
                              sk,
                              (sn, (ss, (executor, (sender, (intent, (resource, (action, _))))))),
                            ),
                          ),
                        ),
                      ),
                    ),
                  ),
                ),
              ),
            ),
          ),
        ) =
      record {
        version = ground (arith, version);
        body_type = ground (arith, envelope);
        sender = ground (arith, envelope, equal_iff ctx.envelope_sender g.approver);
        signature = is_err→ok (verify_signed c domain_grant g.tbs g.sig g.approver) signature;
        approver =
            admits_of c g ctx ctx.approver_cert role_approver g.approver
              (av, (ar, (ak, (an, as_))));
        subject =
            admits_of c g ctx ctx.subject_cert role_agent g.subject (sv, (sr, (sk, (sn, ss))));
        executor = same_of executor;
        intent_sender = same_of sender;
        intent_id = same_of intent;
        resource = same_of resource;
        action = same_of action;
      }

  -- When every check before the expiry passes, the decision is the answer of the expiry check.
  pub verify_grant-IsBound : IsBound c g ctx → verify_grant c g ctx ≡ in_time c g ctx
  verify_grant-IsBound h =
      verify_grant-gates
      ∙ (refuse_all-pass gates (in_time c g ctx >> ok tt) (IsBound-Passes h)
          ∙ check-ok (in_time c g ctx))

  bound_of_ok : verify_grant c g ctx ≡ ok tt → IsBound c g ctx
  bound_of_ok e =
      Passes-IsBound
        (refuse_all-eq-ok gates (in_time c g ctx >> ok tt) (sym verify_grant-gates ∙ e))

  -- A grant is authorised exactly when all the checks before the expiry pass and it is in time.
  pub verify_grant_iff :
      (verify_grant c g ctx ≡ ok tt) ↔ (IsBound c g ctx × (in_time c g ctx ≡ ok tt))
  verify_grant_iff = (
    (λ e. let h = bound_of_ok e in (h, sym (verify_grant-IsBound h) ∙ e)),
    (λ (h, t). verify_grant-IsBound h ∙ t),
  )
