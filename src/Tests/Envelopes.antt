-- ===== src/Tests/Envelopes.antt =====
-- Envelopes and the bodies of package wire: intents and refusals.
use lastro.Common.{ℕ, ◌*◌, ◌<◌, ◌≡◌, refl, Bytes, IsBytes, replicate, [], ◌∷◌, ◌++◌, arith}
use lastro.Common.Result.{ok, err, oversize}
use lastro.Tests.Toy.{toy, toy_laws, all_bytes, all_bytes-IsBytes, seed_of, public_of, signature}
use lastro.Wire.Crypto.{domain_envelope, domain_refusal, sign_tagged_seed, sign_tagged}
use lastro.Wire.Envelope.{
  Envelope, EnvelopeFields, IsEnvelopeFields, parse_envelope, envelope_tbs, build_signed_envelope,
  verify_sig,
}
use lastro.Wire.Envelope.Codec.{IsEnvelope, parse_envelope_iff}
use lastro.Wire.Envelope.Build.{signed_envelope, parse-build_signed, parse-build_many_parents}
use lastro.Wire.Intent.{Intent, parse_intent, encode_intent_body}
use lastro.Wire.Intent.Codec.{parse_intent_iff}
use lastro.Wire.Refusal.{Refusal}
use lastro.Wire.Refusal.Codec.{IsRefusal}

-- An envelope with `n` parents, from the owner of the seed of 9s.
abbrev fields : ℕ → EnvelopeFields
fields n = record {
  version = 1;
  channel_id = replicate 32 3;
  sender = public_of 9;
  seq = 258;
  parents = replicate (n * 32) 5;
  parent_count = n;
  ts = 7;
  body_type = 2;
  body = 10 ∷ 11 ∷ 12 ∷ [];
}

abbrev tbs : ℕ → Bytes
tbs n =
    1
    ∷ (replicate 32 3
        ++ (public_of 9
            ++ (0
                ∷ 0
                ∷ 0
                ∷ 0
                ∷ 0
                ∷ 0
                ∷ 1
                ∷ 2
                ∷ n
                ∷ (replicate (n * 32) 5
                    ++ (0 ∷ 0 ∷ 0 ∷ 0 ∷ 0 ∷ 0 ∷ 0 ∷ 7 ∷ 2 ∷ 0 ∷ 0 ∷ 0 ∷ 3 ∷ 10 ∷ 11 ∷ 12 ∷ [])))))

abbrev message : ℕ → Bytes
message n = tbs n ++ signature domain_envelope (tbs n) (seed_of 9)

abbrev envelope : Envelope
envelope = record {
  version = 1;
  channel_id = replicate 32 3;
  sender = public_of 9;
  seq = 258;
  parent_count = 2;
  parents = replicate 64 5;
  ts = 7;
  body_type = 2;
  body = 10 ∷ 11 ∷ 12 ∷ [];
  tbs = tbs 2;
  sig = signature domain_envelope (tbs 2) (seed_of 9);
}

typed : (n : ℕ) → n < 256 → IsEnvelopeFields (fields n)
typed n h = record {
  version = omega arith;
  seq = omega arith;
  parent_count = h;
  ts = omega arith;
  body_type = omega arith;
}

well_formed : IsEnvelope envelope
unfolding envelope_tbs
well_formed = record {
  fields = typed 2 (omega arith);
  channel_id = refl;
  sender = refl;
  few_parents = omega arith;
  parents = refl;
  body = omega arith;
  tbs = refl;
  sig = refl;
}

builds : build_signed_envelope toy (fields 2) (seed_of 9) ≡ ok (message 2)
unfolding build_signed_envelope envelope_tbs sign_tagged_seed sign_tagged
builds = refl

builds_five : build_signed_envelope toy (fields 5) (seed_of 9) ≡ ok (message 5)
unfolding build_signed_envelope envelope_tbs sign_tagged_seed sign_tagged
builds_five = refl

message-IsBytes : IsBytes (message 2)
unfolding all_bytes
message-IsBytes = all_bytes-IsBytes (message 2) refl

parse_envelope_iff_example : parse_envelope (message 2) ≡ ok envelope
parse_envelope_iff_example =
    (parse_envelope_iff (message 2) envelope message-IsBytes).1 (well_formed, refl)

parse-build_signed_example :
    (parse_envelope (message 2) ≡ ok (signed_envelope toy (fields 2) (seed_of 9)))
    × (verify_sig toy (signed_envelope toy (fields 2) (seed_of 9)) ≡ ok tt)
parse-build_signed_example =
    parse-build_signed toy (fields 2) (seed_of 9) (message 2) toy_laws (typed 2 (omega arith))
      (omega arith) refl refl builds

parse-build_many_parents_example : parse_envelope (message 5) ≡ err oversize
parse-build_many_parents_example =
    parse-build_many_parents toy (fields 5) (seed_of 9) (message 5) (typed 5 (omega arith))
      (omega arith) builds_five

abbrev intent : Intent
intent = record {
  intent_id = replicate 16 6;
  resource_id = 97 ∷ 98 ∷ [];
  action = 1 ∷ 2 ∷ 3 ∷ [];
  rationale = 99 ∷ [];
}

abbrev intent_body : Bytes
intent_body = replicate 16 6 ++ (0 ∷ 2 ∷ 97 ∷ 98 ∷ 0 ∷ 0 ∷ 0 ∷ 3 ∷ 1 ∷ 2 ∷ 3 ∷ 0 ∷ 1 ∷ 99 ∷ [])

encodes : encode_intent_body intent ≡ ok intent_body
unfolding encode_intent_body
encodes = refl

intent_body-IsBytes : IsBytes intent_body
unfolding all_bytes
intent_body-IsBytes = all_bytes-IsBytes intent_body refl

parse_intent_iff_example : parse_intent intent_body ≡ ok intent
parse_intent_iff_example = (parse_intent_iff intent_body intent intent_body-IsBytes).1 encodes

abbrev refusal_tbs : Bytes
refusal_tbs = replicate 16 6 ++ (0 ∷ 2 ∷ 110 ∷ 111 ∷ [])

abbrev refusal : Refusal
refusal = record {
  intent_id = replicate 16 6;
  note = 110 ∷ 111 ∷ [];
  tbs = refusal_tbs;
  sig = signature domain_refusal refusal_tbs (seed_of 9);
}

abbrev refusal_body : Bytes
refusal_body = refusal_tbs ++ refusal.sig

refusal_body-IsBytes : IsBytes refusal_body
unfolding all_bytes
refusal_body-IsBytes = all_bytes-IsBytes refusal_body refl

refusal-IsRefusal : IsRefusal refusal
refusal-IsRefusal = record { intent_id = refl; note = omega arith; tbs = refl; sig = refl }
