-- ===== src/Interop/Intents.antt =====
-- Stage C: the intent that is sent through the session.
use lastro.Common.{
  ◌+◌, ◌%◌, ◌^◌, ◌<◌, ◌≤◌, ◌≡◌, refl, ap, ◌∙◌, true, Bytes, length, replicate, [], ◌∷◌, ◌++◌, arith,
  lengths,
}
use lastro.Common.Regions.{overwrite_full}
use lastro.Common.Result.{ok}
use lastro.Wire.Encoding.{big_endian}
use lastro.Wire.Crypto.{Crypto, CryptoLaws, fingerprint, domain_envelope, sign_tagged_seed}
use lastro.Wire.Crypto.Signing.{length-fingerprint}
use lastro.Cmd.Run.Preparation.{length-resource_of}
use lastro.Wire.Intent.{Intent, encode_intent_body, parse_intent}
use lastro.Wire.Intent.Codec.{IsIntent, parse-encode_intent_body}
use lastro.Wire.Envelope.{
  Envelope, IsEnvelopeFields, envelope_tbs, build_signed_envelope, parse_envelope, verify_sig,
}
use lastro.Wire.Envelope.Build.{signed_envelope, build_iff, parse-build_signed}
use lastro.Wire.Transport.{Aead, AeadLaws, seal_transport, open_transport}
use lastro.Wire.Transport.Packets.{open_transport-seal_transport}
use lastro.Wire.Noise.Messages.{Dh}
use lastro.Cmd.{goes}
use lastro.Interop.{
  Flags, Material, Line, Opened, Bound, ed25519_pub, intent_of, envelope_of, stage_c,
}

-- The body of an intent is as long as its fields and their lengths.
length-encode :
    (it : Intent)
    → IsIntent it
    → (body : Bytes) × (encode_intent_body it ≡ ok body) × (length body ≤ 270_000)
unfolding encode_intent_body
length-encode it h =
    let resource_size = big_endian 2 (length it.resource_id % 2 ^ 16) in
    let action_size = big_endian 4 (length it.action % 2 ^ 32) in
    let rationale_size = big_endian 2 (length it.rationale % 2 ^ 16) in
    let body =
      it.intent_id
      ++ (resource_size
          ++ (it.resource_id
              ++ (action_size ++ (it.action ++ (rationale_size ++ it.rationale))))) in
    let encoded : encode_intent_body it ≡ ok body =
      ground (arith, h.intent_id, h.resource_id, h.action, h.rationale) in
    (body, encoded, omega (lengths, h.intent_id, h.resource_id, h.action, h.rationale))

module _ (c : Crypto) (d : Dh) (a : Aead) (laws : CryptoLaws c) (aead_laws : AeadLaws a) (f : Flags)
    (m : Material) (l : Line) (o : Opened) (b : Bound) where
  filled :
      length m.sig_seed ≡ 32 → ed25519_pub c m.sig_seed ≡ c.public_key (c.key_from_seed m.sig_seed)
  unfolding ed25519_pub
  filled n =
      overwrite_full (c.public_key (c.key_from_seed m.sig_seed)) (replicate 32 0)
        (laws.length-public_key m.sig_seed n)

  resource_short :
      length f.resource_ns + length f.resource_id ≤ 234
      → length (intent_of c f l b.cert).resource_id ≤ 256
  resource_short short = omega (
    arith,
    length-resource_of (fingerprint c b.cert.sig_pubkey) f.resource_ns f.resource_id,
    length-fingerprint c b.cert.sig_pubkey laws,
    short,
  )

  -- The third packet of a session, where the connection takes it, the node's seed has 32 bytes,
  -- the id of the intent has 16, the time has 64 bits and the namespace and the id of the resource
  -- have at most 234 together: whoever holds the session's key opens it, as packet 1 of the
  -- session, to an envelope that parses, is of body type 2 and signed by the node's own key, and
  -- carries an intent that parses: with that id, with the action "apt-get install -y sqlite3", and
  -- on the resource "bol:<fingerprint>/<namespace>/<id>" with the fingerprint of the daemon's
  -- signing key.
  pub stage_c_lem :
      length m.sig_seed ≡ 32
      → length l.intent_id ≡ 16
      → length f.resource_ns + length f.resource_id ≤ 234
      → l.now2 < 2 ^ 64
      → l.takes 2 ≡ true
      → (packet : Bytes) × (out : Bytes) × (env : Envelope) × (it : Intent) × (stage_c c d a f m l o
            b
          ≡ goes (b.sent ++ (packet ∷ [])))
        × (open_transport a o.res.send_key packet ≡ ok (out, 1))
        × (parse_envelope out ≡ ok env)
        × (verify_sig c env ≡ ok tt)
        × (env.sender ≡ c.public_key (c.key_from_seed m.sig_seed))
        × (env.body_type ≡ 2)
        × (parse_intent env.body ≡ ok it)
        × (it.intent_id ≡ l.intent_id)
        × (it.resource_id
            ≡ b'b'
              ∷ b'o'
              ∷ b'l'
              ∷ b':'
              ∷ (fingerprint c b.cert.sig_pubkey
                  ++ (b'/' ∷ (f.resource_ns ++ (b'/' ∷ f.resource_id)))))
        × (it.action
            ≡ b'a' ∷ b'p' ∷ b't' ∷ b'-' ∷ b'g' ∷ b'e' ∷ b't' ∷ b' ' ∷ b'i' ∷ b'n' ∷ b's' ∷ b't'
              ∷ b'a' ∷ b'l' ∷ b'l' ∷ b' ' ∷ b'-' ∷ b'y' ∷ b' ' ∷ b's' ∷ b'q' ∷ b'l' ∷ b'i' ∷ b't'
              ∷ b'e' ∷ b'3' ∷ [])
  unfolding stage_c
  stage_c_lem seed_size id_size small time takes =
      let it = intent_of c f l b.cert in
      let h : IsIntent it = record {
        intent_id = id_size;
        resource_id = resource_short small;
        action = omega arith;
        rationale = omega arith;
      } in
      let (body, encoded, short) = length-encode it h in
      let fields = envelope_of c m l body in
      let own = filled seed_size in
      let sender_size : length fields.sender ≡ 32 =
        ap length own ∙ laws.length-public_key m.sig_seed seed_size in
      let out =
        envelope_tbs fields
        ++ sign_tagged_seed c domain_envelope (envelope_tbs fields) m.sig_seed in
      let built : build_signed_envelope c fields m.sig_seed ≡ ok out =
        (build_iff c fields m.sig_seed out).1
          (refl, (sender_size, (refl, (omega (arith, short), refl)))) in
      let typed : IsEnvelopeFields fields = record {
        version = omega arith;
        seq = omega arith;
        parent_count = omega arith;
        ts = time;
        body_type = omega arith;
      } in
      let (parsed, signed) =
        parse-build_signed c fields m.sig_seed out laws typed (omega arith) seed_size own built in
      (
        seal_transport a o.res.send_key o.daemon_index 1 out,
        out,
        signed_envelope c fields m.sig_seed,
        it,
        rw (encoded, built, takes) refl,
        open_transport-seal_transport a o.res.send_key out o.daemon_index 1 aead_laws (omega arith),
        parsed,
        signed,
        own,
        refl,
        parse-encode_intent_body it body encoded,
        refl,
        refl,
        refl,
      )
