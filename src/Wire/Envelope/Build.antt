-- ===== src/Wire/Envelope/Build.antt =====
-- What the builder signs, the parser reads and the verifier accepts.
use lastro.Common.{
  ◌∙◌, append_assoc, ◌%◌, ◌^◌, ℕ, ◌*◌, ◌≤◌, ◌<◌, ◌≡◌, ◌↔◌, refl, Bytes, length, ◌++◌, arith,
  if◌then◌else◌, ltb, lt→ltb, List, [], ◌∷◌,
}
use lastro.Common.Result.{ok, err, oversize}
use lastro.Wire.Crypto.{Crypto, CryptoLaws, domain_envelope, sign_tagged_seed}
use lastro.Wire.Crypto.Signing.{verify_signed-sign_tagged_seed, length-sign_tagged_seed}
use lastro.Wire.Cursor.{
  Cursor, Reader, ◌>>=◌, pure, fail, u8, u32be, u64be, take_bytes, tell, since, reader_laws,
  parse_whole,
}
use lastro.Wire.Layout.{Field, octet, u64, fixed, Values, write_all, read_all, read_all-Reads}
use lastro.Wire.Encoding.{big_endian}
use lastro.Wire.Cursor.At.{at}
use lastro.Wire.Cursor.Whole.{whole-written}
use lastro.Wire.Envelope.Codec.{read_envelope-Reads}
use lastro.Wire.Envelope.{
  Envelope, max_body, EnvelopeFields, IsEnvelopeFields, read_envelope, parse_envelope, envelope_tbs,
  build_signed_envelope, verify_sig,
}

-- The envelope that the builder's arguments describe.
abbrev pub signed_envelope : Crypto → EnvelopeFields → Bytes → Envelope
signed_envelope c f seed = record {
  version = f.version;
  channel_id = f.channel_id;
  sender = f.sender;
  seq = f.seq;
  parent_count = f.parent_count;
  parents = f.parents;
  ts = f.ts;
  body_type = f.body_type;
  body = f.body;
  tbs = envelope_tbs f;
  sig = sign_tagged_seed c domain_envelope (envelope_tbs f) seed;
}

module _ (c : Crypto) (f : EnvelopeFields) (seed : Bytes) where
  -- The builder succeeds exactly when the lengths are right, and the body is not too long; it
  -- returns the TBS and the signature over it.
  pub build_iff :
      (out : Bytes)
      → (build_signed_envelope c f seed ≡ ok out) ↔ (
          (length f.channel_id ≡ 32)
          × ((length f.sender ≡ 32)
              × ((length f.parents ≡ f.parent_count * 32)
                  × ((length f.body ≤ max_body)
                      × (out
                          ≡ envelope_tbs f
                            ++ sign_tagged_seed c domain_envelope (envelope_tbs f) seed)))))
  unfolding build_signed_envelope
  build_iff out = ground arith

-- An envelope that is built with fields within their Go types, at most four parents, a seed of 32
-- bytes and that seed's public key as its sender parses to what it was built from, and its signature
-- verifies.
pub parse-build_signed :
    (c : Crypto) (f : EnvelopeFields) (seed out : Bytes)
    → CryptoLaws c
    → IsEnvelopeFields f
    → f.parent_count ≤ 4
    → length seed ≡ 32
    → f.sender ≡ c.public_key (c.key_from_seed seed)
    → build_signed_envelope c f seed ≡ ok out
    → (parse_envelope out ≡ ok (signed_envelope c f seed))
      × (verify_sig c (signed_envelope c f seed) ≡ ok tt)
unfolding verify_sig parse_envelope
parse-build_signed c f seed out laws h few s key e =
    let (channel, (sender, (parents, (body, written)))) = (build_iff c f seed out).0 e in
    let n = length-sign_tagged_seed c domain_envelope (envelope_tbs f) seed laws in
    (
      rw written (
          whole-written read_envelope-Reads (signed_envelope c f seed) (record {
            fields = h;
            channel_id = channel;
            sender = sender;
            few_parents = few;
            parents = parents;
            body = body;
            tbs = refl;
            sig = n;
          })),
      verify_signed-sign_tagged_seed c domain_envelope (envelope_tbs f) seed f.sender laws s key,
    )

-- The parser up to the number of parents, and what it does from there.
abbrev front : List Field
front = octet ∷ fixed 32 ∷ fixed 32 ∷ u64 ∷ octet ∷ []

abbrev from_parents : ℕ → Values front → Reader Envelope
from_parents start (version, (channel_id, (sender, (seq, (parent_count, _))))) =
    (if ltb 4 parent_count then fail oversize else take_bytes (parent_count * 32)) >>= λ parents. do
      ts ← u64be
      body_type ← u8
      body_len ← u32be
      body ← if ltb max_body body_len then fail oversize else take_bytes body_len
      tbs ← since start
      sig ← take_bytes 64
      pure (record {
        version = version;
        channel_id = channel_id;
        sender = sender;
        seq = seq;
        parent_count = parent_count;
        parents = parents;
        ts = ts;
        body_type = body_type;
        body = body;
        tbs = tbs;
        sig = sig;
      })

read_envelope-front : read_envelope ≡ (tell >>= λ start. read_all front >>= from_parents start)
unfolding read_envelope
read_envelope-front = simp reader_laws

refuses_many :
    (start : ℕ) (vs : Values front) (cur : Cursor)
    → 4 < vs.1.1.1.1.0
    → from_parents start vs cur ≡ err oversize
unfolding fail ◌>>=◌
refuses_many start vs cur h = rw (lt→ltb 4 vs.1.1.1.1.0 h)

abbrev front_values : EnvelopeFields → Values front
front_values f = (f.version, (f.channel_id, (f.sender, (f.seq, (f.parent_count, tt)))))

-- The TBS behind the number of parents.
abbrev behind : EnvelopeFields → Bytes
behind f =
    f.parents
    ++ (big_endian 8 f.ts ++ (f.body_type ∷ (big_endian 4 (length f.body % 2 ^ 32) ++ f.body)))

tbs-front :
    (f : EnvelopeFields) (x : Bytes)
    → envelope_tbs f ++ x ≡ write_all front (front_values f) ++ (behind f ++ x)
unfolding envelope_tbs
tbs-front f x = simp append_assoc

-- The builder takes any number of parents, and what it builds with more than four the parser
-- refuses as oversize.
pub parse-build_many_parents :
    (c : Crypto) (f : EnvelopeFields) (seed out : Bytes)
    → IsEnvelopeFields f
    → 4 < f.parent_count
    → build_signed_envelope c f seed ≡ ok out
    → parse_envelope out ≡ err oversize
unfolding parse_envelope parse_whole tell ◌>>=◌
parse-build_many_parents c f seed out h many e =
    let (channel, (sender, (_, (_, written)))) = (build_iff c f seed out).0 e in
    let sig = sign_tagged_seed c domain_envelope (envelope_tbs f) seed in
    rw (
      written ∙ tbs-front f sig,
      read_envelope-front,
      (read_all-Reads front).forward (front_values f)
          (h.version, (channel, (sender, (h.seq, (h.parent_count, tt))))) [] (behind f ++ sig),
      refuses_many 0 (front_values f) (at (write_all front (front_values f)) (behind f ++ sig))
          many,
    )
