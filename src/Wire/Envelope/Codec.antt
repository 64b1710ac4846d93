-- ===== src/Wire/Envelope/Codec.antt =====
-- The envelope parser accepts exactly the encodings of well-formed envelopes.
use lastro.Common.{
  ℕ, ◌*◌, ◌%◌, ◌^◌, ◌≤◌, ◌≡◌, ◌↔◌, refl, sym, ◌∙◌, Bytes, IsBytes, length, List, [], ◌∷◌, ◌++◌,
  arith, append-nil,
}
use lastro.Common.Result.{ok, err, truncated, trailing_bytes}
use lastro.Wire.Cursor.{◌>>=◌, pure, reader_laws, field32}
use lastro.Wire.Cursor.Reads.{Reads, Reads-map, Reads-convert}
use lastro.Wire.Cursor.Whole.{whole-written, whole_inv, whole_trailing, whole_cut}
use lastro.Wire.Layout.{Field, octet, u64, fixed, sized32, counted, Values, write_all}
use lastro.Wire.Layout.Signed.{Signed, IsSigned, read_signed, read_signed-Reads}
use lastro.Wire.Envelope.{
  Envelope, EnvelopeFields, IsEnvelopeFields, max_body, read_envelope, parse_envelope, envelope_tbs,
}

-- The layout in the comment of envelope.go.
abbrev layout : List Field
layout = octet ∷ fixed 32 ∷ fixed 32 ∷ u64 ∷ counted 4 32 ∷ u64 ∷ octet ∷ sized32 max_body ∷ []

abbrev build : Signed layout → Envelope
build
      (
        (
          (
            version,
            (channel_id, (sender, (seq, ((parent_count, parents), (ts, (body_type, (body, _))))))),
          ),
          tbs,
        ),
        sig,
      ) =
    record {
      version = version;
      channel_id = channel_id;
      sender = sender;
      seq = seq;
      parent_count = parent_count;
      parents = parents;
      ts = ts;
      body_type = body_type;
      body = body;
      tbs = tbs;
      sig = sig;
    }

abbrev pub fields_of : Envelope → EnvelopeFields
fields_of e = record {
  version = e.version;
  channel_id = e.channel_id;
  sender = e.sender;
  seq = e.seq;
  parents = e.parents;
  parent_count = e.parent_count;
  ts = e.ts;
  body_type = e.body_type;
  body = e.body;
}

abbrev values : EnvelopeFields → Values layout
values f = (
  f.version,
  (
    f.channel_id,
    (f.sender, (f.seq, ((f.parent_count, f.parents), (f.ts, (f.body_type, (f.body, tt)))))),
  ),
)

abbrev parts : Envelope → Signed layout
parts e = ((values (fields_of e), e.tbs), e.sig)

read_envelope-signed : read_envelope ≡ (read_signed layout >>= λ p. pure (build p))
unfolding read_envelope field32
read_envelope-signed = simp reader_laws

-- What holds of an envelope that the parser returns, and of nothing else.
pub record IsEnvelope (e : Envelope) : Type 0 where
  pub fields : IsEnvelopeFields (fields_of e)
  pub channel_id : length e.channel_id ≡ 32
  pub sender : length e.sender ≡ 32
  pub few_parents : e.parent_count ≤ 4
  pub parents : length e.parents ≡ e.parent_count * 32
  pub body : length e.body ≤ max_body
  pub tbs : e.tbs ≡ envelope_tbs (fields_of e)
  pub sig : length e.sig ≡ 64

tbs-written :
    (f : EnvelopeFields) → length f.body ≤ max_body → envelope_tbs f ≡ write_all layout (values f)
unfolding envelope_tbs
tbs-written f h =
    let n : length f.body % 2 ^ 32 ≡ length f.body = omega arith in rw n (rw append-nil)

IsEnvelope→IsSigned : (e : Envelope) → IsEnvelope e → IsSigned layout (parts e)
IsEnvelope→IsSigned e h =
    let f = h.fields in
    (
      (
        (
          f.version,
          (
            h.channel_id,
            (
              h.sender,
              (
                f.seq,
                (
                  (f.parent_count, (h.few_parents, h.parents)),
                  (f.ts, (f.body_type, ((omega arith, h.body), tt))),
                ),
              ),
            ),
          ),
        ),
        h.tbs ∙ tbs-written (fields_of e) h.body,
      ),
      h.sig,
    )

IsSigned→IsEnvelope : (e : Envelope) → IsSigned layout (parts e) → IsEnvelope e
IsSigned→IsEnvelope e
      (
        (
          (
            version,
            (
              channel,
              (sender, (seq, ((count, (few, parents)), (ts, (body_type, ((_, body), _)))))),
            ),
          ),
          written,
        ),
        n,
      ) =
    record {
      fields = record {
        version = version;
        seq = seq;
        parent_count = count;
        ts = ts;
        body_type = body_type;
      };
      channel_id = channel;
      sender = sender;
      few_parents = few;
      parents = parents;
      body = body;
      tbs = written ∙ sym (tbs-written (fields_of e) body);
      sig = n;
    }

pub read_envelope-Reads : Reads read_envelope (λ e. e.tbs ++ e.sig) IsEnvelope
read_envelope-Reads = rw read_envelope-signed (
    Reads-convert (Reads-map build parts (λ p h. refl) (read_signed-Reads layout))
      (λ e h. (IsSigned→IsEnvelope e h.0, refl)) (λ e h. (IsEnvelope→IsSigned e h, refl)))

-- The parser accepts exactly the bytes of well-formed envelopes, each envelope from its one
-- encoding: the TBS that the builder would write for its fields, and the signature.
pub parse_envelope_iff :
    (buf : Bytes) (e : Envelope)
    → IsBytes buf
    → (parse_envelope buf ≡ ok e) ↔ (IsEnvelope e × (buf ≡ e.tbs ++ e.sig))
unfolding parse_envelope
parse_envelope_iff buf e hb =
    (whole_inv read_envelope-Reads buf e hb, λ h. rw h.1 (whole-written read_envelope-Reads e h.0))

-- Cut short at any place, the encoding of an envelope is refused as truncated; with more bytes
-- behind it, as trailing bytes.
pub parse_envelope_cut :
    (e : Envelope) (front back : Bytes) (x : ℕ)
    → IsEnvelope e
    → e.tbs ++ e.sig ≡ front ++ x ∷ back
    → (parse_envelope front ≡ err truncated)
      × (parse_envelope (e.tbs ++ e.sig ++ x ∷ back) ≡ err trailing_bytes)
unfolding parse_envelope
parse_envelope_cut e front back x h p = (
  whole_cut read_envelope-Reads e h front back x p,
  whole_trailing read_envelope-Reads e h x back,
)
