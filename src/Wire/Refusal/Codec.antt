-- ===== src/Wire/Refusal/Codec.antt =====
-- The Refusal parser accepts exactly the encodings of well-formed refusals.
use lastro.Common.{
  ◌≤◌, ◌≡◌, ◌↔◌, refl, ◌∙◌, Bytes, IsBytes, length, List, [], ◌∷◌, ◌++◌, arith, append-nil,
}
use lastro.Common.Result.{ok}
use lastro.Wire.Encoding.{big_endian}
use lastro.Wire.Cursor.{◌>>=◌, pure, reader_laws}
use lastro.Wire.Cursor.Reads.{Reads, Reads-map, Reads-convert}
use lastro.Wire.Cursor.Whole.{whole-written, whole_inv}
use lastro.Wire.Layout.{Field, fixed, sized16}
use lastro.Wire.Layout.Signed.{Signed, IsSigned, read_signed, read_signed-Reads}
use lastro.Wire.Refusal.{Refusal, read_refusal, parse_refusal}

-- The layout in the comment of envelope.go.
abbrev layout : List Field
layout = fixed 16 ∷ sized16 1024 ∷ []

abbrev build : Signed layout → Refusal
build (((intent_id, (note, _)), tbs), sig) = record {
  intent_id = intent_id;
  note = note;
  tbs = tbs;
  sig = sig;
}

abbrev parts : Refusal → Signed layout
parts r = (((r.intent_id, (r.note, tt)), r.tbs), r.sig)

read_refusal-signed : read_refusal ≡ (read_signed layout >>= λ p. pure (build p))
unfolding read_refusal
read_refusal-signed = simp reader_laws

-- What holds of a refusal that the parser returns, and of nothing else.
pub record IsRefusal (r : Refusal) : Type 0 where
  pub intent_id : length r.intent_id ≡ 16
  pub note : length r.note ≤ 1024
  pub tbs : r.tbs ≡ r.intent_id ++ (big_endian 2 (length r.note) ++ r.note)
  pub sig : length r.sig ≡ 64

IsRefusal→IsSigned : (r : Refusal) → IsRefusal r → IsSigned layout (parts r)
IsRefusal→IsSigned r h =
    (((h.intent_id, ((omega (arith, h.note), h.note), tt)), h.tbs ∙ rw append-nil), h.sig)

IsSigned→IsRefusal : (r : Refusal) → IsSigned layout (parts r) → IsRefusal r
IsSigned→IsRefusal r (((id, ((_, note), _)), written), n) = record {
  intent_id = id;
  note = note;
  tbs = written ∙ rw append-nil;
  sig = n;
}

pub read_refusal-Reads : Reads read_refusal (λ r. r.tbs ++ r.sig) IsRefusal
read_refusal-Reads = rw read_refusal-signed (
    Reads-convert (Reads-map build parts (λ p h. refl) (read_signed-Reads layout))
      (λ r h. (IsSigned→IsRefusal r h.0, refl)) (λ r h. (IsRefusal→IsSigned r h, refl)))

-- The parser accepts exactly the bytes of well-formed refusals, each from its one encoding: the
-- intent id, the length of the note, the note and the signature.
pub parse_refusal_iff :
    (buf : Bytes) (r : Refusal)
    → IsBytes buf
    → (parse_refusal buf ≡ ok r) ↔ (IsRefusal r × (buf ≡ r.tbs ++ r.sig))
unfolding parse_refusal
parse_refusal_iff buf r hb =
    (whole_inv read_refusal-Reads buf r hb, λ h. rw h.1 (whole-written read_refusal-Reads r h.0))
