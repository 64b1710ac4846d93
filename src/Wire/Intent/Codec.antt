-- ===== src/Wire/Intent/Codec.antt =====
-- The Intent parser and the Intent encoder are inverse to one another.
use lastro.Common.{
  ◌%◌, ◌^◌, ◌≤◌, ◌≡◌, ◌↔◌, refl, ap, sym, ◌∙◌, Bytes, IsBytes, length, List, [], ◌∷◌, arith,
  append-nil,
}
use lastro.Common.Result.{ok}
use lastro.Wire.Cursor.{◌>>=◌, pure, reader_laws}
use lastro.Wire.Cursor.Reads.{Reads, Reads-map, Reads-convert}
use lastro.Wire.Cursor.Whole.{whole-written, whole_inv}
use lastro.Wire.Layout.{
  Field, fixed, sized16, sized32, Values, FitsAll, write_all, read_all, read_all-Reads,
}
use lastro.Wire.Intent.{Intent, read_intent, parse_intent, encode_intent_body}

abbrev layout : List Field
layout = fixed 16 ∷ sized16 256 ∷ sized32 262_144 ∷ sized16 4096 ∷ []

abbrev build : Values layout → Intent
build (intent_id, (resource_id, (action, (rationale, _)))) = record {
  intent_id = intent_id;
  resource_id = resource_id;
  action = action;
  rationale = rationale;
}

abbrev values : Intent → Values layout
values it = (it.intent_id, (it.resource_id, (it.action, (it.rationale, tt))))

read_intent-layout : read_intent ≡ (read_all layout >>= λ vs. pure (build vs))
unfolding read_intent
read_intent-layout = simp reader_laws

-- The bounds that both sides keep.
pub record IsIntent (it : Intent) : Type 0 where
  pub intent_id : length it.intent_id ≡ 16
  pub resource_id : length it.resource_id ≤ 256
  pub action : length it.action ≤ 262_144
  pub rationale : length it.rationale ≤ 4096

pub encode-written :
    (it : Intent) → IsIntent it → encode_intent_body it ≡ ok (write_all layout (values it))
unfolding encode_intent_body
encode-written it h =
    let r : length it.resource_id % 2 ^ 16 ≡ length it.resource_id = omega (arith, h.resource_id) in
    let a : length it.action % 2 ^ 32 ≡ length it.action = omega (arith, h.action) in
    let n : length it.rationale % 2 ^ 16 ≡ length it.rationale = omega (arith, h.rationale) in
    rw (r, a, n, append-nil) (ground arith)

encode_bounds : (it : Intent) {x : Bytes} → encode_intent_body it ≡ ok x → IsIntent it
unfolding encode_intent_body
encode_bounds it e = ground arith

fits : (it : Intent) → IsIntent it → FitsAll layout (values it)
fits it h = (
  h.intent_id,
  (
    (omega (arith, h.resource_id), h.resource_id),
    ((omega (arith, h.action), h.action), ((omega (arith, h.rationale), h.rationale), tt)),
  ),
)

pub read_intent-Reads : Reads read_intent (λ it. write_all layout (values it)) IsIntent
read_intent-Reads = rw read_intent-layout (
    Reads-convert (Reads-map build values (λ p h. refl) (read_all-Reads layout))
      (λ it h. (
        record {
          intent_id = h.0.0;
          resource_id = h.0.1.0.1;
          action = h.0.1.1.0.1;
          rationale = h.0.1.1.1.0.1;
        },
        refl,
      ))
      (λ it h. (fits it h, refl)))

pub parse-encode_intent_body :
    (it : Intent) (buf : Bytes) → encode_intent_body it ≡ ok buf → parse_intent buf ≡ ok it
unfolding parse_intent
parse-encode_intent_body it buf e =
    let h = encode_bounds it e in
    let same : buf ≡ write_all layout (values it) = cc (e, encode-written it h) in
    rw same (whole-written read_intent-Reads it h)

-- The parser reads an intent exactly from the bytes that the encoder writes for it.
pub parse_intent_iff :
    (buf : Bytes) (it : Intent)
    → IsBytes buf
    → (parse_intent buf ≡ ok it) ↔ (encode_intent_body it ≡ ok buf)
unfolding parse_intent
parse_intent_iff buf it hb = (
  (λ e.
      let (h, p) = whole_inv read_intent-Reads buf it hb e in encode-written it h ∙ ap ok (sym p)),
  parse-encode_intent_body it buf,
)
