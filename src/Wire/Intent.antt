-- ===== src/Wire/Intent.antt =====
-- wire/envelope.go: the Intent body, its parser and its encoder.
pub mod Codec
use lastro.Common.{ℕ, ◌*◌, ◌%◌, ◌^◌, not, ◌||◌, Bytes, length, ◌++◌, ltb, ◌==◌, if◌then◌else◌}
use lastro.Common.Result.{Result, ok, err, field_bounds}
use lastro.Wire.Encoding.{big_endian}
use lastro.Wire.Cursor.{Reader, ◌>>=◌, pure, take_bytes, field16, field32, parse_whole}
use lastro.Wire.Span.{max_resource}
use lastro.Wire.Grant.{len_intent_id}

abbrev pub max_action : ℕ
max_action = 256 * 1024

abbrev pub max_rationale : ℕ
max_rationale = 4 * 1024

pub record Intent : Type 0 where
  pub intent_id : Bytes
  pub resource_id : Bytes
  pub action : Bytes
  pub rationale : Bytes

unfoldable pub read_intent : Reader Intent
read_intent = do
  intent_id ← take_bytes len_intent_id
  resource_id ← field16 max_resource
  action ← field32 max_action
  rationale ← field16 max_rationale
  pure (record {
    intent_id = intent_id;
    resource_id = resource_id;
    action = action;
    rationale = rationale;
  })

unfoldable pub parse_intent : Bytes → Result Intent
parse_intent buf = parse_whole read_intent buf

unfoldable pub encode_intent_body : Intent → Result Bytes
encode_intent_body it =
    if not (length it.intent_id == len_intent_id)
      || (ltb max_resource (length it.resource_id)
          || (ltb max_action (length it.action) || ltb max_rationale (length it.rationale)))
    then err field_bounds
    else ok (
        it.intent_id
        ++ (big_endian 2 (length it.resource_id % 2 ^ 16)
            ++ (it.resource_id
                ++ (big_endian 4 (length it.action % 2 ^ 32)
                    ++ (it.action
                        ++ (big_endian 2 (length it.rationale % 2 ^ 16) ++ it.rationale))))))
