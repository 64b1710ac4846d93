-- ===== src/Wire/Refusal.antt =====
-- wire/envelope.go: the Refusal and its parser.
pub mod Codec
use lastro.Common.{ℕ, Bytes}
use lastro.Common.Result.{Result}
use lastro.Wire.Cursor.{Reader, ◌>>=◌, pure, take_bytes, field16, tell, since, parse_whole}
use lastro.Wire.Crypto.{Crypto, domain_refusal, verify_signed}
use lastro.Wire.Span.{len_sig}
use lastro.Wire.Grant.{len_intent_id}

abbrev pub max_note : ℕ
max_note = 1024

pub record Refusal : Type 0 where
  pub intent_id : Bytes
  pub note : Bytes
  pub tbs : Bytes
  pub sig : Bytes

-- `buf[:c.pos]` is what was read since the start of the parse.
unfoldable pub read_refusal : Reader Refusal
read_refusal = do
  start ← tell
  intent_id ← take_bytes len_intent_id
  note ← field16 max_note
  tbs ← since start
  sig ← take_bytes len_sig
  pure (record { intent_id = intent_id; note = note; tbs = tbs; sig = sig })

unfoldable pub parse_refusal : Bytes → Result Refusal
parse_refusal buf = parse_whole read_refusal buf

unfoldable pub verify_sig_against : Crypto → Refusal → Bytes → Result (Unit {0})
verify_sig_against c r sender = verify_signed c domain_refusal r.tbs r.sig sender
