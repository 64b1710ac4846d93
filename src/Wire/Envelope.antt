-- ===== src/Wire/Envelope.antt =====
-- wire/envelope.go: the envelope, its parser and its builder.
pub mod Codec
pub mod Build
use lastro.Common.{
  ℕ, ◌+◌, ◌-◌, ◌*◌, ◌%◌, ◌^◌, ◌<◌, ◌≡◌, not, ◌||◌, Bytes, length, ◌∷◌, ◌++◌, ltb, ◌==◌,
  if◌then◌else◌,
}
use lastro.Common.Result.{Result, ok, err, field_bounds, oversize}
use lastro.Wire.Encoding.{big_endian}
use lastro.Wire.Cursor.{
  Reader, ◌>>=◌, pure, fail, u8, u32be, u64be, take_bytes, tell, since, parse_whole,
}
use lastro.Wire.Crypto.{Crypto, domain_envelope, sign_tagged_seed, verify_signed}
use lastro.Wire.Span.{len_pubkey, len_sig}

abbrev pub len_channel_id : ℕ
len_channel_id = 32

abbrev pub len_parent : ℕ
len_parent = 32

abbrev pub max_parents : ℕ
max_parents = 4

abbrev pub max_message : ℕ
max_message = 2 ^ 20

abbrev pub max_header : ℕ
max_header = 512

abbrev pub max_body : ℕ
max_body = max_message - max_header

pub record Envelope : Type 0 where
  pub version : ℕ
  pub channel_id : Bytes
  pub sender : Bytes
  pub seq : ℕ
  pub parent_count : ℕ
  pub parents : Bytes
  pub ts : ℕ
  pub body_type : ℕ
  pub body : Bytes
  pub tbs : Bytes
  pub sig : Bytes

-- `buf[:c.pos]` is what was read since the start of the parse.
unfoldable pub read_envelope : Reader Envelope
read_envelope = do
  start ← tell
  version ← u8
  channel_id ← take_bytes len_channel_id
  sender ← take_bytes len_pubkey
  seq ← u64be
  parent_count ← u8
  parents ←
      if ltb max_parents parent_count then fail oversize else take_bytes (parent_count * len_parent)
  ts ← u64be
  body_type ← u8
  body_len ← u32be
  body ← if ltb max_body body_len then fail oversize else take_bytes body_len
  tbs ← since start
  sig ← take_bytes len_sig
  pure (record {
    version = version;
    channel_id = channel_id;
    sender = sender;
    seq = seq;
    parent_count = parent_count;
    parents = parents;
    ts = ts;
    body_type = body_type;
    body = body;
    tbs = tbs;
    sig = sig;
  })

unfoldable pub parse_envelope : Bytes → Result Envelope
parse_envelope buf = parse_whole read_envelope buf

unfoldable pub verify_sig : Crypto → Envelope → Result (Unit {0})
verify_sig c e = verify_signed c domain_envelope e.tbs e.sig e.sender

-- The arguments of BuildSignedEnvelope, without the seed.
pub record EnvelopeFields : Type 0 where
  pub version : ℕ
  pub channel_id : Bytes
  pub sender : Bytes
  pub seq : ℕ
  pub parents : Bytes
  pub parent_count : ℕ
  pub ts : ℕ
  pub body_type : ℕ
  pub body : Bytes

-- What the Go types of the arguments say.
pub record IsEnvelopeFields (f : EnvelopeFields) : Type 0 where
  pub version : f.version < 256
  pub seq : f.seq < 2 ^ 64
  pub parent_count : f.parent_count < 256
  pub ts : f.ts < 2 ^ 64
  pub body_type : f.body_type < 256

-- The appends to `out` before the signature.
unfoldable pub envelope_tbs : EnvelopeFields → Bytes
envelope_tbs f =
    f.version
    ∷ (f.channel_id
        ++ (f.sender
            ++ (big_endian 8 f.seq
                ++ (f.parent_count
                    ∷ (f.parents
                        ++ (big_endian 8 f.ts
                            ++ (f.body_type
                                ∷ (big_endian 4 (length f.body % 2 ^ 32) ++ f.body))))))))

unfoldable pub build_signed_envelope : Crypto → EnvelopeFields → Bytes → Result Bytes
unfolding envelope_tbs
build_signed_envelope c f sig_seed =
    if not (length f.channel_id == len_channel_id)
      || (not (length f.sender == len_pubkey)
          || not (f.parent_count * len_parent == length f.parents))
    then err field_bounds
    else if ltb max_body (length f.body)
    then err oversize
    else ok (envelope_tbs f ++ sign_tagged_seed c domain_envelope (envelope_tbs f) sig_seed)
