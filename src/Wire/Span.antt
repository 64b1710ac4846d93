-- ===== src/Wire/Span.antt =====
-- wire/span.go, and the span encoder of wire/encode.go.
pub mod Codec
pub mod Build
use lastro.Common.{ℕ, ◌+◌, ◌%◌, ◌^◌, ◌<◌, ◌≡◌, Bytes, length, ◌∷◌, ◌++◌, ltb, if◌then◌else◌}
use lastro.Common.Result.{Result, ok, err, field_bounds}
use lastro.Common.Result
use lastro.Wire.Crypto.{Crypto, domain_span, sign_tagged, verify_signed}
use lastro.Wire.Encoding.{big_endian}
use lastro.Wire.Cursor.{
  Reader, ◌>>=◌, pure, u8, u64be, take_bytes, field16, tell, since, parse_whole,
}

abbrev pub volatility_volatile : ℕ
volatility_volatile = 1

abbrev pub len_span_id : ℕ
len_span_id = 16

abbrev pub len_trace_id : ℕ
len_trace_id = 16

abbrev pub max_resource : ℕ
max_resource = 256

abbrev pub len_origin : ℕ
len_origin = 32

abbrev pub len_digest : ℕ
len_digest = 32

abbrev pub len_sig : ℕ
len_sig = 64

abbrev pub len_pubkey : ℕ
len_pubkey = 32

pub record Span : Type 0 where
  pub version : ℕ
  pub span_id : Bytes
  pub trace_id : Bytes
  pub resource_id : Bytes
  pub method_id : ℕ
  pub volatility : ℕ
  pub origin : Bytes
  pub observed_at : ℕ
  pub digest : Bytes
  pub executor : Bytes
  pub tbs : Bytes
  pub sig : Bytes

unfoldable pub read_span : Reader Span
read_span = do
  start ← tell
  version ← u8
  span_id ← take_bytes len_span_id
  trace_id ← take_bytes len_trace_id
  resource_id ← field16 max_resource
  method_id ← u8
  volatility ← u8
  origin ← take_bytes len_origin
  observed_at ← u64be
  digest ← take_bytes len_digest
  executor ← take_bytes len_pubkey
  tbs ← since start
  sig ← take_bytes len_sig
  pure (record {
    version = version;
    span_id = span_id;
    trace_id = trace_id;
    resource_id = resource_id;
    method_id = method_id;
    volatility = volatility;
    origin = origin;
    observed_at = observed_at;
    digest = digest;
    executor = executor;
    tbs = tbs;
    sig = sig;
  })

unfoldable pub parse_span : Bytes → Result Span
parse_span buf = parse_whole read_span buf

pub record SpanFields : Type 0 where
  pub version : ℕ
  pub span_id : Bytes
  pub trace_id : Bytes
  pub resource_id : Bytes
  pub method_id : ℕ
  pub volatility : ℕ
  pub origin : Bytes
  pub observed_at : ℕ
  pub digest : Bytes
  pub executor : Bytes

-- What the Go types of SpanFields say: bytes, arrays of a fixed length and a uint64.
pub record IsSpanFields (f : SpanFields) : Type 0 where
  pub version : f.version < 256
  pub span_id : length f.span_id ≡ len_span_id
  pub trace_id : length f.trace_id ≡ len_trace_id
  pub method_id : f.method_id < 256
  pub volatility : f.volatility < 256
  pub origin : length f.origin ≡ len_origin
  pub observed_at : f.observed_at < 2 ^ 64
  pub digest : length f.digest ≡ len_digest
  pub executor : length f.executor ≡ len_pubkey

-- The appends to `out`, in their order.
unfoldable pub encode_span_tbs : SpanFields → Result Bytes
encode_span_tbs f =
    if ltb max_resource (length f.resource_id)
    then err field_bounds
    else ok (
        f.version
        ∷ (f.span_id
            ++ (f.trace_id
                ++ (big_endian 2 (length f.resource_id % 2 ^ 16)
                    ++ (f.resource_id
                        ++ (f.method_id
                            ∷ f.volatility
                            ∷ (f.origin
                                ++ (big_endian 8 f.observed_at ++ (f.digest ++ f.executor)))))))))

-- The signature check against the span's own executor key.
unfoldable pub verify_sig : Crypto → Span → Result (Unit {0})
verify_sig c s = verify_signed c domain_span s.tbs s.sig s.executor

unfoldable pub build_span : Crypto → SpanFields → Bytes → Result Bytes
build_span c f priv =
    Result.◌>>=◌ (encode_span_tbs f) (λ tbs. ok (tbs ++ sign_tagged c domain_span tbs priv))
