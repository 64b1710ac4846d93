-- ===== src/Wire/Span/Build.antt =====
-- What the builder signs, the parser reads and the verifier accepts.
use lastro.Common.{◌≤◌, ◌≡◌, Bytes, length, ◌++◌}
use lastro.Common.Result.{ok, >>=-eq-ok}
use lastro.Wire.Cursor.Whole.{whole-written}
use lastro.Wire.Crypto.{Crypto, CryptoLaws, domain_span, sign_tagged}
use lastro.Wire.Crypto.Signing.{length-sign_tagged, verify_signed_own}
use lastro.Wire.Span.{
  Span, SpanFields, IsSpanFields, parse_span, encode_span_tbs, build_span, verify_sig,
}
use lastro.Wire.Layout.{write_all}
use lastro.Wire.Span.Codec.{read_span-Reads, layout, values, encode-written}

-- The span with these fields, TBS and signature.
abbrev pub span_of : SpanFields → Bytes → Bytes → Span
span_of f tbs sig = record {
  version = f.version;
  span_id = f.span_id;
  trace_id = f.trace_id;
  resource_id = f.resource_id;
  method_id = f.method_id;
  volatility = f.volatility;
  origin = f.origin;
  observed_at = f.observed_at;
  digest = f.digest;
  executor = f.executor;
  tbs = tbs;
  sig = sig;
}

-- Every receipt that the builder makes parses to the span with its fields, the encoded TBS and
-- the signature of the TBS under the span domain.
pub parse-build_span :
    (c : Crypto) (f : SpanFields) (priv out : Bytes)
    → CryptoLaws c
    → IsSpanFields f
    → build_span c f priv ≡ ok out
    → (tbs : Bytes) × (encode_span_tbs f ≡ ok tbs)
      × (parse_span out ≡ ok (span_of f tbs (sign_tagged c domain_span tbs priv)))
unfolding build_span parse_span
parse-build_span c f priv out laws h e =
    let (tbs, encoded, written) = >>=-eq-ok (encode_span_tbs f) _ e in
    let sig = sign_tagged c domain_span tbs priv in
    let same : out ≡ tbs ++ sig = cc (written) in
    (
      tbs,
      encoded,
      rw same (
          whole-written read_span-Reads (span_of f tbs sig) (record {
            fields = h;
            tbs = encoded;
            sig = length-sign_tagged c domain_span tbs priv laws;
          })),
    )

-- A receipt built with the private key of its executor, and a resource of at most 256 bytes, is
-- built, and what it parses to has a valid signature.
pub verify_sig-build_span :
    (c : Crypto) (f : SpanFields) (seed : Bytes)
    → CryptoLaws c
    → IsSpanFields f
    → length f.resource_id ≤ 256
    → length seed ≡ 32
    → f.executor ≡ c.public_key (c.key_from_seed seed)
    → (out : Bytes) × (s : Span) × (build_span c f (c.key_from_seed seed) ≡ ok out)
      × (parse_span out ≡ ok s)
      × (verify_sig c s ≡ ok tt)
unfolding build_span verify_sig
verify_sig-build_span c f seed laws h bound n key =
    let tbs = write_all layout (values f) in
    let encoded = encode-written f bound in
    let built : build_span c f (c.key_from_seed seed)
        ≡ ok (tbs ++ sign_tagged c domain_span tbs (c.key_from_seed seed)) =
      rw encoded in
    let (tbs', encoded', parsed) = parse-build_span c f (c.key_from_seed seed) _ laws h built in
    (_, _, built, parsed, verify_signed_own c domain_span tbs' seed f.executor laws n key)
