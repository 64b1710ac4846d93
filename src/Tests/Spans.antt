-- ===== src/Tests/Spans.antt =====
-- Receipts.
use lastro.Common.{◌≡◌, refl, Bytes, IsBytes, replicate, [], ◌∷◌, ◌++◌, arith}
use lastro.Common.Result.{ok}
use lastro.Tests.Toy.{toy, all_bytes, all_bytes-IsBytes, seed_of, public_of, signature}
use lastro.Wire.Crypto.{sign_tagged, domain_span}
use lastro.Wire.Span.{Span, SpanFields, IsSpanFields, parse_span, encode_span_tbs, build_span}
use lastro.Wire.Span.Codec.{IsSpan, parse_span_iff}
use lastro.Wire.Span.Build.{span_of}

abbrev pub fields : SpanFields
fields = record {
  version = 2;
  span_id = replicate 16 1;
  trace_id = replicate 16 2;
  resource_id = b'b' ∷ b'o' ∷ b'l' ∷ b':' ∷ [];
  method_id = 3;
  volatility = 0;
  origin = replicate 32 4;
  observed_at = 1_700_000_000_000;
  digest = replicate 32 5;
  executor = public_of 7;
}

abbrev pub tbs : Bytes
tbs =
    2
    ∷ (replicate 16 1
        ++ (replicate 16 2
            ++ (0
                ∷ 4
                ∷ b'b'
                ∷ b'o'
                ∷ b'l'
                ∷ b':'
                ∷ 3
                ∷ 0
                ∷ (replicate 32 4
                    ++ (0 ∷ 0 ∷ 1 ∷ 139 ∷ 207 ∷ 229 ∷ 104 ∷ 0 ∷ (replicate 32 5 ++ public_of 7))))))

abbrev pub span : Span
span = span_of fields tbs (signature domain_span tbs (seed_of 7))

abbrev receipt : Bytes
receipt = tbs ++ span.sig

encodes : encode_span_tbs fields ≡ ok tbs
unfolding encode_span_tbs
encodes = refl

typed : IsSpanFields fields
typed = record {
  version = omega arith;
  span_id = refl;
  trace_id = refl;
  method_id = omega arith;
  volatility = omega arith;
  origin = refl;
  observed_at = omega arith;
  digest = refl;
  executor = refl;
}

well_formed : IsSpan span
well_formed = record { fields = typed; tbs = encodes; sig = refl }

receipt-IsBytes : IsBytes receipt
unfolding all_bytes
receipt-IsBytes = all_bytes-IsBytes receipt refl

parse_span_iff_example : parse_span receipt ≡ ok span
parse_span_iff_example = (parse_span_iff receipt span receipt-IsBytes).1 (well_formed, refl)

built : build_span toy fields (seed_of 7 ++ seed_of 7) ≡ ok receipt
unfolding build_span encode_span_tbs sign_tagged
built = refl
