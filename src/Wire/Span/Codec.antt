-- ===== src/Wire/Span/Codec.antt =====
-- The span parser and the span encoder are inverse to one another.
use lastro.Common.{
  ℕ, ◌%◌, ◌^◌, ◌≤◌, ◌≡◌, ◌↔◌, refl, ap, sym, ◌∙◌, Bytes, IsBytes, length, List, [], ◌∷◌, ◌++◌,
  arith, append-nil, le→ltb,
}
use lastro.Common.Result.{ok, err, truncated, trailing_bytes}
use lastro.Wire.Cursor.{◌>>=◌, pure, reader_laws}
use lastro.Wire.Cursor.Reads.{Reads, Reads-map, Reads-convert}
use lastro.Wire.Cursor.Whole.{whole-written, whole_inv, whole_trailing, whole_cut}
use lastro.Wire.Layout.{Field, octet, u64, fixed, sized16, Values, FitsAll, write_all}
use lastro.Wire.Layout.Signed.{Signed, IsSigned, read_signed, read_signed-Reads}
use lastro.Wire.Span.{Span, SpanFields, IsSpanFields, read_span, parse_span, encode_span_tbs}

-- The layout in the comment of span.go.
abbrev pub layout : List Field
layout =
    octet
    ∷ fixed 16
    ∷ fixed 16
    ∷ sized16 256
    ∷ octet
    ∷ octet
    ∷ fixed 32
    ∷ u64
    ∷ fixed 32
    ∷ fixed 32
    ∷ []

abbrev build : Signed layout → Span
build
      (
        (
          (
            version,
            (
              span_id,
              (
                trace_id,
                (
                  resource_id,
                  (method_id, (volatility, (origin, (observed_at, (digest, (executor, _)))))),
                ),
              ),
            ),
          ),
          tbs,
        ),
        sig,
      ) =
    record {
      version = version;
      span_id = span_id;
      trace_id = trace_id;
      resource_id = resource_id;
      method_id = method_id;
      volatility = volatility;
      origin = origin;
      observed_at = observed_at;
      digest = digest;
      executor = executor;
      tbs = tbs;
      sig = sig;
    }

abbrev pub fields_of : Span → SpanFields
fields_of s = record {
  version = s.version;
  span_id = s.span_id;
  trace_id = s.trace_id;
  resource_id = s.resource_id;
  method_id = s.method_id;
  volatility = s.volatility;
  origin = s.origin;
  observed_at = s.observed_at;
  digest = s.digest;
  executor = s.executor;
}

abbrev pub values : SpanFields → Values layout
values f = (
  f.version,
  (
    f.span_id,
    (
      f.trace_id,
      (
        f.resource_id,
        (f.method_id, (f.volatility, (f.origin, (f.observed_at, (f.digest, (f.executor, tt)))))),
      ),
    ),
  ),
)

abbrev parts : Span → Signed layout
parts s = ((values (fields_of s), s.tbs), s.sig)

read_span-signed : read_span ≡ (read_signed layout >>= λ p. pure (build p))
unfolding read_span
read_span-signed = simp reader_laws

-- What holds of a span that the parser returns, and of nothing else: its fields have their Go
-- types, and the encoder turns them into the signed bytes.
pub record IsSpan (s : Span) : Type 0 where
  pub fields : IsSpanFields (fields_of s)
  pub tbs : encode_span_tbs (fields_of s) ≡ ok s.tbs
  pub sig : length s.sig ≡ 64

module _ (f : SpanFields) where
  pub encode-written :
      length f.resource_id ≤ 256 → encode_span_tbs f ≡ ok (write_all layout (values f))
  unfolding encode_span_tbs
  encode-written h =
      let n : length f.resource_id % 2 ^ 16 ≡ length f.resource_id = omega arith in
      rw (le→ltb 256 (length f.resource_id) h, n) (rw append-nil)

  encode_bound : {x : Bytes} → encode_span_tbs f ≡ ok x → length f.resource_id ≤ 256
  unfolding encode_span_tbs
  encode_bound h = ground arith

  fits : IsSpanFields f → length f.resource_id ≤ 256 → FitsAll layout (values f)
  fits h n = (
    h.version,
    (
      h.span_id,
      (
        h.trace_id,
        (
          (omega arith, n),
          (h.method_id, (h.volatility, (h.origin, (h.observed_at, (h.digest, (h.executor, tt)))))),
        ),
      ),
    ),
  )

  of_fits : FitsAll layout (values f) → IsSpanFields f × (length f.resource_id ≤ 256)
  of_fits h = ground arith

IsSpan→IsSigned : (s : Span) → IsSpan s → IsSigned layout (parts s)
IsSpan→IsSigned s h =
    let n = encode_bound (fields_of s) h.tbs in
    ((fits (fields_of s) h.fields n, cc (h.tbs, encode-written (fields_of s) n)), h.sig)

IsSigned→IsSpan : (s : Span) → IsSigned layout (parts s) → IsSpan s
IsSigned→IsSpan s ((h, e), n) =
    let (fields, bound) = of_fits (fields_of s) h in
    record { fields = fields; tbs = encode-written (fields_of s) bound ∙ ap ok (sym e); sig = n }

pub read_span-Reads : Reads read_span (λ s. s.tbs ++ s.sig) IsSpan
read_span-Reads = rw read_span-signed (
    Reads-convert (Reads-map build parts (λ p h. refl) (read_signed-Reads layout))
      (λ s h. (IsSigned→IsSpan s h.0, refl)) (λ s h. (IsSpan→IsSigned s h, refl)))

-- The parser accepts exactly the bytes of well-formed spans, each span from its one encoding:
-- what it returns has fields that the encoder turns into the TBS, and the input is the TBS and
-- the signature.
pub parse_span_iff :
    (buf : Bytes) (s : Span)
    → IsBytes buf
    → (parse_span buf ≡ ok s) ↔ (IsSpan s × (buf ≡ s.tbs ++ s.sig))
unfolding parse_span
parse_span_iff buf s hb =
    (whole_inv read_span-Reads buf s hb, λ h. rw h.1 (whole-written read_span-Reads s h.0))

-- Cut short at any place, the encoding of a span is refused as truncated; with more bytes behind
-- it, as trailing bytes.
pub parse_span_cut :
    (s : Span) (front back : Bytes) (x : ℕ)
    → IsSpan s
    → s.tbs ++ s.sig ≡ front ++ x ∷ back
    → (parse_span front ≡ err truncated)
      × (parse_span (s.tbs ++ s.sig ++ x ∷ back) ≡ err trailing_bytes)
unfolding parse_span
parse_span_cut s front back x h e =
    (whole_cut read_span-Reads s h front back x e, whole_trailing read_span-Reads s h x back)
