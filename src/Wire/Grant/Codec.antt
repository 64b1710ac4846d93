-- ===== src/Wire/Grant/Codec.antt =====
-- The grant parser and the grant encoder are inverse to one another.
use lastro.Common.{
  ◌%◌, ◌^◌, ◌≤◌, ◌≡◌, ◌↔◌, refl, ap, sym, ◌∙◌, Bytes, IsBytes, length, List, [], ◌∷◌, ◌++◌, arith,
  append-nil, le→ltb, ℕ,
}
use lastro.Common.Result.{ok, err, truncated, trailing_bytes}
use lastro.Wire.Cursor.{◌>>=◌, pure, reader_laws}
use lastro.Wire.Cursor.Reads.{Reads, Reads-map, Reads-convert}
use lastro.Wire.Cursor.Whole.{whole-written, whole_inv, whole_trailing, whole_cut}
use lastro.Wire.Layout.{Field, octet, u64, fixed, sized16, Values, FitsAll, write_all}
use lastro.Wire.Layout.Signed.{Signed, IsSigned, read_signed, read_signed-Reads}
use lastro.Wire.Grant.{Grant, GrantFields, IsGrantFields, read_grant, parse_grant, encode_grant_tbs}

-- The layout in the comment of grant.go.
abbrev layout : List Field
layout =
    octet ∷ fixed 16 ∷ fixed 16 ∷ fixed 32 ∷ fixed 32 ∷ fixed 32 ∷ sized16 256 ∷ fixed 32 ∷ u64 ∷ []

abbrev build : Signed layout → Grant
build
      (
        (
          (
            version,
            (
              grant_id,
              (
                intent_id,
                (approver, (subject, (executor, (resource_id, (action_digest, (not_after, _)))))),
              ),
            ),
          ),
          tbs,
        ),
        sig,
      ) =
    record {
      version = version;
      grant_id = grant_id;
      intent_id = intent_id;
      approver = approver;
      subject = subject;
      executor = executor;
      resource_id = resource_id;
      action_digest = action_digest;
      not_after = not_after;
      tbs = tbs;
      sig = sig;
    }

abbrev pub fields_of : Grant → GrantFields
fields_of g = record {
  version = g.version;
  grant_id = g.grant_id;
  intent_id = g.intent_id;
  approver = g.approver;
  subject = g.subject;
  executor = g.executor;
  resource_id = g.resource_id;
  action_digest = g.action_digest;
  not_after = g.not_after;
}

abbrev values : GrantFields → Values layout
values f = (
  f.version,
  (
    f.grant_id,
    (
      f.intent_id,
      (
        f.approver,
        (f.subject, (f.executor, (f.resource_id, (f.action_digest, (f.not_after, tt))))),
      ),
    ),
  ),
)

abbrev parts : Grant → Signed layout
parts g = ((values (fields_of g), g.tbs), g.sig)

read_grant-signed : read_grant ≡ (read_signed layout >>= λ p. pure (build p))
unfolding read_grant
read_grant-signed = simp reader_laws

-- What holds of a grant that the parser returns, and of nothing else.
pub record IsGrant (g : Grant) : Type 0 where
  pub fields : IsGrantFields (fields_of g)
  pub tbs : encode_grant_tbs (fields_of g) ≡ ok g.tbs
  pub sig : length g.sig ≡ 64

module _ (f : GrantFields) where
  encode-written :
      length f.resource_id ≤ 256 → encode_grant_tbs f ≡ ok (write_all layout (values f))
  unfolding encode_grant_tbs
  encode-written h =
      let n : length f.resource_id % 2 ^ 16 ≡ length f.resource_id = omega arith in
      rw (le→ltb 256 (length f.resource_id) h, n) (rw append-nil)

  encode_bound : {x : Bytes} → encode_grant_tbs f ≡ ok x → length f.resource_id ≤ 256
  unfolding encode_grant_tbs
  encode_bound h = ground arith

  fits : IsGrantFields f → length f.resource_id ≤ 256 → FitsAll layout (values f)
  fits h n = (
    h.version,
    (
      h.grant_id,
      (
        h.intent_id,
        (
          h.approver,
          (h.subject, (h.executor, ((omega arith, n), (h.action_digest, (h.not_after, tt))))),
        ),
      ),
    ),
  )

  of_fits : FitsAll layout (values f) → IsGrantFields f × (length f.resource_id ≤ 256)
  of_fits h = ground arith

IsGrant→IsSigned : (g : Grant) → IsGrant g → IsSigned layout (parts g)
IsGrant→IsSigned g h =
    let n = encode_bound (fields_of g) h.tbs in
    ((fits (fields_of g) h.fields n, cc (h.tbs, encode-written (fields_of g) n)), h.sig)

IsSigned→IsGrant : (g : Grant) → IsSigned layout (parts g) → IsGrant g
IsSigned→IsGrant g ((h, e), n) =
    let (fields, bound) = of_fits (fields_of g) h in
    record { fields = fields; tbs = encode-written (fields_of g) bound ∙ ap ok (sym e); sig = n }

pub read_grant-Reads : Reads read_grant (λ g. g.tbs ++ g.sig) IsGrant
read_grant-Reads = rw read_grant-signed (
    Reads-convert (Reads-map build parts (λ p h. refl) (read_signed-Reads layout))
      (λ g h. (IsSigned→IsGrant g h.0, refl)) (λ g h. (IsGrant→IsSigned g h, refl)))

-- The parser accepts exactly the bytes of well-formed grants, each grant from its one encoding:
-- the TBS that the encoder makes of its fields, and the signature.
pub parse_grant_iff :
    (buf : Bytes) (g : Grant)
    → IsBytes buf
    → (parse_grant buf ≡ ok g) ↔ (IsGrant g × (buf ≡ g.tbs ++ g.sig))
unfolding parse_grant
parse_grant_iff buf g hb =
    (whole_inv read_grant-Reads buf g hb, λ h. rw h.1 (whole-written read_grant-Reads g h.0))

-- Cut short at any place, the encoding of a grant is refused as truncated; with more bytes behind
-- it, as trailing bytes.
pub parse_grant_cut :
    (g : Grant) (front back : Bytes) (x : ℕ)
    → IsGrant g
    → g.tbs ++ g.sig ≡ front ++ x ∷ back
    → (parse_grant front ≡ err truncated)
      × (parse_grant (g.tbs ++ g.sig ++ x ∷ back) ≡ err trailing_bytes)
unfolding parse_grant
parse_grant_cut g front back x h e =
    (whole_cut read_grant-Reads g h front back x e, whole_trailing read_grant-Reads g h x back)
