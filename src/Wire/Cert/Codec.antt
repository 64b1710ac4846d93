-- ===== src/Wire/Cert/Codec.antt =====
-- The certificate parser accepts exactly the encodings of well-formed certificates.
use lastro.Common.{
  ℕ, ◌*◌, ◌^◌, ◌<◌, ◌≤◌, ◌≡◌, ◌↔◌, refl, ap, sym, ◌∙◌, Bool, false, ◌||◌, ◌==◌, ltb, Bytes, IsBytes,
  length, List, [], ◌∷◌, ◌++◌, arith, append-nil, if◌then◌else◌,
}
use lastro.Common.Result.{ok, err, malformed, truncated, trailing_bytes}
use lastro.Wire.Encoding.{big_endian}
use lastro.Wire.Cursor.{Reader, ◌>>=◌, pure, fail, u8, reader_laws, guard-bind}
use lastro.Wire.Cursor.Reads.{Reads, Reads-pair, Reads-guard, Reads-map, Reads-convert}
use lastro.Wire.Cursor.Primitives.{u8-Reads}
use lastro.Wire.Cursor.Whole.{
  spanned, Reads-spanned, whole-written, whole_inv, whole_trailing, whole_cut,
}
use lastro.Wire.Layout.{
  Field, octet, u64, fixed, sized16, counted, Values, FitsAll, write_all, read_all, read_all-Reads,
}
use lastro.Wire.Cert.{Cert, CaPair, ca_pairs, read_cert, parse_cert}
use lastro.Wire.Cert.Pairs.{
  read_pairs, read_pairs-Reads, write_pairs, FitsPairs, FitsPairs-Ascending, Ascending,
  length-FitsPairs, ca_loop-read_pairs, ca_pairs_loop-write_pairs,
}

-- The layout in the comment of cert.go, up to the number of CA signatures.
abbrev layout : List Field
layout = octet ∷ octet ∷ fixed 32 ∷ fixed 32 ∷ u64 ∷ u64 ∷ sized16 64 ∷ counted 8 8 ∷ []

-- The fields with the TBS, the number of signatures, and the pairs with the bytes they came from.
abbrev Parts : Type 0
Parts = (Values layout × Bytes) × (ℕ × (List CaPair × Bytes))

abbrev bad_count : ℕ → Bool
bad_count n = n == 0 || ltb 4 n

abbrev read_parts : Reader Parts
read_parts = spanned (read_all layout) >>= λ p.
    (u8 >>= λ n.
    (if bad_count n then fail malformed else spanned (read_pairs n 0 [])) >>= λ q. pure (n, q))
    >>= λ r. pure (p, r)

abbrev build : Parts → Cert
build
      (
        (
          (
            version,
            (
              role_bits,
              (
                sig_pubkey,
                (kex_pubkey, (not_before, (not_after, (name, ((scope_count, scope_ids), _))))),
              ),
            ),
          ),
          tbs,
        ),
        (n, (ps, region)),
      ) =
    record {
      version = version;
      role_bits = role_bits;
      sig_pubkey = sig_pubkey;
      kex_pubkey = kex_pubkey;
      not_before = not_before;
      not_after = not_after;
      name = name;
      scope_count = scope_count;
      scope_ids = scope_ids;
      ca_sig_count = n;
      ca_sigs = region;
      tbs = tbs;
    }

abbrev values : Cert → Values layout
values ct = (
  ct.version,
  (
    ct.role_bits,
    (
      ct.sig_pubkey,
      (
        ct.kex_pubkey,
        (ct.not_before, (ct.not_after, (ct.name, ((ct.scope_count, ct.scope_ids), tt)))),
      ),
    ),
  ),
)

abbrev parts : Cert → Parts
parts ct = ((values ct, ct.tbs), (ct.ca_sig_count, (ca_pairs ct, ct.ca_sigs)))

read_cert-parts : read_cert ≡ (read_parts >>= λ p. pure (build p))
unfolding read_cert
read_cert-parts = simp (reader_laws, guard-bind, ca_loop-read_pairs)

abbrev IsParts : Parts → Type 0
IsParts p =
    (FitsAll layout p.0.0 × (p.0.1 ≡ write_all layout p.0.0))
    × ((p.1.0 < 256)
        × ((bad_count p.1.0 ≡ false)
            × (FitsPairs p.1.0 0 [] p.1.1.0 × (p.1.1.1 ≡ write_pairs p.1.1.0))))

read_parts-Reads : Reads read_parts (λ p. p.0.1 ++ (p.1.0 ∷ p.1.1.1)) IsParts
read_parts-Reads = Reads-pair (Reads-spanned (read_all-Reads layout)) (λ p h.
    Reads-pair u8-Reads
      (λ n h'. Reads-guard (bad_count n) malformed (Reads-spanned (read_pairs-Reads n 0 []))))

parts-build : (p : Parts) → IsParts p → parts (build p) ≡ p
unfolding ca_pairs
parts-build p h =
    let same : ca_pairs (build p) ≡ p.1.1.0 =
      rw h.1.1.1.1 (ca_pairs_loop-write_pairs p.1.0 0 [] p.1.1.0 [] 0 h.1.1.1.0 refl) in
    ap (λ z. (p.0, (p.1.0, (z, p.1.1.1)))) same

-- The bytes that a certificate signs.
abbrev pub tbs_of : Cert → Bytes
tbs_of ct =
    ct.version
    ∷ ct.role_bits
    ∷ (ct.sig_pubkey
        ++ (ct.kex_pubkey
            ++ (big_endian 8 ct.not_before
                ++ (big_endian 8 ct.not_after
                    ++ (big_endian 2 (length ct.name)
                        ++ (ct.name ++ (ct.scope_count ∷ ct.scope_ids)))))))

-- What holds of a certificate that the parser returns, and of nothing else.
pub record IsCert (ct : Cert) : Type 0 where
  pub version : ct.version < 256
  pub role_bits : ct.role_bits < 256
  pub sig_pubkey : length ct.sig_pubkey ≡ 32
  pub kex_pubkey : length ct.kex_pubkey ≡ 32
  pub not_before : ct.not_before < 2 ^ 64
  pub not_after : ct.not_after < 2 ^ 64
  pub name : length ct.name ≤ 64
  pub scope_count : ct.scope_count ≤ 8
  pub scope_ids : length ct.scope_ids ≡ ct.scope_count * 8
  pub some_sigs : 1 ≤ ct.ca_sig_count
  pub few_sigs : ct.ca_sig_count ≤ 4
  pub pairs : FitsPairs ct.ca_sig_count 0 [] (ca_pairs ct)
  pub ca_sigs : ct.ca_sigs ≡ write_pairs (ca_pairs ct)
  pub tbs : ct.tbs ≡ tbs_of ct

tbs-written : (ct : Cert) → tbs_of ct ≡ write_all layout (values ct)
tbs-written ct = rw append-nil

good_count : (n : ℕ) → 1 ≤ n → n ≤ 4 → bad_count n ≡ false
good_count n lo hi = ground arith

IsCert→IsParts : (ct : Cert) → IsCert ct → IsParts (parts ct)
IsCert→IsParts ct h = (
  (
    (
      h.version,
      (
        h.role_bits,
        (
          h.sig_pubkey,
          (
            h.kex_pubkey,
            (
              h.not_before,
              (
                h.not_after,
                (
                  (omega (arith, h.name), h.name),
                  ((omega (arith, h.scope_count), (h.scope_count, h.scope_ids)), tt),
                ),
              ),
            ),
          ),
        ),
      ),
    ),
    h.tbs ∙ tbs-written ct,
  ),
  (
    omega (arith, h.few_sigs),
    (good_count ct.ca_sig_count h.some_sigs h.few_sigs, (h.pairs, h.ca_sigs)),
  ),
)

IsParts→IsCert : (ct : Cert) → IsParts (parts ct) → IsCert ct
IsParts→IsCert ct
      (
        (
          (
            version,
            (
              role_bits,
              (
                sig_pubkey,
                (
                  kex_pubkey,
                  (not_before, (not_after, ((_, name), ((_, (scope_count, scope_ids)), _)))),
                ),
              ),
            ),
          ),
          written,
        ),
        (_, (count, (pairs, region))),
      ) =
    record {
      version = version;
      role_bits = role_bits;
      sig_pubkey = sig_pubkey;
      kex_pubkey = kex_pubkey;
      not_before = not_before;
      not_after = not_after;
      name = name;
      scope_count = scope_count;
      scope_ids = scope_ids;
      some_sigs = ground arith;
      few_sigs = ground arith;
      pairs = pairs;
      ca_sigs = region;
      tbs = written ∙ sym (tbs-written ct);
    }

pub read_cert-Reads : Reads read_cert (λ ct. ct.tbs ++ (ct.ca_sig_count ∷ ct.ca_sigs)) IsCert
read_cert-Reads = rw read_cert-parts (
    Reads-convert (Reads-map build parts parts-build read_parts-Reads)
      (λ ct h. (IsParts→IsCert ct h.0, refl)) (λ ct h. (IsCert→IsParts ct h, refl)))

-- The parser accepts exactly the bytes of well-formed certificates, each certificate from its one
-- encoding: the TBS, the number of CA signatures, and the pairs with ascending keys.
pub parse_cert_iff :
    (buf : Bytes) (ct : Cert)
    → IsBytes buf
    → (parse_cert buf ≡ ok ct) ↔ (IsCert ct × (buf ≡ ct.tbs ++ (ct.ca_sig_count ∷ ct.ca_sigs)))
unfolding parse_cert
parse_cert_iff buf ct hb =
    (whole_inv read_cert-Reads buf ct hb, λ h. rw h.1 (whole-written read_cert-Reads ct h.0))

-- Cut short at any place, the encoding of a certificate is refused as truncated; with more bytes
-- behind it, as trailing bytes.
pub parse_cert_cut :
    (ct : Cert) (front back : Bytes) (x : ℕ)
    → IsCert ct
    → ct.tbs ++ (ct.ca_sig_count ∷ ct.ca_sigs) ≡ front ++ x ∷ back
    → (parse_cert front ≡ err truncated)
      × (parse_cert (ct.tbs ++ (ct.ca_sig_count ∷ ct.ca_sigs) ++ x ∷ back) ≡ err trailing_bytes)
unfolding parse_cert
parse_cert_cut ct front back x h e =
    (whole_cut read_cert-Reads ct h front back x e, whole_trailing read_cert-Reads ct h x back)

-- A certificate that parses has one to four CA pairs, as many as its count says, and every key is
-- strictly above those before it: no key signs twice.
pub parse_cert-Ascending :
    (buf : Bytes) (ct : Cert)
    → IsBytes buf
    → parse_cert buf ≡ ok ct
    → Ascending (ca_pairs ct)
      × ((length (ca_pairs ct) ≡ ct.ca_sig_count) × ((1 ≤ ct.ca_sig_count) × (ct.ca_sig_count ≤ 4)))
parse_cert-Ascending buf ct hb e =
    let (h, _) = (parse_cert_iff buf ct hb).0 e in
    (
      FitsPairs-Ascending ct.ca_sig_count 0 [] (ca_pairs ct) h.pairs,
      (length-FitsPairs ct.ca_sig_count 0 [] (ca_pairs ct) h.pairs, (h.some_sigs, h.few_sigs)),
    )
