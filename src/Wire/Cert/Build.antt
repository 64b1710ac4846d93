-- ===== src/Wire/Cert/Build.antt =====
-- What the certificate encoders make, the certificate parser reads.
use lastro.Common.{
  ◌*◌, ◌%◌, ◌^◌, ◌<◌, ◌≤◌, ◌≡◌, refl, inl, inr, Bytes, length, All, List, [], ◌∷◌, ◌++◌, arith,
  length-append,
}
use lastro.Common.Result.{ok, Result-cases}
use lastro.Wire.Cursor.Whole.{whole-written}
use lastro.Wire.Cert.{
  Cert, CaPair, CertFields, ca_pairs, parse_cert, append_scopes, encode_cert_tbs, append_pairs,
  append_cert_signatures,
}
use lastro.Wire.Cert.Pairs.{write_pairs, FitsPairs, append_pairs_iff, ca_pairs_loop-write_pairs}
use lastro.Wire.Cert.Codec.{IsCert, tbs_of, read_cert-Reads}

-- What the Go types of CertFields say: bytes, arrays of a fixed length and uint64s.
pub record IsCertFields (f : CertFields) : Type 0 where
  pub version : f.version < 256
  pub role_bits : f.role_bits < 256
  pub sig_pubkey : length f.sig_pubkey ≡ 32
  pub kex_pubkey : length f.kex_pubkey ≡ 32
  pub not_before : f.not_before < 2 ^ 64
  pub not_after : f.not_after < 2 ^ 64
  pub scope_ids : All (λ (s : Bytes). length s ≡ 8) f.scope_ids

-- The certificate with these fields, TBS and pairs.
abbrev pub cert_of : CertFields → Bytes → List CaPair → Cert
cert_of f tbs pairs = record {
  version = f.version;
  role_bits = f.role_bits;
  sig_pubkey = f.sig_pubkey;
  kex_pubkey = f.kex_pubkey;
  not_before = f.not_before;
  not_after = f.not_after;
  name = f.name;
  scope_count = length f.scope_ids;
  scope_ids = append_scopes f.scope_ids;
  ca_sig_count = length pairs;
  ca_sigs = write_pairs pairs;
  tbs = tbs;
}

length-append_scopes :
    (ss : List Bytes)
    → All (λ (s : Bytes). length s ≡ 8) ss
    → length (append_scopes ss) ≡ length ss * 8
unfolding append_scopes
length-append_scopes [] h = refl
length-append_scopes (s ∷ ss) h =
    omega (arith, length-append s (append_scopes ss), h.0, length-append_scopes ss h.1)

-- The encoders succeed only within the bounds, and say what they wrote.
encode_inv :
    (f : CertFields) (tbs : Bytes) (pairs : List CaPair)
    → encode_cert_tbs f ≡ ok tbs
    → (length f.name ≤ 64) × ((length f.scope_ids ≤ 8) × (tbs ≡ tbs_of (cert_of f tbs pairs)))
unfolding encode_cert_tbs
encode_inv f tbs pairs e =
    let bounds : (length f.name ≤ 64) × (length f.scope_ids ≤ 8) = ground arith in
    let n : length f.name % 2 ^ 16 ≡ length f.name = omega (arith, bounds.0) in
    let k : length f.scope_ids % 256 ≡ length f.scope_ids = omega (arith, bounds.1) in
    (bounds.0, (bounds.1, ground (arith, rw (n, k) at e)))

append_inv :
    (tbs out : Bytes) (pairs : List CaPair)
    → append_cert_signatures tbs pairs ≡ ok out
    → (1 ≤ length pairs)
      × ((length pairs ≤ 4)
          × (FitsPairs (length pairs) 0 [] pairs
              × (out ≡ tbs ++ (length pairs ∷ write_pairs pairs))))
unfolding append_cert_signatures
append_inv tbs out pairs e = elim (Result-cases (append_pairs 0 [] pairs)) [
  | inl (x, wrote) ↦
      let (fits, same) = (append_pairs_iff 0 [] pairs x).0 wrote in
      let count : (1 ≤ length pairs) × (length pairs ≤ 4) = ground (arith, wrote) in
      let n : length pairs % 256 ≡ length pairs = omega (arith, count.1) in
      (count.0, (count.1, (fits, ground (arith, rw (wrote, n, same) at e))))
  | inr (why, none) ↦ ground (arith, none)
]

-- A certificate made by the two encoders parses to its fields, the encoded TBS and the pairs, and
-- CAPairs gives the pairs back.
pub parse-append_cert_signatures :
    (f : CertFields) (tbs out : Bytes) (pairs : List CaPair)
    → IsCertFields f
    → encode_cert_tbs f ≡ ok tbs
    → append_cert_signatures tbs pairs ≡ ok out
    → (parse_cert out ≡ ok (cert_of f tbs pairs)) × (ca_pairs (cert_of f tbs pairs) ≡ pairs)
unfolding parse_cert ca_pairs
parse-append_cert_signatures f tbs out pairs h encoded appended =
    let (name, (scopes, written)) = encode_inv f tbs pairs encoded in
    let (some_sigs, (few_sigs, (fits, same))) = append_inv tbs out pairs appended in
    let back = ca_pairs_loop-write_pairs (length pairs) 0 [] pairs [] 0 fits refl in
    let well_formed : IsCert (cert_of f tbs pairs) = record {
      version = h.version;
      role_bits = h.role_bits;
      sig_pubkey = h.sig_pubkey;
      kex_pubkey = h.kex_pubkey;
      not_before = h.not_before;
      not_after = h.not_after;
      name = name;
      scope_count = scopes;
      scope_ids = length-append_scopes f.scope_ids h.scope_ids;
      some_sigs = some_sigs;
      few_sigs = few_sigs;
      pairs = rw back fits;
      ca_sigs = rw back;
      tbs = written;
    } in
    (rw same (whole-written read_cert-Reads (cert_of f tbs pairs) well_formed), back)
