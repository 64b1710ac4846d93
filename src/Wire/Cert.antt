-- ===== src/Wire/Cert.antt =====
-- wire/cert.go, and the certificate encoder of wire/encode.go.
pub mod Pairs
pub mod Codec
pub mod Build
use lastro.Common.{
  ℕ, Option, some, none, zero, suc, ◌+◌, ◌*◌, ◌%◌, ◌^◌, ◌<◌, ◌≤◌, ◌≡◌, not, ◌||◌, ◌&&◌, Bool, true,
  false, Bytes, All, length, List, [], ◌∷◌, ◌++◌, ltb, ◌==◌, equal, le_bytes, if◌then◌else◌,
}
use lastro.Common.Result
use lastro.Common.Result.{Result, ok, err, field_bounds, oversize, malformed, bad_signature}
use lastro.Wire.Encoding.{big_endian}
use lastro.Wire.Cursor.{
  Reader, ◌>>=◌, ◌>>◌, pure, fail, u8, u64be, take_bytes, field16, tell, since, parse_whole, slice,
}
use lastro.Wire.Crypto.{Crypto, domain_cert, verify_signed}
use lastro.Wire.Span.{len_pubkey}

abbrev pub len_kex_pubkey : ℕ
len_kex_pubkey = 32

abbrev pub len_scope_id : ℕ
len_scope_id = 8

abbrev pub max_name : ℕ
max_name = 64

abbrev pub max_scope : ℕ
max_scope = 8

abbrev pub max_ca_sigs : ℕ
max_ca_sigs = 4

abbrev pub len_ca_key : ℕ
len_ca_key = 32

abbrev pub len_ca_sig : ℕ
len_ca_sig = 64

abbrev pub role_agent : ℕ
role_agent = 2

abbrev pub role_executor : ℕ
role_executor = 4

abbrev pub role_approver : ℕ
role_approver = 8

pub record Cert : Type 0 where
  pub version : ℕ
  pub role_bits : ℕ
  pub sig_pubkey : Bytes
  pub kex_pubkey : Bytes
  pub not_before : ℕ
  pub not_after : ℕ
  pub name : Bytes
  pub scope_count : ℕ
  pub scope_ids : Bytes
  pub ca_sig_count : ℕ
  pub ca_sigs : Bytes
  pub tbs : Bytes

pub record CaPair : Type 0 where
  pub key : Bytes
  pub sig : Bytes

-- `i > 0 && bytes.Compare(key, prev) <= 0`
abbrev pub out_of_order : ℕ → Bytes → Bytes → Bool
out_of_order i key prev = ltb 0 i && le_bytes key prev

-- The loop over the (ca_key, ca_sig) pairs, with `rounds` rounds left.
unfoldable pub ca_loop : ℕ → ℕ → Bytes → Reader (Unit {0})
ca_loop zero i prev = pure tt
ca_loop (suc rounds) i prev = do
  key ← take_bytes len_ca_key
  if out_of_order i key prev
      then fail malformed
      else do _ ← take_bytes len_ca_sig; ca_loop rounds (i + 1) key

unfoldable pub read_cert : Reader Cert
read_cert = do
  start ← tell
  version ← u8
  role_bits ← u8
  sig_pubkey ← take_bytes len_pubkey
  kex_pubkey ← take_bytes len_kex_pubkey
  not_before ← u64be
  not_after ← u64be
  name ← field16 max_name
  scope_count ← u8
  scope_ids ←
      if ltb max_scope scope_count then fail oversize else take_bytes (scope_count * len_scope_id)
  tbs ← since start
  ca_count ← u8
  if ca_count == 0 || ltb max_ca_sigs ca_count then fail malformed else do
    ca_start ← tell
    _ ← ca_loop ca_count 0 []
    ca_sigs ← since ca_start
    pure (record {
      version = version;
      role_bits = role_bits;
      sig_pubkey = sig_pubkey;
      kex_pubkey = kex_pubkey;
      not_before = not_before;
      not_after = not_after;
      name = name;
      scope_count = scope_count;
      scope_ids = scope_ids;
      ca_sig_count = ca_count;
      ca_sigs = ca_sigs;
      tbs = tbs;
    })

unfoldable pub parse_cert : Bytes → Result Cert
parse_cert buf = parse_whole read_cert buf

-- The loop of CAPairs, with `rounds` rounds left.
unfoldable pub ca_pairs_loop : ℕ → ℕ → Bytes → List CaPair
ca_pairs_loop zero i sigs = []
ca_pairs_loop (suc rounds) i sigs =
    let off = i * (len_ca_key + len_ca_sig) in
    record {
      key = slice sigs off (off + len_ca_key);
      sig = slice sigs (off + len_ca_key) (off + (len_ca_key + len_ca_sig));
    }
    ∷ ca_pairs_loop rounds (i + 1) sigs

unfoldable pub ca_pairs : Cert → List CaPair
unfolding ca_pairs_loop
ca_pairs ct = ca_pairs_loop ct.ca_sig_count 0 ct.ca_sigs

unfoldable pub in_set : Bytes → List Bytes → Bool
in_set key [] = false
in_set key (k ∷ set) = equal k key || in_set key set

pub record CertFields : Type 0 where
  pub version : ℕ
  pub role_bits : ℕ
  pub sig_pubkey : Bytes
  pub kex_pubkey : Bytes
  pub not_before : ℕ
  pub not_after : ℕ
  pub name : Bytes
  pub scope_ids : List Bytes

-- The loop `for _, s := range f.ScopeIDs`.
unfoldable pub append_scopes : List Bytes → Bytes
append_scopes [] = []
append_scopes (s ∷ ss) = s ++ append_scopes ss

unfoldable pub encode_cert_tbs : CertFields → Result Bytes
unfolding append_scopes
encode_cert_tbs f =
    if ltb max_name (length f.name) || ltb max_scope (length f.scope_ids)
    then err field_bounds
    else ok (
        f.version
        ∷ f.role_bits
        ∷ (f.sig_pubkey
            ++ (f.kex_pubkey
                ++ (big_endian 8 f.not_before
                    ++ (big_endian 8 f.not_after
                        ++ (big_endian 2 (length f.name % 2 ^ 16)
                            ++ (f.name
                                ++ (length f.scope_ids % 256 ∷ append_scopes f.scope_ids))))))))

-- The loop of AppendCertSignatures from index i on; `prev` is the key before.
unfoldable pub append_pairs : ℕ → Bytes → List CaPair → Result Bytes
append_pairs i prev [] = ok []
append_pairs i prev (p ∷ ps) =
    let rest = append_pairs (i + 1) p.key ps in
    if not (length p.key == len_ca_key) || not (length p.sig == len_ca_sig)
    then err field_bounds
    else if out_of_order i p.key prev
    then err malformed
    else Result.◌>>=◌ rest (λ x. ok (p.key ++ (p.sig ++ x)))

unfoldable pub append_cert_signatures : Bytes → List CaPair → Result Bytes
unfolding append_pairs
append_cert_signatures tbs pairs =
    if length pairs == 0 || ltb max_ca_sigs (length pairs)
    then err field_bounds
    else Result.◌>>=◌ (append_pairs 0 [] pairs) (λ x. ok (tbs ++ (length pairs % 256 ∷ x)))

-- `trusted != nil && !inSet(key, trusted)`; `none` is the nil set.
unfoldable pub untrusted : Option (List Bytes) → Bytes → Bool
unfolding in_set
untrusted none key = false
untrusted (some trusted) key = not (in_set key trusted)

unfoldable pub verify_ca_loop :
    Crypto → Bytes → Option (List Bytes) → List CaPair → Result (Unit {0})
unfolding untrusted
verify_ca_loop c tbs trusted [] = ok tt
verify_ca_loop c tbs trusted (p ∷ ps) =
    let rest = verify_ca_loop c tbs trusted ps in
    Result.◌>>=◌ (verify_signed c domain_cert tbs p.sig p.key)
      (λ _. if untrusted trusted p.key then err bad_signature else rest)

unfoldable pub verify_ca_signatures : Crypto → Cert → Option (List Bytes) → Result (Unit {0})
unfolding verify_ca_loop ca_pairs
verify_ca_signatures c ct trusted = verify_ca_loop c ct.tbs trusted (ca_pairs ct)
