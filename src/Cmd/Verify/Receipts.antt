-- ===== src/Cmd/Verify/Receipts.antt =====
-- What `lastro verify` says to the receipts of `lastro run`.
use lastro.Common.{◌≡◌, refl, sym, ◌∙◌, true, false, some, Bytes, List, [], ◌∷◌, ◌++◌, ◌==◌, ==_iff}
use lastro.Common.Result.{ok}
use lastro.Wire.Crypto.{Crypto, fingerprint}
use lastro.Wire.Span.{Span}
use lastro.Wire.Cert.{Cert, parse_cert, role_executor}
use lastro.Wire.Validate.{has_prefix, resource_prefix, has_role, validate_cert_chain_no_clock}
use lastro.Wire.Validate.Chain.{verify_receipt_iff}
use lastro.Cmd.{Files}
use lastro.Cmd.Run.{World, Prepared, resource_of, executor_of}
use lastro.Cmd.Run.Receipt.{IsReceiptOf}
use lastro.Cmd.Verify.{VerifyFlags, is_empty, cmd_verify}
use lastro.Cmd.Verify.Passing.{CaKeys}
use lastro.Cmd.Verify.Codes.{IsVerified, IsUnanchored, cmd_verify_iff}

has_prefix-append : (xs ys zs : Bytes) → has_prefix (xs ++ ys) (xs ++ zs) ≡ has_prefix ys zs
unfolding has_prefix
has_prefix-append [] ys zs = refl
has_prefix-append (x ∷ xs) ys zs =
    let same : (x == x) ≡ true = (==_iff x x).1 refl in rw same (has_prefix-append xs ys zs)

resource_of-prefix :
    (fp ns path : Bytes) → has_prefix (resource_of fp ns path) (resource_prefix fp) ≡ true
unfolding has_prefix
resource_of-prefix fp ns path = has_prefix-append fp _ (b'/' ∷ [])

-- The certificate of the key of the seed, as an executor, behind one receipt and some CA keys.
pub record IsAnchored (c : Crypto) (v : Files) (f : VerifyFlags) (seed path minted : Bytes)
    (cert : Cert) (trusted : List Bytes) : Type 0 where
  pub args : f.args ≡ path ∷ []
  pub receipt : v.read_file path ≡ some minted
  pub has_cert : is_empty f.cert_path ≡ false
  pub cert_raw : Bytes
  pub certificate : v.read_file f.cert_path ≡ some cert_raw
  pub parsed_cert : parse_cert cert_raw ≡ ok cert
  pub has_ca : is_empty f.ca_paths ≡ false
  pub cas : CaKeys v f.ca_paths trusted
  pub valid : validate_cert_chain_no_clock c cert trusted ≡ ok tt
  pub is_executor : has_role cert.role_bits role_executor ≡ true
  pub key : cert.sig_pubkey ≡ executor_of c seed

-- A receipt of `lastro run` is verified, with exit code 0, where it is given with a valid certificate of
-- its key as an executor, signed by the given CAs; without a certificate it is unanchored, with 3.
pub cmd_verify-IsReceiptOf :
    (c : Crypto) (w : World) (p : Prepared) (captured receipt : Bytes) (span : Span) (v : Files)
    (f : VerifyFlags) (path : Bytes) (cert : Cert) (trusted : List Bytes)
    → IsReceiptOf c w p captured receipt span
    → IsAnchored c v f p.seed path receipt cert trusted
    → ((cmd_verify c v f).code ≡ 0) × ((cmd_verify c v (record f { cert_path = [] })).code ≡ 3)
cmd_verify-IsReceiptOf c w p captured receipt span v f path cert trusted r a =
    let f0 = record f { cert_path = [] } in
    let named : has_prefix span.resource_id (resource_prefix (fingerprint c span.executor)) ≡ true =
      rw (r.resource_id, r.executor)
        (resource_of-prefix (fingerprint c (executor_of c p.seed)) p.flags.namespace p.path) in
    let accepted =
      (verify_receipt_iff c span cert trusted).1
        (r.signed, (a.valid, (a.is_executor, (a.key ∙ sym r.executor, named)))) in
    let verified : IsVerified c v f = record {
      path = path;
      raw = receipt;
      span = span;
      cert_raw = a.cert_raw;
      cert = cert;
      trusted = trusted;
      args = a.args;
      receipt = a.receipt;
      parsed = r.parsed;
      has_cert = a.has_cert;
      certificate = a.certificate;
      parsed_cert = a.parsed_cert;
      has_ca = a.has_ca;
      cas = a.cas;
      accepted = accepted;
    } in
    let unanchored : IsUnanchored c v f0 = record {
      path = path;
      raw = receipt;
      span = span;
      args = a.args;
      receipt = a.receipt;
      parsed = r.parsed;
      signed = r.signed;
      no_cert = refl;
    } in
    ((cmd_verify_iff c v f).0.1 verified, (cmd_verify_iff c v f0).1.1 unanchored)
