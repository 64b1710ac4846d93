-- ===== src/Tests/Verifications.antt =====
-- What verify says to the receipt of a run, and the keys that keygen writes.
use lastro.Common.{
  ◌≡◌, ◌≢◌, refl, true, false, none, some, Bytes, IsBytes, [], ◌∷◌, ◌++◌, arith, equal,
  if◌then◌else◌, compare_bytes,
}
use lastro.Common.Integers.{pos}
use lastro.Common.Result.{ok}
use lastro.Tests.Toy.{toy, all_bytes, all_bytes-IsBytes, seed_of}
use lastro.Tests.Certs.{executor, trusted}
use lastro.Tests.Handshakes.{sums, sums_laws}
use lastro.Tests.Commands.{world, prepared, minted, files}
use lastro.Wire.Crypto.{verify_signed}
use lastro.Wire.Cert.{parse_cert, ca_pairs, in_set}
use lastro.Wire.Cert.Pairs.{write_pairs}
use lastro.Wire.Cert.Codec.{IsCert, parse_cert_iff}
use lastro.Wire.Validate.{validate_cert_chain_no_clock, check_role_constraints, check_pairs}
use lastro.Cmd.{Files, is_blank, sig_key_name}
use lastro.Cmd.Capture.{trailer}
use lastro.Cmd.Keygen.{cmd_keygen, cmd_keygen-keeps, cmd_keygen_lem}
use lastro.Cmd.Verify.{VerifyFlags, verify_steps, cmd_verify}
use lastro.Cmd.Verify.Codes.{IsUnanchored, cmd_verify_iff}
use lastro.Cmd.Verify.Receipts.{IsAnchored, cmd_verify-IsReceiptOf}

abbrev pub cert_raw : Bytes
cert_raw = executor.tbs ++ (2 ∷ executor.ca_sigs)

cert_raw-IsBytes : IsBytes cert_raw
unfolding all_bytes
cert_raw-IsBytes = all_bytes-IsBytes cert_raw refl

executor-IsCert : IsCert executor
unfolding ca_pairs write_pairs compare_bytes
executor-IsCert = record {
  version = omega arith;
  role_bits = omega arith;
  sig_pubkey = refl;
  kex_pubkey = refl;
  not_before = omega arith;
  not_after = omega arith;
  name = omega arith;
  scope_count = omega arith;
  scope_ids = refl;
  some_sigs = omega arith;
  few_sigs = omega arith;
  pairs = (refl, (refl, (refl, (refl, (refl, (refl, tt))))));
  ca_sigs = refl;
  tbs = refl;
}

pub executor_parses : parse_cert cert_raw ≡ ok executor
executor_parses = (parse_cert_iff cert_raw executor cert_raw-IsBytes).1 (executor-IsCert, refl)

pub executor_valid : validate_cert_chain_no_clock toy executor trusted ≡ ok tt
unfolding validate_cert_chain_no_clock check_role_constraints check_pairs ca_pairs verify_signed
    equal in_set
executor_valid = refl

-- "o" is the receipt, "c" the certificate, "1" and "2" are the CA keys.
abbrev disk : Files
disk = record files {
  read_file = λ p.
      if equal p (b'o' ∷ [])
      then some minted.0
      else if equal p (b'c' ∷ [])
      then some cert_raw
      else if equal p (b'1' ∷ [])
      then some (seed_of 1)
      else if equal p (b'2' ∷ [])
      then some (seed_of 2)
      else none;
}

abbrev flags : VerifyFlags
flags = record {
  args = (b'o' ∷ []) ∷ [];
  cert_path = b'c' ∷ [];
  ca_paths = (b'2' ∷ []) ∷ (b'1' ∷ []) ∷ [];
}

anchored : IsAnchored toy disk flags (seed_of 7) (b'o' ∷ []) minted.0 executor trusted
unfolding equal
anchored = record {
  args = refl;
  receipt = refl;
  has_cert = refl;
  cert_raw = cert_raw;
  certificate = refl;
  parsed_cert = executor_parses;
  has_ca = refl;
  cas = ((refl, refl), ((refl, refl), tt));
  valid = executor_valid;
  is_executor = refl;
  key = refl;
}

cmd_verify-IsReceiptOf_example :
    ((cmd_verify toy disk flags).code ≡ 0)
    × ((cmd_verify toy disk (record flags { cert_path = [] })).code ≡ 3)
cmd_verify-IsReceiptOf_example =
    cmd_verify-IsReceiptOf toy (world 10) (prepared 10) (1 ∷ 2 ∷ 9 ∷ trailer (pos 3)) minted.0
      minted.1 disk flags (b'o' ∷ []) executor trusted minted.3 anchored

-- Without the certificate.
abbrev bare : VerifyFlags
bare = record flags { cert_path = [] }

unanchored : IsUnanchored toy disk bare
unfolding equal
unanchored = record {
  path = b'o' ∷ [];
  raw = minted.0;
  span = minted.1;
  args = refl;
  receipt = refl;
  parsed = minted.3.parsed;
  signed = minted.3.signed;
  no_cert = refl;
}

cmd_verify_iff_example : (cmd_verify toy disk bare).code ≡ 3
cmd_verify_iff_example = (cmd_verify_iff toy disk bare).1.1 unanchored

-- No receipt is named.
usage : (cmd_verify toy disk (record flags { args = [] })).code ≡ 2
unfolding cmd_verify verify_steps
usage = refl

-- A new directory "n".
not_blank : is_blank (b'n' ∷ []) ≡ false
unfolding equal
not_blank = refl

fresh : files.exists (files.join (b'n' ∷ []) sig_key_name) ≡ false
unfolding equal
fresh = refl

cmd_keygen_lem_example :
    (kex_public : Bytes) × (sums.x25519 (seed_of 5) sums.basepoint ≡ some kex_public)
    × (cmd_keygen toy sums files (b'n' ∷ []) (some (seed_of 4)) (some (seed_of 5)) ≡ record {
      code = pos 0;
      written =
          ((b'n' ∷ b'/' ∷ b's' ∷ b'i' ∷ b'g' ∷ b'.' ∷ b'k' ∷ b'e' ∷ b'y' ∷ []), seed_of 4)
          ∷ ((b'n' ∷ b'/' ∷ b's' ∷ b'i' ∷ b'g' ∷ b'.' ∷ b'p' ∷ b'u' ∷ b'b' ∷ []), seed_of 4)
          ∷ (
            (b'n' ∷ b'/' ∷ b's' ∷ b't' ∷ b'a' ∷ b't' ∷ b'i' ∷ b'c' ∷ b'.' ∷ b'k' ∷ b'e' ∷ b'y'
                ∷ []),
            seed_of 5,
          )
          ∷ (
            (b'n' ∷ b'/' ∷ b's' ∷ b't' ∷ b'a' ∷ b't' ∷ b'i' ∷ b'c' ∷ b'.' ∷ b'p' ∷ b'u' ∷ b'b'
                ∷ []),
            kex_public,
          )
          ∷ [];
    })
cmd_keygen_lem_example =
    cmd_keygen_lem toy sums files (b'n' ∷ []) (seed_of 4) (seed_of 5) sums_laws refl not_blank refl
      fresh (λ name. refl)

-- The directory "k" has a sig.key.
there : files.exists (files.join (b'k' ∷ []) sig_key_name) ≡ true
unfolding equal
there = refl

cmd_keygen-keeps_example :
    ((cmd_keygen toy sums files (b'k' ∷ []) (some (seed_of 4)) none).written ≡ [])
    × ((cmd_keygen toy sums files (b'k' ∷ []) (some (seed_of 4)) none).code ≢ pos 0)
cmd_keygen-keeps_example = cmd_keygen-keeps toy sums files (b'k' ∷ []) (some (seed_of 4)) none there
