-- ===== src/Wire/Crypto.antt =====
-- wire/crypto.go. The Ed25519 and BLAKE2s implementations are not part of the repository: they are
-- the fields of a `Crypto`, and what is relied on are the laws of `CryptoLaws`.
pub mod Signing
use lastro.Common.{
  ℕ, ◌+◌, ◌/◌, ◌%◌, ◌<◌, ◌≡◌, Bool, true, not, Bytes, IsBytes, length, take, [], ◌∷◌, ◌++◌, ltb,
  ◌==◌, if◌then◌else◌,
}
use lastro.Common.Result.{Result, ok, err, malformed_key, bad_signature}

pub record Crypto : Type 0 where
  -- ed25519.NewKeyFromSeed, priv.Public, ed25519.Sign and ed25519.Verify
  pub key_from_seed : Bytes → Bytes
  pub public_key : Bytes → Bytes
  pub ed_sign : Bytes → Bytes → Bytes
  pub ed_verify : Bytes → Bytes → Bytes → Bool
  -- blake2s.Sum256
  pub sum256 : Bytes → Bytes

-- The documented behaviour: the lengths of keys, signatures and hashes, and that a signature
-- verifies under the public key of the private key that made it.
pub record CryptoLaws (c : Crypto) : Type 0 where
  pub length-public_key :
      (seed : Bytes) → length seed ≡ 32 → length (c.public_key (c.key_from_seed seed)) ≡ 32
  pub length-ed_sign : (priv msg : Bytes) → length (c.ed_sign priv msg) ≡ 64
  pub length-sum256 : (m : Bytes) → length (c.sum256 m) ≡ 32
  pub verifies :
      (seed msg : Bytes)
      → length seed ≡ 32
      → c.ed_verify (c.public_key (c.key_from_seed seed)) msg (c.ed_sign (c.key_from_seed seed) msg)
        ≡ true

abbrev pub domain_cert : ℕ
domain_cert = 1

abbrev pub domain_envelope : ℕ
domain_envelope = 2

abbrev pub domain_span : ℕ
domain_span = 3

abbrev pub domain_grant : ℕ
domain_grant = 4

abbrev pub domain_binding : ℕ
domain_binding = 5

abbrev pub domain_refusal : ℕ
domain_refusal = 6

-- encoding/hex: two lowercase digits a byte.
abbrev pub hex_digit : ℕ → ℕ
hex_digit d = if ltb d 10 then b'0' + d else d + 87

unfoldable pub hex_encode : Bytes → Bytes
hex_encode [] = []
hex_encode (b ∷ bs) = hex_digit (b / 16) ∷ hex_digit (b % 16) ∷ hex_encode bs

module _ (c : Crypto) where
  unfoldable pub verify_signed : ℕ → Bytes → Bytes → Bytes → Result (Unit {0})
  verify_signed tag tbs sig pubkey =
      if not (length pubkey == 32)
      then err malformed_key
      else if not (length sig == 64)
      then err bad_signature
      else if not (c.ed_verify pubkey (tag ∷ tbs) sig)
      then err bad_signature
      else ok tt

  unfoldable pub sign_tagged : ℕ → Bytes → Bytes → Bytes
  sign_tagged tag tbs priv = c.ed_sign priv (tag ∷ tbs)

  unfoldable pub sign_tagged_seed : ℕ → Bytes → Bytes → Bytes
  unfolding sign_tagged
  sign_tagged_seed tag tbs seed = sign_tagged tag tbs (c.key_from_seed seed)

  unfoldable pub blake2s256 : Bytes → Bytes
  blake2s256 m = c.sum256 m

  unfoldable pub overlay_addr : Bytes → Bytes
  overlay_addr sig_pubkey = 0xfd ∷ take 15 (c.sum256 sig_pubkey)

  unfoldable pub fingerprint : Bytes → Bytes
  unfolding hex_encode
  fingerprint sig_pubkey = hex_encode (take 8 (c.sum256 sig_pubkey))
