-- ===== src/Wire/Crypto/Signing.antt =====
-- Signing and verifying, the addresses and the fingerprints.
use lastro.Common.{
  ℕ, ◌*◌, ◌≡◌, ◌↔◌, refl, true, Bytes, IsBytes, length, take, [], ◌∷◌, arith, length-take, All,
  IsBytes-take, ◌&&◌, ◌||◌, leb,
}
use lastro.Common.Result.{ok}
use lastro.Wire.Crypto.{
  Crypto, CryptoLaws, verify_signed, sign_tagged, sign_tagged_seed, overlay_addr, fingerprint,
  hex_encode,
}

length-hex_encode : (b : Bytes) → length (hex_encode b) ≡ 2 * length b
unfolding hex_encode
length-hex_encode [] = refl
length-hex_encode (x ∷ b) = omega (arith, length-hex_encode b)

-- A lowercase hexadecimal digit.
abbrev pub IsHex : ℕ → Type 0
IsHex d = ((leb b'0' d && leb d b'9') || (leb b'a' d && leb d b'f')) ≡ true

hex_encode-IsHex : (b : Bytes) → IsBytes b → All IsHex (hex_encode b)
unfolding hex_encode
hex_encode-IsHex [] h = tt
hex_encode-IsHex (x ∷ b) h = (ground arith, (ground arith, hex_encode-IsHex b h.1))

module _ (c : Crypto) where
  -- Verification succeeds exactly on a key and a signature of the right lengths whose signature
  -- covers the tag and the bytes.
  pub verify_signed_iff :
      (tag : ℕ) (tbs sig pubkey : Bytes)
      → (verify_signed c tag tbs sig pubkey ≡ ok tt)
        ↔ ((length pubkey ≡ 32) × ((length sig ≡ 64) × (c.ed_verify pubkey (tag ∷ tbs) sig ≡ true)))
  unfolding verify_signed
  verify_signed_iff tag tbs sig pubkey = ground arith

  -- What is signed under a tag verifies under that tag.
  pub verify_signed-sign_tagged :
      (tag : ℕ) (tbs seed : Bytes)
      → CryptoLaws c
      → length seed ≡ 32
      → verify_signed c tag tbs
          (sign_tagged c tag tbs (c.key_from_seed seed))
          (c.public_key (c.key_from_seed seed))
        ≡ ok tt
  unfolding sign_tagged
  verify_signed-sign_tagged tag tbs seed laws h =
      (verify_signed_iff tag tbs _ _).1
        (laws.length-public_key seed h, (laws.length-ed_sign _ _, laws.verifies seed (tag ∷ tbs) h))

  -- The same, for a key that is known to be the signer's.
  pub verify_signed_own :
      (tag : ℕ) (tbs seed pubkey : Bytes)
      → CryptoLaws c
      → length seed ≡ 32
      → pubkey ≡ c.public_key (c.key_from_seed seed)
      → verify_signed c tag tbs (sign_tagged c tag tbs (c.key_from_seed seed)) pubkey ≡ ok tt
  verify_signed_own tag tbs seed pubkey laws h e =
      rw e (verify_signed-sign_tagged tag tbs seed laws h)

  pub length-sign_tagged :
      (tag : ℕ) (tbs priv : Bytes) → CryptoLaws c → length (sign_tagged c tag tbs priv) ≡ 64
  unfolding sign_tagged
  length-sign_tagged tag tbs priv laws = laws.length-ed_sign _ _

  pub verify_signed-sign_tagged_seed :
      (tag : ℕ) (tbs seed pubkey : Bytes)
      → CryptoLaws c
      → length seed ≡ 32
      → pubkey ≡ c.public_key (c.key_from_seed seed)
      → verify_signed c tag tbs (sign_tagged_seed c tag tbs seed) pubkey ≡ ok tt
  unfolding sign_tagged_seed
  verify_signed-sign_tagged_seed tag tbs seed pubkey laws h e =
      rw e (verify_signed-sign_tagged tag tbs seed laws h)

  pub length-sign_tagged_seed :
      (tag : ℕ) (tbs seed : Bytes) → CryptoLaws c → length (sign_tagged_seed c tag tbs seed) ≡ 64
  unfolding sign_tagged_seed
  length-sign_tagged_seed tag tbs seed laws = laws.length-ed_sign _ _

  pub length-fingerprint : (key : Bytes) → CryptoLaws c → length (fingerprint c key) ≡ 16
  unfolding fingerprint
  length-fingerprint key laws = omega (
    arith,
    length-hex_encode (take 8 (c.sum256 key)),
    length-take 8 (c.sum256 key),
    laws.length-sum256 key,
  )

  -- The fingerprint is 16 lowercase hexadecimal digits, whenever the hash is a string of bytes.
  pub fingerprint_shape :
      (key : Bytes)
      → CryptoLaws c
      → IsBytes (c.sum256 key)
      → (length (fingerprint c key) ≡ 16) × All IsHex (fingerprint c key)
  unfolding fingerprint
  fingerprint_shape key laws h = (
    length-fingerprint key laws,
    hex_encode-IsHex (take 8 (c.sum256 key)) (IsBytes-take 8 (c.sum256 key) h),
  )

  -- An overlay address has 16 bytes, and commits to 15 bytes of the hash of the key.
  pub overlay_addr_shape :
      (key : Bytes)
      → CryptoLaws c
      → (length (overlay_addr c key) ≡ 16) × (overlay_addr c key ≡ 0xfd ∷ take 15 (c.sum256 key))
  unfolding overlay_addr
  overlay_addr_shape key laws =
      (omega (arith, length-take 15 (c.sum256 key), laws.length-sum256 key), refl)
