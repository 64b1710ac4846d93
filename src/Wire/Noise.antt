-- ===== src/Wire/Noise.antt =====
-- wire/noise.go: the symmetric state of the handshake. A method of *symmetricState takes the state
-- and returns the new one.
pub mod Symmetric
pub mod Sizes
pub mod Messages
pub mod Handshake
pub mod Rejects
use lastro.Common.{
  ℕ, ◌+◌, ◌-◌, ◌%◌, ◌^◌, ◌≡◌, Bool, true, false, Option, none, some, bit_xor, Bytes, length,
  replicate, map, [], ◌∷◌, ◌++◌, ltb, if◌then◌else◌,
}
use lastro.Common.Result.{Result, ok, err, decrypt_failed}
use lastro.Wire.Crypto.{Crypto}
use lastro.Wire.Transport.{Aead, transport_nonce}

-- "Noise_IK_25519_ChaChaPoly_BLAKE2s"
abbrev pub protocol_name : Bytes
protocol_name =
    b'N' ∷ b'o' ∷ b'i' ∷ b's' ∷ b'e' ∷ b'_' ∷ b'I' ∷ b'K' ∷ b'_' ∷ b'2' ∷ b'5' ∷ b'5' ∷ b'1' ∷ b'9'
    ∷ b'_' ∷ b'C' ∷ b'h' ∷ b'a' ∷ b'C' ∷ b'h' ∷ b'a' ∷ b'P' ∷ b'o' ∷ b'l' ∷ b'y' ∷ b'_' ∷ b'B'
    ∷ b'L' ∷ b'A' ∷ b'K' ∷ b'E' ∷ b'2' ∷ b's' ∷ []

abbrev pub block_size : ℕ
block_size = 64

-- `copy(k[:], b)` into 64 zero bytes, for a b that is not longer.
abbrev pub pad_block : Bytes → Bytes
pad_block b = b ++ replicate (block_size - length b) 0

module _ (c : Crypto) where
  -- The key, or its hash when it is longer than a block, padded to a block.
  abbrev pub block_key : Bytes → Bytes
  block_key key = pad_block (if ltb block_size (length key) then c.sum256 key else key)

  unfoldable pub hmac_blake2s : Bytes → Bytes → Bytes
  hmac_blake2s key data_ =
      let k = block_key key in
      c.sum256 (map (λ b. bit_xor b 0x5c) k ++ c.sum256 (map (λ b. bit_xor b 0x36) k ++ data_))

  unfoldable pub hkdf2 : Bytes → Bytes → Bytes × Bytes
  unfolding hmac_blake2s
  hkdf2 ck ikm =
      let temp = hmac_blake2s ck ikm in
      let o1 = hmac_blake2s temp (1 ∷ []) in (o1, hmac_blake2s temp (o1 ++ (2 ∷ [])))

pub record SymmetricState : Type 0 where
  pub h : Bytes
  pub ck : Bytes
  pub k : Bytes
  pub n : ℕ
  pub has_key : Bool

module _ (c : Crypto) where
  unfoldable pub new_symmetric_state : SymmetricState
  new_symmetric_state = record {
    h = c.sum256 protocol_name;
    ck = c.sum256 protocol_name;
    k = replicate 32 0;
    n = 0;
    has_key = false;
  }

  unfoldable pub mix_hash : SymmetricState → Bytes → SymmetricState
  mix_hash s data_ = record s { h = c.sum256 (s.h ++ data_) }

  unfoldable pub mix_key : SymmetricState → Bytes → SymmetricState
  unfolding hkdf2
  mix_key s ikm =
      let (o1, o2) = hkdf2 c s.ck ikm in record s { ck = o1; k = o2; n = 0; has_key = true }

  -- `s.n++` and `s.mixHash(ct)`
  abbrev pub advance_state : SymmetricState → Bytes → SymmetricState
  advance_state s ct = mix_hash (record s { n = (s.n + 1) % 2 ^ 64 }) ct

  unfoldable pub encrypt_and_hash : Aead → SymmetricState → Bytes → Bytes × SymmetricState
  unfolding mix_hash
  encrypt_and_hash a s plaintext =
      if s.has_key
      then (let ct = a.seal s.k (transport_nonce s.n) plaintext s.h in (ct, advance_state s ct))
      else (plaintext, mix_hash s plaintext)

  -- What is returned of an opened text.
  abbrev pub decrypted : SymmetricState → Bytes → Option Bytes → Result (Bytes × SymmetricState)
  decrypted s ct none = err decrypt_failed
  decrypted s ct (some pt) = ok (pt, advance_state s ct)

  unfoldable pub decrypt_and_hash : Aead → SymmetricState → Bytes → Result (Bytes × SymmetricState)
  unfolding mix_hash
  decrypt_and_hash a s ct =
      if s.has_key
      then decrypted s ct (a.open_sealed s.k (transport_nonce s.n) ct s.h)
      else ok (ct, mix_hash s ct)

  -- `s.split()`: HKDF with an empty input.
  unfoldable pub split_keys : SymmetricState → Bytes × Bytes
  unfolding hkdf2
  split_keys s = hkdf2 c s.ck []

pub record HandshakeResult : Type 0 where
  pub send_key : Bytes
  pub recv_key : Bytes
  pub h : Bytes

module _ (c : Crypto) where
  -- Initiator.Finalize and Responder.Finalize.
  unfoldable pub initiator_finalize : SymmetricState → HandshakeResult
  unfolding split_keys
  initiator_finalize s =
      let (c1, c2) = split_keys c s in record { send_key = c1; recv_key = c2; h = s.h }

  unfoldable pub responder_finalize : SymmetricState → HandshakeResult
  unfolding split_keys
  responder_finalize s =
      let (c1, c2) = split_keys c s in record { send_key = c2; recv_key = c1; h = s.h }
