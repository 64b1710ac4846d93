-- ===== src/Wire/Noise/Symmetric.antt =====
-- Two sides in the same symmetric state stay in the same state.
use lastro.Common.{ℕ, ◌<◌, ◌≡◌, inl, inr, refl, sym, true, ◌+◌, length, Bool-cases, ◌^◌, Bytes}
use lastro.Common.Result.{ok}
use lastro.Wire.Crypto.{Crypto}
use lastro.Wire.Transport.{Aead, AeadLaws, transport_nonce, seal_transport, open_transport}
use lastro.Wire.Transport.Packets.{open_transport-seal_transport}
use lastro.Wire.Noise.{
  SymmetricState, encrypt_and_hash, decrypt_and_hash, initiator_finalize, responder_finalize,
  split_keys, mix_key,
}

-- What one side encrypts, the other side in the same state decrypts, with and without a key, and
-- both sides are in the same state afterwards.
pub decrypt-encrypt_and_hash :
    (c : Crypto) (a : Aead) (s : SymmetricState) (plaintext : Bytes)
    → AeadLaws a
    → decrypt_and_hash c a s (encrypt_and_hash c a s plaintext).0
      ≡ ok (plaintext, (encrypt_and_hash c a s plaintext).1)
unfolding encrypt_and_hash decrypt_and_hash
decrypt-encrypt_and_hash c a s plaintext laws = elim (Bool-cases s.has_key) [
  | inl keyed ↦ rw (keyed, laws.opens s.k (transport_nonce s.n) plaintext s.h) refl
  | inr unkeyed ↦ rw unkeyed refl
]

-- Behind a key, a ciphertext is 16 bytes longer than its text.
pub length-encrypt_and_hash :
    (c : Crypto) (a : Aead) (s : SymmetricState) (plaintext : Bytes)
    → AeadLaws a
    → s.has_key ≡ true
    → length plaintext + 16 ≡ length (encrypt_and_hash c a s plaintext).0
unfolding encrypt_and_hash
length-encrypt_and_hash c a s plaintext laws keyed =
    rw keyed (sym (laws.length-seal s.k (transport_nonce s.n) plaintext s.h))

pub mix_key_keyed :
    (c : Crypto) (s : SymmetricState) (ikm : Bytes) → (mix_key c s ikm).has_key ≡ true
unfolding mix_key
mix_key_keyed c s ikm = refl

-- From the same final state, what either side seals under its sending key the other side opens
-- under its receiving key, in both directions, and both have the same transcript hash.
pub finalize_agree :
    (c : Crypto) (a : Aead) (s : SymmetricState) (receiver_index counter : ℕ) (text : Bytes)
    → AeadLaws a
    → counter < 2 ^ 64
    → (open_transport a
          (responder_finalize c s).recv_key
          (seal_transport a (initiator_finalize c s).send_key receiver_index counter text)
        ≡ ok (text, counter))
      × ((open_transport a
              (initiator_finalize c s).recv_key
              (seal_transport a (responder_finalize c s).send_key receiver_index counter text)
            ≡ ok (text, counter))
          × ((initiator_finalize c s).h ≡ (responder_finalize c s).h))
unfolding initiator_finalize responder_finalize
finalize_agree c a s receiver_index counter text laws h = (
  open_transport-seal_transport a (split_keys c s).0 text receiver_index counter laws h,
  (open_transport-seal_transport a (split_keys c s).1 text receiver_index counter laws h, refl),
)
