-- ===== src/Wire/Noise/Messages.antt =====
-- wire/noise.go: the two messages of the handshake. A method of *Initiator or *Responder takes the
-- state and returns the new one; where it returns an error, its callers drop the state.
use lastro.Common.{
  ℕ, ◌+◌, ◌≡◌, not, Option, none, some, Bytes, length, take, replicate, [], ◌∷◌, ◌++◌, ltb, equal,
}
use lastro.Common.Regions.{copy_at, overwrite}
use lastro.Common.Result.{
  Result, ok, err, ◌>>=◌, ◌>>◌, refuse_if, mac1_failed, identity_point, out_too_small,
  message_too_small,
}
use lastro.Wire.Noise.Sizes.{
  dh_len, msg1_size, msg2_size, msg1_before_mac, msg2_before_mac, off1_sender_index, off1_ephemeral,
  off1_enc_static, off1_enc_time, off1_mac1, off1_mac2, off2_sender_index, off2_receiver_index,
  off2_ephemeral, off2_enc_nothing, off2_mac1, off2_mac2, mac1_label,
}
use lastro.Wire.Encoding.{big_endian}
use lastro.Wire.Cursor.{slice}
use lastro.Wire.Crypto.{Crypto}
use lastro.Wire.Transport.{Aead, tag_len}
use lastro.Wire.Noise.{
  SymmetricState, new_symmetric_state, mix_hash, mix_key, encrypt_and_hash, decrypt_and_hash,
}

-- curve25519.X25519, which fails on a low-order point, its Basepoint, and blake2s.New128 with a key.
pub record Dh : Type 0 where
  pub x25519 : Bytes → Bytes → Option Bytes
  pub basepoint : Bytes
  pub keyed128 : Bytes → Bytes → Bytes

-- The public key of a secret; two honest sides compute the same shared secret, which is no low-order
-- point; a keyed hash has 16 bytes.
pub record DhLaws (d : Dh) : Type 0 where
  pub public :
      (secret : Bytes)
      → length secret ≡ 32
      → (point : Bytes) × (d.x25519 secret d.basepoint ≡ some point) × (length point ≡ 32)
  pub shared :
      (a b pub_a pub_b : Bytes)
      → length a ≡ 32
      → length b ≡ 32
      → d.x25519 a d.basepoint ≡ some pub_a
      → d.x25519 b d.basepoint ≡ some pub_b
      → (secret : Bytes) × (d.x25519 a pub_b ≡ some secret) × (d.x25519 b pub_a ≡ some secret)
  pub length-keyed128 : (key m : Bytes) → length (d.keyed128 key m) ≡ 16

abbrev pub point : Option Bytes → Result Bytes
point none = err identity_point
point (some p) = ok p

pub record Initiator : Type 0 where
  pub sym : SymmetricState
  pub static_secret : Bytes
  pub static_public : Bytes
  pub eph_secret : Bytes
  pub eph_public : Bytes
  pub responder_static : Bytes
  pub re : Bytes

pub record Responder : Type 0 where
  pub sym : SymmetricState
  pub static_secret : Bytes
  pub static_public : Bytes
  pub eph_secret : Bytes
  pub eph_public : Bytes
  pub re : Bytes
  pub remote_static_pub : Bytes

module _ (c : Crypto) (d : Dh) where
  unfoldable pub dh : Bytes → Bytes → Result Bytes
  dh local_secret remote_pub = point (d.x25519 local_secret remote_pub)

  unfoldable pub mac1_key : Bytes → Bytes
  mac1_key responder_sig_pub = c.sum256 (mac1_label ++ responder_sig_pub)

  unfoldable pub compute_mac1 : Bytes → Bytes → Bytes
  unfolding mac1_key
  compute_mac1 responder_sig_pub preceding = d.keyed128 (mac1_key responder_sig_pub) preceding

  unfoldable pub new_initiator : Bytes → Bytes → Bytes → Initiator
  new_initiator static_secret static_public responder_static = record {
    sym = mix_hash c (new_symmetric_state c) responder_static;
    static_secret = static_secret;
    static_public = static_public;
    eph_secret = replicate 32 0;
    eph_public = replicate 32 0;
    responder_static = responder_static;
    re = replicate 32 0;
  }

  unfoldable pub new_responder : Bytes → Bytes → Responder
  new_responder static_secret static_public = record {
    sym = mix_hash c (new_symmetric_state c) static_public;
    static_secret = static_secret;
    static_public = static_public;
    eph_secret = replicate 32 0;
    eph_public = replicate 32 0;
    re = replicate 32 0;
    remote_static_pub = replicate 32 0;
  }

  module _ (a : Aead) where
    -- Returns what `out` holds afterwards, with the new state.
    unfoldable pub write_initiation :
        Initiator → Bytes → ℕ → ℕ → Bytes → Bytes → Bytes → Result (Bytes × Initiator)
    unfolding dh compute_mac1
    write_initiation i out sender_index timestamp_ms eph_secret responder_sig_pub mac2_cookie = do
      refuse_if (ltb (length out) msg1_size) out_too_small
      eph_public ← point (d.x25519 eph_secret d.basepoint)
      let out1 = copy_at off1_ephemeral eph_public out
      let s1 = mix_hash c i.sym eph_public
      es ← dh eph_secret i.responder_static
      let s2 = mix_key c s1 es
      let enc_s = encrypt_and_hash c a s2 i.static_public
      let out2 = copy_at off1_enc_static enc_s.0 out1
      ss ← dh i.static_secret i.responder_static
      let s3 = mix_key c enc_s.1 ss
      let enc_ts = encrypt_and_hash c a s3 (big_endian 8 timestamp_ms)
      let out3 = copy_at off1_enc_time enc_ts.0 out2
      let out4 = copy_at 0 (1 ∷ 0 ∷ 0 ∷ 0 ∷ []) out3
      let out5 = copy_at off1_sender_index (big_endian 4 sender_index) out4
      let m1 = compute_mac1 responder_sig_pub (take msg1_before_mac out5)
      let out6 = copy_at off1_mac1 m1 out5
      let out7 = copy_at off1_mac2 mac2_cookie out6
      ok (out7, record i { sym = enc_ts.1; eph_secret = eph_secret; eph_public = eph_public })

    unfoldable pub read_response : Initiator → Bytes → Bytes → Result Initiator
    unfolding dh compute_mac1
    read_response i msg2 responder_sig_pub = do
      refuse_if (ltb (length msg2) msg2_size) message_too_small
      let m1in = slice msg2 off2_mac1 (off2_mac1 + 16)
      refuse_if (not (equal (compute_mac1 responder_sig_pub (take msg2_before_mac msg2)) m1in))
          mac1_failed
      let re = slice msg2 off2_ephemeral (off2_ephemeral + dh_len)
      let s1 = mix_hash c i.sym re
      ee ← dh i.eph_secret re
      let s2 = mix_key c s1 ee
      se ← dh i.static_secret re
      let s3 = mix_key c s2 se
      opened ← decrypt_and_hash c a s3 (slice msg2 off2_enc_nothing (off2_enc_nothing + tag_len))
      ok (record i { re = re; sym = opened.1 })

    unfoldable pub read_initiation : Responder → Bytes → Bytes → Result Responder
    unfolding dh compute_mac1
    read_initiation r msg1 responder_sig_pub = do
      refuse_if (ltb (length msg1) msg1_size) message_too_small
      let m1in = slice msg1 off1_mac1 (off1_mac1 + 16)
      refuse_if (not (equal (compute_mac1 responder_sig_pub (take msg1_before_mac msg1)) m1in))
          mac1_failed
      let re = slice msg1 off1_ephemeral (off1_ephemeral + dh_len)
      let s1 = mix_hash c r.sym re
      es ← dh r.static_secret re
      let s2 = mix_key c s1 es
      static_i ←
          decrypt_and_hash c a s2
            (slice msg1 off1_enc_static (off1_enc_static + (dh_len + tag_len)))
      ss ← dh r.static_secret static_i.0
      let s3 = mix_key c static_i.1 ss
      time ← decrypt_and_hash c a s3 (slice msg1 off1_enc_time (off1_enc_time + (8 + tag_len)))
      ok (record r {
        re = re;
        remote_static_pub = overwrite static_i.0 r.remote_static_pub;
        sym = time.1;
      })

    -- Returns what `out` holds afterwards, with the new state.
    unfoldable pub write_response :
        Responder → Bytes → ℕ → ℕ → Bytes → Bytes → Bytes → Result (Bytes × Responder)
    unfolding dh compute_mac1
    write_response r out sender_index receiver_index eph_secret responder_sig_pub mac2_cookie = do
      refuse_if (ltb (length out) msg2_size) out_too_small
      eph_public ← point (d.x25519 eph_secret d.basepoint)
      let out1 = copy_at 0 (2 ∷ 0 ∷ 0 ∷ 0 ∷ []) out
      let out2 = copy_at off2_sender_index (big_endian 4 sender_index) out1
      let out3 = copy_at off2_receiver_index (big_endian 4 receiver_index) out2
      let out4 = copy_at off2_ephemeral eph_public out3
      let s1 = mix_hash c r.sym eph_public
      ee ← dh eph_secret r.re
      let s2 = mix_key c s1 ee
      se ← dh eph_secret r.remote_static_pub
      let s3 = mix_key c s2 se
      let enc = encrypt_and_hash c a s3 []
      let out5 = copy_at off2_enc_nothing enc.0 out4
      let m1 = compute_mac1 responder_sig_pub (take msg2_before_mac out5)
      let out6 = copy_at off2_mac1 m1 out5
      let out7 = copy_at off2_mac2 mac2_cookie out6
      ok (out7, record r { sym = enc.1; eph_secret = eph_secret; eph_public = eph_public })
