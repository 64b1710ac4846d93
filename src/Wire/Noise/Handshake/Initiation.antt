-- ===== src/Wire/Noise/Handshake/Initiation.antt =====
-- The first message: what the initiator writes, the responder reads.
use lastro.Common.{
  ℕ, ◌≤◌, ◌<◌, ◌≡◌, refl, ap, sym, ◌∙◌, some, Bytes, List, length, take, drop, [], ◌∷◌, arith,
  le→ltb, equal_refl,
}
use lastro.Common.Regions.{
  overwrite, overwrite_full, join, regions_of, regions_of-Sized, Sized, FitAll, copy_all, set_all,
  set_all-Sized, copy_all-join, copy_all-regions_of, slice-join, take-join, length-join,
}
use lastro.Common.Result.{ok}
use lastro.Wire.Encoding.{big_endian}
use lastro.Wire.Cursor.{slice}
use lastro.Wire.Crypto.{Crypto}
use lastro.Wire.Transport.{Aead, AeadLaws}
use lastro.Wire.Noise.{SymmetricState, mix_hash, mix_key, encrypt_and_hash}
use lastro.Wire.Noise.Symmetric.{decrypt-encrypt_and_hash, length-encrypt_and_hash, mix_key_keyed}
use lastro.Wire.Noise.Messages.{
  Dh, DhLaws, Initiator, Responder, compute_mac1, write_initiation, read_initiation,
}

-- The regions of the first message: the type, the index, the ephemeral key, the encrypted static key
-- and time, and the two macs.
abbrev sizes : List ℕ
sizes = 4 ∷ 4 ∷ 32 ∷ 48 ∷ 24 ∷ 16 ∷ 16 ∷ []

module _ (c : Crypto) (d : Dh) (a : Aead) (aead_laws : AeadLaws a) (dh_laws : DhLaws d)
    (i : Initiator) (out : Bytes) (sender_index timestamp_ms : ℕ)
    (eph_secret eph es ss responder_sig_pub mac2_cookie : Bytes) where
  -- The symmetric states and ciphertexts along the tokens e, es, s, ss and the timestamp.
  abbrev pub before_static : SymmetricState
  before_static = mix_key c (mix_hash c i.sym eph) es

  abbrev pub enc_static : Bytes × SymmetricState
  enc_static = encrypt_and_hash c a before_static i.static_public

  abbrev pub before_time : SymmetricState
  before_time = mix_key c enc_static.1 ss

  abbrev pub enc_time : Bytes × SymmetricState
  enc_time = encrypt_and_hash c a before_time (big_endian 8 timestamp_ms)

  -- What mac1 covers.
  abbrev covered : List Bytes
  covered = (1 ∷ 0 ∷ 0 ∷ 0 ∷ []) ∷ big_endian 4 sender_index ∷ eph ∷ enc_static.0 ∷ enc_time.0 ∷ []

  abbrev mac1 : Bytes
  mac1 = compute_mac1 c d responder_sig_pub (join covered)

  abbrev regions : List Bytes
  regions =
      (1 ∷ 0 ∷ 0 ∷ 0 ∷ [])
      ∷ big_endian 4 sender_index
      ∷ eph
      ∷ enc_static.0
      ∷ enc_time.0
      ∷ mac1
      ∷ mac2_cookie
      ∷ drop 16 (drop 16 (drop 24 (drop 48 (drop 32 (drop 4 (drop 4 out))))))
      ∷ []

  abbrev pub message : Bytes
  message = join regions

  abbrev pub initiator_after : Initiator
  initiator_after = record i { sym = enc_time.1; eph_secret = eph_secret; eph_public = eph }

  module _ (room : 144 ≤ length out) (full : length eph ≡ 32) (static : length i.static_public ≡ 32)
      (cookie : length mac2_cookie ≡ 16) where
    mac_size : 16 ≡ length mac1
    unfolding compute_mac1
    mac_size = sym (dh_laws.length-keyed128 _ _)

    static_size : 48 ≡ length enc_static.0
    static_size = omega (
      arith,
      length-encrypt_and_hash c a before_static i.static_public aead_laws
          (mix_key_keyed c (mix_hash c i.sym eph) es),
    )

    time_size : 24 ≡ length enc_time.0
    time_size =
        length-encrypt_and_hash c a before_time (big_endian 8 timestamp_ms) aead_laws
          (mix_key_keyed c enc_static.1 ss)

    regions-Sized : Sized sizes regions
    regions-Sized =
        (refl, (refl, (sym full, (static_size, (time_size, (mac_size, (sym cookie, tt)))))))

    pub write_initiation_lem :
        d.x25519 eph_secret d.basepoint ≡ some eph
        → d.x25519 eph_secret i.responder_static ≡ some es
        → d.x25519 i.static_secret i.responder_static ≡ some ss
        → write_initiation c d a i out sender_index timestamp_ms eph_secret responder_sig_pub
            mac2_cookie
          ≡ ok (message, initiator_after)
    unfolding write_initiation
    write_initiation_lem public_eph shared_es shared_ss =
        let copies : List (ℕ × Bytes) =
          (2, eph)
          ∷ (3, enc_static.0)
          ∷ (4, enc_time.0)
          ∷ (0, 1 ∷ 0 ∷ 0 ∷ 0 ∷ [])
          ∷ (1, big_endian 4 sender_index)
          ∷ [] in
        let fits : FitAll sizes copies = (
          omega arith,
          (
            sym full,
            (
              omega arith,
              (
                static_size,
                (omega arith, (time_size, (omega arith, (refl, (omega arith, (refl, tt)))))),
              ),
            ),
          ),
        ) in
        let macs : List (ℕ × Bytes) = (5, mac1) ∷ (6, mac2_cookie) ∷ [] in
        let mac_fits : FitAll sizes macs =
          (omega arith, (mac_size, (omega arith, (sym cookie, tt)))) in
        let body = copy_all-regions_of sizes copies out room fits in
        let filled = set_all (regions_of sizes out) copies in
        let filled-Sized =
          set_all-Sized sizes (regions_of sizes out) copies (regions_of-Sized sizes out room)
            fits in
        let signed : compute_mac1 c d responder_sig_pub (take 112 (copy_all sizes copies out))
            ≡ mac1 =
          ap (compute_mac1 c d responder_sig_pub)
            (ap (take 112) body ∙ take-join sizes filled 5 filled-Sized (omega arith)) in
        let both : copy_all sizes
              ((5, compute_mac1 c d responder_sig_pub (take 112 (copy_all sizes copies out)))
                ∷ (6, mac2_cookie)
                ∷ [])
              (copy_all sizes copies out)
            ≡ copy_all sizes macs (join filled) =
          λ t. copy_all sizes ((5, signed t) ∷ (6, mac2_cookie) ∷ []) (body t) in
        rw (le→ltb (length out) 144 room, public_eph, shared_es, shared_ss)
          (ap (λ m. ok (m, initiator_after))
            (both ∙ copy_all-join sizes filled macs filled-Sized mac_fits))

    -- The responder behind a message that holds these regions.
    read_regions :
        (r : Responder) (msg : Bytes)
        → r.sym ≡ i.sym
        → length r.remote_static_pub ≡ 32
        → d.x25519 r.static_secret eph ≡ some es
        → d.x25519 r.static_secret i.static_public ≡ some ss
        → 144 ≤ length msg
        → take 112 msg ≡ join covered
        → slice msg 112 128 ≡ mac1
        → slice msg 8 40 ≡ eph
        → slice msg 40 88 ≡ enc_static.0
        → slice msg 88 112 ≡ enc_time.0
        → read_initiation c d a r msg responder_sig_pub
          ≡ ok (record r { re = eph; remote_static_pub = i.static_public; sym = enc_time.1 })
    unfolding read_initiation
    read_regions r msg same remote shared_es shared_ss long signed mac e s t =
        let opens_static = decrypt-encrypt_and_hash c a before_static i.static_public aead_laws in
        let opens_time =
          decrypt-encrypt_and_hash c a before_time (big_endian 8 timestamp_ms) aead_laws in
        let fills : overwrite i.static_public r.remote_static_pub ≡ i.static_public =
          overwrite_full i.static_public r.remote_static_pub (omega (arith, static, remote)) in
        rw
          (
            le→ltb (length msg) 144 long,
            signed,
            mac,
            equal_refl mac1,
            e,
            shared_es,
            same,
            s,
            opens_static,
            shared_ss,
            t,
            opens_time,
            fills,
          )
          refl

    pub read-write_initiation :
        (r : Responder)
        → r.sym ≡ i.sym
        → length r.remote_static_pub ≡ 32
        → d.x25519 r.static_secret eph ≡ some es
        → d.x25519 r.static_secret i.static_public ≡ some ss
        → read_initiation c d a r message responder_sig_pub
          ≡ ok (record r { re = eph; remote_static_pub = i.static_public; sym = enc_time.1 })
    read-write_initiation r same remote shared_es shared_ss =
        let at_region =
          λ (j : ℕ) (lt : j < length sizes). slice-join sizes regions j regions-Sized lt in
        read_regions r message same remote shared_es shared_ss
          (length-join sizes regions regions-Sized)
          (take-join sizes regions 5 regions-Sized (omega arith)) (at_region 5 (omega arith))
          (at_region 2 (omega arith)) (at_region 3 (omega arith)) (at_region 4 (omega arith))
