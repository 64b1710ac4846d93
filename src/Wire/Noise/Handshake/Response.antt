-- ===== src/Wire/Noise/Handshake/Response.antt =====
-- The second message: what the responder writes, the initiator reads.
use lastro.Common.{
  get_or, ℕ, ◌≤◌, ◌<◌, ◌≡◌, refl, ap, sym, ◌∙◌, some, Bytes, List, length, take, drop, [], ◌∷◌,
  arith, le→ltb, equal_refl,
}
use lastro.Common.Regions.{
  join, regions_of, regions_of-Sized, Sized, FitAll, copy_all, set_all, set_all-Sized,
  copy_all-join, copy_all-regions_of, slice-join, take-join, length-join, length-join_rest,
}
use lastro.Common.Result.{ok}
use lastro.Wire.Encoding.{big_endian}
use lastro.Wire.Cursor.{slice}
use lastro.Wire.Crypto.{Crypto}
use lastro.Wire.Transport.{Aead, AeadLaws}
use lastro.Wire.Noise.{SymmetricState, mix_hash, mix_key, encrypt_and_hash}
use lastro.Wire.Noise.Symmetric.{decrypt-encrypt_and_hash, length-encrypt_and_hash, mix_key_keyed}
use lastro.Wire.Noise.Messages.{
  Dh, DhLaws, Initiator, Responder, compute_mac1, write_response, read_response,
}

-- The regions of the second message: the type, the two indices, the ephemeral key, the encrypted
-- nothing, and the two macs.
abbrev sizes : List ℕ
sizes = 4 ∷ 4 ∷ 4 ∷ 32 ∷ 16 ∷ 16 ∷ 16 ∷ []

module _ (c : Crypto) (d : Dh) (a : Aead) (aead_laws : AeadLaws a) (dh_laws : DhLaws d)
    (r : Responder) (out : Bytes) (sender_index receiver_index : ℕ)
    (eph_secret eph ee se responder_sig_pub mac2_cookie : Bytes) where
  -- The symmetric states and the ciphertext along the tokens e, ee, se and the empty payload.
  abbrev before_nothing : SymmetricState
  before_nothing = mix_key c (mix_key c (mix_hash c r.sym eph) ee) se

  abbrev pub enc_nothing : Bytes × SymmetricState
  enc_nothing = encrypt_and_hash c a before_nothing []

  -- What mac1 covers.
  abbrev covered : List Bytes
  covered =
      (2 ∷ 0 ∷ 0 ∷ 0 ∷ [])
      ∷ big_endian 4 sender_index
      ∷ big_endian 4 receiver_index
      ∷ eph
      ∷ enc_nothing.0
      ∷ []

  abbrev mac1 : Bytes
  mac1 = compute_mac1 c d responder_sig_pub (join covered)

  abbrev regions : List Bytes
  regions =
      (2 ∷ 0 ∷ 0 ∷ 0 ∷ [])
      ∷ big_endian 4 sender_index
      ∷ big_endian 4 receiver_index
      ∷ eph
      ∷ enc_nothing.0
      ∷ mac1
      ∷ mac2_cookie
      ∷ drop 16 (drop 16 (drop 16 (drop 32 (drop 4 (drop 4 (drop 4 out))))))
      ∷ []

  abbrev pub message : Bytes
  message = join regions

  abbrev pub responder_after : Responder
  responder_after = record r { sym = enc_nothing.1; eph_secret = eph_secret; eph_public = eph }

  module _ (room : 92 ≤ length out) (full : length eph ≡ 32)
      (cookie : length mac2_cookie ≡ 16) where
    mac_size : 16 ≡ length mac1
    unfolding compute_mac1
    mac_size = sym (dh_laws.length-keyed128 _ _)

    nothing_size : 16 ≡ length enc_nothing.0
    nothing_size =
        length-encrypt_and_hash c a before_nothing [] aead_laws
          (mix_key_keyed c (mix_key c (mix_hash c r.sym eph) ee) se)

    regions-Sized : Sized sizes regions
    regions-Sized = (refl, (refl, (refl, (sym full, (nothing_size, (mac_size, (sym cookie, tt)))))))

    pub write_response_lem :
        d.x25519 eph_secret d.basepoint ≡ some eph
        → d.x25519 eph_secret r.re ≡ some ee
        → d.x25519 eph_secret r.remote_static_pub ≡ some se
        → write_response c d a r out sender_index receiver_index eph_secret responder_sig_pub
            mac2_cookie
          ≡ ok (message, responder_after)
    unfolding write_response
    write_response_lem public_eph shared_ee shared_se =
        let copies : List (ℕ × Bytes) =
          (0, 2 ∷ 0 ∷ 0 ∷ 0 ∷ [])
          ∷ (1, big_endian 4 sender_index)
          ∷ (2, big_endian 4 receiver_index)
          ∷ (3, eph)
          ∷ (4, enc_nothing.0)
          ∷ [] in
        let fits : FitAll sizes copies = (
          omega arith,
          (
            refl,
            (
              omega arith,
              (
                refl,
                (omega arith, (refl, (omega arith, (sym full, (omega arith, (nothing_size, tt)))))),
              ),
            ),
          ),
        ) in
        let macs : List (ℕ × Bytes) = (5, mac1) ∷ (6, mac2_cookie) ∷ [] in
        let mac_fits : FitAll sizes macs =
          (omega arith, (mac_size, (omega arith, (sym cookie, tt)))) in
        let body = copy_all-regions_of sizes copies out room fits in
        let filled = set_all (regions_of sizes out) copies in
        let filled-Sized =
          set_all-Sized sizes (regions_of sizes out) copies (regions_of-Sized sizes out room)
            fits in
        let signed : compute_mac1 c d responder_sig_pub (take 60 (copy_all sizes copies out))
            ≡ mac1 =
          ap (compute_mac1 c d responder_sig_pub)
            (ap (take 60) body ∙ take-join sizes filled 5 filled-Sized (omega arith)) in
        let both : copy_all sizes
              ((5, compute_mac1 c d responder_sig_pub (take 60 (copy_all sizes copies out)))
                ∷ (6, mac2_cookie)
                ∷ [])
              (copy_all sizes copies out)
            ≡ copy_all sizes macs (join filled) =
          λ t. copy_all sizes ((5, signed t) ∷ (6, mac2_cookie) ∷ []) (body t) in
        rw (le→ltb (length out) 92 room, public_eph, shared_ee, shared_se)
          (ap (λ m. ok (m, responder_after))
            (both ∙ copy_all-join sizes filled macs filled-Sized mac_fits))

    -- The initiator behind a message that holds these regions.
    read_regions :
        (i : Initiator) (msg : Bytes)
        → i.sym ≡ r.sym
        → d.x25519 i.eph_secret eph ≡ some ee
        → d.x25519 i.static_secret eph ≡ some se
        → 92 ≤ length msg
        → take 60 msg ≡ join covered
        → slice msg 60 76 ≡ mac1
        → slice msg 12 44 ≡ eph
        → slice msg 44 60 ≡ enc_nothing.0
        → read_response c d a i msg responder_sig_pub
          ≡ ok (record i { re = eph; sym = enc_nothing.1 })
    unfolding read_response
    read_regions i msg same shared_ee shared_se long signed mac e n =
        let opens = decrypt-encrypt_and_hash c a before_nothing [] aead_laws in
        rw
          (
            le→ltb (length msg) 92 long,
            signed,
            mac,
            equal_refl mac1,
            e,
            shared_ee,
            shared_se,
            same,
            n,
            opens,
          )
          refl

    pub read-write_response :
        (i : Initiator)
        → i.sym ≡ r.sym
        → d.x25519 i.eph_secret eph ≡ some ee
        → d.x25519 i.static_secret eph ≡ some se
        → read_response c d a i message responder_sig_pub
          ≡ ok (record i { re = eph; sym = enc_nothing.1 })
    read-write_response i same shared_ee shared_se =
        let at_region =
          λ (j : ℕ) (lt : j < length sizes). slice-join sizes regions j regions-Sized lt in
        read_regions i message same shared_ee shared_se (length-join sizes regions regions-Sized)
          (take-join sizes regions 5 regions-Sized (omega arith)) (at_region 5 (omega arith))
          (at_region 3 (omega arith)) (at_region 4 (omega arith))

    -- What the message announces: its type and the two indices; it is as long as the buffer.
    pub message-header :
        (get_or message 0 0 ≡ 2)
        × ((slice message 4 8 ≡ big_endian 4 sender_index)
            × ((slice message 8 12 ≡ big_endian 4 receiver_index) × (length message ≡ length out)))
    message-header =
        let at_region =
          λ (j : ℕ) (lt : j < length sizes). slice-join sizes regions j regions-Sized lt in
        (
          refl,
          (
            at_region 1 (omega arith),
            (
              at_region 2 (omega arith),
              length-join_rest sizes regions out room regions-Sized (refl, refl),
            ),
          ),
        )
