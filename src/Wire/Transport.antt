-- ===== src/Wire/Transport.antt =====
-- wire/transport.go, and transportNonce of wire/noise.go: the data packets and the binding frame.
-- ChaCha20-Poly1305 is not part of the repository: it is an `Aead`, and what is relied on are the
-- laws of `AeadLaws`. Its constructor fails only on a key of another length than 32, which a
-- [32]byte does not have.
pub mod Packets
pub mod Binding
pub mod Session
use lastro.Common.{
  ℕ, ◌+◌, ◌%◌, ◌^◌, ◌≡◌, not, Option, none, some, Bytes, List, length, take, drop, [], ◌∷◌, ◌++◌,
  ltb, ◌==◌, if◌then◌else◌,
}
use lastro.Common.Result.{
  Result, ok, err, ◌>>=◌, ◌>>◌, refuse_if, is_err, truncated, packet_too_short, not_data_packet,
  decrypt_failed, binding_length, binding_signature,
}
use lastro.Wire.Encoding.{big_endian, from_big_endian}
use lastro.Wire.Cursor.{slice, byte_at}
use lastro.Wire.Crypto.{Crypto, domain_binding, verify_signed}
use lastro.Wire.Span.{len_sig}
use lastro.Wire.Cert.{Cert, parse_cert}
use lastro.Wire.Validate.{validate_cert_chain_no_clock}

-- cipher.AEAD: the key, the nonce, the text and the associated data.
pub record Aead : Type 0 where
  pub seal : Bytes → Bytes → Bytes → Bytes → Bytes
  pub open_sealed : Bytes → Bytes → Bytes → Bytes → Option Bytes

-- A sealing is 16 bytes longer than its text, and opens under the same key, nonce and data.
pub record AeadLaws (a : Aead) : Type 0 where
  pub length-seal :
      (key nonce text data_ : Bytes) → length (a.seal key nonce text data_) ≡ length text + 16
  pub opens :
      (key nonce text data_ : Bytes)
      → a.open_sealed key nonce (a.seal key nonce text data_) data_ ≡ some text

abbrev pub transport_type : ℕ
transport_type = 4

abbrev pub transport_hdr_len : ℕ
transport_hdr_len = 16

abbrev pub tag_len : ℕ
tag_len = 16

-- Four zero bytes and the counter.
unfoldable pub transport_nonce : ℕ → Bytes
transport_nonce counter = 0 ∷ 0 ∷ 0 ∷ 0 ∷ big_endian 8 counter

-- The header: type, reserved, receiver index, counter.
abbrev pub header : ℕ → ℕ → Bytes
header receiver_index counter =
    transport_type ∷ 0 ∷ 0 ∷ 0 ∷ (big_endian 4 receiver_index ++ big_endian 8 counter)

unfoldable pub seal_transport : Aead → Bytes → ℕ → ℕ → Bytes → Bytes
unfolding transport_nonce
seal_transport a key receiver_index counter plaintext =
    let hdr = header receiver_index counter in
    hdr ++ a.seal key (transport_nonce counter) plaintext hdr

-- What is returned of an opened text.
abbrev pub opened : ℕ → Option Bytes → Result (Bytes × ℕ)
opened counter none = err decrypt_failed
opened counter (some pt) = ok (pt, counter)

unfoldable pub open_transport : Aead → Bytes → Bytes → Result (Bytes × ℕ)
unfolding transport_nonce
open_transport a key packet = do
  refuse_if (ltb (length packet) (transport_hdr_len + tag_len)) packet_too_short
  refuse_if (not (byte_at packet 0 == transport_type)) not_data_packet
  let counter = from_big_endian (slice packet 8 16)
  opened counter (
      a.open_sealed key (transport_nonce counter) (drop transport_hdr_len packet)
        (take transport_hdr_len packet))

unfoldable pub build_binding_frame : Crypto → Bytes → Bytes → Bytes → Bytes
build_binding_frame c cert sig_seed h =
    big_endian 2 (length cert % 2 ^ 16)
    ++ (cert ++ c.ed_sign (c.key_from_seed sig_seed) (domain_binding ∷ h))

unfoldable pub parse_binding_frame : Bytes → Result (Bytes × Bytes)
parse_binding_frame frame =
    let cert_len = from_big_endian (take 2 frame) in
    if ltb (length frame) 2
    then err truncated
    else if not (length frame == 2 + cert_len + len_sig)
    then err binding_length
    else ok (slice frame 2 (2 + cert_len), drop (2 + cert_len) frame)

-- The checks on the two parts of a frame.
unfoldable pub verify_binding : Crypto → Bytes → List Bytes → Bytes × Bytes → Result Cert
verify_binding c h trusted (cert_bytes, sig) = do
  cert ← parse_cert cert_bytes
  validate_cert_chain_no_clock c cert trusted
  refuse_if (is_err (verify_signed c domain_binding h sig cert.sig_pubkey)) binding_signature
  ok cert

unfoldable pub verify_binding_frame : Crypto → Bytes → Bytes → List Bytes → Result Cert
unfolding verify_binding
verify_binding_frame c frame h trusted = parse_binding_frame frame >>= verify_binding c h trusted
