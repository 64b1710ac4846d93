-- ===== src/Wire/Transport/Packets.antt =====
-- A sealed packet opens to what was sealed.
use lastro.Common.{ℕ, ◌^◌, ◌<◌, ◌≤◌, ◌≡◌, Bytes, length, ◌++◌, arith, ltb, le→ltb}
use lastro.Common.Result.{ok, packet_too_short, refuse-pass}
use lastro.Wire.Encoding.{big_endian, from_big_endian}
use lastro.Wire.Transport.{
  Aead, AeadLaws, header, opened, transport_nonce, seal_transport, open_transport,
}

module _ (a : Aead) (key plaintext : Bytes) (receiver_index counter : ℕ) (laws : AeadLaws a) where
  abbrev hdr : Bytes
  hdr = header receiver_index counter

  abbrev sealed : Bytes
  sealed = a.seal key (transport_nonce counter) plaintext hdr

  opened_at :
      (n : ℕ)
      → n ≡ counter
      → opened n (a.open_sealed key (transport_nonce n) sealed hdr) ≡ ok (plaintext, counter)
  opened_at n e = rw (e, laws.opens key (transport_nonce counter) plaintext hdr)

  -- A packet sealed under a key opens under that key to the plaintext and the counter.
  pub open_transport-seal_transport :
      counter < 2 ^ 64
      → open_transport a key (seal_transport a key receiver_index counter plaintext)
        ≡ ok (plaintext, counter)
  unfolding open_transport seal_transport
  open_transport-seal_transport h =
      let long : 32 ≤ length (hdr ++ sealed) =
        omega (arith, laws.length-seal key (transport_nonce counter) plaintext hdr) in
      let same : from_big_endian (big_endian 8 counter) ≡ counter = omega arith in
      refuse-pass (ltb (length (hdr ++ sealed)) 32) packet_too_short
        (opened (from_big_endian (big_endian 8 counter))
          (a.open_sealed key (transport_nonce (from_big_endian (big_endian 8 counter))) sealed hdr))
        (le→ltb (length (hdr ++ sealed)) 32 long)
        (opened_at (from_big_endian (big_endian 8 counter)) same)
