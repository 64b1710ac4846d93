-- ===== src/Tests/Frames.antt =====
-- Data packets and binding frames.
use lastro.Common.{
  ◌-◌, ◌≡◌, refl, true, some, Bytes, IsBytes, length, replicate, take, [], ◌∷◌, ◌++◌, arith,
  length-append, take-append,
}
use lastro.Common.Result.{ok, err, binding_length}
use lastro.Tests.Toy.{toy, toy_laws, all_bytes, all_bytes-IsBytes, seed_of, length-replicate}
use lastro.Tests.Certs.{approver, encoded, parses, validates, trusted}
use lastro.Wire.Transport.{
  Aead, AeadLaws, seal_transport, open_transport, build_binding_frame, parse_binding_frame,
  verify_binding_frame,
}
use lastro.Wire.Noise.{SymmetricState}
use lastro.Wire.Transport.Packets.{open_transport-seal_transport}
use lastro.Wire.Transport.Session.{
  Binds, verify_binding_frame_iff, verify-build_binding_frame, parse-build_binding_frame_long,
}

-- A sealing is the text and 16 bytes behind it.
abbrev pub plain : Aead
plain = record {
  seal = λ key nonce text data_. text ++ replicate 16 0;
  open_sealed = λ key nonce sealed data_. some (take (length sealed - 16) sealed);
}

plain_opens :
    (text : Bytes) → take (length (text ++ replicate 16 0) - 16) (text ++ replicate 16 0) ≡ text
plain_opens text =
    let n : length (text ++ replicate 16 0) - 16 ≡ length text =
      omega (arith, length-append text (replicate 16 0)) in
    rw n (take-append text (replicate 16 0))

pub plain_laws : AeadLaws plain
plain_laws = record {
  length-seal = λ key nonce text data_. length-append text (replicate 16 0);
  opens = λ key nonce text data_. rw plain_opens refl;
}

open_transport-seal_transport_example :
    open_transport plain (seed_of 1) (seal_transport plain (seed_of 1) 7 258 (1 ∷ 2 ∷ 3 ∷ []))
    ≡ ok (1 ∷ 2 ∷ 3 ∷ [], 258)
open_transport-seal_transport_example =
    open_transport-seal_transport plain (seed_of 1) (1 ∷ 2 ∷ 3 ∷ []) 7 258 plain_laws (omega arith)

abbrev frame : Bytes
frame = 0 ∷ 2 ∷ 9 ∷ 8 ∷ replicate 64 5

frame-IsBytes : IsBytes frame
unfolding all_bytes
frame-IsBytes = all_bytes-IsBytes frame refl

-- The approver's frame over the transcript hash of 6s.
abbrev transcript : Bytes
transcript = replicate 32 6

accepted :
    verify_binding_frame toy
      (build_binding_frame toy encoded (seed_of 5) transcript)
      transcript
      trusted
    ≡ ok approver
accepted =
    verify-build_binding_frame toy transcript trusted encoded (seed_of 5) approver toy_laws refl
      (omega arith) parses validates refl

verify_binding_frame_iff_example :
    (cert_bytes : Bytes) × (sig : Bytes) × (parse_binding_frame
        (build_binding_frame toy encoded (seed_of 5) transcript)
      ≡ ok (cert_bytes, sig))
    × Binds toy transcript trusted cert_bytes sig approver
verify_binding_frame_iff_example =
    (verify_binding_frame_iff toy transcript trusted
        (build_binding_frame toy encoded (seed_of 5) transcript) approver).0
      accepted

verify-build_binding_frame_example :
    verify_binding_frame toy
      (build_binding_frame toy encoded (seed_of 5) transcript)
      transcript
      trusted
    ≡ ok approver
verify-build_binding_frame_example =
    verify-build_binding_frame toy transcript trusted encoded (seed_of 5) approver toy_laws refl
      (omega arith) parses validates refl

parse-build_binding_frame_long_example :
    parse_binding_frame (build_binding_frame toy (replicate 65_536 0) (seed_of 5) transcript)
    ≡ err binding_length
parse-build_binding_frame_long_example =
    parse-build_binding_frame_long toy (replicate 65_536 0) (seed_of 5) transcript toy_laws
      (omega (arith, length-replicate 65_536 0))

-- A state with a key.
abbrev keyed : SymmetricState
keyed = record { h = transcript; ck = replicate 32 1; k = replicate 32 2; n = 3; has_key = true }
