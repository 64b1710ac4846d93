-- ===== src/Interop/Stages.antt =====
-- Stages A and B against the responder of wire/noise.go.
use lastro.Common.{
  ℕ, ◌^◌, ◌<◌, ◌≡◌, refl, sym, ap, ◌∙◌, true, some, Bytes, List, length, take, replicate, [], ◌∷◌,
  le→ltb, Option, none, arith, take-append, append-nil,
}
use lastro.Common.Result.{Result, ok, err}
use lastro.Wire.Encoding.{from_big_endian}
use lastro.Wire.Cursor.{slice}
use lastro.Wire.Crypto.{Crypto, CryptoLaws}
use lastro.Wire.Cert.{Cert, parse_cert}
use lastro.Wire.Validate.{validate_cert_chain_no_clock}
use lastro.Wire.Transport.{
  Aead, AeadLaws, seal_transport, open_transport, build_binding_frame, verify_binding_frame,
}
use lastro.Wire.Transport.Packets.{open_transport-seal_transport}
use lastro.Wire.Transport.Session.{verify-build_binding_frame}
use lastro.Wire.Noise.{initiator_finalize, responder_finalize}
use lastro.Wire.Noise.Messages.{
  Dh, DhLaws, Initiator, Responder, new_responder, read_initiation, write_response,
}
use lastro.Wire.Noise.Handshake.{Keys, Draws, IsKeys, IsDraws, IsCompleted, handshake-IsCompleted}
use lastro.Cmd.{goes, ◌>>=◌}
use lastro.Interop.{Material, Line, Opened, sender_index, binding_packet, stage_a, stage_b}

-- The draws of the daemon: its buffer, its index, its ephemeral secret and the cookie.
pub record Daemon : Type 0 where
  pub secret : Bytes
  pub out : Bytes
  pub index : ℕ
  pub eph : Bytes
  pub cookie : Bytes
  pub cert : Bytes
  pub sig_seed : Bytes
  pub trusted : List Bytes

abbrev pub keys_of : Material → Daemon → Keys
keys_of m e = record {
  initiator_secret = m.static_secret;
  initiator_public = m.static_public;
  responder_secret = e.secret;
  responder_public = m.daemon_static;
  responder_sig_pub = m.daemon_sigpub;
}

abbrev pub draws_of : Line → Daemon → Bytes → Draws
draws_of l e eph = record {
  out1 = replicate 144 0;
  out2 = e.out;
  sender1 = sender_index;
  sender2 = e.index;
  receiver2 = sender_index;
  timestamp = l.now1;
  eph1 = eph;
  eph2 = e.eph;
  cookie1 = replicate 16 0;
  cookie2 = e.cookie;
}

-- The certificate is that of the seed's key, and valid for whoever trusts these CAs.
pub record IsOwn (c : Crypto) (cert_bytes seed : Bytes) (trusted : List Bytes) (cert : Cert)
    : Type 0 where
  pub short : length cert_bytes < 2 ^ 16
  pub seed_size : length seed ≡ 32
  pub parsed : parse_cert cert_bytes ≡ ok cert
  pub valid : validate_cert_chain_no_clock c cert trusted ≡ ok tt
  pub own : cert.sig_pubkey ≡ c.public_key (c.key_from_seed seed)

-- A first packet that was answered: the message, and the state of the responder.
abbrev answer_of : Result (Bytes × Responder) → Option Bytes
answer_of (err e) = none
answer_of (ok (msg2, r)) = some msg2

module _ (c : Crypto) (d : Dh) (a : Aead) where
  abbrev second_message : Material → Daemon → Result Responder → Result (Bytes × Responder)
  second_message m e (err x) = err x
  second_message m e (ok r) =
      write_response c d a r e.out e.index sender_index e.eph m.daemon_sigpub e.cookie

  -- The daemon as a responder of wire/noise.go: it reads the first message and writes the second.
  abbrev pub daemon_answer : Material → Daemon → Bytes → Result (Bytes × Responder)
  daemon_answer m e msg1 =
      second_message m e
        (read_initiation c d a (new_responder c d e.secret m.daemon_static) msg1 m.daemon_sigpub)

  -- Its binding frame, under the keys that it has at the end of the handshake.
  abbrev binding_of : Daemon → Result (Bytes × Responder) → Option Bytes
  binding_of e (err _) = none
  binding_of e (ok (msg2, r)) = some (
      seal_transport a (responder_finalize c r.sym).send_key sender_index 0
        (build_binding_frame c e.cert e.sig_seed (responder_finalize c r.sym).h))

  -- What it sends after the packets that it got: the second message, then its binding frame.
  abbrev pub daemon_reply : Material → Daemon → List Bytes → Option Bytes
  daemon_reply m e [] = none
  daemon_reply m e (msg1 ∷ []) = answer_of (daemon_answer m e msg1)
  daemon_reply m e (msg1 ∷ _ ∷ _) = binding_of e (daemon_answer m e msg1)

  -- The connection works, and the daemon is at its other end.
  pub record IsLive (m : Material) (l : Line) (e : Daemon) (eph : Bytes) : Type 0 where
    pub dials : l.dials ≡ true
    pub takes : (i : ℕ) → l.takes i ≡ true
    pub eph_draw : l.eph_draw ≡ some eph
    pub reply : (sent : List Bytes) → l.reply sent ≡ daemon_reply m e sent

module _ (c : Crypto) (d : Dh) (a : Aead) (laws : CryptoLaws c) (aead_laws : AeadLaws a)
    (m : Material) (l : Line) (e : Daemon) (eph msg1 msg2 : Bytes) (i1 i2 : Initiator)
    (r1 r2 : Responder)
    (run : IsCompleted c d a (keys_of m e) (draws_of l e eph) msg1 msg2 i1 i2 r1 r2)
    (live : IsLive c d a m l e eph) (size : length e.out ≡ 92) (small : e.index < 2 ^ 32) where
  abbrev opened_by : Opened
  opened_by = record {
    res = initiator_finalize c r2.sym;
    daemon_index = e.index;
    sender_echo = sender_index;
    sent = msg1 ∷ [];
  }

  answered : daemon_answer c d a m e msg1 ≡ ok (msg2, r2)
  answered = rw (run.read1, run.wrote2) refl

  whole_size : length msg2 ≡ 92
  whole_size = run.header.1.1.1 ∙ size

  whole : take 92 msg2 ≡ msg2
  whole =
      ap (λ n. take n msg2) (sym whole_size)
      ∙ ap (take (length msg2)) (sym (append-nil msg2))
      ∙ take-append msg2 []

  stage_a_lem : stage_a c d a m l ≡ goes opened_by
  unfolding stage_a
  stage_a_lem =
      let (kind, (index, (echo, _))) = run.header in
      let told : from_big_endian (slice msg2 4 8) ≡ e.index =
        ap from_big_endian index ∙ omega arith in
      let echoed : from_big_endian (slice msg2 8 12) ≡ sender_index =
        ap from_big_endian echo ∙ omega arith in
      let got : l.reply (msg1 ∷ []) ≡ some msg2 = live.reply (msg1 ∷ []) ∙ ap answer_of answered in
      rw
        (
          live.dials,
          live.eph_draw,
          run.wrote1,
          live.takes,
          got,
          le→ltb (length msg2) 92 (omega (arith, whole_size)),
          kind,
          whole,
          run.read2,
          run.same,
          told,
          echoed,
        )
        refl

  both_stages :
      (own theirs : Cert)
      → IsOwn c m.cert m.sig_seed e.trusted own
      → IsOwn c e.cert e.sig_seed m.trusted theirs
      → (packet : Bytes) × (frame : Bytes) × ((stage_a c d a m l >>= λ o. stage_b c d a m l o)
          ≡ goes (record { cert = theirs; sent = msg1 ∷ packet ∷ [] }))
        × (open_transport a (responder_finalize c r2.sym).recv_key packet ≡ ok (frame, 0))
        × (verify_binding_frame c frame (responder_finalize c r2.sym).h e.trusted ≡ ok own)
  unfolding stage_b initiator_finalize responder_finalize
  both_stages own theirs mine daemon =
      let s = r2.sym in
      let h = (initiator_finalize c s).h in
      let frame = build_binding_frame c m.cert m.sig_seed h in
      let reply = build_binding_frame c e.cert e.sig_seed h in
      let packet = binding_packet c d a m opened_by in
      let got : l.reply (msg1 ∷ packet ∷ [])
          ≡ some (seal_transport a (initiator_finalize c s).recv_key sender_index 0 reply) =
        live.reply (msg1 ∷ packet ∷ []) ∙ ap (binding_of c d a e) answered in
      let opens =
        open_transport-seal_transport a (initiator_finalize c s).recv_key reply sender_index 0
          aead_laws (omega arith) in
      let accepts =
        verify-build_binding_frame c h m.trusted e.cert e.sig_seed theirs laws daemon.seed_size
          daemon.short daemon.parsed daemon.valid daemon.own in
      (
        packet,
        frame,
        rw (stage_a_lem, live.takes, got, opens, accepts) refl,
        open_transport-seal_transport a (responder_finalize c s).recv_key frame e.index 0 aead_laws
            (omega arith),
        verify-build_binding_frame c h e.trusted m.cert m.sig_seed own laws mine.seed_size
            mine.short mine.parsed mine.valid mine.own,
      )

-- Stages A and B over a connection that works, with a daemon at its other end that reads the first
-- message and writes the second as the responder of wire/noise.go does, with the keys that the
-- initiator was given, and then sends its binding frame: both stages pass, and end with the daemon's
-- certificate and two packets sent. The daemon has answered the first, so that its handshake is
-- complete, and the second opens under its receiving key, as the first packet of the session, to a
-- frame that it accepts under its transcript hash with the certificate of the initiator. The
-- certificates are each of its side's signing key, and valid for the other side; the daemon's buffer
-- is of 92 bytes, and the draws are of the documented lengths.
pub stages_bind :
    (c : Crypto) (d : Dh) (a : Aead) (m : Material) (l : Line) (e : Daemon) (eph : Bytes)
    (own theirs : Cert)
    → CryptoLaws c
    → AeadLaws a
    → DhLaws d
    → IsKeys c d a (keys_of m e)
    → IsDraws (draws_of l e eph)
    → length e.out ≡ 92
    → e.index < 2 ^ 32
    → IsLive c d a m l e eph
    → IsOwn c m.cert m.sig_seed e.trusted own
    → IsOwn c e.cert e.sig_seed m.trusted theirs
    → (msg1 : Bytes) × (msg2 : Bytes) × (r : Responder) × (packet : Bytes) × (frame : Bytes)
      × ((stage_a c d a m l >>= λ o. stage_b c d a m l o)
          ≡ goes (record { cert = theirs; sent = msg1 ∷ packet ∷ [] }))
      × (daemon_answer c d a m e msg1 ≡ ok (msg2, r))
      × (open_transport a (responder_finalize c r.sym).recv_key packet ≡ ok (frame, 0))
      × (verify_binding_frame c frame (responder_finalize c r.sym).h e.trusted ≡ ok own)
stages_bind c d a m l e eph own theirs laws aead_laws dh_laws keys draws size small live mine
      daemon =
    let (msg1, msg2, i1, i2, r1, r2, run) =
      handshake-IsCompleted c d a (keys_of m e) (draws_of l e eph) aead_laws dh_laws keys draws in
    let (packet, frame, passes, opens, accepts) =
      both_stages c d a laws aead_laws m l e eph msg1 msg2 i1 i2 r1 r2 run live size small own
        theirs mine daemon in
    (
      msg1,
      msg2,
      r2,
      packet,
      frame,
      passes,
      answered c d a laws aead_laws m l e eph msg1 msg2 i1 i2 r1 r2 run live size small,
      opens,
      accepts,
    )
