-- ===== src/Interop.antt =====
-- cmd/interop/main.go: the initiator of a live handshake, the binding frames both ways, and one
-- intent. `stops` is a call of fail, with the packets that were sent before it.
pub mod Stages
pub mod Intents
use lastro.Common.{
  ℕ, zero, suc, ◌+◌, Bool, true, false, not, ◌||◌, Option, none, some, Bytes, List, length, take,
  replicate, [], ◌∷◌, ◌++◌, ltb, ◌==◌, if◌then◌else◌,
}
use lastro.Common.Regions.{overwrite}
use lastro.Wire.Encoding.{from_big_endian}
use lastro.Wire.Cursor.{slice, byte_at}
use lastro.Wire.Crypto.{Crypto, fingerprint}
use lastro.Wire.Cert.{Cert}
use lastro.Wire.Intent.{Intent, encode_intent_body}
use lastro.Wire.Envelope.{EnvelopeFields, build_signed_envelope}
use lastro.Wire.Transport.{
  Aead, seal_transport, open_transport, build_binding_frame, verify_binding_frame,
}
use lastro.Wire.Noise.{HandshakeResult, initiator_finalize}
use lastro.Wire.Noise.Sizes.{msg1_size, msg2_size}
use lastro.Wire.Noise.Messages.{Dh, new_initiator, write_initiation, read_response}
use lastro.Cmd.{Files, Step, stops, goes, ◌>>=◌, ◌>>◌, stop_if, or_stop, ok_or_stop, of_length}
use lastro.Cmd.Run.{resource_of}

abbrev pub off2_sender_conformant : ℕ
off2_sender_conformant = 4

abbrev pub off2_receiver_conformant : ℕ
off2_receiver_conformant = 8

abbrev pub sender_index : ℕ
sender_index = 0x5153_0001

pub record Flags : Type 0 where
  pub node_go : Bytes
  pub daemon_static : Bytes
  pub daemon_sigpub : Bytes
  pub trust_dir : Bytes
  pub send_intent : Bool
  pub resource_ns : Bytes
  pub resource_id : Bytes

-- The keys of both sides, the certificate and the trust anchors.
pub record Material : Type 0 where
  pub static_secret : Bytes
  pub static_public : Bytes
  pub sig_seed : Bytes
  pub cert : Bytes
  pub daemon_static : Bytes
  pub daemon_sigpub : Bytes
  pub trusted : List Bytes

-- What is outside: the connection, whether it takes the packets, the datagram that a read gives by the
-- packets that were sent until then, the random bytes and the clock.
pub record Line : Type 0 where
  pub dials : Bool
  pub takes : ℕ → Bool
  pub reply : List Bytes → Option Bytes
  pub eph_draw : Option Bytes
  pub intent_id : Bytes
  pub now1 : ℕ
  pub now2 : ℕ

unfoldable pub read_key : Files → Bytes → Option Bytes
read_key w path = of_length 32 (w.read_file path)

-- "/ca%d.pub", for a digit
abbrev pub ca_name : ℕ → Bytes
ca_name i = b'/' ∷ b'c' ∷ b'a' ∷ (b'0' + i) ∷ b'.' ∷ b'p' ∷ b'u' ∷ b'b' ∷ []

abbrev pub with_key : Option Bytes → List Bytes → List Bytes
with_key none rest = []
with_key (some b) rest = b ∷ rest

-- The loop over ca0.pub to ca7.pub, up to the first that cannot be read.
unfoldable pub read_trust : Files → Bytes → ℕ → ℕ → List Bytes
read_trust w dir zero i = []
read_trust w dir (suc rounds) i =
    with_key (w.read_file (dir ++ ca_name i)) (read_trust w dir rounds (suc i))

abbrev pub some_key : List Bytes → Option (List Bytes)
some_key [] = none
some_key (k ∷ ks) = some (k ∷ ks)

unfoldable pub load : Files → Flags → Step (List Bytes) Material
unfolding read_key read_trust
load w f = do
  static_secret ← or_stop [] (
      read_key w (
        f.node_go
        ++ (b'/' ∷ b's' ∷ b't' ∷ b'a' ∷ b't' ∷ b'i' ∷ b'c' ∷ b'.' ∷ b'k' ∷ b'e' ∷ b'y' ∷ [])))
  static_public ← or_stop [] (
      read_key w (
        f.node_go
        ++ (b'/' ∷ b's' ∷ b't' ∷ b'a' ∷ b't' ∷ b'i' ∷ b'c' ∷ b'.' ∷ b'p' ∷ b'u' ∷ b'b' ∷ [])))
  sig_seed ←
      or_stop []
        (read_key w (f.node_go ++ (b'/' ∷ b's' ∷ b'i' ∷ b'g' ∷ b'.' ∷ b'k' ∷ b'e' ∷ b'y' ∷ [])))
  cert ← or_stop [] (
      w.read_file
        (f.node_go ++ (b'/' ∷ b'c' ∷ b'e' ∷ b'r' ∷ b't' ∷ b'.' ∷ b'b' ∷ b'i' ∷ b'n' ∷ [])))
  daemon_static ← or_stop [] (read_key w f.daemon_static)
  daemon_sigpub ← or_stop [] (read_key w f.daemon_sigpub)
  trusted ← or_stop [] (some_key (read_trust w f.trust_dir 8 0))
  goes (record {
    static_secret = static_secret;
    static_public = static_public;
    sig_seed = sig_seed;
    cert = cert;
    daemon_static = daemon_static;
    daemon_sigpub = daemon_sigpub;
    trusted = trusted;
  })

-- What stage A leaves: the keys, the two indices of the response, and the packets sent.
pub record Opened : Type 0 where
  pub res : HandshakeResult
  pub daemon_index : ℕ
  pub sender_echo : ℕ
  pub sent : List Bytes

-- What stage B leaves: the daemon's certificate, and the packets sent.
pub record Bound : Type 0 where
  pub cert : Cert
  pub sent : List Bytes

module _ (c : Crypto) where
  unfoldable pub ed25519_pub : Bytes → Bytes
  ed25519_pub seed = overwrite (c.public_key (c.key_from_seed seed)) (replicate 32 0)

  -- "apt-get install -y sqlite3" and "interop stage C"
  abbrev pub intent_of : Flags → Line → Cert → Intent
  intent_of f l cert = record {
    intent_id = l.intent_id;
    resource_id = resource_of (fingerprint c cert.sig_pubkey) f.resource_ns f.resource_id;
    action =
        b'a' ∷ b'p' ∷ b't' ∷ b'-' ∷ b'g' ∷ b'e' ∷ b't' ∷ b' ' ∷ b'i' ∷ b'n' ∷ b's' ∷ b't' ∷ b'a'
        ∷ b'l' ∷ b'l' ∷ b' ' ∷ b'-' ∷ b'y' ∷ b' ' ∷ b's' ∷ b'q' ∷ b'l' ∷ b'i' ∷ b't' ∷ b'e' ∷ b'3'
        ∷ [];
    rationale =
        b'i' ∷ b'n' ∷ b't' ∷ b'e' ∷ b'r' ∷ b'o' ∷ b'p' ∷ b' ' ∷ b's' ∷ b't' ∷ b'a' ∷ b'g' ∷ b'e'
        ∷ b' ' ∷ b'C' ∷ [];
  }

  abbrev pub envelope_of : Material → Line → Bytes → EnvelopeFields
  envelope_of m l body = record {
    version = 2;
    channel_id = replicate 32 0;
    sender = ed25519_pub m.sig_seed;
    seq = 1;
    parents = [];
    parent_count = 0;
    ts = l.now2;
    body_type = 2;
    body = body;
  }

  module _ (d : Dh) (a : Aead) where
    unfoldable pub stage_a : Material → Line → Step (List Bytes) Opened
    stage_a m l = do
      stop_if (not l.dials) []
      eph ← or_stop [] l.eph_draw
      first ← ok_or_stop [] (
          write_initiation c d a (new_initiator c d m.static_secret m.static_public m.daemon_static)
            (replicate msg1_size 0) sender_index l.now1 eph m.daemon_sigpub (replicate 16 0))
      stop_if (not (l.takes 0)) []
      buf ← or_stop (first.0 ∷ []) (l.reply (first.0 ∷ []))
      stop_if (ltb (length buf) msg2_size || not (byte_at buf 0 == 2)) (first.0 ∷ [])
      done ←
          ok_or_stop (first.0 ∷ [])
            (read_response c d a first.1 (take msg2_size buf) m.daemon_sigpub)
      goes (record {
        res = initiator_finalize c done.sym;
        daemon_index =
            from_big_endian (slice buf off2_sender_conformant (off2_sender_conformant + 4));
        sender_echo =
            from_big_endian (slice buf off2_receiver_conformant (off2_receiver_conformant + 4));
        sent = first.0 ∷ [];
      })

    -- The packet with this side's binding frame.
    abbrev pub binding_packet : Material → Opened → Bytes
    binding_packet m o =
        seal_transport a o.res.send_key o.daemon_index 0
          (build_binding_frame c m.cert m.sig_seed o.res.h)

    unfoldable pub stage_b : Material → Line → Opened → Step (List Bytes) Bound
    stage_b m l o = do
      stop_if (not (l.takes 1)) o.sent
      buf ←
          or_stop (o.sent ++ (binding_packet m o ∷ []))
            (l.reply (o.sent ++ (binding_packet m o ∷ [])))
      their_frame ←
          ok_or_stop (o.sent ++ (binding_packet m o ∷ [])) (open_transport a o.res.recv_key buf)
      cert ←
          ok_or_stop (o.sent ++ (binding_packet m o ∷ []))
            (verify_binding_frame c their_frame.0 o.res.h m.trusted)
      goes (record { cert = cert; sent = o.sent ++ (binding_packet m o ∷ []) })

    unfoldable pub stage_c :
        Flags → Material → Line → Opened → Bound → Step (List Bytes) (List Bytes)
    unfolding ed25519_pub
    stage_c f m l o b = do
      intent_body ← ok_or_stop b.sent (encode_intent_body (intent_of f l b.cert))
      env ← ok_or_stop b.sent (build_signed_envelope c (envelope_of m l intent_body) m.sig_seed)
      stop_if (not (l.takes 2)) b.sent
      goes (b.sent ++ (seal_transport a o.res.send_key o.daemon_index 1 env ∷ []))

    unfoldable pub interop_main : Files → Flags → Line → Step (List Bytes) (List Bytes)
    unfolding load stage_a stage_b stage_c
    interop_main w f l = do
      m ← load w f
      o ← stage_a m l
      b ← stage_b m l o
      (if not f.send_intent then goes b.sent else stage_c f m l o b)
