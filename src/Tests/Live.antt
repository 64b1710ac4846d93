-- ===== src/Tests/Live.antt =====
-- Stages A and B of the interop harness with a daemon that answers.
use lastro.Common.{◌≡◌, refl, true, some, none, Bytes, replicate, [], ◌∷◌, ◌++◌, arith}
use lastro.Common.Result.{ok}
use lastro.Tests.Toy.{toy, toy_laws, seed_of}
use lastro.Tests.Frames.{plain, plain_laws}
use lastro.Tests.Handshakes.{sums, sums_laws}
use lastro.Tests.Certs.{approver, encoded, parses, validates, executor, trusted}
use lastro.Tests.Verifications.{cert_raw, executor_parses, executor_valid}
use lastro.Wire.Transport.{open_transport, verify_binding_frame}
use lastro.Wire.Noise.{responder_finalize}
use lastro.Wire.Noise.Messages.{Responder}
use lastro.Wire.Noise.Handshake.{IsKeys, IsDraws}
use lastro.Cmd.{goes, ◌>>=◌}
use lastro.Wire.Crypto.{fingerprint}
use lastro.Wire.Intent.{Intent, parse_intent}
use lastro.Wire.Envelope.{Envelope, parse_envelope, verify_sig}
use lastro.Interop.Intents.{stage_c_lem}
use lastro.Interop.{Flags, Opened, stage_c, Material, Line, sender_index, stage_a, stage_b}
use lastro.Interop.Stages.{
  Daemon, keys_of, draws_of, daemon_answer, daemon_reply, IsLive, stages_bind,
}

abbrev material : Material
material = record {
  static_secret = seed_of 1;
  static_public = seed_of 1;
  sig_seed = seed_of 5;
  cert = encoded;
  daemon_static = seed_of 2;
  daemon_sigpub = seed_of 7;
  trusted = trusted;
}

abbrev daemon : Daemon
daemon = record {
  secret = seed_of 2;
  out = replicate 92 0;
  index = 258;
  eph = seed_of 6;
  cookie = replicate 16 3;
  cert = cert_raw;
  sig_seed = seed_of 7;
  trusted = trusted;
}

-- The line without the replies.
abbrev quiet : Line
quiet = record {
  dials = true;
  takes = λ i. true;
  reply = λ sent. none;
  eph_draw = some (seed_of 4);
  intent_id = replicate 16 8;
  now1 = 1500;
  now2 = 1501;
}

live-IsKeys : IsKeys toy sums plain (keys_of material daemon)
live-IsKeys = record {
  initiator_secret = refl;
  responder_secret = refl;
  initiator_public = refl;
  responder_public = refl;
}

live-IsDraws : IsDraws (draws_of quiet daemon (seed_of 4))
live-IsDraws = record {
  out1 = omega arith;
  out2 = omega arith;
  eph1 = refl;
  eph2 = refl;
  cookie1 = refl;
  cookie2 = refl;
}

abbrev line : Line
line = record quiet { reply = daemon_reply toy sums plain material daemon }

line-IsLive : IsLive toy sums plain material line daemon (seed_of 4)
line-IsLive = record { dials = refl; takes = λ i. refl; eph_draw = refl; reply = λ sent. refl }

stages_bind_example :
    (msg1 : Bytes) × (msg2 : Bytes) × (r : Responder) × (packet : Bytes) × (frame : Bytes)
    × ((stage_a toy sums plain material line >>= λ o. stage_b toy sums plain material line o)
        ≡ goes (record { cert = executor; sent = msg1 ∷ packet ∷ [] }))
    × (daemon_answer toy sums plain material daemon msg1 ≡ ok (msg2, r))
    × (open_transport plain (responder_finalize toy r.sym).recv_key packet ≡ ok (frame, 0))
    × (verify_binding_frame toy frame (responder_finalize toy r.sym).h trusted ≡ ok approver)
stages_bind_example =
    stages_bind toy sums plain material line daemon (seed_of 4) approver executor toy_laws
      plain_laws sums_laws live-IsKeys live-IsDraws refl (omega arith) line-IsLive
      (record {
        short = omega arith;
        seed_size = refl;
        parsed = parses;
        valid = validates;
        own = refl;
      })
      (record {
        short = omega arith;
        seed_size = refl;
        parsed = executor_parses;
        valid = executor_valid;
        own = refl;
      })

abbrev flags : Flags
flags = record {
  node_go = [];
  daemon_static = [];
  daemon_sigpub = [];
  trust_dir = [];
  send_intent = true;
  resource_ns = b'n' ∷ [];
  resource_id = b'd' ∷ [];
}

abbrev session : Opened
session = record {
  res = record { send_key = seed_of 1; recv_key = seed_of 2; h = seed_of 3 };
  daemon_index = 258;
  sender_echo = sender_index;
  sent = [];
}

stage_c_lem_example :
    (packet : Bytes) × (out : Bytes) × (env : Envelope) × (it : Intent) × (stage_c toy sums plain
        flags material quiet session
        (record { cert = executor; sent = [] })
      ≡ goes (packet ∷ []))
    × (open_transport plain (seed_of 1) packet ≡ ok (out, 1))
    × (parse_envelope out ≡ ok env)
    × (verify_sig toy env ≡ ok tt)
    × (env.sender ≡ seed_of 5)
    × (env.body_type ≡ 2)
    × (parse_intent env.body ≡ ok it)
    × (it.intent_id ≡ replicate 16 8)
    × (it.resource_id
        ≡ b'b'
          ∷ b'o'
          ∷ b'l'
          ∷ b':'
          ∷ (fingerprint toy executor.sig_pubkey ++ (b'/' ∷ b'n' ∷ b'/' ∷ b'd' ∷ [])))
    × (it.action
        ≡ b'a' ∷ b'p' ∷ b't' ∷ b'-' ∷ b'g' ∷ b'e' ∷ b't' ∷ b' ' ∷ b'i' ∷ b'n' ∷ b's' ∷ b't' ∷ b'a'
          ∷ b'l' ∷ b'l' ∷ b' ' ∷ b'-' ∷ b'y' ∷ b' ' ∷ b's' ∷ b'q' ∷ b'l' ∷ b'i' ∷ b't' ∷ b'e' ∷ b'3'
          ∷ [])
stage_c_lem_example =
    stage_c_lem toy sums plain toy_laws plain_laws flags material quiet session
      (record { cert = executor; sent = [] }) refl refl (omega arith) (omega arith) refl
