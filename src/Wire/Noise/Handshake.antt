-- ===== src/Wire/Noise/Handshake.antt =====
-- A whole handshake between two honest sides.
pub mod Initiation
pub mod Response
use lastro.Common.{get_or, ◌≤◌, ◌≡◌, refl, sym, ◌∙◌, ap, some, Bytes, length, ℕ, arith, replicate}
use lastro.Common.Result.{Result, ok, ◌>>=◌}
use lastro.Wire.Encoding.{big_endian}
use lastro.Wire.Cursor.{slice}
use lastro.Wire.Crypto.{Crypto}
use lastro.Wire.Transport.{Aead, AeadLaws}
use lastro.Wire.Noise.{
  SymmetricState, HandshakeResult, initiator_finalize, responder_finalize, split_keys,
}
use lastro.Wire.Noise.Messages.{
  Dh, DhLaws, Initiator, Responder, new_initiator, new_responder, write_initiation, read_initiation,
  write_response, read_response,
}
use lastro.Wire.Noise.Handshake.Initiation
use lastro.Wire.Noise.Handshake.Response

-- The two static key pairs and the signing key that mac1 is keyed with.
pub record Keys : Type 0 where
  pub initiator_secret : Bytes
  pub initiator_public : Bytes
  pub responder_secret : Bytes
  pub responder_public : Bytes
  pub responder_sig_pub : Bytes

-- What one handshake draws: the buffers, the indices, the time, the ephemeral secrets, the cookies.
pub record Draws : Type 0 where
  pub out1 : Bytes
  pub out2 : Bytes
  pub sender1 : ℕ
  pub sender2 : ℕ
  pub receiver2 : ℕ
  pub timestamp : ℕ
  pub eph1 : Bytes
  pub eph2 : Bytes
  pub cookie1 : Bytes
  pub cookie2 : Bytes

pub record IsDraws (w : Draws) : Type 0 where
  pub out1 : 144 ≤ length w.out1
  pub out2 : 92 ≤ length w.out2
  pub eph1 : length w.eph1 ≡ 32
  pub eph2 : length w.eph2 ≡ 32
  pub cookie1 : length w.cookie1 ≡ 16
  pub cookie2 : length w.cookie2 ≡ 16

module _ (c : Crypto) (d : Dh) (a : Aead) where
  -- The public keys are those of the secrets.
  pub record IsKeys (k : Keys) : Type 0 where
    pub initiator_secret : length k.initiator_secret ≡ 32
    pub responder_secret : length k.responder_secret ≡ 32
    pub initiator_public : d.x25519 k.initiator_secret d.basepoint ≡ some k.initiator_public
    pub responder_public : d.x25519 k.responder_secret d.basepoint ≡ some k.responder_public

  -- The four steps in their order, and what each side ends with: the results, and the static key
  -- that the responder has learnt.
  unfoldable pub handshake : Keys → Draws → Result (HandshakeResult × (HandshakeResult × Bytes))
  handshake k w = do
    first ←
        write_initiation c d a
          (new_initiator c d k.initiator_secret k.initiator_public k.responder_public) w.out1
          w.sender1 w.timestamp w.eph1 k.responder_sig_pub w.cookie1
    r1 ←
        read_initiation c d a (new_responder c d k.responder_secret k.responder_public) first.0
          k.responder_sig_pub
    second ←
        write_response c d a r1 w.out2 w.sender2 w.receiver2 w.eph2 k.responder_sig_pub w.cookie2
    i2 ← read_response c d a first.1 second.0 k.responder_sig_pub
    ok (
      initiator_finalize c i2.sym,
      (responder_finalize c second.1.sym, second.1.remote_static_pub),
    )

  length-public :
      (secret public_ : Bytes)
      → DhLaws d
      → length secret ≡ 32
      → d.x25519 secret d.basepoint ≡ some public_
      → length public_ ≡ 32
  length-public secret public_ laws n e =
      let (p, found, size) = laws.public secret n in
      let same : public_ ≡ p = cc (e, found) in ap length same ∙ size

  -- One completed handshake: the states along it, and what the second message announces.
  pub record IsCompleted (k : Keys) (w : Draws) (msg1 msg2 : Bytes) (i1 i2 : Initiator)
      (r1 r2 : Responder) : Type 0 where
    pub wrote1 :
        write_initiation c d a
          (new_initiator c d k.initiator_secret k.initiator_public k.responder_public)
          w.out1
          w.sender1
          w.timestamp
          w.eph1
          k.responder_sig_pub
          w.cookie1
        ≡ ok (msg1, i1)
    pub read1 :
        read_initiation c d a
          (new_responder c d k.responder_secret k.responder_public)
          msg1
          k.responder_sig_pub
        ≡ ok r1
    pub wrote2 :
        write_response c d a r1 w.out2 w.sender2 w.receiver2 w.eph2 k.responder_sig_pub w.cookie2
        ≡ ok (msg2, r2)
    pub read2 : read_response c d a i1 msg2 k.responder_sig_pub ≡ ok i2
    pub same : i2.sym ≡ r2.sym
    pub learnt : r2.remote_static_pub ≡ k.initiator_public
    pub header :
        (get_or msg2 0 0 ≡ 2)
        × ((slice msg2 4 8 ≡ big_endian 4 w.sender2)
            × ((slice msg2 8 12 ≡ big_endian 4 w.receiver2) × (length msg2 ≡ length w.out2)))

  pub handshake-IsCompleted :
      (k : Keys) (w : Draws)
      → AeadLaws a
      → DhLaws d
      → IsKeys k
      → IsDraws w
      → (msg1 : Bytes) × (msg2 : Bytes) × (i1 : Initiator) × (i2 : Initiator) × (r1 : Responder)
        × (r2 : Responder) × IsCompleted k w msg1 msg2 i1 i2 r1 r2
  unfolding new_initiator new_responder
  handshake-IsCompleted k w aead_laws dh_laws keys draws =
      let (e1, public1, full1) = dh_laws.public w.eph1 draws.eph1 in
      let (e2, public2, full2) = dh_laws.public w.eph2 draws.eph2 in
      let (es, es_i, es_r) =
        dh_laws.shared w.eph1 k.responder_secret e1 k.responder_public draws.eph1
          keys.responder_secret public1 keys.responder_public in
      let (ss, ss_i, ss_r) =
        dh_laws.shared k.initiator_secret k.responder_secret k.initiator_public k.responder_public
          keys.initiator_secret keys.responder_secret keys.initiator_public keys.responder_public in
      let (ee, ee_r, ee_i) =
        dh_laws.shared w.eph2 w.eph1 e2 e1 draws.eph2 draws.eph1 public2 public1 in
      let (se, se_r, se_i) =
        dh_laws.shared w.eph2 k.initiator_secret e2 k.initiator_public draws.eph2
          keys.initiator_secret public2 keys.initiator_public in
      let static =
        length-public k.initiator_secret k.initiator_public dh_laws keys.initiator_secret
          keys.initiator_public in
      let i0 = new_initiator c d k.initiator_secret k.initiator_public k.responder_public in
      let r0 = new_responder c d k.responder_secret k.responder_public in
      let wrote1 =
        Initiation.write_initiation_lem c d a aead_laws dh_laws i0 w.out1 w.sender1 w.timestamp
          w.eph1 e1 es ss k.responder_sig_pub w.cookie1 draws.out1 full1 static draws.cookie1
          public1 es_i ss_i in
      let read1 =
        Initiation.read-write_initiation c d a aead_laws dh_laws i0 w.out1 w.sender1 w.timestamp
          w.eph1 e1 es ss k.responder_sig_pub w.cookie1 draws.out1 full1 static draws.cookie1 r0
          refl refl es_r ss_r in
      let i1 =
        Initiation.initiator_after c d a aead_laws dh_laws i0 w.out1 w.sender1 w.timestamp w.eph1 e1
          es ss k.responder_sig_pub w.cookie1 in
      let r1 = record r0 { re = e1; remote_static_pub = k.initiator_public; sym = i1.sym } in
      let wrote2 =
        Response.write_response_lem c d a aead_laws dh_laws r1 w.out2 w.sender2 w.receiver2 w.eph2
          e2 ee se k.responder_sig_pub w.cookie2 draws.out2 full2 draws.cookie2 public2 ee_r se_r in
      let read2 =
        Response.read-write_response c d a aead_laws dh_laws r1 w.out2 w.sender2 w.receiver2 w.eph2
          e2 ee se k.responder_sig_pub w.cookie2 draws.out2 full2 draws.cookie2 i1 refl ee_i se_i in
      let header =
        Response.message-header c d a aead_laws dh_laws r1 w.out2 w.sender2 w.receiver2 w.eph2 e2 ee
          se k.responder_sig_pub w.cookie2 draws.out2 full2 draws.cookie2 in
      (
        _,
        _,
        _,
        _,
        _,
        _,
        record {
          wrote1 = wrote1;
          read1 = read1;
          wrote2 = wrote2;
          read2 = read2;
          same = refl;
          learnt = refl;
          header = header;
        },
      )

  -- Between honest sides the handshake completes; each side's sending key is the other's receiving
  -- key, both have the same transcript hash, and the responder has learnt the initiator's static key.
  pub handshake_agrees :
      (k : Keys) (w : Draws)
      → AeadLaws a
      → DhLaws d
      → IsKeys k
      → IsDraws w
      → (i : HandshakeResult) × (r : HandshakeResult) × (handshake k w
          ≡ ok (i, (r, k.initiator_public)))
        × (i.send_key ≡ r.recv_key)
        × (i.recv_key ≡ r.send_key)
        × (i.h ≡ r.h)
  unfolding handshake initiator_finalize responder_finalize
  handshake_agrees k w aead_laws dh_laws keys draws =
      let (msg1, msg2, i1, i2, r1, r2, run) =
        handshake-IsCompleted k w aead_laws dh_laws keys draws in
      (
        initiator_finalize c r2.sym,
        responder_finalize c r2.sym,
        rw (run.wrote1, run.read1, run.wrote2, run.read2, run.same, run.learnt) refl,
        refl,
        refl,
        refl,
      )
