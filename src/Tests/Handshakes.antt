-- ===== src/Tests/Handshakes.antt =====
-- A handshake of two honest sides, and what the readers refuse.
use lastro.Common.{◌+◌, ◌≡◌, ◌≢◌, refl, ap, ◌∙◌, some, Bytes, replicate, take, [], ◌∷◌, ◌++◌, arith}
use lastro.Common.Result.{ok, err, mac1_failed}
use lastro.Tests.Toy.{toy, padded, length-padded, length-replicate, seed_of}
use lastro.Tests.Frames.{plain, plain_laws}
use lastro.Wire.Cursor.{slice}
use lastro.Wire.Noise.{HandshakeResult}
use lastro.Wire.Noise.Messages.{
  Dh, DhLaws, Initiator, Responder, compute_mac1, mac1_key, new_initiator, new_responder,
  read_initiation,
}
use lastro.Wire.Noise.Handshake.{Keys, Draws, IsDraws, IsKeys, handshake, handshake_agrees}
use lastro.Wire.Noise.Rejects.{read_gates_iff}

-- A group of strings of numbers under the sum, with the empty string as base point.
abbrev add : Bytes → Bytes → Bytes
add [] ys = ys
add (x ∷ xs) [] = x ∷ xs
add (x ∷ xs) (y ∷ ys) = (x + y) ∷ add xs ys

add_comm : (xs ys : Bytes) → add xs ys ≡ add ys xs
add_comm [] [] = refl
add_comm [] (y ∷ ys) = refl
add_comm (x ∷ xs) [] = refl
add_comm (x ∷ xs) (y ∷ ys) =
    let first : x + y ≡ y + x = omega arith in rw (first, add_comm xs ys) refl

add_base : (xs : Bytes) → add xs [] ≡ xs
add_base [] = refl
add_base (x ∷ xs) = refl

abbrev pub sums : Dh
sums = record {
  x25519 = λ secret p. some (add secret p);
  basepoint = [];
  keyed128 = λ key m. padded 16 (m ++ key);
}

-- The public key of a secret is the secret itself.
public-sums : (a pub_a : Bytes) → sums.x25519 a sums.basepoint ≡ some pub_a → pub_a ≡ a
public-sums a pub_a h = cc (h, add_base a)

pub sums_laws : DhLaws sums
sums_laws = record {
  public = λ secret h. (secret, ap some (add_base secret), h);
  shared = λ a b pub_a pub_b na nb ha hb.
      let ea = public-sums a pub_a ha in
      let eb = public-sums b pub_b hb in
      (add a b, ap (λ p. some (add a p)) eb, ap (λ p. some (add b p)) ea ∙ ap some (add_comm b a));
  length-keyed128 = λ key m. length-padded 16 (m ++ key);
}

abbrev keys : Keys
keys = record {
  initiator_secret = seed_of 1;
  initiator_public = seed_of 1;
  responder_secret = seed_of 2;
  responder_public = seed_of 2;
  responder_sig_pub = seed_of 3;
}

abbrev draws : Draws
draws = record {
  out1 = replicate 150 9;
  out2 = replicate 92 9;
  sender1 = 258;
  sender2 = 7;
  receiver2 = 258;
  timestamp = 1_700_000_000_000;
  eph1 = seed_of 4;
  eph2 = seed_of 5;
  cookie1 = replicate 16 0;
  cookie2 = replicate 16 6;
}

draws-IsDraws : IsDraws draws
draws-IsDraws = record {
  out1 = omega (arith, length-replicate 150 9);
  out2 = omega (arith, length-replicate 92 9);
  eph1 = refl;
  eph2 = refl;
  cookie1 = refl;
  cookie2 = refl;
}

keys-IsKeys : IsKeys toy sums plain keys
keys-IsKeys = record {
  initiator_secret = refl;
  responder_secret = refl;
  initiator_public = refl;
  responder_public = refl;
}

handshake_agrees_example :
    (i : HandshakeResult) × (r : HandshakeResult) × (handshake toy sums plain keys draws
      ≡ ok (i, (r, seed_of 1)))
    × (i.send_key ≡ r.recv_key)
    × (i.recv_key ≡ r.send_key)
    × (i.h ≡ r.h)
handshake_agrees_example =
    handshake_agrees toy sums plain keys draws plain_laws sums_laws keys-IsKeys draws-IsDraws

abbrev initiator : Initiator
initiator = new_initiator toy sums (seed_of 1) (seed_of 1) (seed_of 2)

abbrev responder : Responder
responder = new_responder toy sums (seed_of 2) (seed_of 2)

-- A message of full length with a wrong mac1.
abbrev forged : Bytes
forged = replicate 112 1 ++ replicate 32 0

forged_mac : compute_mac1 toy sums (seed_of 3) (take 112 forged) ≢ slice forged 112 128
unfolding compute_mac1 mac1_key
forged_mac h = cc h

read_gates_iff_example :
    read_initiation toy sums plain responder forged (seed_of 3) ≡ err mac1_failed
read_gates_iff_example =
    (read_gates_iff toy sums plain initiator responder forged (replicate 91 0) (seed_of 3)).0.1.1
      (omega arith, forged_mac)
