-- ===== src/Tests/Toy.antt =====
-- A concrete `Crypto` for the runs: it has the documented behaviour, and computes.
use lastro.Common.{
  ℕ, zero, suc, ◌≡◌, refl, ap, Bool, true, ◌&&◌, Bytes, IsBytes, length, take, replicate, [], ◌∷◌,
  ◌++◌, ltb, equal, equal_refl, arith, length-take, length-append,
}
use lastro.Wire.Crypto.{Crypto, CryptoLaws}

-- A key pair is the seed twice, a signature the first 64 bytes of the public key and the message,
-- a hash the first 32 bytes of the message.
abbrev pub padded : ℕ → Bytes → Bytes
padded n m = take n (m ++ replicate n 0)

abbrev pub toy : Crypto
toy = record {
  key_from_seed = λ seed. seed ++ seed;
  public_key = λ key. take 32 key;
  ed_sign = λ key m. padded 64 (take 32 key ++ m);
  ed_verify = λ key m sig. equal sig (padded 64 (key ++ m));
  sum256 = λ m. padded 32 m;
}

pub length-replicate : (n x : ℕ) → length (replicate n x) ≡ n
length-replicate zero x = refl
length-replicate (suc n) x = ap suc (length-replicate n x)

pub length-padded : (n : ℕ) (m : Bytes) → length (padded n m) ≡ n
length-padded n m = omega (
  arith,
  length-take n (m ++ replicate n 0),
  length-append m (replicate n 0),
  length-replicate n 0,
)

pub toy_laws : CryptoLaws toy
toy_laws = record {
  length-public_key =
      λ seed h. omega (arith, length-take 32 (seed ++ seed), length-append seed seed, h);
  length-ed_sign = λ key m. length-padded 64 (take 32 key ++ m);
  length-sum256 = length-padded 32;
  verifies = λ seed m h. equal_refl (padded 64 (take 32 (seed ++ seed) ++ m));
}

-- To show by evaluation that a list is a string of bytes.
unfoldable pub all_bytes : Bytes → Bool
all_bytes [] = true
all_bytes (b ∷ bs) = ltb b 256 && all_bytes bs

pub all_bytes-IsBytes : (b : Bytes) → all_bytes b ≡ true → IsBytes b
unfolding all_bytes
all_bytes-IsBytes [] h = tt
all_bytes-IsBytes (b ∷ bs) h = (ground arith, all_bytes-IsBytes bs (ground arith))

abbrev pub seed_of : ℕ → Bytes
seed_of n = replicate 32 n

abbrev pub public_of : ℕ → Bytes
public_of n = replicate 32 n

-- The signature by the owner of a seed.
abbrev pub signature : ℕ → Bytes → Bytes → Bytes
signature tag tbs seed = toy.ed_sign (seed ++ seed) (tag ∷ tbs)
