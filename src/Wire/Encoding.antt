-- ===== src/Wire/Encoding.antt =====
-- binary.BigEndian.AppendUint16, AppendUint32 and AppendUint64, as the bytes that they append.
use lastro.Common.{
  ℕ, zero, suc, ◌+◌, ◌*◌, ◌/◌, ◌%◌, ◌^◌, ◌≡◌, refl, ap, Bytes, [], ◌∷◌, length, arith, IsBytes,
}

-- byte(v >> 8(k-1)), ..., byte(v >> 8), byte(v).
abbrev pub big_endian : ℕ → ℕ → Bytes
big_endian zero v = []
big_endian (suc k) v = (v / 2 ^ (8 * k) % 256) ∷ big_endian k v

pub length-big_endian : (k v : ℕ) → length (big_endian k v) ≡ k
length-big_endian zero v = refl
length-big_endian (suc k) v = ap suc (length-big_endian k v)

pub big_endian-IsBytes : (k v : ℕ) → IsBytes (big_endian k v)
big_endian-IsBytes zero v = tt
big_endian-IsBytes (suc k) v = (omega arith, big_endian-IsBytes k v)

-- binary.BigEndian.Uint16, Uint32 and Uint64: the number that the bytes spell, behind v.
abbrev value_behind : ℕ → Bytes → ℕ
value_behind v [] = v
value_behind v (b ∷ bs) = value_behind (v * 256 + b) bs

abbrev pub from_big_endian : Bytes → ℕ
from_big_endian = value_behind 0
