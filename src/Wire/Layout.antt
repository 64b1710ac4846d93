-- ===== src/Wire/Layout.antt =====
-- The layouts that the comments of package wire draw: a list of fields, read and written in order.
-- The parsers of the package are shown equal to readers of layouts.
pub mod Signed
use lastro.Common.{
  ℕ, ◌+◌, ◌*◌, ◌^◌, ◌≤◌, ◌<◌, ◌≡◌, refl, Bytes, length, List, [], ◌∷◌, ◌++◌, arith, lengths, sym,
  ap, ◌∙◌, ltb, ltb→le, le→ltb, if◌then◌else◌, length-append, drop-append, take-append, ◌-◌,
  IsBytes, append_assoc, append-nil, ◌==◌,
}
use lastro.Common.Result
use lastro.Common.Result.{Result, ok, err, oversize, truncated, trailing_bytes, >>=-eq-ok}
use lastro.Wire.Encoding.{big_endian}
use lastro.Wire.Cursor.{
  Cursor, Reader, ◌>>=◌, pure, fail, u8, u64be, take_bytes, field16, field32, tell, since, slice,
  continue, parse_whole, at_end,
}
use lastro.Wire.Cursor.At.{at}
use lastro.Wire.Cursor.Reads.{Reads, Took, Reads-pure, Reads-pair, Reads-guard, Reads-convert}
use lastro.Wire.Cursor.Primitives.{
  u8-Reads, u64be-Reads, take_bytes-Reads, field16-Reads, field32-Reads,
}

pub data Field : Type 0 where
  octet u64 : Field
  fixed : ℕ → Field
  -- a length of 16 or 32 bits, at most max, and as many bytes
  sized16 sized32 : ℕ → Field
  -- a count of at most max in one byte, and as many items of the given length
  counted : ℕ → ℕ → Field

abbrev pub Value : Field → Type 0
Value octet = ℕ
Value u64 = ℕ
Value (counted max len) = ℕ × Bytes
Value (fixed n) = Bytes
Value (sized16 max) = Bytes
Value (sized32 max) = Bytes

abbrev pub Fits : (f : Field) → Value f → Type 0
Fits octet v = v < 256
Fits u64 v = v < 2 ^ 64
Fits (fixed n) x = length x ≡ n
Fits (sized16 max) x = (length x < 2 ^ 16) × (length x ≤ max)
Fits (sized32 max) x = (length x < 2 ^ 32) × (length x ≤ max)
Fits (counted max len) (n, x) = (n < 256) × ((n ≤ max) × (length x ≡ n * len))

abbrev pub write : (f : Field) → Value f → Bytes
write octet v = v ∷ []
write u64 v = big_endian 8 v
write (fixed n) x = x
write (sized16 max) x = big_endian 2 (length x) ++ x
write (sized32 max) x = big_endian 4 (length x) ++ x
write (counted max len) (n, x) = n ∷ x

abbrev pub read : (f : Field) → Reader (Value f)
read octet = u8
read u64 = u64be
read (fixed n) = take_bytes n
read (sized16 max) = field16 max
read (sized32 max) = field32 max
read (counted max len) =
    u8 >>= λ n. (if ltb max n then fail oversize else take_bytes (n * len)) >>= λ x. pure (n, x)

pub read-Reads : (f : Field) → Reads (read f) (write f) (Fits f)
read-Reads octet = u8-Reads
read-Reads u64 = u64be-Reads
read-Reads (fixed n) = take_bytes-Reads n
read-Reads (sized16 max) = field16-Reads max
read-Reads (sized32 max) = field32-Reads max
read-Reads (counted max len) =
    Reads-convert
      (Reads-pair u8-Reads λ n h. Reads-guard (ltb max n) oversize (take_bytes-Reads (n * len)))
      (λ p h. ((h.0, (ltb→le max p.0 h.1.0, h.1.1)), refl))
      (λ p h. (h.0, (le→ltb max p.0 h.1.0, h.1.1)))

abbrev pub Values : List Field → Type 0
Values [] = Unit
Values (f ∷ fs) = Value f × Values fs

abbrev pub FitsAll : (fs : List Field) → Values fs → Type 0
FitsAll [] vs = Unit
FitsAll (f ∷ fs) (v, vs) = Fits f v × FitsAll fs vs

abbrev pub write_all : (fs : List Field) → Values fs → Bytes
write_all [] vs = []
write_all (f ∷ fs) (v, vs) = write f v ++ write_all fs vs

abbrev pub read_all : (fs : List Field) → Reader (Values fs)
read_all [] = pure tt
read_all (f ∷ fs) = read f >>= λ v. read_all fs >>= λ vs. pure (v, vs)

pub read_all-Reads : (fs : List Field) → Reads (read_all fs) (write_all fs) (FitsAll fs)
read_all-Reads [] = Reads-convert (Reads-pure tt) (λ a h. (tt, refl)) (λ a h. refl)
read_all-Reads (f ∷ fs) = Reads-pair (read-Reads f) (λ v h. read_all-Reads fs)
