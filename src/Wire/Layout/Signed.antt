-- ===== src/Wire/Layout/Signed.antt =====
-- Structures that end in a 64-byte signature over the bytes before it (TBS, "to be signed").
use lastro.Common.{◌≡◌, Bytes, length, List, ◌++◌}
use lastro.Wire.Cursor.{Reader, ◌>>=◌, pure, take_bytes}
use lastro.Wire.Cursor.Reads.{Reads, Reads-pair}
use lastro.Wire.Cursor.Primitives.{take_bytes-Reads}
use lastro.Wire.Cursor.Whole.{spanned, Reads-spanned}
use lastro.Wire.Layout.{Field, Values, FitsAll, read_all, read_all-Reads, write_all}

-- The values of the fields, the bytes that they were read from, and the signature.
abbrev pub Signed : List Field → Type 0
Signed fs = (Values fs × Bytes) × Bytes

abbrev pub read_signed : (fs : List Field) → Reader (Signed fs)
read_signed fs = spanned (read_all fs) >>= λ p. take_bytes 64 >>= λ sig. pure (p, sig)

abbrev pub IsSigned : (fs : List Field) → Signed fs → Type 0
IsSigned fs p = (FitsAll fs p.0.0 × (p.0.1 ≡ write_all fs p.0.0)) × (length p.1 ≡ 64)

pub read_signed-Reads : (fs : List Field) → Reads (read_signed fs) (λ p. p.0.1 ++ p.1) (IsSigned fs)
read_signed-Reads fs = Reads-pair (Reads-spanned (read_all-Reads fs)) (λ p h. take_bytes-Reads 64)
