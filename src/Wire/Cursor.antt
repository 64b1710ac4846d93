-- ===== src/Wire/Cursor.antt =====
-- wire/cursor.go, and field32 of wire/envelope.go: the bounds-checked reader. A method of *cursor is
-- a `Reader`: it takes the cursor and returns its value with the moved cursor, or the error. Every
-- caller returns at the first error, so the cursor is not kept beside an error.
pub mod At
pub mod Reads
pub mod Primitives
pub mod Whole
use mathlib.Core.Path.{fun_ext}
use lastro.Common.{
  Bool, true, false, ℕ, zero, suc, ◌+◌, ◌-◌, ◌*◌, ◌%◌, ◌^◌, bit_or, ◌≡◌, refl, ltb, ◌==◌,
  if◌then◌else◌, Bytes, length, take, drop, get_or,
}
use lastro.Common.Result
use lastro.Common.Result.{Error, Result, ok, err, truncated, oversize, trailing_bytes}

pub record Cursor : Type 0 where
  pub buf : Bytes
  pub pos : ℕ

abbrev pub Reader {ℓ} : Type ℓ → Type ℓ
Reader A = Cursor → Result (A × Cursor)

abbrev pub continue {ℓ κ} :
    {A : Type ℓ} {B : Type κ} → (A → Reader B) → A × Cursor → Result (B × Cursor)
continue f (a, c) = f a c

module _ {ℓ} {A : Type ℓ} where
  unfoldable pub pure : A → Reader A
  pure a c = ok (a, c)

  unfoldable pub fail : Error → Reader A
  fail e c = err e

module _ {ℓ κ} {A : Type ℓ} {B : Type κ} where
  infixl 5 ◌>>=◌
  unfoldable pub ◌>>=◌ : Reader A → (A → Reader B) → Reader B
  unfolding pure fail
  ◌>>=◌ m f c = Result.◌>>=◌ (m c) (continue f)

  pub pure-bind : (a : A) (f : A → Reader B) → (pure a >>= f) ≡ f a
  unfolding ◌>>=◌
  pure-bind a f = refl

infixl 5 ◌>>◌
abbrev pub ◌>>◌ {ℓ} : {B : Type ℓ} → Reader (Unit {0}) → Reader B → Reader B
m >> k = m >>= λ _. k

module _ {ℓ κ υ} {A : Type ℓ} {B : Type κ} {C : Type υ} where
  bind_assoc_at :
      (r : Result (A × Cursor)) (f : A → Reader B) (g : B → Reader C)
      → Result.◌>>=◌ (Result.◌>>=◌ r (continue f)) (continue g)
        ≡ Result.◌>>=◌ r (continue (λ a. f a >>= g))
  unfolding ◌>>=◌
  bind_assoc_at (ok (a, c)) f g = refl
  bind_assoc_at (err e) f g = refl

  pub bind_assoc :
      (m : Reader A) (f : A → Reader B) (g : B → Reader C)
      → (m >>= f >>= g) ≡ (m >>= λ a. f a >>= g)
  unfolding ◌>>=◌
  bind_assoc m f g = fun_ext λ c. bind_assoc_at (m c) f g

-- An early return in front of a reader.
pub guard-bind {ℓ κ} :
    {A : Type ℓ} {B : Type κ} (bad : Bool) (e : Error) (m : Reader A) (f : A → Reader B)
    → ((if bad then fail e else m) >>= f) ≡ (if bad then fail e else (m >>= f))
unfolding ◌>>=◌
guard-bind true e m f = refl
guard-bind false e m f = refl

-- For `simp`: brings a chain of readers into the form of a `do` block.
pub ruleset reader_laws = (pure-bind, bind_assoc)

-- b[i:j] and b[i]. The callers have checked the bounds; Go would panic outside them.
abbrev pub slice : Bytes → ℕ → ℕ → Bytes
slice b i j = take (j - i) (drop i b)

abbrev pub byte_at : Bytes → ℕ → ℕ
byte_at b i = get_or b i 0

-- `c.pos` is at most `len(c.buf)` throughout, so that the subtraction is exact.
unfoldable pub need : ℕ → Reader (Unit {0})
need n c = if ltb (length c.buf - c.pos) n then err truncated else ok (tt, c)

-- Reads what `f` says at the position, and moves n bytes on.
abbrev pub advance {ℓ} : {A : Type ℓ} → ℕ → (Cursor → A) → Reader A
advance n f c = ok (f c, record c { pos = c.pos + n })

unfoldable pub u8 : Reader ℕ
unfolding ◌>>=◌ need
u8 = do need 1; advance 1 (λ c. byte_at c.buf c.pos)

unfoldable pub u16be : Reader ℕ
unfolding ◌>>=◌ need
u16be = do need 2; advance 2 (λ c. bit_or (byte_at c.buf c.pos * 2 ^ 8) (byte_at c.buf (c.pos + 1)))

unfoldable pub u32be : Reader ℕ
unfolding ◌>>=◌ need
u32be = do
  need 4
  advance 4 (λ c.
      bit_or
        (bit_or (bit_or (byte_at c.buf c.pos * 2 ^ 24) (byte_at c.buf (c.pos + 1) * 2 ^ 16))
          (byte_at c.buf (c.pos + 2) * 2 ^ 8))
        (byte_at c.buf (c.pos + 3)))

-- The loop of u64be with `rounds` rounds left; `v << 8` drops what leaves 64 bits.
unfoldable pub u64_loop : ℕ → ℕ → Bytes → ℕ → ℕ
u64_loop zero i b v = v
u64_loop (suc rounds) i b v = u64_loop rounds (i + 1) b (bit_or (v * 2 ^ 8 % 2 ^ 64) (byte_at b i))

unfoldable pub u64be : Reader ℕ
unfolding ◌>>=◌ need u64_loop
u64be = do need 8; advance 8 (λ c. u64_loop 8 c.pos c.buf 0)

unfoldable pub take_bytes : ℕ → Reader Bytes
unfolding ◌>>=◌ need
take_bytes n = do need n; advance n (λ c. slice c.buf c.pos (c.pos + n))

unfoldable pub field16 : ℕ → Reader Bytes
unfolding ◌>>=◌ u16be take_bytes
field16 max = do n ← u16be; if ltb max n then fail oversize else take_bytes n

unfoldable pub field32 : ℕ → Reader Bytes
unfolding ◌>>=◌ u32be take_bytes
field32 max = do n ← u32be; if ltb max n then fail oversize else take_bytes n

-- `start := c.pos`, and later `c.buf[start:c.pos]`.
unfoldable pub tell : Reader ℕ
tell c = ok (c.pos, c)

unfoldable pub since : ℕ → Reader Bytes
since start c = ok (slice c.buf start c.pos, c)

-- The end of each parser: `if c.pos != len(buf) { return nil, ErrTrailingBytes }`.
abbrev pub at_end {ℓ} : {A : Type ℓ} → A × Cursor → Result A
at_end (a, c) = if c.pos == length c.buf then ok a else err trailing_bytes

unfoldable pub parse_whole {ℓ} : {A : Type ℓ} → Reader A → Bytes → Result A
parse_whole r b = Result.◌>>=◌ (r (record { buf = b; pos = 0 })) at_end
