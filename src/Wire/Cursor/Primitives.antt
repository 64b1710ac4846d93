-- ===== src/Wire/Cursor/Primitives.antt =====
-- Each method of the cursor decodes its format.
use lastro.Common.{
  ℕ, ◌+◌, ◌*◌, ◌%◌, ◌^◌, ◌≤◌, ◌<◌, ◌≡◌, refl, ap, sym, subst, ◌∙◌, bit_or, Bytes, IsBytes, length,
  get_or, each_of, [], ◌∷◌, ◌++◌, append_assoc, arith, lengths, false, if◌then◌else◌, ltb, ltb→le,
  le→ltb,
}
use lastro.Common.Bits.{bit_or-eq-add}
use lastro.Common.Result.{oversize}
use lastro.Wire.Encoding.{big_endian, length-big_endian, big_endian-IsBytes}
use lastro.Wire.Cursor.{
  Cursor, Reader, need, advance, ◌>>=◌, ◌>>◌, fail, byte_at, slice, u8, u16be, u32be, u64_loop,
  u64be, take_bytes, field16, field32,
}
use lastro.Wire.Cursor.At.{at, get_or-append, get_or-middle, slice-append}
use lastro.Wire.Cursor.Reads.{Reads, fixed-Reads, Reads-convert, Reads-bind, Reads-guard}

pub u8-Reads : Reads u8 (λ v. v ∷ []) (λ v. v < 256)
unfolding u8
u8-Reads =
    fixed-Reads 1 (λ c. byte_at c.buf c.pos) (λ v. v ∷ []) (λ v. v < 256) (λ v h. refl)
      (λ v h pre rest. get_or-append pre (length pre) v rest 0 refl) u8_put
  where
    u8_put :
        (pre x rest : Bytes)
        → IsBytes x
        → length x ≡ 1
        → (byte_at (at pre (x ++ rest)).buf (length pre) ∷ [] ≡ x)
          × (byte_at (at pre (x ++ rest)).buf (length pre) < 256)
    u8_put pre [] rest h e = absurd (omega arith)
    u8_put pre (x ∷ []) rest h e = rw (get_or-append pre (length pre) x rest 0 refl) (refl, h.0)
    u8_put pre (x ∷ y ∷ ys) rest h e = absurd (omega arith)

-- A number of k bytes: what the reader computes from the bytes at the position is `value`.
module _ (k bound : ℕ) (f : Cursor → ℕ) (value : Bytes → ℕ)
    (computes : (pre x rest : Bytes) → IsBytes x → length x ≡ k → f (at pre (x ++ rest)) ≡ value x)
    (decodes : (v : ℕ) → v < bound → value (big_endian k v) ≡ v)
    (encodes : (x : Bytes)
      → IsBytes x
      → length x ≡ k
      → (big_endian k (value x) ≡ x) × (value x < bound)) where
  number-Reads : Reads (need k >> advance k f) (big_endian k) (λ v. v < bound)
  number-Reads =
      fixed-Reads k f (big_endian k) (λ v. v < bound) (λ v h. length-big_endian k v)
        (λ v h pre rest.
          computes pre (big_endian k v) rest (big_endian-IsBytes k v) (length-big_endian k v)
          ∙ decodes v h)
        (λ pre x rest hb e. rw (computes pre x rest hb e) (encodes x hb e))

abbrev value2 : Bytes → ℕ
value2 x = get_or x 0 0 * 2 ^ 8 + get_or x 1 0

abbrev value4 : Bytes → ℕ
value4 x = get_or x 0 0 * 2 ^ 24 + get_or x 1 0 * 2 ^ 16 + get_or x 2 0 * 2 ^ 8 + get_or x 3 0

-- One round of u64be: `v << 8 | b`, where the shift drops the top byte.
abbrev round64 : ℕ → ℕ → ℕ
round64 v b = v % 2 ^ 56 * 2 ^ 8 + b

abbrev value8_from : ℕ → Bytes → ℕ
value8_from v [] = v
value8_from v (b ∷ bs) = value8_from (round64 v b) bs

round64_lem : (v b : ℕ) → b < 256 → bit_or (v * 2 ^ 8 % 2 ^ 64) b ≡ round64 v b
round64_lem v b h =
    let shifted : v * 2 ^ 8 % 2 ^ 64 ≡ v % 2 ^ 56 * 2 ^ 8 = omega arith in
    rw shifted (bit_or-eq-add 8 (v % 2 ^ 56) b h)

u64_loop-value :
    (pre x rest : Bytes) (i v : ℕ)
    → i ≡ length pre
    → IsBytes x
    → u64_loop (length x) i (pre ++ (x ++ rest)) v ≡ value8_from v x
unfolding u64_loop
u64_loop-value pre [] rest i v e h = refl
u64_loop-value pre (b ∷ x) rest i v e h =
    ap (λ w. u64_loop (length x) (i + 1) (pre ++ b ∷ (x ++ rest)) w)
      (rw (get_or-append pre i b (x ++ rest) 0 e) (round64_lem v b h.0))
    ∙ ap (λ z. u64_loop (length x) (i + 1) z (round64 v b))
        (sym (append_assoc pre (b ∷ []) (x ++ rest)))
    ∙ u64_loop-value (pre ++ b ∷ []) x rest (i + 1) (round64 v b) (omega lengths) h.1

-- The byte at an offset, where it is known which bytes stand at the position.
byte_at-middle :
    (pre x rest : Bytes) (i : ℕ)
    → i < length x
    → byte_at (pre ++ (x ++ rest)) (length pre + i) ≡ get_or x i 0
byte_at-middle pre x rest i h = get_or-middle pre x rest i 0 h

-- The byte at the position itself.
byte_at-first :
    (pre x rest : Bytes) → 0 < length x → byte_at (pre ++ (x ++ rest)) (length pre) ≡ get_or x 0 0
byte_at-first pre [] rest h = elim h [ ]
byte_at-first pre (b ∷ x) rest h = get_or-append pre (length pre) b (x ++ rest) 0 refl

or2 : (x y : ℕ) → y < 256 → bit_or (x * 2 ^ 8) y ≡ x * 2 ^ 8 + y
or2 x y h = bit_or-eq-add 8 x y h

or4 :
    (x y z t : ℕ)
    → y < 256
    → z < 256
    → t < 256
    → bit_or (bit_or (bit_or (x * 2 ^ 24) (y * 2 ^ 16)) (z * 2 ^ 8)) t
      ≡ x * 2 ^ 24 + y * 2 ^ 16 + z * 2 ^ 8 + t
or4 x y z t hy hz ht =
    let a : bit_or (x * 2 ^ 24) (y * 2 ^ 16) ≡ (x * 2 ^ 8 + y) * 2 ^ 16 =
      bit_or-eq-add 24 x (y * 2 ^ 16) (omega arith) ∙ omega arith in
    let b : bit_or ((x * 2 ^ 8 + y) * 2 ^ 16) (z * 2 ^ 8) ≡ (x * 2 ^ 16 + y * 2 ^ 8 + z) * 2 ^ 8 =
      bit_or-eq-add 16 (x * 2 ^ 8 + y) (z * 2 ^ 8) (omega arith) ∙ omega arith in
    rw (a, b) (bit_or-eq-add 8 (x * 2 ^ 16 + y * 2 ^ 8 + z) t ht ∙ omega arith)

u16_computes :
    (pre x rest : Bytes)
    → IsBytes x
    → length x ≡ 2
    → bit_or
        (byte_at (pre ++ (x ++ rest)) (length pre) * 2 ^ 8)
        (byte_at (pre ++ (x ++ rest)) (length pre + 1))
      ≡ value2 x
u16_computes pre x rest h e =
    rw (byte_at-first pre x rest (omega arith), byte_at-middle pre x rest 1 (omega arith))
      (each_of 2 (λ x. IsBytes x → bit_or (get_or x 0 0 * 2 ^ 8) (get_or x 1 0) ≡ value2 x)
        (λ a b h. or2 a b h.1.0) x e h)

u32_computes :
    (pre x rest : Bytes)
    → IsBytes x
    → length x ≡ 4
    → bit_or
        (bit_or
          (bit_or
            (byte_at (pre ++ (x ++ rest)) (length pre) * 2 ^ 24)
            (byte_at (pre ++ (x ++ rest)) (length pre + 1) * 2 ^ 16))
          (byte_at (pre ++ (x ++ rest)) (length pre + 2) * 2 ^ 8))
        (byte_at (pre ++ (x ++ rest)) (length pre + 3))
      ≡ value4 x
u32_computes pre x rest h e =
    rw
      (
        byte_at-first pre x rest (omega arith),
        byte_at-middle pre x rest 1 (omega arith),
        byte_at-middle pre x rest 2 (omega arith),
        byte_at-middle pre x rest 3 (omega arith),
      )
      (each_of 4
        (λ x.
          IsBytes x
          → bit_or
              (bit_or (bit_or (get_or x 0 0 * 2 ^ 24) (get_or x 1 0 * 2 ^ 16))
                (get_or x 2 0 * 2 ^ 8))
              (get_or x 3 0)
            ≡ value4 x)
        (λ a b c d h. or4 a b c d h.1.0 h.1.1.0 h.1.1.1.0) x e h)

pub u16be-Reads : Reads u16be (big_endian 2) (λ v. v < 2 ^ 16)
unfolding u16be
u16be-Reads =
    number-Reads 2 (2 ^ 16) _ value2 u16_computes (λ v h. omega arith)
      (λ x h e.
        each_of 2 (λ x. IsBytes x → (big_endian 2 (value2 x) ≡ x) × (value2 x < 2 ^ 16))
          (λ a b h. (ground arith, omega arith)) x e h)

pub u32be-Reads : Reads u32be (big_endian 4) (λ v. v < 2 ^ 32)
unfolding u32be
u32be-Reads =
    number-Reads 4 (2 ^ 32) _ value4 u32_computes (λ v h. omega arith)
      (λ x h e.
        each_of 4 (λ x. IsBytes x → (big_endian 4 (value4 x) ≡ x) × (value4 x < 2 ^ 32))
          (λ a b c d h. (ground arith, omega arith)) x e h)

pub u64be-Reads : Reads u64be (big_endian 8) (λ v. v < 2 ^ 64)
unfolding u64be
u64be-Reads =
    number-Reads 8 (2 ^ 64) _ (value8_from 0)
      (λ pre x rest h e.
        subst (λ n. u64_loop n (length pre) (pre ++ (x ++ rest)) 0 ≡ value8_from 0 x) e
          (u64_loop-value pre x rest (length pre) 0 refl h))
      (λ v h. omega arith)
      (λ x h e.
        each_of 8
          (λ x. IsBytes x → (big_endian 8 (value8_from 0 x) ≡ x) × (value8_from 0 x < 2 ^ 64))
          (λ a b c d e' f g i h. (ground arith, omega arith)) x e h)

pub take_bytes-Reads : (n : ℕ) → Reads (take_bytes n) (λ x. x) (λ x. length x ≡ n)
unfolding take_bytes
take_bytes-Reads n =
    fixed-Reads n (λ c. slice c.buf c.pos (c.pos + n)) (λ x. x) (λ x. length x ≡ n) (λ x h. h)
      (λ x h pre rest.
        subst (λ k. slice (pre ++ (x ++ rest)) (length pre) (length pre + k) ≡ x) h
          (slice-append pre x rest))
      (λ pre x rest hb h.
        let got =
          subst (λ k. slice (pre ++ (x ++ rest)) (length pre) (length pre + k) ≡ x) h
            (slice-append pre x rest) in
        rw got (refl, h))

-- A length in front of the bytes, bounded by max: the bytes that are there.
prefixed :
    {r : Reader ℕ} {w : ℕ → Bytes} (bound max : ℕ)
    → Reads r w (λ v. v < bound)
    → Reads
        (r >>= λ n. if ltb max n then fail oversize else take_bytes n)
        (λ x. w (length x) ++ x)
        (λ x. (length x < bound) × (length x ≤ max))
prefixed {w = w} bound max reads =
    Reads-convert
      (Reads-bind length {v = λ n x. x} {G = λ n x. (ltb max n ≡ false) × (length x ≡ n)} reads
        (λ n h. Reads-guard (ltb max n) oversize (take_bytes-Reads n)) (λ n f x h. h.1))
      (λ x h. ((h.0, ltb→le max (length x) h.1.0), refl))
      (λ x h. (h.0, (le→ltb max (length x) h.1, refl)))

pub field16-Reads :
    (max : ℕ)
    → Reads
        (field16 max)
        (λ x. big_endian 2 (length x) ++ x)
        (λ x. (length x < 2 ^ 16) × (length x ≤ max))
unfolding field16
field16-Reads max = prefixed (2 ^ 16) max u16be-Reads

pub field32-Reads :
    (max : ℕ)
    → Reads
        (field32 max)
        (λ x. big_endian 4 (length x) ++ x)
        (λ x. (length x < 2 ^ 32) × (length x ≤ max))
unfolding field32
field32-Reads max = prefixed (2 ^ 32) max u32be-Reads
