-- ===== src/Common/Regions.antt =====
-- Go's copy into a buffer, and a buffer as a row of regions of known lengths.
use Prim.Native.Nat.{ℕ, zero, suc, ◌+◌, ◌≤◌, ◌<◌}
use mathlib.Core.Path.{◌≡◌, refl, ap, sym, ◌∙◌}
use mathlib.Core.List.{List, [], ◌∷◌, ◌++◌, append-nil}
use native.Mathlib.Omega.{arith}
use native.Mathlib.Nat.{suc-add, zero-add}
use lastro.Common.Lists.{
  Bytes, length, take, drop, get_or, length-take, length-drop, take-append-drop, length-append,
  take-append,
}

-- `copy(b, x)`: as much of x as b has room for.
abbrev pub overwrite : Bytes → Bytes → Bytes
overwrite [] b = b
overwrite (y ∷ x) [] = []
overwrite (y ∷ x) (z ∷ b) = y ∷ overwrite x b

-- `copy(b[off:], x)`; an offset beyond the end would panic, and leaves the buffer here.
abbrev pub copy_at : ℕ → Bytes → Bytes → Bytes
copy_at zero x b = overwrite x b
copy_at (suc off) x [] = []
copy_at (suc off) x (z ∷ b) = z ∷ copy_at off x b

pub overwrite-append : (x r s : Bytes) → length x ≡ length r → overwrite x (r ++ s) ≡ x ++ s
overwrite-append [] [] s h = refl
overwrite-append [] (z ∷ r) s h = absurd (omega arith)
overwrite-append (y ∷ x) [] s h = absurd (omega arith)
overwrite-append (y ∷ x) (z ∷ r) s h = ap (λ t. y ∷ t) (overwrite-append x r s (omega arith))

copy_at-skip :
    (r s x : Bytes) (k n : ℕ) → n ≡ length r → copy_at (n + k) x (r ++ s) ≡ r ++ copy_at k x s
copy_at-skip [] s x k zero h = rw zero-add
copy_at-skip [] s x k (suc n) h = absurd (omega arith)
copy_at-skip (z ∷ r) s x k zero h = absurd (omega arith)
copy_at-skip (z ∷ r) s x k (suc n) h =
    rw suc-add (ap (λ t. z ∷ t) (copy_at-skip r s x k n (omega arith)))

drop-skip : (r s : Bytes) (k n : ℕ) → n ≡ length r → drop (n + k) (r ++ s) ≡ drop k s
drop-skip [] s k zero h = rw zero-add
drop-skip [] s k (suc n) h = absurd (omega arith)
drop-skip (z ∷ r) s k zero h = absurd (omega arith)
drop-skip (z ∷ r) s k (suc n) h = rw suc-add (drop-skip r s k n (omega arith))

take-skip : (r s : Bytes) (k n : ℕ) → n ≡ length r → take (n + k) (r ++ s) ≡ r ++ take k s
take-skip [] s k zero h = rw zero-add
take-skip [] s k (suc n) h = absurd (omega arith)
take-skip (z ∷ r) s k zero h = absurd (omega arith)
take-skip (z ∷ r) s k (suc n) h = rw suc-add (ap (λ t. z ∷ t) (take-skip r s k n (omega arith)))

abbrev pub set {ℓ} : {A : Type ℓ} → List A → ℕ → A → List A
set [] i v = []
set (x ∷ xs) zero v = v ∷ xs
set (x ∷ xs) (suc i) v = x ∷ set xs i v

abbrev pub join : List Bytes → Bytes
join [] = []
join (r ∷ rs) = r ++ join rs

-- The regions of a buffer, and behind them what is left of it.
abbrev pub regions_of : List ℕ → Bytes → List Bytes
regions_of [] b = b ∷ []
regions_of (n ∷ ns) b = take n b ∷ regions_of ns (drop n b)

abbrev pub total : List ℕ → ℕ
total [] = 0
total (n ∷ ns) = n + total ns

-- Where region i begins.
abbrev pub offset : List ℕ → ℕ → ℕ
offset [] i = 0
offset (n ∷ ns) zero = 0
offset (n ∷ ns) (suc i) = n + offset ns i

abbrev pub Sized : List ℕ → List Bytes → Type 0
Sized [] rs = Unit
Sized (n ∷ ns) [] = ⊥
Sized (n ∷ ns) (r ∷ rs) = (n ≡ length r) × Sized ns rs

pub join-regions_of : (ns : List ℕ) (b : Bytes) → join (regions_of ns b) ≡ b
join-regions_of [] b = append-nil b
join-regions_of (n ∷ ns) b =
    ap (λ t. take n b ++ t) (join-regions_of ns (drop n b)) ∙ take-append-drop n b

pub regions_of-Sized : (ns : List ℕ) (b : Bytes) → total ns ≤ length b → Sized ns (regions_of ns b)
regions_of-Sized [] b h = tt
regions_of-Sized (n ∷ ns) b h = (
  omega (arith, length-take n b),
  regions_of-Sized ns (drop n b) (omega (arith, length-drop n b)),
)

-- A copy of the right length into region i sets that region, and keeps the sizes.
pub copy_at-join :
    (ns : List ℕ) (rs : List Bytes) (i : ℕ) (x : Bytes)
    → Sized ns rs
    → i < length ns
    → get_or ns i 0 ≡ length x
    → (copy_at (offset ns i) x (join rs) ≡ join (set rs i x)) × Sized ns (set rs i x)
copy_at-join [] rs i x sized lt n = absurd (omega arith)
copy_at-join (n ∷ ns) [] i x sized lt e = absurd sized
copy_at-join (n ∷ ns) (r ∷ rs) zero x sized lt e =
    (overwrite-append x r (join rs) (omega (arith, sized.0)), (e, sized.1))
copy_at-join (n ∷ ns) (r ∷ rs) (suc i) x sized lt e =
    let (copied, kept) = copy_at-join ns rs i x sized.1 (omega arith) e in
    (copy_at-skip r (join rs) x (offset ns i) n sized.0 ∙ ap (λ t. r ++ t) copied, (sized.0, kept))

-- Region i, read at its offset.
pub slice-join :
    (ns : List ℕ) (rs : List Bytes) (i : ℕ)
    → Sized ns rs
    → i < length ns
    → take (get_or ns i 0) (drop (offset ns i) (join rs)) ≡ get_or rs i []
slice-join [] rs i sized lt = absurd (omega arith)
slice-join (n ∷ ns) [] i sized lt = absurd sized
slice-join (n ∷ ns) (r ∷ rs) zero sized lt = rw sized.0 (take-append r (join rs))
slice-join (n ∷ ns) (r ∷ rs) (suc i) sized lt =
    ap (take (get_or ns i 0)) (drop-skip r (join rs) (offset ns i) n sized.0)
    ∙ slice-join ns rs i sized.1 (omega arith)

-- What stands in front of region i.
pub take-join :
    (ns : List ℕ) (rs : List Bytes) (i : ℕ)
    → Sized ns rs
    → i < length ns
    → take (offset ns i) (join rs) ≡ join (take i rs)
take-join [] rs i sized lt = absurd (omega arith)
take-join (n ∷ ns) [] i sized lt = absurd sized
take-join (n ∷ ns) (r ∷ rs) zero sized lt = refl
take-join (n ∷ ns) (r ∷ rs) (suc i) sized lt =
    take-skip r (join rs) (offset ns i) n sized.0
    ∙ ap (λ t. r ++ t) (take-join ns rs i sized.1 (omega arith))

pub length-join : (ns : List ℕ) (rs : List Bytes) → Sized ns rs → total ns ≤ length (join rs)
length-join [] rs sized = omega arith
length-join (n ∷ ns) [] sized = absurd sized
length-join (n ∷ ns) (r ∷ rs) sized =
    omega (arith, sized.0, length-append r (join rs), length-join ns rs sized.1)

-- A row of copies, each into a region.
abbrev pub copy_all : List ℕ → List (ℕ × Bytes) → Bytes → Bytes
copy_all ns [] b = b
copy_all ns ((i, x) ∷ copies) b = copy_all ns copies (copy_at (offset ns i) x b)

abbrev pub set_all : List Bytes → List (ℕ × Bytes) → List Bytes
set_all rs [] = rs
set_all rs ((i, x) ∷ copies) = set_all (set rs i x) copies

abbrev pub FitAll : List ℕ → List (ℕ × Bytes) → Type 0
FitAll ns [] = Unit
FitAll ns ((i, x) ∷ copies) = (i < length ns) × ((get_or ns i 0 ≡ length x) × FitAll ns copies)

pub copy_all-join :
    (ns : List ℕ) (rs : List Bytes) (copies : List (ℕ × Bytes))
    → Sized ns rs
    → FitAll ns copies
    → copy_all ns copies (join rs) ≡ join (set_all rs copies)
copy_all-join ns rs [] sized h = refl
copy_all-join ns rs ((i, x) ∷ copies) sized (lt, (size, more)) =
    let (copied, kept) = copy_at-join ns rs i x sized lt size in
    ap (copy_all ns copies) copied ∙ copy_all-join ns (set rs i x) copies kept more

-- The copies turn a buffer that is long enough into its regions, those copied to replaced.
pub copy_all-regions_of :
    (ns : List ℕ) (copies : List (ℕ × Bytes)) (b : Bytes)
    → total ns ≤ length b
    → FitAll ns copies
    → copy_all ns copies b ≡ join (set_all (regions_of ns b) copies)
copy_all-regions_of ns copies b room h =
    ap (copy_all ns copies) (sym (join-regions_of ns b))
    ∙ copy_all-join ns (regions_of ns b) copies (regions_of-Sized ns b room) h

pub set_all-Sized :
    (ns : List ℕ) (rs : List Bytes) (copies : List (ℕ × Bytes))
    → Sized ns rs
    → FitAll ns copies
    → Sized ns (set_all rs copies)
set_all-Sized ns rs [] sized h = sized
set_all-Sized ns rs ((i, x) ∷ copies) sized (lt, (size, more)) =
    let (_, kept) = copy_at-join ns rs i x sized lt size in
    set_all-Sized ns (set rs i x) copies kept more

pub overwrite_full : (x b : Bytes) → length x ≡ length b → overwrite x b ≡ x
overwrite_full [] [] h = refl
overwrite_full [] (z ∷ b) h = absurd (omega arith)
overwrite_full (y ∷ x) [] h = absurd (omega arith)
overwrite_full (y ∷ x) (z ∷ b) h = ap (λ t. y ∷ t) (overwrite_full x b (omega arith))

-- Regions of these sizes and a rest as long as what is left of a buffer are as long as the buffer.
abbrev pub left_of : List ℕ → Bytes → Bytes
left_of [] b = b
left_of (n ∷ ns) b = left_of ns (drop n b)

abbrev pub IsRest : List ℕ → List Bytes → Bytes → Type 0
IsRest [] [] b = ⊥
IsRest [] (r ∷ rs) b = (length r ≡ length b) × (rs ≡ [])
IsRest (n ∷ ns) [] b = ⊥
IsRest (n ∷ ns) (r ∷ rs) b = IsRest ns rs b

pub length-join_rest :
    (ns : List ℕ) (rs : List Bytes) (b : Bytes)
    → total ns ≤ length b
    → Sized ns rs
    → IsRest ns rs (left_of ns b)
    → length (join rs) ≡ length b
length-join_rest [] [] b room sized rest = absurd rest
length-join_rest [] (r ∷ rs) b room sized (size, none) =
    omega (arith, size, length-append r (join rs), ap (λ l. length (join l)) none)
length-join_rest (n ∷ ns) [] b room sized rest = absurd sized
length-join_rest (n ∷ ns) (r ∷ rs) b room (size, sized) rest =
    let tail =
      length-join_rest ns rs (drop n b) (omega (arith, room, length-drop n b)) sized rest in
    omega (arith, tail, size, room, length-append r (join rs), length-drop n b)
