-- ===== src/Wire/Cursor/At.antt =====
-- The readers of a cursor that stands between `pre` and `rest`.
use lastro.Common.{
  ℕ, zero, suc, ◌+◌, ◌-◌, ◌≤◌, ◌<◌, ◌≡◌, refl, Bytes, length, get_or, [], ◌∷◌, ◌++◌, append_assoc,
  arith, lengths, length-append, take-append, drop-append,
}
use lastro.Common.Result.{ok, err, truncated}
use lastro.Wire.Cursor.{Cursor, slice, need}

-- The cursor over `pre ++ rest` behind `pre`.
abbrev pub at : Bytes → Bytes → Cursor
at pre rest = record { buf = pre ++ rest; pos = length pre }

pub get_or-append :
    (pre : Bytes) (i x : ℕ) (xs : Bytes) (d : ℕ) → i ≡ length pre → get_or (pre ++ x ∷ xs) i d ≡ x
get_or-append [] zero x xs d h = refl
get_or-append [] (suc i) x xs d h = absurd (omega arith)
get_or-append (y ∷ pre) zero x xs d h = absurd (omega arith)
get_or-append (y ∷ pre) (suc i) x xs d h = get_or-append pre i x xs d (omega arith)

-- The byte at an offset from the position.
pub get_or-middle :
    (pre x rest : Bytes) (i d : ℕ)
    → i < length x
    → get_or (pre ++ (x ++ rest)) (length pre + i) d ≡ get_or x i d
get_or-middle pre [] rest i d h = elim h [ ]
get_or-middle pre (y ∷ x) rest zero d h =
    get_or-append pre (length pre + 0) y (x ++ rest) d (omega arith)
get_or-middle pre (y ∷ x) rest (suc i) d h =
    let moved : length pre + suc i ≡ length (pre ++ y ∷ []) + i = omega lengths in
    rw (moved, ← append_assoc pre (y ∷ []) (x ++ rest))
      (get_or-middle (pre ++ y ∷ []) x rest i d (omega arith))

pub slice-append :
    (pre x rest : Bytes) → slice (pre ++ (x ++ rest)) (length pre) (length pre + length x) ≡ x
slice-append pre x rest =
    let n : length pre + length x - length pre ≡ length x = omega arith in
    rw (n, drop-append pre (x ++ rest), take-append x rest)

-- The cursor that has moved over x.
pub at-append :
    (pre x rest : Bytes)
    → record { buf = pre ++ (x ++ rest); pos = length pre + length x } ≡ at (pre ++ x) rest
at-append pre x rest = rw (append_assoc, length-append)

pub need-at_ok :
    (pre rest : Bytes) (n : ℕ) → n ≤ length rest → need n (at pre rest) ≡ ok (tt, at pre rest)
unfolding need
need-at_ok pre rest n h = ground (arith, length-append pre rest)

pub need-at_short :
    (pre rest : Bytes) (n : ℕ) → length rest < n → need n (at pre rest) ≡ err truncated
unfolding need
need-at_short pre rest n h = ground (arith, length-append pre rest)
