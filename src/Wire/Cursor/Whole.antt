-- ===== src/Wire/Cursor/Whole.antt =====
-- A reader that also returns the bytes that it read, and a parser of exactly one structure.
use mathlib.Core.Path.{subst}
use lastro.Common.{
  ℕ, ◌≡◌, refl, Bytes, length, [], ◌∷◌, ◌++◌, arith, sym, ap, ◌∙◌, length-append, IsBytes,
  append_assoc, append-nil,
}
use lastro.Common.Result.{ok, err, truncated, trailing_bytes, >>=-eq-ok}
use lastro.Wire.Cursor.{Cursor, Reader, ◌>>=◌, pure, tell, since, slice, parse_whole, at_end}
use lastro.Wire.Cursor.At.{at, slice-append}
use lastro.Wire.Cursor.Reads.{Reads, Took}

-- `start := c.pos`, the reader, and `c.buf[start:c.pos]`.
abbrev pub spanned : {A : Type 0} → Reader A → Reader (A × Bytes)
spanned r = tell >>= λ start. r >>= λ a. since start >>= λ x. pure (a, x)

since-at :
    (pre x rest : Bytes) → since (length pre) (at (pre ++ x) rest) ≡ ok (x, at (pre ++ x) rest)
unfolding since
since-at pre x rest =
    let got : slice (pre ++ x ++ rest) (length pre) (length (pre ++ x)) ≡ x =
      rw (append_assoc pre x rest, length-append pre x) (slice-append pre x rest) in
    ap (λ b. ok (b, at (pre ++ x) rest)) got

module _ {A : Type 0} (a : A) (x : Bytes) where
  end-at : at_end (a, at x []) ≡ ok a
  end-at = ground (arith, length-append x [])

  end-at_more : (y : ℕ) (ys : Bytes) → at_end (a, at x (y ∷ ys)) ≡ err trailing_bytes
  end-at_more y ys = ground (arith, length-append x (y ∷ ys))

  end_inv : (left : Bytes) (b : A) → at_end (a, at x left) ≡ ok b → (left ≡ []) × (a ≡ b)
  end_inv [] b e = (refl, cc (end-at))
  end_inv (y ∷ ys) b e = cc (end-at_more y ys)

module _ {A : Type 0} {r : Reader A} {w : A → Bytes} {F : A → Type 0} (reads : Reads r w F) where
  spanned_step :
      (pre rest left : Bytes) (a : A)
      → r (at pre rest) ≡ ok (a, at (pre ++ w a) left)
      → spanned r (at pre rest) ≡ ok ((a, w a), at (pre ++ w a) left)
  unfolding ◌>>=◌ tell pure
  spanned_step pre rest left a e = rw (e, since-at pre (w a) left)

  spanned_inv :
      (pre rest : Bytes)
      → IsBytes rest
      → (out : (A × Bytes) × Cursor) → spanned r (at pre rest) ≡ ok out
      → Took {A = A × Bytes} (λ p. p.1) (λ p. F p.0 × (p.1 ≡ w p.0)) pre rest out
  unfolding ◌>>=◌ tell pure
  spanned_inv pre rest hb out e =
      let ((a, c), p, q) = >>=-eq-ok (r (at pre rest)) _ e in
      let t = reads.back pre rest hb (a, c) p in
      let step = spanned_step pre rest t.left a (p ∙ ap (λ z. ok (a, z)) t.moved) in
      let same : ((a, w a), at (pre ++ w a) t.left) ≡ out = cc (step, e) in
      subst (Took {A = A × Bytes} (λ p. p.1) (λ p. F p.0 × (p.1 ≡ w p.0)) pre rest) same
        (record { left = t.left; front = t.front; moved = refl; fits = (t.fits, refl) })

  spanned_cut :
      (pre front : Bytes)
      → r (at pre front) ≡ err truncated
      → spanned r (at pre front) ≡ err truncated
  unfolding ◌>>=◌ tell pure
  spanned_cut pre front e = rw e

  pub Reads-spanned : Reads {A = A × Bytes} (spanned r) (λ p. p.1) (λ p. F p.0 × (p.1 ≡ w p.0))
  Reads-spanned = record {
    forward = λ p h pre rest.
        rw h.1 (spanned_step pre (w p.0 ++ rest) rest p.0 (reads.forward p.0 h.0 pre rest));
    back = spanned_inv;
    cut = λ p h pre front back x e.
        spanned_cut pre front (reads.cut p.0 h.0 pre front back x (sym h.1 ∙ e));
  }

  -- Exactly one structure: what was written parses back,
  pub whole-written : (a : A) → F a → parse_whole r (w a) ≡ ok a
  unfolding parse_whole
  whole-written a h =
      let step =
        subst (λ z. r (at [] z) ≡ ok (a, at (w a) [])) (append-nil (w a))
          (reads.forward a h [] []) in
      rw step (end-at a (w a))

  -- only what was written parses,
  pub whole_inv : (b : Bytes) (a : A) → IsBytes b → parse_whole r b ≡ ok a → F a × (b ≡ w a)
  unfolding parse_whole
  whole_inv b a hb e =
      let ((a', c), p, q) = >>=-eq-ok (r (at [] b)) at_end e in
      let t = reads.back [] b hb (a', c) p in
      let (empty, same) =
        end_inv a' (w a') t.left a (subst (λ z. at_end (a', z) ≡ ok a) t.moved q) in
      rw (← same) (t.fits, t.front ∙ ap (λ z. w a' ++ z) empty ∙ append-nil (w a'))

  -- bytes behind it are refused,
  pub whole_trailing :
      (a : A) → F a → (x : ℕ) (more : Bytes) → parse_whole r (w a ++ x ∷ more) ≡ err trailing_bytes
  unfolding parse_whole
  whole_trailing a h x more = rw (reads.forward a h [] (x ∷ more)) (end-at_more a (w a) x more)

  -- and so is every proper prefix.
  pub whole_cut :
      (a : A)
      → F a
      → (front back : Bytes) (x : ℕ) → w a ≡ front ++ x ∷ back
      → parse_whole r front ≡ err truncated
  unfolding parse_whole
  whole_cut a h front back x e = rw (reads.cut a h [] front back x e)
