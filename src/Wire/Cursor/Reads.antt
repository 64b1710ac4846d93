-- ===== src/Wire/Cursor/Reads.antt =====
-- What it means that a reader decodes a format, and the rules that build such readers.
use lastro.Common.{
  ℕ, ◌≡◌, refl, ap, sym, ◌∙◌, Bytes, IsBytes, length, take, drop, [], ◌∷◌, ◌++◌, append_assoc,
  append-nil, arith, lengths, length-take, take-append-drop, IsBytes-left, IsBytes-right, Bool,
  true, false, if◌then◌else◌,
}
use lastro.Common.Result.{Error, ok, err, truncated, >>=-eq-ok}
use mathlib.Core.Path.{subst}
use native.Mathlib.Decide.{dec_lt}
use lastro.Wire.Cursor.{Cursor, Reader, need, advance, continue, ◌>>=◌, ◌>>◌, pure, fail}
use lastro.Wire.Cursor.At.{at, need-at_ok, need-at_short, at-append}

-- The reader took the bytes of `a` from the front of `rest`, and nothing else.
pub record Took {A : Type 0} (w : A → Bytes) (Fits : A → Type 0) (pre rest : Bytes)
    (out : A × Cursor) : Type 0 where
  pub left : Bytes
  pub front : rest ≡ w out.0 ++ left
  pub moved : out.1 ≡ at (pre ++ w out.0) left
  pub fits : Fits out.0

-- `r` decodes the format in which `w` writes the values that fit.
pub record Reads {A : Type 0} (r : Reader A) (w : A → Bytes) (Fits : A → Type 0) : Type 0 where
  pub forward :
      (a : A)
      → Fits a
      → (pre rest : Bytes) → r (at pre (w a ++ rest)) ≡ ok (a, at (pre ++ w a) rest)
  pub back :
      (pre rest : Bytes)
      → IsBytes rest
      → (out : A × Cursor) → r (at pre rest) ≡ ok out
      → Took w Fits pre rest out
  pub cut :
      (a : A)
      → Fits a
      → (pre front back : Bytes) (x : ℕ) → w a ≡ front ++ x ∷ back
      → r (at pre front) ≡ err truncated

-- A reader of a fixed number of bytes.
module _ {A : Type 0} (n : ℕ) (f : Cursor → A) (w : A → Bytes) (Fits : A → Type 0)
    (size : (a : A) → Fits a → length (w a) ≡ n)
    (get : (a : A) → Fits a → (pre rest : Bytes) → f (at pre (w a ++ rest)) ≡ a)
    (put : (pre x rest : Bytes)
      → IsBytes x
      → length x ≡ n
      → (w (f (at pre (x ++ rest))) ≡ x) × Fits (f (at pre (x ++ rest)))) where
  fixed_at :
      (pre x rest : Bytes)
      → length x ≡ n
      → (need n >> advance n f) (at pre (x ++ rest))
        ≡ ok (f (at pre (x ++ rest)), at (pre ++ x) rest)
  unfolding ◌>>=◌
  fixed_at pre x rest h =
      rw (need-at_ok pre (x ++ rest) n (omega (lengths)), ← h, at-append pre x rest)

  fixed-Took :
      (pre x rest : Bytes)
      → IsBytes x
      → length x ≡ n
      → (out : A × Cursor) → (need n >> advance n f) (at pre (x ++ rest)) ≡ ok out
      → Took w Fits pre (x ++ rest) out
  fixed-Took pre x rest hb h out e =
      let same : (f (at pre (x ++ rest)), at (pre ++ x) rest) ≡ out = cc (fixed_at pre x rest h) in
      let (written, fits) = put pre x rest hb h in
      subst (Took w Fits pre (x ++ rest)) same
        (record { left = rest; front = rw written; moved = rw written; fits = fits })

  pub fixed-Reads : Reads (need n >> advance n f) w Fits
  unfolding ◌>>=◌
  fixed-Reads = record {
    forward = λ a h pre rest. fixed_at pre (w a) rest (size a h) ∙ rw (get a h pre rest);
    back = λ pre rest hb out e. elim (dec_lt (length rest) n) [
      | yes short ↦ cc (need-at_short pre rest n short)
      | no enough ↦
          let split = take-append-drop n rest in
          subst (λ r. Took w Fits pre r out) split
            (fixed-Took pre (take n rest) (drop n rest)
              (IsBytes-left (take n rest) (drop n rest) (rw split hb))
              (omega (arith, length-take n rest)) out (rw split e))
    ];
    cut = λ a h pre front back x e.
        rw (need-at_short pre front n (omega (lengths, size a h, ap length e)));
  }

-- A list cut in front of x: the cut falls in the first part, or in the second.
data Cut (u v front back : Bytes) (x : ℕ) : Type 0 where
  inside : (b : Bytes) → u ≡ front ++ x ∷ b → Cut u v front back x
  behind : (f : Bytes) → front ≡ u ++ f → v ≡ f ++ x ∷ back → Cut u v front back x

cut_of : (u v front back : Bytes) (x : ℕ) → u ++ v ≡ front ++ x ∷ back → Cut u v front back x
cut_of [] v front back x e = behind front refl e
cut_of (y ∷ u) v [] back x e = inside u (cc)
cut_of (y ∷ u) v (z ∷ front) back x e = elim (cut_of u v front back x (cc)) [
  | inside b p ↦ inside b (cc)
  | behind f p q ↦ behind f (cc) q
]

pub Reads-pure : {A : Type 0} (a : A) → Reads (pure a) (λ _. []) (λ b. a ≡ b)
unfolding pure
Reads-pure a = record {
  forward = λ b h pre rest. rw (h, append-nil);
  back = λ pre rest hb out e. record {
    left = rest;
    front = refl;
    moved = rw append-nil (cc);
    fits = cc;
  };
  cut = λ b h pre front back x e.
      elim front as (λ f. [] ≡ f ++ x ∷ back → pure a (at pre f) ≡ err truncated) [
        | [] ↦ λ p. cc
        | y ∷ ys ↦ λ p. cc
      ]
        e;
}

-- A step whose result shows what the first reader read.
module _ {A B : Type 0} (m : B → A) {r : Reader A} {k : A → Reader B} {w : A → Bytes}
    {v : A → B → Bytes} {F : A → Type 0} {G : A → B → Type 0} (first : Reads r w F)
    (second : (a : A) → F a → Reads (k a) (v a) (G a))
    (shown : (a : A) → F a → (b : B) → G a b → m b ≡ a) where
  pub Reads-bind : Reads (r >>= k) (λ b. w (m b) ++ v (m b) b) (λ b. F (m b) × G (m b) b)
  unfolding ◌>>=◌
  Reads-bind = record {
    forward = λ b (h, h') pre rest.
        let u = w (m b) in
        let u' = v (m b) b in
        rw (append_assoc u u' rest, first.forward (m b) h pre (u' ++ rest))
          ((second (m b) h).forward b h' (pre ++ u) rest
            ∙ ap (λ p. ok (b, at p rest)) (append_assoc pre u u'));
    back = λ pre rest hb out e.
        let ((a, c), p, q) = >>=-eq-ok (r (at pre rest)) (continue k) e in
        let t = first.back pre rest hb (a, c) p in
        let hb' = IsBytes-right (w a) t.left (rw (← t.front) hb) in
        let t' = (second a t.fits).back (pre ++ w a) t.left hb' out (rw (← t.moved) q) in
        let s = shown a t.fits out.0 t'.fits in
        record {
          left = t'.left;
          front = rw s (
              t.front ∙ ap (λ z. w a ++ z) t'.front ∙ sym (append_assoc (w a) (v a out.0) t'.left));
          moved = rw s (t'.moved ∙ ap (λ z. at z t'.left) (append_assoc pre (w a) (v a out.0)));
          fits = rw s (t.fits, t'.fits);
        };
    cut = λ b (h, h') pre front back x e. elim (cut_of (w (m b)) (v (m b) b) front back x e) [
      | inside y p ↦ rw (first.cut (m b) h pre front y x p)
      | behind f p q ↦
          rw (p, first.forward (m b) h pre f)
            ((second (m b) h).cut b h' (pre ++ w (m b)) f back x q)
    ];
  }

-- The same format, described otherwise.
pub Reads-convert :
    {A : Type 0} {r : Reader A} {w w' : A → Bytes} {F F' : A → Type 0}
    → Reads r w F
    → ((a : A) → F a → F' a × (w a ≡ w' a))
    → ((a : A) → F' a → F a)
    → Reads r w' F'
Reads-convert {w = w} {w' = w'} reads to from = record {
  forward = λ a h pre rest. rw (← (to a (from a h)).1) (reads.forward a (from a h) pre rest);
  back = λ pre rest hb out e.
      let t = reads.back pre rest hb out e in
      let (fits, same) = to out.0 t.fits in
      record {
        left = t.left;
        front = t.front ∙ ap (λ z. z ++ t.left) same;
        moved = t.moved ∙ ap (λ z. at (pre ++ z) t.left) same;
        fits = fits;
      };
  cut = λ a h pre front back x e. reads.cut a (from a h) pre front back x ((to a (from a h)).1 ∙ e);
}

-- A value built from what was read.
pub Reads-map :
    {A B : Type 0} {r : Reader A} {w : A → Bytes} {F : A → Type 0} (g : A → B) (m : B → A)
    → ((a : A) → F a → m (g a) ≡ a)
    → Reads r w F
    → Reads (r >>= λ a. pure (g a)) (λ b. w (m b)) (λ b. F (m b) × (g (m b) ≡ b))
Reads-map {w = w} {F = F} g m inverse reads =
    Reads-convert
      (Reads-bind m reads (λ a h. Reads-pure (g a)) (λ a h b p. ap m (sym p) ∙ inverse a h))
      (λ b h. (h, append-nil (w (m b)))) (λ b h. h)

tagged :
    {A B : Type 0} {r : Reader B} {w : B → Bytes} {F : B → Type 0} (a : A)
    → Reads r w F
    → Reads {A = A × B} (r >>= λ b. pure (a, b)) (λ p. w p.1) (λ p. F p.1 × (a ≡ p.0))
tagged {A = A} {B = B} a reads =
    Reads-convert (Reads-map {B = A × B} (λ b. (a, b)) (λ p. p.1) (λ b h. refl) reads)
      (λ p h. ((h.0, ap (λ (q : A × B). q.0) h.1), refl)) (λ p h. (h.0, cc (h.1)))

pub Reads-pair :
    {A B : Type 0} {r : Reader A} {k : A → Reader B} {w : A → Bytes} {v : A → B → Bytes}
    {F : A → Type 0} {G : A → B → Type 0}
    → Reads r w F
    → ((a : A) → F a → Reads (k a) (v a) (G a))
    → Reads {A = A × B}
        (r >>= λ a. k a >>= λ b. pure (a, b))
        (λ p. w p.0 ++ v p.0 p.1)
        (λ p. F p.0 × G p.0 p.1)
Reads-pair {A = A} {B = B} {w = w} {v = v} {F = F} {G = G} first second =
    Reads-convert
      (Reads-bind {A = A} {B = A × B} (λ p. p.0) {v = λ a p. v a p.1}
        {G = λ a p. G a p.1 × (a ≡ p.0)} first (λ a h. tagged a (second a h)) (λ a f p h. sym h.1))
      (λ p h. ((h.0, h.1.0), refl)) (λ p h. (h.0, (h.1, refl)))

-- `if bad { return err }` in front of a reader.
pub Reads-guard :
    {A : Type 0} (bad : Bool) (e : Error) {r : Reader A} {w : A → Bytes} {F : A → Type 0}
    → Reads r w F
    → Reads (if bad then fail e else r) w (λ a. (bad ≡ false) × F a)
unfolding fail
Reads-guard true e reads = record {
  forward = λ a h. cc h.0;
  back = λ pre rest hb out p. cc p;
  cut = λ a h. cc h.0;
}
Reads-guard false e reads = Reads-convert reads (λ a h. ((refl, h), refl)) (λ a h. h.1)
