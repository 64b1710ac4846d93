-- ===== src/Cmd/Capture/Trailer.antt =====
-- The trailer: the observed stream determines the output and the exit code.
use mathlib.Core.List.{append_cancel_right}
use lastro.Common.{
  ◌<◌, ◌≡◌, refl, sym, ap, ◌∙◌, Bytes, [], ◌∷◌, ◌++◌, append_assoc, arith, All, All-append, drop,
  get_or, subst,
}
use lastro.Common.Integers.{ℤ, IsInt, decimal, decimal_injective, decimal-NoEquals}
use lastro.Cmd.Capture.{trailer}

abbrev NoEquals : Bytes → Type 0
NoEquals = All (λ d. d < b'=')

-- No equals sign stands where all bytes are below it.
no_equals : (xs ds : Bytes) → ¬ (NoEquals (xs ++ (b'=' ∷ ds)))
no_equals [] ds h = omega (arith, h.0)
no_equals (x ∷ xs) ds h = no_equals xs ds h.1

-- The last equals sign splits a string in one way.
last_equals :
    (xs ys ds es : Bytes)
    → NoEquals ds
    → NoEquals es
    → xs ++ (b'=' ∷ ds) ≡ ys ++ (b'=' ∷ es)
    → (xs ≡ ys) × (ds ≡ es)
last_equals [] [] ds es h k e = (refl, ap (drop 1) e)
last_equals [] (y ∷ ys) ds es h k e = absurd (no_equals ys es (subst NoEquals (ap (drop 1) e) h))
last_equals (x ∷ xs) [] ds es h k e =
    absurd (no_equals xs ds (subst NoEquals (sym (ap (drop 1) e)) k))
last_equals (x ∷ xs) (y ∷ ys) ds es h k e =
    let (front, back) = last_equals xs ys ds es h k (ap (drop 1) e) in
    let first : x ≡ y = ap (λ s. get_or s 0 0) e in (rw (first, front) refl, back)

-- The trailer up to its equals sign.
abbrev lead : Bytes
lead =
    b'\n' ∷ b'[' ∷ b'l' ∷ b'a' ∷ b's' ∷ b't' ∷ b'r' ∷ b'o' ∷ b']' ∷ b' ' ∷ b'e' ∷ b'x' ∷ b'i' ∷ b't'
    ∷ b'-' ∷ b's' ∷ b't' ∷ b'a' ∷ b't' ∷ b'u' ∷ b's' ∷ []

-- Two observed streams with their trailers are the same only if the outputs and the exit codes are,
-- whatever the outputs hold.
pub trailer_injective :
    (out1 out2 : Bytes) (exit1 exit2 : ℤ)
    → IsInt exit1
    → IsInt exit2
    → out1 ++ trailer exit1 ≡ out2 ++ trailer exit2
    → (out1 ≡ out2) × (exit1 ≡ exit2)
unfolding trailer
trailer_injective out1 out2 exit1 exit2 h k e =
    let ended = λ (n : ℤ).
      All-append (λ d. d < b'=') (decimal n) (b'\n' ∷ []) (decimal-NoEquals n) (omega arith, tt) in
    let split : (out1 ++ lead) ++ (b'=' ∷ (decimal exit1 ++ (b'\n' ∷ [])))
        ≡ (out2 ++ lead) ++ (b'=' ∷ (decimal exit2 ++ (b'\n' ∷ []))) =
      append_assoc out1 lead _ ∙ e ∙ sym (append_assoc out2 lead _) in
    let (front, back) =
      last_equals (out1 ++ lead) (out2 ++ lead) _ _ (ended exit1) (ended exit2) split in
    (
      append_cancel_right out1 out2 lead front,
      decimal_injective exit1 exit2 h k
          (append_cancel_right (decimal exit1) (decimal exit2) (b'\n' ∷ []) back),
    )
