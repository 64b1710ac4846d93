-- ===== src/Wire/Transport/Binding.antt =====
-- The binding frame: what parses, what the builder makes, and what is accepted.
use lastro.Common.{
  ℕ, suc, ◌+◌, ◌-◌, ◌*◌, ◌/◌, ◌%◌, ◌^◌, ◌<◌, ◌≡◌, ◌↔◌, refl, ap, sym, ◌∙◌, Bytes, IsBytes, length,
  take, drop, [], ◌∷◌, ◌++◌, arith, ◌==◌, not, if◌then◌else◌, length-append, length-take,
  length-drop, take-append, drop-append, take-append-drop,
}
use lastro.Common.Result.{Result, ok, err, binding_length}
use lastro.Wire.Encoding.{big_endian}
use lastro.Wire.Transport.{parse_binding_frame}

-- The frame of a certificate and a signature.
abbrev pub frame_of : Bytes → Bytes → Bytes
frame_of cert sig = big_endian 2 (length cert) ++ (cert ++ sig)

-- The rest of a frame, behind the length n.
abbrev pub split : ℕ → Bytes → Result (Bytes × Bytes)
split n rest =
    if not (length rest == n + 64) then err binding_length else ok (take n rest, drop n rest)

pub parse-split :
    (a b : ℕ) (rest : Bytes) → parse_binding_frame (a ∷ b ∷ rest) ≡ split (a * 256 + b) rest
unfolding parse_binding_frame
parse-split a b rest =
    let n = (0 * 256 + a) * 256 + b in
    let same : n ≡ a * 256 + b = omega arith in
    let behind : 2 + n ≡ suc (suc (a * 256 + b)) = omega arith in
    let cut : suc (suc (a * 256 + b)) - 2 ≡ a * 256 + b = omega arith in
    rw (behind, cut) (ground arith)

split_iff :
    (n : ℕ) (rest cert sig : Bytes)
    → (split n rest ≡ ok (cert, sig))
      ↔ ((length cert ≡ n) × ((length sig ≡ 64) × (rest ≡ cert ++ sig)))
split_iff n rest cert sig = (
  (λ e.
      let parts : (length rest ≡ n + 64) × ((take n rest ≡ cert) × (drop n rest ≡ sig)) =
        ground arith in
      (
        omega (arith, parts.0, length-take n rest, ap length parts.1.0),
        (
          omega (arith, parts.0, length-drop n rest, ap length parts.1.1),
          rw (← parts.1.0, ← parts.1.1) (sym (take-append-drop n rest)),
        ),
      )),
  λ (k, (m, same)).
      rw (same, ← k, take-append cert sig, drop-append cert sig)
        (ground (arith, length-append cert sig)),
)

-- A frame parses exactly when it is the length of the certificate in two bytes, the certificate,
-- and a signature of 64 bytes.
pub parse_binding_frame_iff :
    (frame cert sig : Bytes)
    → IsBytes frame
    → (parse_binding_frame frame ≡ ok (cert, sig))
      ↔ ((length cert < 2 ^ 16) × ((length sig ≡ 64) × (frame ≡ frame_of cert sig)))
unfolding parse_binding_frame
parse_binding_frame_iff [] cert sig hb = ground arith
parse_binding_frame_iff (a ∷ []) cert sig hb = ground arith
parse_binding_frame_iff (a ∷ b ∷ rest) cert sig hb =
    let h = split_iff (a * 256 + b) rest cert sig in
    let n = parse-split a b rest in
    (
      (λ e.
          let (k, (m, same)) = h.0 (sym n ∙ e) in
          (omega (arith, hb.0, hb.1.0), (m, ground (arith, hb.0, hb.1.0)))),
      (λ (bound, (m, same)). n ∙ h.1 (ground (arith, hb.0, hb.1.0))),
    )

pub parse-frame_of :
    (cert sig : Bytes)
    → length cert < 2 ^ 16
    → length sig ≡ 64
    → parse_binding_frame (frame_of cert sig) ≡ ok (cert, sig)
parse-frame_of cert sig h k =
    let n : length cert / 256 % 256 * 256 + length cert / 1 % 256 ≡ length cert = omega arith in
    parse-split (length cert / 256 % 256) (length cert / 1 % 256) (cert ++ sig)
    ∙ rw n ((split_iff (length cert) (cert ++ sig) cert sig).1 (refl, (k, refl)))
