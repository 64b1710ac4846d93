-- ===== src/Cmd/Resource/Grammar.antt =====
-- The check of a resource name against its grammar: a namespace, and segments joined by slashes.
use lastro.Common.{
  ℕ, ◌≤◌, ◌≡◌, ◌≢◌, ◌↔◌, ◌⊎◌, inl, inr, refl, sym, ap, ◌∙◌, Bool, true, false, none, Bytes, List,
  length, [], ◌∷◌, ◌++◌, ◌==◌, ==_iff, arith, All, All-append, All-map, equal_iff,
}
use lastro.Cmd.Resource.{
  namespace_byte, path_byte, all_in, into_first, split, bad_segment, any_bad, validate_resource,
}

-- a to z, or 0 to 9
abbrev pub IsAlphanumeric : ℕ → Type 0
IsAlphanumeric c = ((b'a' ≤ c) × (c ≤ b'z')) ⊎ ((b'0' ≤ c) × (c ≤ b'9'))

abbrev pub IsNamespaceByte : ℕ → Type 0
IsNamespaceByte c = IsAlphanumeric c ⊎ (c ≡ b'-')

abbrev pub IsSegmentByte : ℕ → Type 0
IsSegmentByte c = IsAlphanumeric c ⊎ ((c ≡ b'-') ⊎ ((c ≡ b'.') ⊎ (c ≡ b'_')))

pub record IsSegment (seg : Bytes) : Type 0 where
  pub bytes : All IsSegmentByte seg
  pub nonempty : seg ≢ []
  pub no_dot : seg ≢ b'.' ∷ []
  pub no_dots : seg ≢ b'.' ∷ b'.' ∷ []

-- Segments with slashes between them.
abbrev pub slashed : Bytes → List Bytes → Bytes
slashed seg [] = seg
slashed seg (next ∷ segs) = seg ++ (b'/' ∷ slashed next segs)

pub record IsResource (ns p : Bytes) : Type 0 where
  pub namespace_length : (1 ≤ length ns) × (length ns ≤ 32)
  pub namespace : All IsNamespaceByte ns
  pub path_length : (1 ≤ length p) × (length p ≤ 180)
  pub path :
      (seg : Bytes) × (segs : List Bytes) × (p ≡ slashed seg segs) × All IsSegment (seg ∷ segs)

module _ (test : ℕ → Bool) (P : ℕ → Type 0) (same : (c : ℕ) → (test c ≡ true) ↔ P c) where
  pub all_in_iff : (cs : Bytes) → (all_in test cs ≡ true) ↔ All P cs
  unfolding all_in
  all_in_iff [] = ((λ h. tt), (λ h. refl))
  all_in_iff (c ∷ cs) = ground (arith, same c, all_in_iff cs)

namespace_byte_iff : (c : ℕ) → (namespace_byte c ≡ true) ↔ IsNamespaceByte c
namespace_byte_iff c = ground arith

path_byte_iff : (c : ℕ) → (path_byte c ≡ true) ↔ (IsSegmentByte c ⊎ (c ≡ b'/'))
path_byte_iff c = ground arith

slashed-cons :
    (c : ℕ) (seg : Bytes) (segs : List Bytes) → slashed (c ∷ seg) segs ≡ c ∷ slashed seg segs
slashed-cons c seg [] = refl
slashed-cons c seg (next ∷ segs) = refl

-- The two ways in which split goes on.
split-slash : (c : ℕ) (cs : Bytes) → c ≡ b'/' → split b'/' (c ∷ cs) ≡ [] ∷ split b'/' cs
unfolding split
split-slash c cs e = rw ((==_iff c b'/').1 e) refl

split-other :
    (c : ℕ) (cs : Bytes) → IsSegmentByte c → split b'/' (c ∷ cs) ≡ into_first c (split b'/' cs)
unfolding split
split-other c cs h = let differs : (c == b'/') ≡ false = ground arith in rw differs refl

-- split, as a first segment and the others.
pub split-cons :
    (p : Bytes)
    → All (λ c. IsSegmentByte c ⊎ (c ≡ b'/')) p
    → (seg : Bytes) × (segs : List Bytes) × (split b'/' p ≡ seg ∷ segs)
      × (p ≡ slashed seg segs)
      × All (All IsSegmentByte) (seg ∷ segs)
unfolding split
split-cons [] h = ([], [], refl, refl, (tt, tt))
split-cons (c ∷ cs) (h, hs) =
    let (seg, segs, e, joined, each) = split-cons cs hs in
    elim h [
      | inl other ↦ (
        c ∷ seg,
        segs,
        split-other c cs other ∙ ap (into_first c) e,
        ap (λ r. c ∷ r) joined ∙ sym (slashed-cons c seg segs),
        ((other, each.0), each.1),
      )
      | inr slash ↦ (
        [],
        seg ∷ segs,
        split-slash c cs slash ∙ ap (λ r. [] ∷ r) e,
        (λ i. slash i ∷ joined i),
        (tt, each),
      )
    ]

bad_segment_iff : (seg : Bytes) → All IsSegmentByte seg → (bad_segment seg ≡ false) ↔ IsSegment seg
bad_segment_iff seg h =
    ground (arith, equal_iff seg [], equal_iff seg (b'.' ∷ []), equal_iff seg (b'.' ∷ b'.' ∷ []))

any_bad_iff :
    (segs : List Bytes) → All (All IsSegmentByte) segs → (any_bad segs ≡ false) ↔ All IsSegment segs
unfolding any_bad
any_bad_iff [] h = ((λ h. tt), (λ h. refl))
any_bad_iff (seg ∷ segs) (h, hs) = ground (arith, bad_segment_iff seg h, any_bad_iff segs hs)

-- Segments without a slash come back.
split-slashed :
    (seg : Bytes) (segs : List Bytes)
    → All (All IsSegmentByte) (seg ∷ segs)
    → split b'/' (slashed seg segs) ≡ seg ∷ segs
unfolding split
split-slashed [] [] h = refl
split-slashed [] (next ∷ segs) (h, hs) = ap (λ r. [] ∷ r) (split-slashed next segs hs)
split-slashed (c ∷ seg) segs ((h, hs), hss) =
    ap (split b'/') (slashed-cons c seg segs)
    ∙ split-other c (slashed seg segs) h
    ∙ ap (into_first c) (split-slashed seg segs (hs, hss))

slashed-bytes :
    (seg : Bytes) (segs : List Bytes)
    → All (All IsSegmentByte) (seg ∷ segs)
    → All (λ c. IsSegmentByte c ⊎ (c ≡ b'/')) (slashed seg segs)
slashed-bytes seg [] (h, hs) = All-map IsSegmentByte _ (λ c k. inl k) seg h
slashed-bytes seg (next ∷ segs) (h, hs) =
    All-append _ seg (b'/' ∷ slashed next segs) (All-map IsSegmentByte _ (λ c k. inl k) seg h)
      (inr refl, slashed-bytes next segs hs)

-- A path of allowed bytes has no bad segment exactly when it is made of good ones.
path_iff :
    (p : Bytes)
    → ((all_in path_byte p ≡ true) × (any_bad (split b'/' p) ≡ false))
      ↔ ((seg : Bytes) × (segs : List Bytes) × (p ≡ slashed seg segs) × All IsSegment (seg ∷ segs))
path_iff p = (apart, together)
  where
    apart :
        ((all_in path_byte p ≡ true) × (any_bad (split b'/' p) ≡ false))
        → (seg : Bytes) × (segs : List Bytes) × (p ≡ slashed seg segs) × All IsSegment (seg ∷ segs)
    apart (h, k) =
        let (seg, segs, e, joined, each) =
          split-cons p ((all_in_iff path_byte _ path_byte_iff p).0 h) in
        (seg, segs, joined, (any_bad_iff (seg ∷ segs) each).0 (sym (ap any_bad e) ∙ k))

    together :
        ((seg : Bytes) × (segs : List Bytes) × (p ≡ slashed seg segs) × All IsSegment (seg ∷ segs))
        → (all_in path_byte p ≡ true) × (any_bad (split b'/' p) ≡ false)
    together (seg, segs, e, each) =
        let bytes = All-map IsSegment (All IsSegmentByte) (λ s h. h.bytes) (seg ∷ segs) each in
        (
          ap (all_in path_byte) e
              ∙ (all_in_iff path_byte _ path_byte_iff (slashed seg segs)).1
                  (slashed-bytes seg segs bytes),
          ap (λ q. any_bad (split b'/' q)) e
              ∙ ap any_bad (split-slashed seg segs bytes)
              ∙ (any_bad_iff (seg ∷ segs) bytes).1 each,
        )

-- A name is accepted exactly when the namespace has 1 to 32 bytes of [a-z0-9-], and the path 1 to 180
-- bytes: segments of [a-z0-9-._] with slashes between them, none empty, `.` or `..`.
pub validate_resource_iff : (ns p : Bytes) → (validate_resource ns p ≡ none) ↔ IsResource ns p
unfolding validate_resource
validate_resource_iff ns p =
    ground (arith, all_in_iff namespace_byte _ namespace_byte_iff ns, path_iff p)
