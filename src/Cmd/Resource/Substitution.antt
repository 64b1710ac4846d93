-- ===== src/Cmd/Resource/Substitution.antt =====
-- What resolveShaTemplate puts in the place of the template.
use lastro.Common.{
  ℕ, zero, suc, ◌-◌, ◌≤◌, ◌≡◌, ◌↔◌, ◌⊎◌, inl, inr, refl, sym, ap, ◌∙◌, true, false, Bool-cases,
  Option, none, some, Bytes, length, [], ◌∷◌, ◌++◌, drop, arith, All, subst, length-drop,
}
use lastro.Wire.Validate.{has_prefix}
use lastro.Cmd.Resource.{
  hex_byte, contains, replace_from, sha_token, trim_left, trim_right, to_lower, checked_sha,
  with_head, resolve_sha_template,
}
use lastro.Cmd.Resource.Grammar.{all_in_iff}

-- Every occurrence of the token, from the left, gives way to `new`, and every other byte stays.
pub data Replaced (token new : Bytes) : Bytes → Bytes → Type 0 where
  at_end : Replaced token new [] []
  hit : {p q : Bytes} → Replaced token new p q → Replaced token new (token ++ p) (new ++ q)
  keep :
      {c : ℕ} {p q : Bytes}
      → has_prefix (c ∷ p) token ≡ false
      → Replaced token new p q
      → Replaced token new (c ∷ p) (c ∷ q)

skip_drop :
    (k : ℕ) (token new p : Bytes) → replace_from k token new p ≡ replace_from 0 token new (drop k p)
unfolding replace_from
skip_drop zero token new p = refl
skip_drop (suc k) token new [] = refl
skip_drop (suc k) token new (c ∷ cs) = skip_drop k token new cs

prefix_split : (s token : Bytes) → has_prefix s token ≡ true → s ≡ token ++ drop (length token) s
unfolding has_prefix
prefix_split s [] h = refl
prefix_split [] (y ∷ token) h = cc
prefix_split (x ∷ s) (y ∷ token) h =
    let first : x ≡ y = ground arith in
    let rest : has_prefix s token ≡ true = ground arith in
    λ i. first i ∷ prefix_split s token rest i

module _ (t : ℕ) (ts new : Bytes) where
  step_hit :
      (c : ℕ) (cs : Bytes)
      → has_prefix (c ∷ cs) (t ∷ ts) ≡ true
      → Replaced
          (t ∷ ts)
          new
          (drop (length ts) cs)
          (replace_from 0 (t ∷ ts) new (drop (length ts) cs))
      → Replaced (t ∷ ts) new (c ∷ cs) (new ++ replace_from (length (t ∷ ts) - 1) (t ∷ ts) new cs)
  step_hit c cs found rest =
      let whole : c ∷ cs ≡ (t ∷ ts) ++ drop (length ts) cs = prefix_split (c ∷ cs) (t ∷ ts) found in
      let count : length (t ∷ ts) - 1 ≡ length ts = omega arith in
      let skipped : replace_from (length (t ∷ ts) - 1) (t ∷ ts) new cs
          ≡ replace_from 0 (t ∷ ts) new (drop (length ts) cs) =
        ap (λ k. replace_from k (t ∷ ts) new cs) count ∙ skip_drop (length ts) (t ∷ ts) new cs in
      subst (λ q. Replaced (t ∷ ts) new (c ∷ cs) (new ++ q)) (sym skipped)
        (subst
          (λ p. Replaced (t ∷ ts) new p (new ++ replace_from 0 (t ∷ ts) new (drop (length ts) cs)))
          (sym whole) (hit rest))

  replaced_fuel :
      (fuel : ℕ) (p : Bytes)
      → length p ≤ fuel
      → Replaced (t ∷ ts) new p (replace_from 0 (t ∷ ts) new p)
  unfolding replace_from
  replaced_fuel fuel [] h = at_end
  replaced_fuel zero (c ∷ cs) h = absurd (omega arith)
  replaced_fuel (suc fuel) (c ∷ cs) h = elim (Bool-cases (has_prefix (c ∷ cs) (t ∷ ts))) [
    | inl found ↦ rw found (
        step_hit c cs found
          (replaced_fuel fuel (drop (length ts) cs) (omega (arith, length-drop (length ts) cs, h))))
    | inr other ↦ rw other (keep other (replaced_fuel fuel cs (omega (arith, h))))
  ]

abbrev pub IsLowerHex : ℕ → Type 0
IsLowerHex c = ((b'0' ≤ c) × (c ≤ b'9')) ⊎ ((b'a' ≤ c) × (c ≤ b'f'))

hex_byte_iff : (c : ℕ) → (hex_byte c ≡ true) ↔ IsLowerHex c
hex_byte_iff c = ground arith

-- The answer of git, trimmed and in lower case.
abbrev pub sha_of : Bytes → Bytes
sha_of raw = to_lower (trim_right (trim_left raw))

abbrev pub IsSha : Bytes → Type 0
IsSha sha = ((7 ≤ length sha) × (length sha ≤ 64)) × All IsLowerHex sha

checked_iff :
    (p sha q : Bytes)
    → (checked_sha p sha ≡ inr q) ↔ (IsSha sha × (q ≡ replace_from 0 sha_token sha p))
checked_iff p sha q = ground (arith, all_in_iff hex_byte _ hex_byte_iff sha)

with_head_lem :
    (p q : Bytes) (head : Option Bytes)
    → with_head p head ≡ inr q
    → (raw : Bytes) × (head ≡ some raw) × IsSha (sha_of raw) × Replaced sha_token (sha_of raw) p q
with_head_lem p q none h = cc
with_head_lem p q (some raw) h =
    let (sha, e) = (checked_iff p (sha_of raw) q).0 h in
    (
      raw,
      refl,
      sha,
      subst (Replaced sha_token (sha_of raw) p) (sym e)
          (replaced_fuel _ _ _ (length p) p (omega arith)),
    )

-- A path that is resolved holds no template and is unchanged, or git has answered, what it answered
-- is 7 to 64 lowercase hexadecimal digits after trimming, and exactly the templates have given way
-- to it.
pub resolve_sha_template_lem :
    (p q : Bytes) (head : Option Bytes)
    → resolve_sha_template p head ≡ inr q
    → ((contains sha_token p ≡ false) × (q ≡ p))
      ⊎ ((raw : Bytes) × (head ≡ some raw)
          × IsSha (sha_of raw)
          × Replaced sha_token (sha_of raw) p q)
unfolding resolve_sha_template
resolve_sha_template_lem p q head h = elim (Bool-cases (contains sha_token p)) [
  | inl found ↦ inr (with_head_lem p q head (rw found at h))
  | inr plain ↦ inl (plain, ground (arith, h))
]
