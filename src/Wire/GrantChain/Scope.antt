-- ===== src/Wire/GrantChain/Scope.antt =====
-- The walk over the ancestors of a resource, against the set of its ancestor prefixes.
use lastro.Common.{
  ℕ, zero, suc, ◌-◌, ◌<◌, ◌≤◌, ◌≡◌, ◌↔◌, ◌⊎◌, inl, inr, refl, true, Bytes, take, length, arith,
  Bool-cases, ℕ-cases,
}
use native.Mathlib.Decide.{ℕ_discrete}
use lastro.Wire.Cursor.{byte_at}
use lastro.Wire.Crypto.{Crypto, blake2s256}
use lastro.Wire.Cert.{Cert}
use lastro.Wire.GrantChain.{cert_carries_scope, last_slash, scope_loop, scope_covers_resource}

last_slash-slash : (r : Bytes) (n j : ℕ) → last_slash r n ≡ suc j → (j < n) × (byte_at r j ≡ b'/')
unfolding last_slash
last_slash-slash r zero j e = absurd (omega arith)
last_slash-slash r (suc n) j e = ground (arith, last_slash-slash r n j)

-- No slash stands between the last slash and the end.
last_slash-last : (r : Bytes) (n i : ℕ) → i < n → byte_at r i ≡ b'/' → i < last_slash r n
unfolding last_slash
last_slash-last r zero i h e = elim h [ ]
last_slash-last r (suc n) i h e = elim (ℕ_discrete i n) [
  | yes same ↦ ground arith
  | no other ↦ ground (arith, last_slash-last r n i)
]

last_slash-le : (r : Bytes) (n : ℕ) → last_slash r n ≤ n
unfolding last_slash
last_slash-le r zero = omega arith
last_slash-le r (suc n) = ground (arith, last_slash-le r n)

module _ (c : Crypto) (cert : Cert) (r : Bytes) where
  -- The first n bytes are named by one of the certificate's scope ids.
  abbrev pub Carried : ℕ → Type 0
  Carried n = cert_carries_scope cert (take 8 (blake2s256 c (take n r))) ≡ true

  -- The prefix of n bytes is the one that ends at `end`, or one that ends before a slash.
  abbrev pub Ancestor : ℕ → ℕ → Type 0
  Ancestor end n = (0 < n) × ((n ≤ end) × ((n ≡ end) ⊎ (byte_at r n ≡ b'/')))

  loop_sound :
      (fuel end : ℕ) → scope_loop c fuel cert r end ≡ true → (n : ℕ) × Ancestor end n × Carried n
  unfolding scope_loop
  loop_sound zero end e = cc
  loop_sound (suc fuel) zero e = cc
  loop_sound (suc fuel) (suc m) e =
      elim (Bool-cases (cert_carries_scope cert (take 8 (blake2s256 c (take (suc m) r))))) [
        | inl here ↦ (suc m, (omega arith, (omega arith, inl refl)), here)
        | inr not_here ↦ elim (ℕ-cases (last_slash r (suc m))) [
          | inl none ↦ cc (rw (not_here, none) at e)
          | inr (j, found) ↦
              let (n, (pos, (le, where_)), carried) =
                loop_sound fuel j (ground (arith, not_here, found, e)) in
              let (below, slash) = last_slash-slash r (suc m) j found in
              (n, (pos, (omega arith, inr (ground (arith, slash, where_)))), carried)
        ]
      ]

  loop_complete :
      (fuel end n : ℕ)
      → end ≤ fuel
      → Ancestor end n
      → Carried n
      → scope_loop c fuel cert r end ≡ true
  unfolding scope_loop
  loop_complete zero end n h a k = absurd (omega arith)
  loop_complete (suc fuel) zero n h a k = absurd (omega arith)
  loop_complete (suc fuel) (suc m) n h (pos, (le, at_end)) k = ground (
    arith,
    last_slash-last r (suc m) n,
    last_slash-le r (suc m),
    loop_complete fuel (last_slash r (suc m) - 1) n,
  )

  -- A scope covers the resource exactly when one of its scope ids is the truncated hash of the whole
  -- resource id or of a non-empty prefix of it that a slash follows.
  pub scope_covers_iff :
      (scope_covers_resource c cert r ≡ true) ↔ ((n : ℕ) × Ancestor (length r) n × Carried n)
  unfolding scope_covers_resource
  scope_covers_iff = (
    loop_sound (length r) (length r),
    λ (n, a, k). loop_complete (length r) (length r) n (omega arith) a k,
  )
