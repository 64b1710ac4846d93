-- ===== src/Common/Result.antt =====
-- Go's (value, error) pair and the sentinel errors of package wire.
use mathlib.Core.Bool.{Bool, true, false}
use mathlib.Core.Path.{◌≡◌, refl}
use mathlib.Core.Logic.{◌⊎◌, inl, inr}
use mathlib.Core.List.{List, [], ◌∷◌}

pub data Error : Type 0 where
  -- cursor.go, encode.go
  truncated oversize trailing_bytes malformed field_bounds : Error
  -- crypto.go
  malformed_key bad_signature : Error
  -- validate.go
  role_pair_forbidden approver_no_quorum cert_too_long_lived untrusted_ca : Error
  no_executor_role not_span_signer wrong_fingerprint : Error
  -- grantchain.go
  bad_version bad_envelope_binding grant_bad_signature bad_approver_cert approver_revoked : Error
  approver_out_of_scope bad_subject_cert subject_revoked subject_out_of_scope : Error
  wrong_executor wrong_subject no_matching_intent wrong_resource action_digest_mismatch : Error
  expired outside_window : Error
  -- transport.go, noise.go
  packet_too_short not_data_packet decrypt_failed binding_length binding_signature : Error
  mac1_failed identity_point out_too_small message_too_small : Error

-- (value, nil), or (nil, error).
pub data Result {ℓ} (A : Type ℓ) : Type ℓ where
  err : Error → Result A
  ok : A → Result A

-- `if e != nil { return nil, e }` in front of what uses the value.
module _ {ℓ κ} {A : Type ℓ} {B : Type κ} where
  infixl 5 ◌>>=◌
  abbrev pub ◌>>=◌ : Result A → (A → Result B) → Result B
  err e >>= next = err e
  ok x >>= next = next x

  -- What a chain that succeeds has passed.
  pub >>=-eq-ok :
      (first : Result A) (next : A → Result B) {y : B}
      → (first >>= next) ≡ ok y
      → (x : A) × (first ≡ ok x) × (next x ≡ ok y)
  >>=-eq-ok (err e) next h = cc
  >>=-eq-ok (ok x) next h = (x, refl, h)

infixl 5 ◌>>◌
abbrev pub ◌>>◌ {ℓ} : {B : Type ℓ} → Result (Unit {0}) → Result B → Result B
check >> rest = check >>= λ done. rest

-- `if bad { return e }`
abbrev pub refuse_if : Bool → Error → Result (Unit {0})
refuse_if true e = err e
refuse_if false e = ok tt

-- `r != nil`
abbrev pub is_err {ℓ} : {A : Type ℓ} → Result A → Bool
is_err (ok a) = false
is_err (err e) = true

-- To split on a computed result and keep the equation.
pub Result-cases {ℓ} :
    {A : Type ℓ} (r : Result A) → ((a : A) × (r ≡ ok a)) ⊎ ((e : Error) × (r ≡ err e))
Result-cases (ok a) = inl (a, refl)
Result-cases (err e) = inr (e, refl)

-- A refusal in front of the rest: it passes, and what passed.
pub refuse-pass {ℓ} :
    {A : Type ℓ} {r : Result A} (bad : Bool) (e : Error) (rest : Result A)
    → bad ≡ false
    → rest ≡ r
    → (refuse_if bad e >> rest) ≡ r
refuse-pass true e rest h k = cc
refuse-pass false e rest h k = k

pub refuse-eq-ok {ℓ} :
    {A : Type ℓ} (bad : Bool) (e : Error) (rest : Result A) {a : A}
    → (refuse_if bad e >> rest) ≡ ok a
    → (bad ≡ false) × (rest ≡ ok a)
refuse-eq-ok true e rest h = cc
refuse-eq-ok false e rest h = (refl, h)

pub check-ok : (r : Result (Unit {0})) → (r >> ok tt) ≡ r
check-ok (ok a) = refl
check-ok (err e) = refl

-- A run of refusals: each a test and the error it returns.
abbrev pub refuse_all : List (Bool × Error) → Result (Unit {0}) → Result (Unit {0})
refuse_all [] rest = rest
refuse_all ((bad, e) ∷ gates) rest = refuse_if bad e >> refuse_all gates rest

abbrev pub Passes : List (Bool × Error) → Type 0
Passes [] = Unit {0}
Passes ((bad, e) ∷ gates) = (bad ≡ false) × Passes gates

pub refuse_all-pass :
    (gates : List (Bool × Error)) (rest : Result (Unit {0}))
    → Passes gates
    → refuse_all gates rest ≡ rest
refuse_all-pass [] rest h = refl
refuse_all-pass ((bad, e) ∷ gates) rest (h, hs) =
    refuse-pass bad e (refuse_all gates rest) h (refuse_all-pass gates rest hs)

pub refuse_all-eq-ok :
    (gates : List (Bool × Error)) (rest : Result (Unit {0}))
    → refuse_all gates rest ≡ ok tt
    → Passes gates
refuse_all-eq-ok [] rest h = tt
refuse_all-eq-ok ((bad, e) ∷ gates) rest h =
    let (hd, tl) = refuse-eq-ok bad e (refuse_all gates rest) h in
    (hd, refuse_all-eq-ok gates rest tl)
