-- ===== src/Wire/Validate/Roles.antt =====
-- The role pairs, over every role byte.
use lastro.Common.{
  ℕ, zero, suc, ◌+◌, ◌*◌, ◌/◌, ◌%◌, ◌≤◌, ◌<◌, ◌≡◌, ◌↔◌, refl, bit_and, Bool, true, ◌&&◌, ◌==◌,
  ==_iff, arith,
}
use lastro.Common.Result.{ok}
use lastro.Wire.Cert.{role_agent, role_executor, role_approver}
use lastro.Wire.Validate.{check_role_constraints}

-- A test on every byte, by evaluation.
every_below : ℕ → (ℕ → Bool) → Bool
every_below zero p = true
every_below (suc n) p = p n && every_below n p

every_below→ : (n : ℕ) (p : ℕ → Bool) (x : ℕ) → every_below n p ≡ true → x < n → p x ≡ true
unfolding every_below
every_below→ zero p x h lt = absurd (omega arith)
every_below→ (suc n) p x h lt = ground (arith, every_below→ n p x)

-- Bits 1 (agent), 2 (executor) and 3 (approver) of the role byte.
abbrev pub privileged_roles : ℕ → ℕ
privileged_roles bits = bits / 2 % 2 + bits / 4 % 2 + bits / 8 % 2

-- A single bit of a byte, as arithmetic.
has_agent : (bits : ℕ) → bits < 256 → bit_and bits role_agent ≡ bits / 2 % 2 * 2
unfolding every_below
has_agent bits h =
    (==_iff _ _).0 (every_below→ 256 (λ b. bit_and b role_agent == b / 2 % 2 * 2) bits refl h)

has_executor : (bits : ℕ) → bits < 256 → bit_and bits role_executor ≡ bits / 4 % 2 * 4
unfolding every_below
has_executor bits h =
    (==_iff _ _).0 (every_below→ 256 (λ b. bit_and b role_executor == b / 4 % 2 * 4) bits refl h)

has_approver : (bits : ℕ) → bits < 256 → bit_and bits role_approver ≡ bits / 8 % 2 * 8
unfolding every_below
has_approver bits h =
    (==_iff _ _).0 (every_below→ 256 (λ b. bit_and b role_approver == b / 8 % 2 * 8) bits refl h)

-- A role byte passes exactly when it has at most one of the agent, executor and approver bits; the
-- other five bits do not matter.
pub check_role_constraints_iff :
    (bits : ℕ) → bits < 256 → (check_role_constraints bits ≡ ok tt) ↔ (privileged_roles bits ≤ 1)
unfolding check_role_constraints
check_role_constraints_iff bits h =
    ground (arith, has_agent bits h, has_executor bits h, has_approver bits h)
