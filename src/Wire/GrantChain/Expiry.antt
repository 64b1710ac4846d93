-- ===== src/Wire/GrantChain/Expiry.antt =====
-- The expiry rules and the clocked validation, over the exact numbers.
use lastro.Common.{ℕ, ◌+◌, ◌*◌, ◌^◌, ◌<◌, ◌≤◌, ◌≡◌, ◌↔◌, true, bit_or, Bytes, List, arith}
use lastro.Common.Result.{ok}
use lastro.Wire.Crypto.{Crypto}
use lastro.Wire.Cert.{Cert, role_approver, role_executor}
use lastro.Wire.Validate.{has_role, validate_cert_chain_no_clock, max_privileged_lifetime_ms}
use lastro.Wire.Validate.Chain.{validate_iff}
use lastro.Wire.GrantChain.{check_expiry, validate_cert}

-- Where the two deadlines fit 64 bits, the check accepts exactly while now is before not_after and
-- at most t_recv after first receipt, and not_after at most t_max after first receipt.
pub check_expiry_iff :
    (not_after now first t_max t_recv : ℕ)
    → first + t_max * 1000 < 2 ^ 64
    → first + t_recv * 1000 < 2 ^ 64
    → (check_expiry not_after now first t_max t_recv ≡ ok tt)
      ↔ ((now < not_after) × ((not_after ≤ first + t_max * 1000) × (now ≤ first + t_recv * 1000)))
unfolding check_expiry
check_expiry_iff not_after now first t_max t_recv h k = ground arith

-- The clocked validation accepts exactly when the clock-free one does and now lies in the window,
-- its beginning included and its end not.
pub validate_cert_iff :
    (c : Crypto) (ct : Cert) (trusted : List Bytes) (now : ℕ)
    → (validate_cert c ct trusted now ≡ ok tt) ↔ (
        (validate_cert_chain_no_clock c ct trusted ≡ ok tt)
        × ((ct.not_before ≤ now) × (now < ct.not_after)))
unfolding validate_cert
validate_cert_iff c ct trusted now = ground arith

-- For a privileged certificate that is valid now, the window has at most 30 days: the subtraction
-- of the cap did not wrap.
pub validate_cert_window :
    (c : Crypto) (ct : Cert) (trusted : List Bytes) (now : ℕ)
    → ct.not_after < 2 ^ 64
    → has_role ct.role_bits (bit_or role_approver role_executor) ≡ true
    → validate_cert c ct trusted now ≡ ok tt
    → (ct.not_before < ct.not_after) × (ct.not_after ≤ ct.not_before + max_privileged_lifetime_ms)
validate_cert_window c ct trusted now h role valid =
    let (chain, (lo, hi)) = (validate_cert_iff c ct trusted now).0 valid in
    let ((_, (_, cap)), _) = (validate_iff c ct trusted).0 chain in omega (arith, cap role)
