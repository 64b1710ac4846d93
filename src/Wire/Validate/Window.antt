-- ===== src/Wire/Validate/Window.antt =====
-- What the lifetime cap of the clock-free validation says of the window.
use lastro.Common.{◌+◌, ◌-◌, ◌^◌, ◌<◌, ◌≤◌, ◌≡◌, ◌⊎◌, true, bit_or, List, Bytes, arith}
use lastro.Common.Result.{ok}
use lastro.Wire.Crypto.{Crypto}
use lastro.Wire.Cert.{Cert, role_approver, role_executor}
use lastro.Wire.Validate.{has_role, validate_cert_chain_no_clock, max_privileged_lifetime_ms}
use lastro.Wire.Validate.Chain.{validate_iff}

-- A privileged certificate that validates without a clock has a window of at most 30 days, or an
-- inverted one for which the uint64 subtraction wraps to at most 30 days: its end lies at least
-- 2^64 milliseconds less 30 days before its beginning.
pub validate_window :
    (c : Crypto) (ct : Cert) (trusted : List Bytes)
    → ct.not_before < 2 ^ 64
    → ct.not_after < 2 ^ 64
    → has_role ct.role_bits (bit_or role_approver role_executor) ≡ true
    → validate_cert_chain_no_clock c ct trusted ≡ ok tt
    → ((ct.not_before ≤ ct.not_after) × (ct.not_after ≤ ct.not_before + max_privileged_lifetime_ms))
      ⊎ (ct.not_after + (2 ^ 64 - max_privileged_lifetime_ms) ≤ ct.not_before)
validate_window c ct trusted lo hi role valid =
    let ((_, (_, cap)), _) = (validate_iff c ct trusted).0 valid in ground (arith, cap role)
