-- ===== src/Tests/Rules.antt =====
-- The method classes, the role bits, the signatures and the names of a key.
use lastro.Common.{◌≤◌, ◌≡◌, ◌↔◌, IsBytes, length, take, ◌∷◌, refl, arith}
use lastro.Common.Result.{ok}
use lastro.Tests.Toy.{toy, toy_laws, all_bytes, all_bytes-IsBytes, public_of}
use lastro.Wire.Crypto.{overlay_addr}
use lastro.Wire.Crypto.Signing.{overlay_addr_shape}
use lastro.Wire.Validate.{check_role_constraints}
use lastro.Wire.Validate.Roles.{privileged_roles, check_role_constraints_iff}

check_role_constraints_iff_example : (check_role_constraints 10 ≡ ok tt) ↔ (privileged_roles 10 ≤ 1)
check_role_constraints_iff_example = check_role_constraints_iff 10 (omega arith)

sum-IsBytes : IsBytes (toy.sum256 (public_of 3))
unfolding all_bytes
sum-IsBytes = all_bytes-IsBytes (toy.sum256 (public_of 3)) refl

overlay_addr_shape_example :
    (length (overlay_addr toy (public_of 3)) ≡ 16)
    × (overlay_addr toy (public_of 3) ≡ 0xfd ∷ take 15 (toy.sum256 (public_of 3)))
overlay_addr_shape_example = overlay_addr_shape toy (public_of 3) toy_laws
