-- ===== src/Common.antt =====
-- Shared names: those of the libraries, passed on, and those of the modules below.
mod Tests
mod Lists
pub mod Bits
pub mod Integers
pub mod Result
pub mod Regions
unfoldable pub use Tests.*
pub use Lists.*
pub use Prim.Native.Nat.{
  ℕ, zero, suc, ◌+◌, ◌-◌, ◌*◌, ◌/◌, ◌%◌, ◌^◌, ◌≤◌, ◌<◌, min, bit_and, bit_or, bit_xor,
}
pub use mathlib.Core.Path.{◌≡◌, refl, sym, ap, ◌∙◌, subst}
pub use mathlib.Core.Logic.{◌≢◌, ◌↔◌, ◌⊎◌, inl, inr}
pub use mathlib.Core.Bool.{Bool, true, false, ◌&&◌, ◌||◌, not}
pub use mathlib.Core.Option.{Option, none, some}
pub use mathlib.Core.List.{List, [], ◌∷◌, ◌++◌, map, append-nil, append_assoc, append_cancel_left}
pub use native.Mathlib.Omega.{arith}
