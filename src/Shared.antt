-- ===== src/Shared.antt =====
-- Names that every module shares: the libraries', passed on, and those of the children.
mod Tests
mod Lists
mod Slices
mod Bytes
mod Bits
pub mod Int
pub mod Text
pub mod Sublist
pub use Tests.*
pub use Lists.*
pub use Slices.*
pub use Bytes.*
unfoldable pub use Bits.{has_bit, coil, set_coil, clear_coil}
pub use Bits.{
  length-set_coil, length-clear_coil, set_coil-Below, clear_coil-Below, coil-set_coil,
  coil-clear_coil, coil-replicate, has_bit-or, has_bit_zero, bit_or-lt,
}
pub use Prim.Native.Nat.{ℕ, zero, suc, ◌+◌, ◌-◌, ◌*◌, ◌/◌, ◌%◌, ◌^◌, ◌≤◌, ◌<◌, bit_and, bit_or}
pub use mathlib.Core.Path.{◌≡◌, refl, sym, ap, ap₂, ◌∙◌, subst}
pub use mathlib.Core.Logic.{◌≢◌, ◌↔◌, ◌⊎◌, inl, inr}
pub use mathlib.Core.Bool.{Bool, true, false, not, ◌&&◌, ◌||◌}
pub use mathlib.Core.Option.{Option, none, some}
pub use mathlib.Core.List.{List, [], ◌∷◌, ◌++◌, append-nil, append_assoc}
pub use native.Mathlib.Omega.{arith}
