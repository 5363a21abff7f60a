-- ===== src/Base.antt =====
-- Names that every module shares: those of the libraries, passed on, and the helpers of the
-- children. It models no code of its own.
mod Compare
mod Lists
pub mod Perms
pub mod Bits
mod Fault
unfoldable pub use Compare.*
pub use Lists.*
pub use Fault.*
pub use Prim.Native.Nat.{
  ℕ, zero, suc, ◌+◌, ◌-◌, ◌*◌, ◌/◌, ◌%◌, ◌^◌, ◌≤◌, ◌<◌, min, max, bit_and, bit_or, bit_xor,
}
pub use mathlib.Core.Path.{◌≡◌, refl, sym, ap, ◌∙◌}
pub use mathlib.Core.Logic.{◌≢◌, ◌↔◌, ◌⊎◌, inl, inr}
pub use mathlib.Core.Bool.{Bool, true, false, not, ◌&&◌, ◌||◌}
pub use mathlib.Core.Option.{Option, none, some}
pub use mathlib.Core.List.{List, [], ◌∷◌, ◌++◌, Perm}
unfoldable pub use mathlib.Core.List.{map, flatten, filter_map}
pub use native.Mathlib.Omega.{arith}
