-- ===== src/Common.antt =====
-- The names that the other modules share: those of the libraries, passed on, and those of seven
-- children. No code of the kernel is modelled here except the 64-bit arithmetic of `Words`.
mod Tests
mod Lists
mod Words
mod Bits
mod Count
pub mod Partial
pub mod Locking
pub mod Integers
pub use Tests.*
pub use Lists.*
unfoldable pub use Words.*
unfoldable pub use Bits.*
unfoldable pub use Count.*
pub use Prim.Native.Nat.{
  ℕ, zero, suc, ◌+◌, ◌-◌, ◌*◌, ◌/◌, ◌%◌, ◌^◌, ◌≤◌, ◌<◌, min, max, bit_and, bit_or,
}
pub use mathlib.Core.Path.{◌≡◌, refl, sym, ap, ◌∙◌, ap₂, subst, fun_ext}
pub use mathlib.Core.Logic.{◌≢◌, ◌↔◌, ◌⊎◌, inl, inr}
pub use mathlib.Core.Bool.{Bool, true, false, not, ◌&&◌, ◌||◌}
pub use mathlib.Core.Option.{Option, none, some}
pub use mathlib.Core.List.{List, [], ◌∷◌, ◌++◌, map}
pub use native.Mathlib.Omega.{arith}
