-- ===== src/Common.antt =====
-- The names that the other modules share: the libraries' names, passed on, the Boolean tests, lists
-- indexed by native numbers, the result type of kernel code, and the machine words of the sources.
mod Tests
mod Lists
mod Halting
mod Words
mod Members
mod Tables
unfoldable pub use Tests.*
pub use Lists.*
pub use Halting.*
pub use Words.*
pub use Members.*
pub use Tables.*
pub use Prim.Native.Nat.{
  ℕ, zero, suc, ◌+◌, ◌-◌, ◌*◌, ◌/◌, ◌%◌, ◌^◌, ◌≤◌, ◌<◌, bit_and, bit_or, bit_xor, min,
}
pub use mathlib.Core.Path.{◌≡◌, refl, sym, ap, ◌∙◌}
pub use mathlib.Core.Logic.{◌≢◌, ◌↔◌, ◌⊎◌, inl, inr}
pub use mathlib.Core.Bool.{Bool, true, false, not, ◌&&◌, ◌||◌}
pub use mathlib.Core.Option.{Option, none, some}
pub use mathlib.Core.List.{List, [], ◌∷◌, ◌++◌, map}
pub use native.Mathlib.Omega.{arith}
