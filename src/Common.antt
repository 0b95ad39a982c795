-- ===== src/Common.antt =====
-- Names that every module shares: the libraries', passed on, and those of the children, which
-- hold Boolean tests, lists over the native numbers, machine words and their bit laws.
mod Tests
mod Lists
mod Words
pub mod Bits
pub mod Table
pub mod Integers
unfoldable pub use Tests.*
pub use Lists.*
pub use Words.*
pub use Prim.Native.Nat.{ℕ, zero, suc, ◌+◌, ◌-◌, ◌*◌, ◌/◌, ◌%◌, ◌^◌, ◌≤◌, ◌<◌, min, max}
pub use Prim.Native.Nat.{bit_and, bit_or, bit_xor}
pub use mathlib.Core.Path.{◌≡◌, refl, sym, ap, ap₂, ◌∙◌}
pub use mathlib.Core.Logic.{◌≢◌, ◌↔◌, ◌⊎◌, inl, inr}
pub use mathlib.Core.Bool.{Bool, true, false, ◌&&◌, ◌||◌, not}
pub use mathlib.Core.Option.{Option, none, some}
pub use mathlib.Core.List.{List, [], ◌∷◌, ◌++◌, map, foldl, reverse, append_assoc, append-nil}
pub use native.Mathlib.Omega.{arith}
