-- ===== src/Base.antt =====
-- The names that every other module shares: the library's, passed on, and those of three children.
mod Tests
mod Lists
mod Machine
mod Equality
pub mod Sort
pub mod Text
pub mod Graphic
pub mod Utf8
pub mod Lines
pub mod Order
pub mod Int
pub mod Radix
pub mod Hex
pub mod Decimal
pub use Tests.*
pub use Lists.*
pub use Equality.*
pub use Machine.*
pub use Prim.Native.Nat.{ℕ, zero, suc, ◌+◌, ◌-◌, ◌*◌, ◌/◌, ◌%◌, ◌^◌, ◌≤◌, ◌<◌}
pub use mathlib.Core.Path.{◌≡◌, refl, sym, ap, ap₂, subst, ◌∙◌}
pub use mathlib.Core.Logic.{◌≢◌, ◌↔◌, ◌⊎◌, inl, inr}
pub use mathlib.Core.Bool.{Bool, true, false, not, ◌&&◌, ◌||◌}
pub use mathlib.Core.Option.{Option, none, some}
pub use mathlib.Core.List.{List, [], ◌∷◌, ◌++◌, map}
pub use native.Mathlib.Omega.{arith}
