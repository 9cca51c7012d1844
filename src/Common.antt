-- ===== src/Common.antt =====
-- Names that every module of the library shares: the mounted libraries', passed on, the Boolean
-- tests on numbers, lists measured by native numbers, byte strings, signed integers and floats.
mod Tests
mod Lists
pub mod Sorting
pub mod Dict
pub mod Session
pub mod Text
pub mod Time
pub mod Int
pub mod Float
pub use Tests.*
pub use Lists.*
pub use Prim.Native.Nat.{ℕ, zero, suc, ◌+◌, ◌-◌, ◌*◌, ◌/◌, ◌%◌, ◌≤◌, ◌<◌}
pub use mathlib.Core.Path.{◌≡◌, refl, sym, ap, ◌∙◌}
pub use mathlib.Core.Logic.{◌≢◌, ◌↔◌, ◌⊎◌, inl, inr}
pub use mathlib.Core.Bool.{Bool, true, false, not, ◌&&◌, ◌||◌}
pub use mathlib.Core.Option.{Option, none, some}
pub use mathlib.Core.List.{List, [], ◌∷◌, ◌++◌, map}
pub use native.Mathlib.Omega.{arith}
