-- ===== src/Base.antt =====
-- Names that every module of the development shares: library names passed on, and the children
-- with the tests, lists, bit operations and byte buffers of the firmware's C code.
mod Tests
mod Lists
pub mod Bits
pub mod Buffer
pub mod Esp
pub mod Int
pub mod Keys
pub mod Text
pub use Tests.*
pub use Lists.*
unfoldable pub use Lists.{str_eq}
pub use Prim.Native.Nat.{ℕ, zero, suc, ◌+◌, ◌-◌, ◌*◌, ◌/◌, ◌%◌, ◌^◌, ◌≤◌, ◌<◌, min}
pub use mathlib.Core.Path.{◌≡◌, refl, sym, ap, ap₂, ◌∙◌, subst}
pub use mathlib.Core.Logic.{◌≢◌, ◌↔◌, ◌⊎◌, inl, inr}
pub use mathlib.Core.Bool.{Bool, true, false, not, ◌&&◌, ◌||◌}
pub use mathlib.Core.Option.{Option, none, some}
pub use mathlib.Core.List.{List, [], ◌∷◌, ◌++◌, map, append_assoc, append-nil}
pub use native.Mathlib.Omega.{arith}
