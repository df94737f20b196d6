-- ===== src/Common.antt =====
-- The names that every part of the development shares: the libraries', passed on, and the tests,
-- lists, byte strings and fields of the children.
mod Tests
mod Lists
mod Ints
mod Slices
mod Fields
mod Parts
pub use Tests.*
pub use Lists.*
pub use Ints.*
unfoldable pub use Slices.*
unfoldable pub use Fields.*
pub use Parts.*
pub use Prim.Native.Nat.{ℕ, zero, suc, ◌+◌, ◌-◌, ◌*◌, ◌/◌, ◌%◌, ◌^◌, ◌≤◌, ◌<◌, min}
pub use mathlib.Core.Path.{◌≡◌, refl, sym, ap, ◌∙◌}
pub use mathlib.Core.Logic.{◌≢◌, ◌↔◌, ◌⊎◌, inl, inr}
pub use mathlib.Core.Bool.{Bool, true, false, not, ◌&&◌, ◌||◌}
pub use mathlib.Core.Option.{Option, none, some}
pub use mathlib.Core.List.{List, [], ◌∷◌, ◌++◌, map, append_assoc, append-nil}
pub use native.Mathlib.Omega.{arith}
