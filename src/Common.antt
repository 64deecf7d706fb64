-- ===== src/Common.antt =====
-- The names that the other modules share: the libraries', passed on, and those of the children
-- Tests (Boolean tests and case splits) and Lists (lists over the native numbers). Options is code
-- that may abort, Words models size_t, Slices the byte ranges that the buffers copy, and Int the
-- signed integers.
mod Tests
mod Lists
pub mod Int
pub mod Ints
pub mod Options
pub mod Words
pub mod Slices
pub use Tests.*
pub use Lists.*
pub use Prim.Native.Nat.{ℕ, zero, suc, ◌+◌, ◌-◌, ◌*◌, ◌/◌, ◌%◌, ◌^◌, ◌≤◌, ◌<◌, min}
pub use mathlib.Core.Path.{◌≡◌, refl, sym, ap, ap₂, subst, ◌∙◌, ◌≡⟨◌⟩◌, ◌∎}
pub use mathlib.Core.Logic.{◌≢◌, ◌↔◌, ◌⊎◌, inl, inr}
pub use mathlib.Core.Bool.{Bool, true, false, not, ◌&&◌, ◌||◌}
pub use mathlib.Core.Option.{Option, none, some}
pub use mathlib.Core.List.{List, [], ◌∷◌, ◌++◌, map}
pub use native.Mathlib.Omega.{arith}
