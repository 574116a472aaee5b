-- ===== src/Prelude.antt =====
-- The names that the other modules share: library names, passed on, and those of the children.
mod Tests
mod Equality
pub mod Order
pub mod Sorted
mod Lists
mod Members
mod Strings
pub mod Words
mod Options
mod Results
pub mod Assoc
pub mod IndexSets
pub use Tests.*
pub use Equality.*
pub use Lists.*
pub use Members.*
unfoldable pub use Strings.*
pub use Options.*
pub use Results.*
pub use Prim.Native.Nat.{ℕ, zero, suc, ◌+◌, ◌-◌, ◌*◌, ◌/◌, ◌%◌, ◌^◌, ◌≤◌, ◌<◌, min, max}
pub use mathlib.Core.Path.{◌≡◌, refl, sym, ap, ◌∙◌, subst, fun_ext, ◌≡⟨◌⟩◌, ◌∎}
pub use mathlib.Core.Logic.{◌≢◌, ◌↔◌, ◌⊎◌, inl, inr}
pub use mathlib.Core.Bool.{Bool, true, false, not, ◌&&◌, ◌||◌}
pub use mathlib.Core.Option.{Option, none, some}
pub use mathlib.Core.List.{List, [], ◌∷◌, ◌++◌, map, reverse, append_assoc, append-nil}
pub use native.Mathlib.Omega.{arith}
