-- ===== src/Base.antt =====
-- Names that every module shares: the libraries', passed on, and those of the children. Tests
-- are Boolean functions, Lists are measured by native numbers, Words are fixed-width integers,
-- Outcome is the result of a Go function, and Sort models `sort.Sort`.
pub mod Tests
pub mod Lists
pub mod Words
pub mod Outcome
pub mod Sort
pub use Tests.*
pub use Lists.*
unfoldable pub use Words.*
pub use Prim.Native.Nat.{ℕ, zero, suc, ◌+◌, ◌-◌, ◌*◌, ◌/◌, ◌%◌, ◌^◌, ◌≤◌, ◌<◌}
pub use mathlib.Core.Path.{◌≡◌, refl, sym, ap, subst, ◌∙◌}
pub use mathlib.Core.Logic.{◌≢◌, ◌↔◌, ◌⊎◌, inl, inr}
pub use mathlib.Core.Bool.{Bool, true, false, not, ◌&&◌, ◌||◌}
pub use mathlib.Core.Option.{Option, none, some}
pub use mathlib.Core.List.{List, [], ◌∷◌, ◌++◌, map, reverse}
pub use native.Mathlib.Omega.{arith}
