-- ===== src/Base.antt =====
-- Shared names: the libraries', passed on, and those of the children: tests on numbers, counted
-- loops, selection loops, arrays as functions, and the results of fallible code.
mod Tests
mod Loop
mod Outcome
mod Pick
mod Find
mod Rounds
pub mod Int
mod Lists
pub use Tests.*
pub use Lists.*
unfoldable pub use Loop.*
unfoldable pub use Outcome.*
unfoldable pub use Pick.*
unfoldable pub use Find.*
unfoldable pub use Rounds.*
pub use Prim.Native.Nat.{ℕ, zero, suc, ◌+◌, ◌-◌, ◌*◌, ◌/◌, ◌%◌, ◌^◌, ◌≤◌, ◌<◌, max, min}
pub use mathlib.Core.Path.{◌≡◌, refl, sym, ap, ap₂, subst, ◌∙◌, fun_ext}
pub use mathlib.Core.Logic.{◌≢◌, ◌↔◌, ◌⊎◌, inl, inr}
pub use mathlib.Core.Bool.{Bool, true, false, not, ◌&&◌, ◌||◌}
pub use mathlib.Core.Option.{Option, none, some}
pub use mathlib.Core.List.{List, [], ◌∷◌, ◌++◌, map}
pub use native.Mathlib.Omega.{arith}
