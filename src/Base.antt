-- ===== src/Base.antt =====
-- The names that the other modules share: the libraries', passed on, Boolean tests on native
-- numbers, lists counted by native numbers, and membership as a predicate by recursion.
mod Tests
mod Lists
mod Membership
pub mod Int
pub use Tests.*
pub use Lists.*
unfoldable pub use Lists.{flat_map, includes, all_of, any_of, filter}
pub use Membership.*
pub use Prim.Native.Nat.{ℕ, zero, suc, ◌+◌, ◌-◌, ◌*◌, ◌/◌, ◌%◌, ◌≤◌, ◌<◌, min, max}
pub use mathlib.Core.Path.{◌≡◌, refl, sym, ap, subst, fun_ext, ◌∙◌}
pub use mathlib.Core.Logic.{◌≢◌, ◌↔◌, ◌⊎◌, inl, inr}
pub use mathlib.Core.Bool.{Bool, true, false, not, ◌&&◌, ◌||◌}
pub use mathlib.Core.Option.{Option, none, some}
pub use mathlib.Core.List.{List, [], ◌∷◌, ◌++◌, map, append_assoc}
pub use native.Mathlib.Omega.{arith}
unfoldable pub use native.Mathlib.Decide.{ℕ_discrete}
