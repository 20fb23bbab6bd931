-- ===== src/Prelude.antt =====
-- The names that every other module shares: the libraries', passed on, Boolean tests, equality by
-- instances, lists over the native numbers, byte strings and results.
mod Tests
mod Lists
mod Counting
pub mod Bags
pub mod Moves
mod Text
mod Results
mod Integers
pub use Tests.*
unfoldable pub use Lists.*
pub use Counting.*
unfoldable pub use Text.*
pub use Results.*
pub use Integers.*
pub use Prim.Native.Nat.{ℕ, zero, suc, ◌+◌, ◌-◌, ◌*◌, ◌/◌, ◌%◌, ◌^◌, ◌≤◌, ◌<◌}
pub use Prim.Native.String.{String}
pub use mathlib.Core.Path.{◌≡◌, refl, sym, ap, ◌∙◌, subst, fun_ext}
pub use mathlib.Core.Logic.{◌≢◌, ◌↔◌, ◌⊎◌, inl, inr}
pub use mathlib.Core.Bool.{Bool, true, false, not, ◌&&◌, ◌||◌}
pub use mathlib.Core.Option.{Option, none, some}
pub use mathlib.Core.List.{List, [], ◌∷◌, ◌++◌, map, append_assoc, append-nil}
pub use native.Mathlib.Omega.{arith}
