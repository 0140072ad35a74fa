-- ===== src/Prelude.antt =====
-- The names that every module shares: the libraries', passed on, Boolean tests on numbers, lists
-- measured by the native numbers, byte strings, and Go's error values.
pub mod Tests
pub mod Lists
pub mod Text
pub mod Err
pub mod Int
pub mod Exec
pub mod Unicode
pub mod Net
pub mod Words
pub mod Platform
pub use Prim.Native.Nat.{ℕ, zero, suc, ◌+◌, ◌-◌, ◌*◌, ◌/◌, ◌%◌, ◌^◌, ◌≤◌, ◌<◌}
pub use Prim.Native.String.{String}
pub use mathlib.Core.Path.{◌≡◌, refl, sym, ap, ◌∙◌, subst}
pub use mathlib.Core.Logic.{◌≢◌, ◌↔◌, ◌⊎◌, inl, inr}
pub use mathlib.Core.Bool.{Bool, true, false, not, ◌&&◌, ◌||◌}
pub use mathlib.Core.Option.{Option, none, some}
pub use mathlib.Core.List.{List, [], ◌∷◌, ◌++◌, map}
pub use native.Mathlib.Omega.{arith}
pub use Tests.*
