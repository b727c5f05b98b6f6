-- ===== src/Prelude.antt =====
-- What the modules share: the libraries' names, passed on, Boolean tests and equality, lists
-- measured by native numbers, and Go's maps and sets. It models no code of its own.
mod Tests
mod Equality
mod Lists
mod Strings
pub mod Results
pub mod Sets
pub mod Maps
pub use Tests.*
pub use Equality.*
pub use Lists.*
pub use Strings.*
pub use Results.{Result, ok, failed, Result-cases}
pub use Prim.Native.Nat.{ℕ, zero, suc, ◌+◌, ◌-◌, ◌*◌, ◌/◌, ◌%◌, ◌^◌, ◌≤◌, ◌<◌, min}
pub use Prim.Native.String.{String}
pub use mathlib.Core.Path.{◌≡◌, refl, sym, ap, ap₂, subst, ◌∙◌}
pub use mathlib.Core.Logic.{◌≢◌, ◌↔◌, ◌⊎◌, inl, inr}
pub use mathlib.Core.Bool.{Bool, true, false, not, ◌&&◌, ◌||◌}
pub use mathlib.Core.Option.{Option, none, some}
pub use mathlib.Core.List.{List, [], ◌∷◌, ◌++◌, map}
pub use native.Mathlib.Omega.{arith}
