-- ===== src/Base.antt =====
-- The names that every module shares: those of the libraries, passed on, and those of the children.
-- Strings of the program are lists of UTF-16 code units.
mod Tests
mod Lists
mod Strings
mod Numbers
mod Dict
mod Outcome
mod Sorting
mod Order
pub mod Action
pub mod Uri
mod Indices
unfoldable pub use Tests.*
unfoldable pub use Lists.*
unfoldable pub use Strings.*
unfoldable pub use Numbers.*
unfoldable pub use Dict.*
unfoldable pub use Outcome.*
unfoldable pub use Sorting.*
unfoldable pub use Order.*
unfoldable pub use Indices.*
pub use Prim.Native.Nat.{ℕ, zero, suc, ◌+◌, ◌-◌, ◌*◌, ◌/◌, ◌%◌, ◌^◌, ◌≤◌, ◌<◌, min, max}
pub use Prim.Native.String.{String}
pub use mathlib.Core.Path.{◌≡◌, refl, sym, ap, ◌∙◌, subst, subst₂}
pub use mathlib.Core.Logic.{◌≢◌, ◌↔◌, ◌⊎◌, inl, inr}
pub use mathlib.Core.Bool.{Bool, true, false, not, ◌&&◌, ◌||◌}
pub use mathlib.Core.Option.{Option, none, some}
pub use mathlib.Core.List.{List, [], ◌∷◌, ◌++◌, map}
pub use native.Mathlib.Omega.{arith}
