-- ===== src/Base.antt =====
-- The names that every module shares: the libraries', passed on, and those of the children.
pub mod Bits
pub mod Ors
mod Tests
mod Lists
mod Store
mod Loops
mod Maybe
mod Ints
mod Links
mod Strings
pub use Tests.*
pub use Lists.*
unfoldable pub use Store.*
pub use Maybe.*
pub use Ints.*
unfoldable pub use Links.*
unfoldable pub use Strings.*
unfoldable pub use Loops.*
pub use Prim.Native.Nat.{ℕ, zero, suc, ◌+◌, ◌-◌, ◌*◌, ◌/◌, ◌%◌, ◌^◌, ◌≤◌, ◌<◌}
pub use mathlib.Core.Path.{◌≡◌, refl, sym, ap, subst, ◌∙◌}
pub use mathlib.Core.Logic.{◌≢◌, ◌↔◌, ◌⊎◌, inl, inr}
pub use mathlib.Core.Bool.{Bool, true, false, not, ◌&&◌, ◌||◌}
pub use mathlib.Core.Option.{Option, none, some}
pub use mathlib.Core.List.{List, [], ◌∷◌, ◌++◌, map}
pub use native.Mathlib.Omega.{arith}
