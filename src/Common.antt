-- ===== src/Common.antt =====
-- The names that every module shares: the libraries', passed on, and those of the children.
mod Tests
mod Lists
mod Int
mod Keys
mod Fallible
mod Amounts
mod Sorting
mod Texts
mod Calendar
mod Distinct
pub use Tests.*
pub use Lists.*
pub use Distinct.*
unfoldable pub use Int.*
unfoldable pub use Keys.*
pub use Fallible.*
unfoldable pub use Sorting.*
unfoldable pub use Amounts.*
unfoldable pub use Texts.*
unfoldable pub use Calendar.*
pub use Prim.Native.Nat.{ℕ, zero, suc, ◌+◌, ◌-◌, ◌*◌, ◌/◌, ◌%◌, ◌^◌, ◌≤◌, ◌<◌}
pub use Prim.Native.String.{String}
pub use mathlib.Core.Path.{◌≡◌, refl, sym, ap, ◌∙◌, fun_ext}
pub use mathlib.Core.Logic.{◌≢◌, ◌↔◌, ◌⊎◌, inl, inr}
pub use mathlib.Core.Bool.{Bool, true, false, not, ◌&&◌, ◌||◌, false≢true}
pub use mathlib.Core.Option.{Option, none, some}
pub use mathlib.Core.List.{List, [], ◌∷◌, ◌++◌, map}
pub use native.Mathlib.Omega.{arith}
