-- ===== src/Base.antt =====
-- Names that all modules share: those of the libraries, passed on, and those of the children.
mod Tests
mod Lists
mod Equality
mod Text
mod Sorting
mod Members
mod Parts
mod Causes
pub use Tests.*
pub use Lists.*
unfoldable pub use Equality.*
unfoldable pub use Text.*
unfoldable pub use Sorting.*
pub use Members.*
pub use Causes.*
pub use Parts.*
pub use Prim.Native.Nat.{ℕ, zero, suc, ◌+◌, ◌-◌, ◌*◌, ◌/◌, ◌%◌, ◌^◌, ◌≤◌, ◌<◌}
pub use Prim.Native.String.{String}
pub use mathlib.Core.Path.{◌≡◌, refl, sym, ap, ◌∙◌, subst}
pub use mathlib.Core.Logic.{◌≢◌, ◌↔◌, ◌⊎◌, inl, inr}
pub use mathlib.Core.Bool.{Bool, true, false, not, ◌&&◌, ◌||◌}
pub use mathlib.Core.Option.{Option, none, some}
pub use mathlib.Core.List.{List, [], ◌∷◌, ◌++◌, map}
pub use native.Mathlib.Omega.{arith}
pub use text.Mathlib.TextEquality.{eq_iff}
