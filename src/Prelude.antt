-- ===== src/Prelude.antt =====
-- The names that the other modules share: the libraries', passed on, and those of the children.
mod Tests
mod Lists
mod Results
mod Unique
mod Texts
mod Numbers
mod Affixes
mod Quantifiers
mod Assoc
mod Slices
mod Sorting
mod Members
mod Keys
mod Fields
pub use Tests.*
pub use Lists.*
pub use Results.*
unfoldable pub use Unique.*
unfoldable pub use Texts.*
pub use Numbers.*
pub use Affixes.*
pub use Quantifiers.*
pub use Assoc.*
pub use Slices.*
unfoldable pub use Sorting.*
pub use Members.*
pub use Keys.*
unfoldable pub use Fields.*
pub use Prim.Native.Nat.{ℕ, zero, suc, ◌+◌, ◌-◌, ◌*◌, ◌/◌, ◌%◌, ◌≤◌, ◌<◌, min, max, compare}
pub use Prim.Native.String.{String}
pub use mathlib.Core.Path.{◌≡◌, refl, sym, ap, ap₂, ◌∙◌, subst}
pub use mathlib.Core.Logic.{◌≢◌, ◌↔◌, ◌⊎◌, inl, inr}
pub use mathlib.Core.Bool.{Bool, true, false, not, ◌&&◌, ◌||◌}
pub use mathlib.Core.Option.{Option, none, some}
pub use mathlib.Core.List.{List, [], ◌∷◌, ◌++◌, map, append-nil, append_assoc}
pub use native.Mathlib.Omega.{arith}
