-- ===== src/Base.antt =====
-- The names that the other modules share: the libraries', passed on, and those of the children.
mod Tests
mod Equality
mod Lists
mod Dictionary
mod Floats
pub mod Whole
mod Texts
mod Order
mod Options
pub use Tests.*
pub use Equality.*
pub use Lists.*
pub use Options.*
pub use Floats.{Float, IsOrdered, ◌≼◌}
unfoldable pub use Texts.{join, or_else, or_optional, sorted, put_in}
unfoldable pub use Order.{sorted_pair}
pub use Order.{flip, texts-flip, sorted_pair_comm}
unfoldable pub use Floats.{fmax, fmin}
unfoldable pub use Dictionary.{lookup, insert, delete, contains, keys, from_pairs}
pub use Dictionary.{
  Dict, Distinct, lookup-insert, lookup-insert_self, lookup-insert_ne, lookup-delete,
  lookup-delete_self, lookup-delete_ne, insert-Distinct, delete-Distinct, from_pairs-Distinct,
  dict_laws, lookup-delete_all, lookup-delete_where, found, any-keys, Distinct-tail_ne,
  delete_absent, insert_present,
}
pub use Prim.Native.Nat.{ℕ, zero, suc, ◌+◌, ◌-◌, ◌*◌, ◌/◌, ◌%◌, ◌≤◌, ◌<◌, max}
pub use Prim.Native.String.{String}
pub use mathlib.Core.Path.{◌≡◌, refl, sym, ap, ◌∙◌}
pub use mathlib.Core.Logic.{◌≢◌, ◌↔◌, ◌⊎◌, inl, inr}
pub use mathlib.Core.Bool.{Bool, true, false, ◌&&◌, ◌||◌, not}
pub use mathlib.Core.Option.{Option, none, some}
pub use mathlib.Core.List.{List, [], ◌∷◌, ◌++◌, map, foldl}
pub use native.Mathlib.Omega.{arith}
