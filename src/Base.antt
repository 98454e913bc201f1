-- ===== src/Base.antt =====
-- The names that every other module shares: those of the libraries, passed on, and the children's.
pub mod Tests
pub mod Lists
pub mod Table
pub mod TableLaws
pub mod Sort
pub mod SortLaws
pub mod DeleteLaws
pub mod UpdateLaws
pub mod AppendLaws
unfoldable pub use Table.{select, first_where, exists, update_where, delete_where, count}
pub use Table.{All}
pub use Tests.*
pub use Lists.*
pub use TableLaws.*
pub use Prim.Native.Nat.{ℕ, zero, suc, ◌+◌, ◌-◌, ◌*◌, ◌/◌, ◌%◌, ◌^◌, ◌≤◌, ◌<◌, min, max}
pub use Prim.Native.String.{String}
pub use mathlib.Core.Path.{◌≡◌, refl, sym, ap, ◌∙◌}
pub use mathlib.Core.Logic.{◌≢◌, ◌↔◌, ◌⊎◌, inl, inr}
pub use mathlib.Core.Bool.{Bool, true, false, ◌&&◌, ◌||◌, not}
pub use mathlib.Core.Option.{Option, none, some}
pub use mathlib.Core.List.{List, [], ◌∷◌, ◌++◌, map}
pub use native.Mathlib.Omega.{arith}
