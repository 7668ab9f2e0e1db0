-- ===== src/Prelude.antt =====
-- The names that the other modules share: the libraries', passed on, and those of the children.
mod Tests
mod Lists
mod Equality
pub mod Map
mod Words
mod Bytes
mod Sorting
pub mod Results
pub use Tests.{
  ltb, leb, if◌then◌else◌, ltb→lt, lt→ltb, leb→le, ==_iff, tests, Bool-cases, Option-cases,
}
pub use Lists.*
pub use Sorting.{
  any, insert_by_key, sort_by_key, IsSortedFrom, sort_by_key-IsSortedFrom, any-sort_by_key,
  length-sort_by_key,
}
pub use Words.{u16_max, u32_max, u64_max, saturating_add_lem, saturating_add_fits}
unfoldable pub use Words.{saturating_add}
pub use Bytes.{length-to_le_bytes, from_le_bytes-to_le_bytes, read_exact-append, read_exact_short}
unfoldable pub use Bytes.{to_le_bytes, from_le_bytes, read_exact}
pub use Equality.{Eq, ◌==◌, eq_iff_at, eq_self, nat_eq, string_eq, list_eq, contains}
pub use Prim.Native.Nat.{ℕ, zero, suc, ◌+◌, ◌-◌, ◌*◌, ◌/◌, ◌%◌, ◌^◌, ◌≤◌, ◌<◌, min, max}
pub use Prim.Native.String.{String}
pub use mathlib.Core.Path.{◌≡◌, refl, sym, ap, ◌∙◌, subst}
pub use mathlib.Core.Logic.{◌≢◌, ◌↔◌, ◌⊎◌, inl, inr}
pub use mathlib.Core.Bool.{Bool, true, false, not, ◌&&◌, ◌||◌}
pub use mathlib.Core.Option.{Option, none, some}
pub use mathlib.Core.List.{List, [], ◌∷◌, ◌++◌, map}
pub use native.Mathlib.Omega.{arith}
