-- ===== src/Prelude.antt =====
-- The names that the other modules share: the libraries', passed on, and those of the children.
mod Tests
mod Lists
mod Bytes
mod Equality
mod Dictionary
mod Sets
mod Joins
mod Sort
pub mod Int
pub use Tests.*
pub use Lists.{
  length, take, drop, replicate, All, length-append, take-append, drop-append, take-append-drop,
  length-take, length-drop, length-replicate, All-append, All-take, All-drop, split_at?-append,
  split_at?-inv, length-map,
}
unfoldable pub use Lists.{split_at?}
pub use Bytes.{
  IsByte, IsBytes, length-le_bytes, le_bytes-IsBytes, from_le-le_bytes, from_le-lt,
  le_bytes-from_le, IsBytes-append, length-be_bytes, be_bytes-IsBytes, from_be-be_bytes, from_be-lt,
  be_bytes-from_be,
}
unfoldable pub use Bytes.{le_bytes, from_le, be_bytes, from_be}
pub use Equality.{
  Eq, ◌=?◌, nat_eq, Text, text_beq_iff, text_eq, option_eq, option_beq, option_beq_iff, codes,
  =?_refl, text_leb_total, text_leb_trans, text_leb_antisymm,
}
unfoldable pub use Equality.{text_beq, text_leb}
pub use Dictionary.{
  Map, keys, IsMap, lookup-insert, lookup-remove, insert-IsMap, remove_absent, remove-IsMap,
  IsMap-lookup,
}
unfoldable pub use Dictionary.{lookup, insert, remove}
pub use Joins.{sum_of, sum_of-append, join_next-sum, join_next-length, join_next-All, All-join_next}
unfoldable pub use Joins.{join_next}
pub use Sort.{
  get_elem?, In, Ascending, Decides, All-imp, In-cons, All-In, All-In_self, sort_by-All, In-sort_by,
  sort_by-Ascending,
}
unfoldable pub use Sort.{ordered_insert, sort_by}
pub use Sets.{contains-add, contains-extend, contains-append}
unfoldable pub use Sets.{contains, add, extend}
unfoldable pub use native.Mathlib.Decide.{dec_lt, ℕ_discrete}
pub use Prim.Native.Nat.{ℕ, zero, suc, ◌+◌, ◌-◌, ◌*◌, ◌/◌, ◌%◌, ◌^◌, ◌≤◌, ◌<◌, min, max}
pub use mathlib.Core.Path.{◌≡◌, refl, sym, ap, ◌∙◌}
pub use mathlib.Core.Logic.{◌≢◌, ◌↔◌, ◌⊎◌, inl, inr}
pub use mathlib.Core.Bool.{Bool, true, false, not, ◌&&◌, ◌||◌}
pub use mathlib.Core.Option.{Option, none, some}
pub use mathlib.Core.List.{List, [], ◌∷◌, ◌++◌, map, append-nil, append_assoc}
pub use native.Mathlib.Omega.{arith}
