-- ===== src/Base.antt =====
-- The names that the other modules share: the libraries', passed on, and those of the children.
mod Tests
mod Lists
mod Bytes
mod Slashes
mod Numbers
mod Assoc
mod Sets
mod Sort
pub use Tests.*
pub use Lists.*
unfoldable pub use Bytes.{
  Text, codes, same, text_lt, join_with, strip_prefix, trim_prefix, trim_suffix,
}
pub use Bytes.{
  same_iff, same_refl, same_comm, text_lt_asym, text_lt_irrefl, text_lt_trans, text_lt_total,
  text_lt_neg_trans, Text-set,
}
unfoldable pub use Numbers.{decimal, digits_value, signed, magnitude, atoi}
pub use Numbers.{ℤ, pos, negsuc, IsDigit, decimal-All, decimal-ne-nil, atoi-decimal}
unfoldable pub use Slashes.{split_slash, add_byte}
pub use Slashes.{join-split, join-append}
unfoldable pub use Assoc.{lookup, has, put, remove, keys}
pub use Assoc.{
  lookup-nil, lookup-put, lookup-remove, length-remove-le, length-put_new, length-remove_lt, IsMap,
  put-IsMap, remove-IsMap, length-remove_present, All-lookup, IsMap-All, assoc_laws,
}
unfoldable pub use Sets.{member, without, holds, release_token}
pub use Sets.{member-nil, holds-nil, holds-cons, member-cons, member-without, holds-release_token}
unfoldable pub use Sort.{insert_by, sort_by}
pub use Sort.{IsOrdered, OrderingLaws, sort_by-IsOrdered, sort_by-perm}
pub use Prim.Native.Nat.{ℕ, zero, suc, ◌+◌, ◌-◌, ◌*◌, ◌/◌, ◌%◌, ◌^◌, ◌≤◌, ◌<◌}
pub use mathlib.Core.Path.{◌≡◌, refl, sym, ap, subst, ◌∙◌, fun_ext}
pub use mathlib.Core.Logic.{◌≢◌, ◌↔◌, ◌⊎◌, inl, inr}
pub use mathlib.Core.Bool.{Bool, true, false, not, ◌&&◌, ◌||◌}
pub use mathlib.Core.Option.{Option, none, some}
pub use mathlib.Core.List.{List, [], ◌∷◌, ◌++◌, map, reverse, Mem, Perm}
pub use native.Mathlib.Omega.{arith}
unfoldable pub use native.Mathlib.Decide.{dec_lt, ℕ_discrete}
