-- ===== src/Base.antt =====
-- Shared notation and lemmas: the libraries' names, passed on, Boolean tests on native numbers,
-- lists indexed by native numbers, texts as lists of bytes, and maps keyed by texts.
mod Tests
mod Lists
mod Strings
mod Utf8
mod Maps
pub use Tests.*
pub use Lists.*
unfoldable pub use Strings.{
  text_eq, starts_with, ends_with, trim_prefix, split_from, split, is_white, trim_space,
}
unfoldable pub use Utf8.{take_rune, rune_value}
pub use Utf8.{IsUtf8, no_runes, rune, Splits, take_rune-Splits, take_rune-given, ascii-IsUtf8}
pub use Strings.{
  Text, codes, text_eq_iff, text_eq_refl, trim_space-bracket, IsGraphic, trim_space_of_graphic,
  trim_prefix_of_none, trim_prefix-append,
}
unfoldable pub use Maps.{lookup, insert, delete}
pub use Maps.{
  Map, has, lookup-insert, lookup-insert_self, lookup-delete, Absent, lookup-Absent, HasNodupKeys,
  insert-HasNodupKeys, delete-HasNodupKeys, Absent-delete_self, Absent-delete, Absent-insert,
  delete_of_Absent, length-insert_of_none, length-insert_of_some, length-delete_of_some,
}
pub use Prim.Native.Nat.{ℕ, zero, suc, ◌+◌, ◌-◌, ◌*◌, ◌/◌, ◌%◌, ◌≤◌, ◌<◌}
pub use mathlib.Core.Path.{◌≡◌, refl, sym, ap, subst, ◌∙◌, ◌≡⟨◌⟩◌, ◌∎, fun_ext}
pub use mathlib.Core.Logic.{◌≢◌, ◌↔◌, ◌⊎◌, inl, inr}
pub use mathlib.Core.Bool.{Bool, true, false, not, ◌&&◌, ◌||◌}
pub use mathlib.Core.Option.{Option, none, some}
pub use mathlib.Core.List.{List, [], ◌∷◌, ◌++◌, map, append_assoc, append-nil}
pub use native.Mathlib.Omega.{arith}
unfoldable pub use native.Mathlib.Decide.{dec_lt, ℕ_discrete}
