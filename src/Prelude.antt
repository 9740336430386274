-- ===== src/Prelude.antt =====
-- The names that the other modules share: the libraries', passed on, and those of the children:
-- tests and branching, lists over the native numbers, and Python's text as code points.
mod Tests
mod Int
mod Paths
mod Lists
mod Strings
pub use Int.{ℤ, pos, negsuc, incr, decr, is_zero}
pub use Paths.{basename, splitext_root, splitext_ext, path_join, dirname, value_of, is_digit}
unfoldable pub use Paths.{decimal}
pub use Tests.*
pub use Lists.*
pub use Strings.{Text, codes, text_eq_iff, text_eq_refl}
pub use Strings.{text_in, is_space, drop_prefix, is_some, contains, starts_with, ends_with, lstrip}
pub use Strings.{strip, join, cons_first, split, replace_from, replace, lower, upper, capitalize}
unfoldable pub use Strings.{text_eq}
pub use Prim.Native.Nat.{ℕ, zero, suc, ◌+◌, ◌-◌, ◌*◌, ◌≤◌, ◌<◌}
pub use Prim.Native.String.{String}
pub use mathlib.Core.Path.{◌≡◌, refl, sym, ap, ◌∙◌}
pub use mathlib.Core.Logic.{◌≢◌, ◌↔◌, ◌⊎◌, inl, inr}
pub use mathlib.Core.Bool.{Bool, true, false, not, ◌&&◌, ◌||◌}
pub use mathlib.Core.Option.{Option, none, some}
pub use mathlib.Core.List.{List, [], ◌∷◌, ◌++◌, map, reverse, append-nil, append_assoc}
pub use native.Mathlib.Omega.{arith}
