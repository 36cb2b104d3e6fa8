-- ===== src/Prelude.antt =====
-- The names that the modules share: the libraries', passed on, and those of the children.
mod Tests
mod Int
mod Outcomes
mod Lists
mod Texts
mod Spaces
mod Members
mod Maps
mod Decimals
mod Splits
pub use Tests.*
pub use Int.*
unfoldable pub use Int.{◌+ℤ◌, ◌-ℤ◌, ◌*ℤ◌}
pub use Outcomes.*
pub use Lists.*
pub use Texts.*
unfoldable pub use Texts.{lt_text, has_prefix, contains_text, starts_nowhere}
unfoldable pub use Spaces.{trim_space, to_lower}
pub use Members.*
pub use Maps.*
unfoldable pub use Decimals.{decimal, show_int}
pub use Splits.*
unfoldable pub use Splits.{has_dot, split_dots}
unfoldable pub use Maps.{lookup, insert, remove}
unfoldable pub use Members.{are_apart, member, insert_text, sort_texts}
pub use Prim.Native.Nat.{ℕ, zero, suc, ◌+◌, ◌-◌, ◌*◌, ◌/◌, ◌%◌, ◌^◌, ◌≤◌, ◌<◌, min}
pub use Prim.Native.String.{String}
pub use mathlib.Core.Path.{◌≡◌, refl, sym, ap, ◌∙◌}
pub use mathlib.Core.Logic.{◌≢◌, ◌↔◌, ◌⊎◌, inl, inr}
pub use mathlib.Core.Bool.{Bool, true, false, not, ◌&&◌, ◌||◌}
pub use mathlib.Core.Option.{Option, none, some}
pub use mathlib.Core.List.{List, [], ◌∷◌, ◌++◌, map}
pub use native.Mathlib.Omega.{arith}
pub use text.Mathlib.Text.{◌==◌ as str_eq}
pub use text.Mathlib.TextEquality.{eq_iff as str_eq_iff}
pub use text.Mathlib.TextPositions.{eq_refl as str_eq_refl}
