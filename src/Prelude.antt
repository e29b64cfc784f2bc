-- ===== src/Prelude.antt =====
-- The names that the other modules share: the libraries', passed on, and those of seven children.
mod Tests
mod Lists
mod Texts
mod Dicts
mod Numbers
mod Trims
mod Decimals
pub use Tests.*
pub use Prim.Native.Nat.{ℕ, zero, suc, ◌+◌, ◌-◌, ◌*◌, ◌/◌, ◌%◌, ◌^◌, ◌≤◌, ◌<◌}
pub use mathlib.Core.Path.{◌≡◌, refl, sym, ap, ◌∙◌, subst}
pub use mathlib.Core.Logic.{◌≢◌, ◌↔◌, ◌⊎◌, inl, inr}
pub use mathlib.Core.Bool.{Bool, true, false, not, ◌&&◌, ◌||◌}
pub use mathlib.Core.Option.{Option, none, some}
pub use mathlib.Core.List.{List, [], ◌∷◌, ◌++◌, map}
pub use native.Mathlib.Omega.{arith}
pub use Lists.{
  length, take, drop, length-append, length-drop, take-append, drop-append, take-length-append,
  drop-length-append, All, All-append, All-append_left, All-append_right, All-drop, All-imp,
}
unfoldable pub use Lists.{keep, find, all, any}
pub use Texts.{Text, js, eq_iff, eq_refl, eq_comm, lt_text_asymm, lt_text_total}
unfoldable pub use Texts.{◌==◌, lt_text, includes}
pub use Dicts.{Dict, get-put, get-delete, dict_laws}
unfoldable pub use Dicts.{get, put, delete}
pub use Numbers.{ℤ, pos, negsuc}
unfoldable pub use Numbers.{is_blank, trim_start, trim, parse_int, decimal}
pub use Trims.{trim_idem}
pub use Decimals.{IsDigit, parse-decimal, decimal_inj, decimal-IsDigits, length-decimal_le}
