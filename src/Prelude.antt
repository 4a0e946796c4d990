-- ===== src/Prelude.antt =====
-- Names that the other files share: those of the libraries, passed on, the Boolean tests on native
-- numbers, lists measured by native numbers, and the values of the source language (texts, dates,
-- fields that may be left out).
mod Tests
mod Lists
mod Values
mod Texts
mod Doubles
pub use Tests.*
pub use Lists.*
unfoldable pub use Values.*
unfoldable pub use Texts.*
unfoldable pub use Doubles.*
pub use Prim.Native.Nat.{ℕ, zero, suc, ◌+◌, ◌-◌, ◌*◌, ◌/◌, ◌%◌, ◌^◌, ◌≤◌, ◌<◌, min, max}
pub use Prim.Native.String.{String}
pub use mathlib.Core.Path.{◌≡◌, refl, sym, ap, subst, ◌∙◌}
pub use mathlib.Core.Logic.{◌≢◌, ◌↔◌, ◌⊎◌, inl, inr}
pub use mathlib.Core.Bool.{Bool, true, false, not, ◌&&◌, ◌||◌}
pub use mathlib.Core.Option.{Option, none, some}
pub use mathlib.Core.List.{List, [], ◌∷◌, ◌++◌, map, Memᴰ}
pub use native.Mathlib.Omega.{arith}
pub use text.Mathlib.Text.{◌==◌ as str_eq}
pub use text.Mathlib.TextEquality.{eq_iff}
