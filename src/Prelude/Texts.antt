-- ===== src/Prelude/Texts.antt =====
-- Methods of texts: `toLowerCase`, `startsWith`, `includes`, `join` and percentages of a rounding.
use Prim.Native.Nat.{◌+◌}
use Prim.Native.String.{String}
use mathlib.Core.Bool.{Bool, true, false, ◌||◌, ◌&&◌}
use mathlib.Core.List.{List, [], ◌∷◌, ◌++◌}
use text.Mathlib.Text.{◌==◌ as str_eq}
use dpdpos_backend.Prelude.Tests.{leb, ◌==◌, if◌then◌else◌}
use dpdpos_backend.Prelude.Lists.{any}
use dpdpos_backend.Prelude.Values.{JsText}

-- `toLowerCase`, as far as it can give letters of the basic Latin alphabet: A to Z, the sign of
-- Kelvin and the I with a dot. Other letters have other letters for their lower case, which are
-- left as they are here; the modelled code looks for basic Latin texts only.
unfoldable pub to_lower_case : JsText → JsText
to_lower_case [] = []
to_lower_case (c ∷ s) =
    let rest = to_lower_case s in
    if leb 65 c && leb c 90
    then (c + 32) ∷ rest
    else if c == 8490
    then 107 ∷ rest
    else if c == 304
    then 105 ∷ 775 ∷ rest
    else c ∷ rest

unfoldable pub starts_with : JsText → JsText → Bool
starts_with s [] = true
starts_with [] (p ∷ ps) = false
starts_with (c ∷ s) (p ∷ ps) = if c == p then starts_with s ps else false

-- `text.includes(part)`.
unfoldable pub includes : JsText → JsText → Bool
unfolding starts_with
includes [] part = starts_with [] part
includes (c ∷ s) part = starts_with (c ∷ s) part || includes s part

-- `list.includes(text)` for identifiers.
abbrev pub includes_string : List String → String → Bool
includes_string xs s = any (λ x. str_eq x s) xs

unfoldable pub join : JsText → List JsText → JsText
join sep [] = []
join sep (s ∷ []) = s
join sep (s ∷ t ∷ rest) = s ++ (sep ++ join sep (t ∷ rest))
