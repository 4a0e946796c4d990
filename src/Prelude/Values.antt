-- ===== src/Prelude/Values.antt =====
-- Values of the source language: texts as sequences of UTF-16 code units, dates as milliseconds
-- and their ISO texts, and the fields of an update that may be left out or set to null.
use Prim.Native.Nat.{ℕ, zero, suc, ◌+◌, ◌<◌, ◌/◌, ◌%◌}
use mathlib.Core.Path.{◌≡◌, refl}
use mathlib.Core.Logic.{◌↔◌, inl, inr}
use native.Mathlib.Omega.{arith}
use Prim.Native.Char.{code}
use Prim.Native.String.{String}
use mathlib.Core.Bool.{Bool, true, false, ◌||◌, ◌&&◌}
use mathlib.Core.List.{List, [], ◌∷◌, reverse}
use mathlib.Core.Option.{Option, none, some}
use text.Mathlib.Text.{◌==◌ as str_eq}
use dpdpos_backend.Prelude.Tests.{leb, ltb, ◌==◌, if◌then◌else◌, Bool-cases}

-- The code units of a free text.
abbrev pub JsText : Type 0
JsText = List ℕ

-- A literal of the source; all of them lie in the basic plane, one code unit to a character.
unfoldable pub literal : String → JsText
literal String.[] = []
literal (String.◌∷◌ c s) = code c ∷ literal s

-- The white space and line terminators that `String.prototype.trim` removes.
unfoldable pub is_space : ℕ → Bool
is_space c =
    (leb 9 c && leb c 13)
    || c == 32
    || c == 160
    || c == 5760
    || (leb 8192 c && leb c 8202)
    || c == 8232
    || c == 8233
    || c == 8239
    || c == 8287
    || c == 12288
    || c == 65279

unfoldable pub trim_start : JsText → JsText
trim_start [] = []
trim_start (c ∷ s) = if is_space c then trim_start s else c ∷ s

unfoldable pub trim : JsText → JsText
trim s = reverse (trim_start (reverse (trim_start s)))

-- The truth value of a text: it is not empty.
abbrev pub is_nonempty : JsText → Bool
is_nonempty [] = false
is_nonempty (c ∷ s) = true

-- The text that `toISOString` gives for a time value, which `new Date` reads back.
pub data IsoDate : Type 0 where
  iso : ℕ → IsoDate

abbrev pub time_of : IsoDate → ℕ
time_of (iso ms) = ms

-- A field declared `T | null` and optional: left out, null or given.
pub data Patch (A : Type 0) : Type 0 where
  undefined : Patch A
  null : Patch A
  value : A → Patch A

-- `...(x !== undefined ? { field: x } : {})` over the field's old value.
abbrev pub patch_nullable : {A : Type 0} → Patch A → Option A → Option A
patch_nullable undefined old = old
patch_nullable null old = none
patch_nullable (value a) old = some a

abbrev pub patch : {A : Type 0} → Option A → A → A
patch none old = old
patch (some a) old = a

-- A nullable column that is only ever written with a value.
abbrev pub patch_some : {A : Type 0} → Option A → Option A → Option A
patch_some none old = old
patch_some (some a) old = some a

abbrev pub patch_of : {A : Type 0} → Option A → Patch A
patch_of none = undefined
patch_of (some a) = value a

abbrev pub map_patch : {A B : Type 0} → (A → B) → Patch A → Patch B
map_patch f undefined = undefined
map_patch f null = null
map_patch f (value a) = value (f a)

abbrev pub is_some {ℓ} : {A : Type ℓ} → Option A → Bool
is_some none = false
is_some (some _) = true

-- `===` on free texts.
abbrev pub text_eq : JsText → JsText → Bool
text_eq [] [] = true
text_eq (a ∷ s) (b ∷ t) = if a == b then text_eq s t else false
text_eq _ _ = false

pub text_eq_iff : (s t : JsText) → (text_eq s t ≡ true) ↔ (s ≡ t)
text_eq_iff [] [] = (λ h. refl, λ h. refl)
text_eq_iff [] (b ∷ t) = (λ h. cc, λ h. cc)
text_eq_iff (a ∷ s) [] = (λ h. cc, λ h. cc)
text_eq_iff (a ∷ s) (b ∷ t) = ground (arith, text_eq_iff s t)

-- The decimal digits of a number, least significant first in the loop; n + 1 rounds are enough.
decimal_loop : ℕ → ℕ → JsText → JsText
decimal_loop zero n acc = acc
decimal_loop (suc fuel) n acc =
    let more = decimal_loop fuel (n / 10) ((48 + n % 10) ∷ acc) in
    if ltb n 10 then (48 + n) ∷ acc else more

-- Any two amounts of fuel above n give the same digits.
decimal_loop_enough :
    (f g n : ℕ) (acc : JsText) → n < f → n < g → decimal_loop f n acc ≡ decimal_loop g n acc
unfolding decimal_loop
decimal_loop_enough zero g n acc h k = ground arith
decimal_loop_enough (suc f) zero n acc h k = ground arith
decimal_loop_enough (suc f) (suc g) n acc h k = elim (Bool-cases (ltb n 10)) [
  | inl small ↦ rw small refl
  | inr large ↦
      rw large
        (decimal_loop_enough f g (n / 10) ((48 + n % 10) ∷ acc) (ground arith) (ground arith))
]

-- `${n}`.
unfoldable pub decimal : ℕ → JsText
unfolding decimal_loop
decimal n = decimal_loop (n + 1) n []

-- A text as a condition: null, undefined and the empty text are false.
unfoldable pub truthy : Option String → Option String
truthy none = none
truthy (some s) = if str_eq s "" then none else some s

abbrev pub given : {A : Type 0} → Patch A → Option A
given undefined = none
given null = none
given (value s) = some s
