-- ===== src/Prelude/Doubles.antt =====
-- Numbers of the source that are no integers: IEEE doubles that are not negative and below 2^53, with
-- their sums, products and quotients rounded to the nearest double, a tie to the even one.
use Prim.Native.Nat.{ℕ, zero, suc, ◌+◌, ◌*◌, ◌/◌, ◌%◌, ◌^◌, ◌≤◌, ◌<◌}
use mathlib.Core.Path.{◌≡◌, refl, sym, ap, subst, ◌∙◌}
use mathlib.Core.Bool.{Bool, true, false}
use native.Mathlib.Omega.{arith, div_any}
use native.Mathlib.Nat.{mul-le-mul, mul-le-mul_left, mul-le-mul_right, le-div_iff_mul-le, mod-lt}
use dpdpos_backend.Prelude.Tests.{if◌then◌else◌, ltb, ◌==◌}

-- The value is the mantissa over the scale, a power of two.
pub record Double : Type 0 where
  pub mantissa : ℕ
  pub scale : ℕ

-- `n / d` rounded to an integer, a tie to the even one.
unfoldable pub round_even : ℕ → ℕ → ℕ
round_even n d =
    if ltb (2 * (n % d)) d
    then n / d
    else if ltb d (2 * (n % d))
    then n / d + 1
    else n / d + n / d % 2

-- The first scale from a given one at which `a / b` has 53 bits; 1074 doublings are all that a double has.
unfoldable pub scale_from : ℕ → ℕ → ℕ → ℕ → ℕ
scale_from zero a b s = s
scale_from (suc fuel) a b s = elim (ltb (a * s) (b * 2 ^ 52)) as (λ _. ℕ) [
  | true ↦ scale_from fuel a b (2 * s)
  | false ↦ s
]

-- The double nearest to `a / b`.
unfoldable pub nearest : ℕ → ℕ → Double
nearest a b = elim (a == 0) as (λ _. Double) [
  | true ↦ record { mantissa = 0; scale = 1 }
  | false ↦ (let s = scale_from 1074 a b 1 in record { mantissa = round_even (a * s) b; scale = s })
]

-- An integer below 2^53 is a double.
unfoldable pub double : ℕ → Double
double n = record { mantissa = n; scale = 1 }

unfoldable pub add : Double → Double → Double
add x y = nearest (x.mantissa * y.scale + y.mantissa * x.scale) (x.scale * y.scale)

unfoldable pub multiply : Double → Double → Double
multiply x y = nearest (x.mantissa * y.mantissa) (x.scale * y.scale)

unfoldable pub divide : Double → Double → Double
divide x y = nearest (x.mantissa * y.scale) (x.scale * y.mantissa)

-- `Math.round`.
unfoldable pub math_round : Double → ℕ
math_round x = (2 * x.mantissa + x.scale) / (2 * x.scale)

-- Rounding of `q + r / d`.
rounded-le :
    (q r d m dq dm : ℕ)
    → 0 < d
    → dq + r ≤ dm
    → (m ≤ q → dm ≤ dq)
    → (m + 1 ≤ q → dm + d ≤ dq)
    → (if ltb (2 * r) d then q else if ltb d (2 * r) then q + 1 else q + q % 2) ≤ m
rounded-le q r d m dq dm h k f g = ground (arith, f, g)

pub round_even-le : (n d m : ℕ) → 0 < d → n ≤ m * d → round_even n d ≤ m
unfolding round_even
round_even-le n d m h k =
    rounded-le (n / d) (n % d) d m (d * (n / d)) (d * m) h
      (subst (λ z. z ≤ d * m) (sym (div_any n d)) (omega (arith, k))) (λ e. mul-le-mul_left d e)
      (λ e. omega (arith, mul-le-mul_left d e))

pub round_even-ge : (n d m : ℕ) → 0 < d → m * d ≤ n → m ≤ round_even n d
unfolding round_even
round_even-ge n d m h k = let low : m ≤ n / d = (le-div_iff_mul-le h).1 k in ground (arith, low)

near-rounded :
    (q r d m dq dm : ℕ)
    → r < d
    → 2 * dm < 2 * (dq + r) + d
    → (q + 1 ≤ m → dq + d ≤ dm)
    → (q + 2 ≤ m → dq + 2 * d ≤ dm)
    → m ≤ (if ltb (2 * r) d then q else if ltb d (2 * r) then q + 1 else q + q % 2)
near-rounded q r d m dq dm h k f g = ground (arith, f, g)

-- More than the integer less a half is rounded to the integer at least.
pub round_even-near : (n d m : ℕ) → 0 < d → 2 * (m * d) < 2 * n + d → m ≤ round_even n d
unfolding round_even
round_even-near n d m h k =
    near-rounded (n / d) (n % d) d m (d * (n / d)) (d * m) (mod-lt n h)
      (subst (λ z. 2 * (d * m) < 2 * z + d) (sym (div_any n d)) (omega (arith, k)))
      (λ e. omega (arith, mul-le-mul_left d e)) (λ e. omega (arith, mul-le-mul_left d e))

scale_from-pos : (fuel a b s : ℕ) → 0 < s → 0 < scale_from fuel a b s
unfolding scale_from
scale_from-pos zero a b s h = h
scale_from-pos (suc fuel) a b s h =
    go (scale_from-pos fuel a b (2 * s) (omega arith)) (ltb (a * s) (b * 2 ^ 52))
  where
    go :
        0 < scale_from fuel a b (2 * s)
        → (t : Bool) → 0 < (elim t as (λ _. ℕ) [ true ↦ scale_from fuel a b (2 * s) | false ↦ s ])
    go doubled true = doubled
    go doubled false = h

-- A double is at most an integer.
pub record AtMost (x : Double) (n : ℕ) : Type 0 where
  pub scaled : 0 < x.scale
  pub below : x.mantissa ≤ n * x.scale

bound : (x n m s : ℕ) → n ≤ m → x ≤ n * s → x ≤ m * s
bound x n m s h k = let wider : n * s ≤ m * s = mul-le-mul_right s h in omega (arith, wider, k)

pub raise : {x : Double} (n m : ℕ) → n ≤ m → AtMost x n → AtMost x m
raise {x} n m h a = record { scaled = a.scaled; below = bound x.mantissa n m x.scale h a.below }

pub nearest-AtMost : (a b n : ℕ) → 0 < b → a ≤ n * b → AtMost (nearest a b) n
unfolding nearest
nearest-AtMost a b n h k = go (a == 0)
  where
    s : ℕ
    s = scale_from 1074 a b 1

    grown : a * s ≤ n * s * b
    grown = omega (arith, mul-le-mul_right s k)

    go :
        (t : Bool)
        → AtMost
            (elim t as (λ _. Double) [
              | true ↦ record { mantissa = 0; scale = 1 }
              | false ↦ record { mantissa = round_even (a * s) b; scale = s }
            ])
            n
    go true = record { scaled = omega arith; below = omega arith }
    go false = record {
      scaled = scale_from-pos 1074 a b 1 (omega arith);
      below = round_even-le (a * s) b (n * s) h grown;
    }

pub double-AtMost : (a n : ℕ) → a ≤ n → AtMost (double a) n
unfolding double
double-AtMost a n h = record { scaled = omega arith; below = omega arith }

scales : (s t : ℕ) → 0 < s → 0 < t → 0 < s * t
scales s t h k = omega (arith, mul-le-mul {n₁ = 1} {m₁ = 1} h k)

pub add-AtMost : (x y : Double) (n m : ℕ) → AtMost x n → AtMost y m → AtMost (add x y) (n + m)
unfolding add
add-AtMost x y n m a b =
    nearest-AtMost (x.mantissa * y.scale + y.mantissa * x.scale) (x.scale * y.scale) (n + m)
      (scales x.scale y.scale a.scaled b.scaled)
      (omega (arith, mul-le-mul_right y.scale a.below, mul-le-mul_right x.scale b.below))

pub multiply-AtMost : (x : Double) (n k : ℕ) → AtMost x n → AtMost (multiply x (double k)) (n * k)
unfolding multiply double
multiply-AtMost x n k a =
    nearest-AtMost (x.mantissa * k) (x.scale * 1) (n * k) (omega (arith, a.scaled))
      (omega (arith, mul-le-mul_right k a.below))

-- A quotient by an integer that is at least the dividend.
pub divide-AtMost : (x : Double) (n : ℕ) → 0 < n → AtMost x n → AtMost (divide x (double n)) 1
unfolding divide double
divide-AtMost x n h a =
    nearest-AtMost (x.mantissa * 1) (x.scale * n) 1 (scales x.scale n a.scaled h)
      (omega (arith, a.below))

pub math_round-le : (x : Double) (n : ℕ) → AtMost x n → math_round x ≤ n
unfolding math_round
math_round-le x n a =
    let large =
      (le-div_iff_mul-le {k = 2 * x.scale} {x = n + 1} {y = 2 * x.mantissa + x.scale}
        (omega (arith, a.scaled))).0 in
    ground (arith, large, a.scaled, a.below)

abbrev power : ℕ → ℕ
power zero = 1
power (suc k) = 2 * power k

power-pos : (k : ℕ) → 0 < power k
power-pos zero = omega arith
power-pos (suc k) = omega (arith, power-pos k)

-- Doublings as long as the quotient has fewer than 53 bits.
scale_from-steps :
    (k n fuel a b s : ℕ)
    → n ≡ k + fuel
    → a * s * power k < 2 * (b * 2 ^ 52)
    → scale_from n a b s ≡ scale_from fuel a b (s * power k)
unfolding scale_from
scale_from-steps zero n fuel a b s e h =
    ap (λ m. scale_from m a b s) (e ∙ omega arith)
    ∙ ap (scale_from fuel a b) {x = s} {y = s * 1} (omega arith)
scale_from-steps (suc k) zero fuel a b s e h = absurd (omega (arith, e))
scale_from-steps (suc k) (suc n) fuel a b s e h =
    let grown = mul-le-mul_left (a * s) (power-pos k) in
    let small : ltb (a * s) (b * 2 ^ 52) ≡ true = ground (arith, grown) in
    subst
      (λ t.
        (elim t as (λ _. ℕ) [ true ↦ scale_from n a b (2 * s) | false ↦ s ])
        ≡ scale_from fuel a b (s * power (suc k)))
      (sym small)
      (scale_from-steps k n fuel a b (2 * s) (omega (arith, e)) (omega (arith, h))
        ∙ ap (scale_from fuel a b) {x = 2 * s * power k} {y = s * (2 * power k)} (omega arith))

scale_from-stops : (fuel a b s : ℕ) → b * 2 ^ 52 ≤ a * s → scale_from (suc fuel) a b s ≡ s
unfolding scale_from
scale_from-stops fuel a b s h =
    let large : ltb (a * s) (b * 2 ^ 52) ≡ false = ground arith in
    subst (λ t. (elim t as (λ _. ℕ) [ true ↦ scale_from fuel a b (2 * s) | false ↦ s ]) ≡ s)
      (sym large) refl

abbrev at_scale : ℕ → ℕ → ℕ → Double
at_scale a b s = record { mantissa = round_even (a * s) b; scale = s }

nearest-at :
    (k fuel a b : ℕ)
    → k + suc fuel ≡ 1074
    → 0 < a
    → a * power k < 2 * (b * 2 ^ 52)
    → b * 2 ^ 52 ≤ a * power k
    → nearest a b ≡ record { mantissa = round_even (a * power k) b; scale = power k }
unfolding nearest
nearest-at k fuel a b fuels h small large =
    let full : scale_from 1074 a b 1 ≡ power k =
      scale_from-steps k 1074 (suc fuel) a b 1 (sym fuels) (omega (arith, small))
      ∙ ap (scale_from (suc fuel) a b) {x = 1 * power k} {y = power k} (omega arith)
      ∙ scale_from-stops fuel a b (power k) large in
    let some_value : (a == 0) ≡ false = ground arith in
    subst
      (λ t.
        (elim t as (λ _. Double) [
          | true ↦ record { mantissa = 0; scale = 1 }
          | false ↦ record {
            mantissa = round_even (a * scale_from 1074 a b 1) b;
            scale = scale_from 1074 a b 1;
          }
        ])
        ≡ record { mantissa = round_even (a * power k) b; scale = power k })
      (sym some_value) (ap (λ s. at_scale a b s) full)

-- `Math.round(((t - f) / t) * 100)`.
unfoldable pub percentage : ℕ → ℕ → ℕ
percentage a b = math_round (multiply (divide (double a) (double b)) (double 100))

pub percentage-le : (a b : ℕ) → 0 < b → a ≤ b → percentage a b ≤ 100
unfolding percentage
percentage-le a b h k = math_round-le _ 100 (
    multiply-AtMost (divide (double a) (double b)) 1 100
      (divide-AtMost (double a) b h (double-AtMost a b k)))

rounds_full :
    (n : ℕ)
    → 7001690045677568 ≤ n
    → n ≤ 100 * 70368744177664
    → math_round (record { mantissa = n; scale = 70368744177664 }) ≡ 100
unfolding math_round
rounds_full n low high = omega (arith, low, high)

-- With 199 of 200 in order, or more, the share is written as 100.
pub percentage-full : (a b : ℕ) → 0 < b → a < b → 199 * b ≤ 200 * a → percentage a b ≡ 100
unfolding percentage divide double multiply
percentage-full a b pos small h =
    let m = round_even (a * 1 * power 53) (1 * b) in
    let q : divide (double a) (double b) ≡ record { mantissa = m; scale = power 53 } =
      nearest-at 53 1020 (a * 1) (1 * b) refl (omega (arith, h)) (omega (arith, h, small))
        (omega (arith, h)) in
    let m_low : 8962163258467287 ≤ m =
      round_even-ge (a * 1 * power 53) (1 * b) 8962163258467287 (omega (arith, pos))
        (omega (arith, h)) in
    let m_high : m ≤ power 53 =
      round_even-le (a * 1 * power 53) (1 * b) (power 53) (omega (arith, pos))
        (omega (arith, small)) in
    let p : nearest (m * 100) (power 53 * 1) ≡ at_scale (m * 100) (power 53 * 1) (power 46) =
      nearest-at 46 1027 (m * 100) (power 53 * 1) refl (omega (arith, m_low))
        (omega (arith, m_high)) (omega (arith, m_low)) in
    let n = round_even (m * 100 * power 46) (power 53 * 1) in
    let n_low : 7001690045677568 ≤ n =
      round_even-near (m * 100 * power 46) (power 53 * 1) 7001690045677568 (omega arith)
        (omega (arith, m_low)) in
    let n_high : n ≤ 100 * power 46 =
      round_even-le (m * 100 * power 46) (power 53 * 1) (100 * power 46) (omega arith)
        (omega (arith, m_high)) in
    ap (λ (x : Double). math_round (nearest (x.mantissa * 100) (x.scale * 1))) q
    ∙ ap math_round p
    ∙ rounds_full n n_low n_high
