-- ===== src/Utils/Float64.antt =====
-- Go's `float64`, as far as pkg/utils/monitoring.go uses it: a finite value is a whole number of units of
-- 2 ^ -1074, and the result of an operation is the nearest value, ties to the even one. The numbers there
-- are far below 2 ^ 1024, so none overflows, and no operation makes a NaN.
use native.Mathlib.Nat.{div-div-eq-div-mul}
use policy_server.Prelude.{
  ℕ, zero, suc, ◌+◌, ◌-◌, ◌*◌, ◌/◌, ◌%◌, ◌^◌, ◌<◌, ◌≡◌, refl, ap, ◌∙◌, inl, inr, Bool-cases, Bool,
  true, false, ltb, leb, ltb→lt, ◌==◌, if◌then◌else◌, arith,
}
use policy_server.Strconv.{ℤ, pos, negsuc}

abbrev pub Float64 : Type 0
Float64 = ℤ

-- The units of 1.
abbrev pub one_unit : ℕ
one_unit = 2 ^ 1074

abbrev pub pos_part : ℤ → ℕ
pos_part (pos n) = n
pos_part (negsuc n) = 0

abbrev pub neg_part : ℤ → ℕ
neg_part (pos n) = 0
neg_part (negsuc n) = suc n

abbrev negative : ℕ → ℤ
negative zero = pos 0
negative (suc n) = negsuc n

-- How often `q` is halved until it has 53 bits.
excess : ℕ → ℕ → ℕ
excess zero q = 0
excess (suc fuel) q = let rest = excess fuel (q / 2) in if ltb q (2 ^ 53) then 0 else suc rest

-- The value nearest to the quotient, which is below 2 ^ 1153 here: 1100 halvings are enough.
unfoldable pub nearest : ℕ → ℕ → ℕ
unfolding excess
nearest num den =
    let e = excess 1100 (num / den) in
    let unit = den * 2 ^ e in
    let m = num / unit in
    let left = 2 * (num % unit) in
    (if ltb unit left then m + 1 else if left == unit then m + m % 2 else m) * 2 ^ e

-- The nearest value to a quotient with a sign.
abbrev rounded : ℤ → ℕ → ℤ
rounded (pos n) den = pos (nearest n den)
rounded (negsuc n) den = negative (nearest (suc n) den)

abbrev times : ℤ → ℕ → ℤ
times (pos n) k = pos (n * k)
times (negsuc n) k = negative (suc n * k)

abbrev difference : ℕ → ℕ → ℤ
difference a b = if leb b a then pos (a - b) else negsuc (b - a - 1)

-- `float64(n)`
unfoldable pub of_int64 : ℤ → Float64
of_int64 n = rounded (times n one_unit) 1

unfoldable pub add64 : Float64 → Float64 → Float64
add64 a b = rounded (difference (pos_part a + pos_part b) (neg_part a + neg_part b)) 1

unfoldable pub sub64 : Float64 → Float64 → Float64
sub64 a b = rounded (difference (pos_part a + neg_part b) (neg_part a + pos_part b)) 1

-- By a positive value.
unfoldable pub div64 : Float64 → ℕ → Float64
div64 a b = rounded (times a one_unit) b

unfoldable pub mul64 : Float64 → ℕ → Float64
mul64 a b = rounded (times a b) one_unit

unfoldable pub less : Float64 → Float64 → Bool
less a b = ltb (pos_part a + neg_part b) (pos_part b + neg_part a)

-- The constant that is written as the quotient.
abbrev pub literal : ℕ → ℕ → Float64
literal num den = pos (nearest (num * one_unit) den)

-- In `float64`, 0.015 - 0.01 is below 0.005, and 0.1 + 0.2 is above 0.3.
less_tests :
    (less (sub64 (literal 15 1000) (literal 10 1000)) (literal 5 1000) ≡ true)
    × (less (literal 3 10) (add64 (literal 1 10) (literal 2 10)) ≡ true)
    × (of_int64 (negsuc 9) ≡ negsuc (10 * one_unit - 1))
unfolding less sub64 add64 nearest of_int64
less_tests = (refl, refl, refl)

halved : (q e : ℕ) → (q / 2) / 2 ^ e ≡ q / 2 ^ suc e
halved q e = div-div-eq-div-mul q 2 (2 ^ e) ∙ ap (λ k. q / k) (omega arith)

-- With enough fuel, `excess` leaves at most 53 bits.
excess-bounds : (fuel q : ℕ) → q < 2 ^ 53 * 2 ^ fuel → q / 2 ^ excess fuel q < 2 ^ 53
unfolding excess
excess-bounds zero q h = omega (arith, h)
excess-bounds (suc fuel) q h =
    let shorter : q / 2 < 2 ^ 53 * 2 ^ fuel = omega (arith, h) in
    let rest = excess-bounds fuel (q / 2) shorter in
    elim (Bool-cases (ltb q (2 ^ 53))) [
      | inl short ↦ rw short (omega (arith, ltb→lt q (2 ^ 53) short))
      | inr long ↦ rw (long, ← halved q (excess fuel (q / 2))) rest
    ]

pub less_total : (a b : Float64) → less a b ≡ false → less b a ≡ false → a ≡ b
unfolding less
less_total a b h k = ground arith
