-- ===== src/Rubric/Fixed.antt =====
-- The arithmetic of packages/rubric/src/scoring.ts (`clamp`, `round`) in fixed point.
-- A published number x (a penalty, a multiplier, a weight, a threshold, a score) is the natural
-- number x * `scale`, so numbers of up to four decimals are exact, and a product of two of them is
-- in units of 1 / (scale * scale). JavaScript computes the same values in binary floating point.
use native.Mathlib.Nat.{mul-le-mul_right}
use vibefy.Prelude.{
  ℕ, zero, suc, ◌+◌, ◌-◌, ◌*◌, ◌/◌, ◌%◌, ◌^◌, ◌≤◌, min, leb, ◌≡◌, inl, inr, Bool-cases, arith,
}
use vibefy.Prelude.Int.{ℤ, pos, negsuc, sub_ℕ}

abbrev pub scale : ℕ
scale = 10000

-- One hundred points, as a product of two fixed-point numbers.
abbrev pub hundred : ℕ
hundred = 100 * (scale * scale)

-- `Math.max(low, Math.min(high, value))` with a lower bound of 0, on integers.
abbrev pub clamp : ℤ → ℕ → ℕ
clamp (negsuc n) high = 0
clamp (pos n) high = min high n

-- `clamp(100 - penalty, 0, 100)`.
unfoldable pub clamp_remaining : ℕ → ℕ
clamp_remaining penalty = clamp (sub_ℕ hundred penalty) hundred

-- `Math.round(value * 10 ** decimals) / 10 ** decimals` of a product, as a fixed-point number.
-- `Math.round` rounds a half up. At most four decimals fit the scale.
unfoldable pub round : ℕ → ℕ → ℕ
round value decimals =
    (value * 10 ^ decimals * 2 + scale * scale) / (2 * (scale * scale)) * (scale / 10 ^ decimals)

-- What is left of a hundred points, and nothing of less.
clamp_remaining_lem : (p : ℕ) → clamp_remaining p ≡ hundred - p
unfolding clamp_remaining
clamp_remaining_lem p = elim (Bool-cases (leb p hundred)) [
  | inl within ↦ rw within (omega arith)
  | inr beyond ↦ rw beyond (ground (arith, beyond))
]

pub clamp_remaining-le : (p : ℕ) → clamp_remaining p ≤ hundred
clamp_remaining-le p = omega (arith, clamp_remaining_lem p)

pub clamp_remaining_anti : (p q : ℕ) → p ≤ q → clamp_remaining q ≤ clamp_remaining p
clamp_remaining_anti p q h = omega (arith, clamp_remaining_lem p, clamp_remaining_lem q, h)

pub round_mono : (v w d : ℕ) → v ≤ w → round v d ≤ round w d
unfolding round
round_mono v w d h = mul-le-mul_right (scale / 10 ^ d) (omega (arith, mul-le-mul_right (10 ^ d) h))

-- Rounding keeps a value of at most one hundred points at most one hundred points.
pub round-le : (v d : ℕ) → d ≤ 4 → v ≤ hundred → round v d ≤ 100 * scale
unfolding round
round-le v zero k h = omega arith
round-le v (suc zero) k h = omega arith
round-le v (suc (suc zero)) k h = omega arith
round-le v (suc (suc (suc zero))) k h = omega arith
round-le v (suc (suc (suc (suc zero)))) k h = omega arith
round-le v (suc (suc (suc (suc (suc d))))) k h = absurd (omega arith)

-- One unit in the last decimal place that is kept.
abbrev pub last_place : ℕ → ℕ
last_place decimals = scale / 10 ^ decimals

-- A rounded value is a whole number of units in the last place.
pub round-last_place : (v d : ℕ) → d ≤ 4 → round v d % last_place d ≡ 0
unfolding round
round-last_place v zero k = omega arith
round-last_place v (suc zero) k = omega arith
round-last_place v (suc (suc zero)) k = omega arith
round-last_place v (suc (suc (suc zero))) k = omega arith
round-last_place v (suc (suc (suc (suc zero)))) k = omega arith
round-last_place v (suc (suc (suc (suc (suc d))))) k = absurd (omega arith)
