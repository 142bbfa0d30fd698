-- ===== src/Prelude/Double.antt =====
-- The numbers of the language from nought up. A double is a whole number of 2 ^ -1074, its least
-- positive value, and is written as that number.
use Prim.Native.Nat.{ℕ, zero, suc, ◌+◌, ◌-◌, ◌*◌, ◌/◌, ◌%◌, ◌^◌, ◌≤◌, ◌<◌}
use native.Mathlib.Nat.{div-lt_iff_lt-mul}
use native.Mathlib.Omega.{arith}
use vibefy.Prelude.Tests.{ltb, if◌then◌else◌, nat_beq}

unfoldable pub one : ℕ
one = 2 ^ 1074

-- The least 2 ^ k, from one on, in which a value has at most 53 binary places.
unfoldable pub spacing : ℕ → ℕ → ℕ → ℕ
spacing zero unit n = unit
spacing (suc fuel) unit n =
    let wider = spacing fuel (2 * unit) n in if ltb n (2 ^ 53 * unit) then unit else wider

-- To the nearest multiple, and of two to the even one.
abbrev pub nearest : ℕ → ℕ → ℕ
nearest unit n =
    let whole = n / unit in
    let twice = 2 * (n % unit) in
    if ltb twice unit
    then whole * unit
    else if ltb unit twice
    then (whole + 1) * unit
    else if nat_beq (whole % 2) 0
    then whole * unit
    else (whole + 1) * unit

-- The double nearest to a value, as every operation of the language rounds what it gives. The fuel is
-- the exponents that a double has.
unfoldable pub rounded : ℕ → ℕ
rounded n = nearest (spacing 2048 1 n) n

-- `Math.abs(a - b)`: rounding is the same on either side of nought.
unfoldable pub distance : ℕ → ℕ → ℕ
distance a b = rounded ((a - b) + (b - a))

-- `Number(value.toFixed(1))` in tenths: the nearest, and of two the larger one.
unfoldable pub to_tenths : ℕ → ℕ
to_tenths n = (20 * n + one) / (2 * one)

-- The double nearest to a decimal fraction of hundredths, as `Number` reads one.
unfoldable pub hundredths : ℕ → ℕ
hundredths n = rounded (n * one / 100)

-- The double nearest to a decimal fraction of tenths.
unfoldable pub tenths : ℕ → ℕ
tenths n = rounded (n * one / 10)

one_positive : 0 < one
unfolding one
one_positive = omega arith

div_bound : (n d : ℕ) → 0 < d → n ≤ 100 * d → (20 * n + d) / (2 * d) < 1001
div_bound n d positive h =
    (div-lt_iff_lt-mul {k = 2 * d} {x = 20 * n + d} {y = 1001} (omega (arith, positive))).1
      (omega (arith, h, positive))

-- Up to a hundred, at most a thousand tenths.
pub to_tenths-le : (n : ℕ) → n ≤ 100 * one → to_tenths n ≤ 1000
unfolding to_tenths
to_tenths-le n h = omega (arith, div_bound n one one_positive h)
