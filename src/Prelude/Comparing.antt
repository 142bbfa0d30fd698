-- ===== src/Prelude/Comparing.antt =====
-- The result of a comparison function of JavaScript, of which only the sign counts.
use Prim.Native.Nat.{ℕ}
use mathlib.Core.Bool.{Bool, true, false}
use vibefy.Prelude.Tests.{if◌then◌else◌, ltb}

pub data Sign : Type 0 where
  before same after : Sign

-- `a || b` of two comparisons.
abbrev pub or_then : Sign → Sign → Sign
or_then before next = before
or_then same next = next
or_then after next = after

-- The sign of `a - b`.
abbrev pub minus : ℕ → ℕ → Sign
minus a b = if ltb a b then before else if ltb b a then after else same

abbrev pub is_before : Sign → Bool
is_before before = true
is_before _ = false
