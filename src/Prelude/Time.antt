-- ===== src/Prelude/Time.antt =====
-- A `Date` is its number of milliseconds since 1970. `setUTCDate(getUTCDate() + n)` moves it by n
-- days of 24 hours, since UTC has no daylight saving.
use Prim.Native.Nat.{ℕ, ◌+◌, ◌*◌}

abbrev pub Date : Type 0
Date = ℕ

abbrev pub day_ms : ℕ
day_ms = 86400000

abbrev pub add_days : Date → ℕ → Date
add_days from days = from + days * day_ms
