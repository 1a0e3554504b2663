-- ===== src/Prelude/Time.antt =====
-- Time as a count of microseconds, the resolution of Python's `datetime`.
use Prim.Native.Nat.{ℕ, ◌+◌, ◌*◌, ◌≤◌}

abbrev pub second : ℕ
second = 1000000

abbrev pub minute : ℕ
minute = 60 * second

abbrev pub hour : ℕ
hour = 60 * minute

-- The n-th reading of the clock during one call.
abbrev pub Clock : Type 0
Clock = ℕ → ℕ

-- Each reading is at or after the one before.
abbrev pub IsMonotone : Clock → Type 0
IsMonotone clock = (n : ℕ) → clock n ≤ clock (n + 1)
