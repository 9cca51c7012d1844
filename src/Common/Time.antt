-- ===== src/Common/Time.antt =====
-- Go's `time.Time` in UTC, as nanoseconds since the zero time (1 January of year 1, a Monday), and
-- the methods that the services call. `ISOWeek` is left to a parameter.
use Prim.Native.Nat.{ℕ, ◌+◌, ◌-◌, ◌*◌, ◌/◌, ◌%◌}

abbrev pub Time : Type 0
Time = ℕ

abbrev pub day_ns : ℕ
day_ns = 86400000000000

-- t.UTC().Truncate(24 * time.Hour)
unfoldable pub truncate_day : Time → Time
truncate_day t = t / day_ns * day_ns

-- t.AddDate(0, 0, n) and t.AddDate(0, 0, -n)
unfoldable pub add_days : Time → ℕ → Time
add_days t n = t + n * day_ns

unfoldable pub sub_days : Time → ℕ → Time
sub_days t n = t - n * day_ns

-- int(t.Weekday()), where Sunday is 0
unfoldable pub weekday : Time → ℕ
weekday t = (t / day_ns + 1) % 7
