-- ===== src/Go/Time.antt =====
-- `time.Time` as nanoseconds since the start of year 1 in UTC (Go's zero time), and `time.Duration`
-- as a signed number of nanoseconds. A shift by a duration stops at the zero time.
use nostradamus_api.Prelude.{ℕ, suc, ◌+◌, ◌-◌, ◌*◌, ◌/◌, ◌%◌, String, ◌<>◌, ltb, leb, if◌then◌else◌}
use nostradamus_api.Prelude.Int.{ℤ, pos, negsuc, sub_ℕ, pos_part, neg_part}
use nostradamus_api.Go.Strconv.{padded}

abbrev pub Time : Type 0
Time = ℕ

abbrev pub millisecond : ℕ
millisecond = 1000000

abbrev pub day : ℕ
day = 86400000000000

-- `t.Add(-d)`
unfoldable pub before : Time → ℤ → Time
before t (pos d) = t - d
before t (negsuc d) = t + suc d

-- `time.Date(t.Year(), t.Month(), t.Day(), 0, 0, 0, 0, time.UTC)` of a time in UTC
unfoldable pub midnight : Time → Time
midnight t = t - t % day

-- The start of 1970.
abbrev pub unix_epoch : Time
unix_epoch = 719162 * day

-- `t.UnixMilli()`
unfoldable pub unix_milli : Time → ℤ
unix_milli t = sub_ℕ (t / millisecond) (unix_epoch / millisecond)

-- `time.Unix(0, n)`
unfoldable pub of_unix_nano : ℤ → Time
of_unix_nano n = unix_epoch + pos_part n - neg_part n

-- The civil date of a day counted from the start of year 1: year, month and day of the month, over
-- the 400-year cycle that begins on 1 March of year 0.
abbrev cycle_day : ℕ → ℕ
cycle_day n = (n + 306) % 146097

abbrev cycle_year : ℕ → ℕ
cycle_year n = (cycle_day n + cycle_day n / 36524 - cycle_day n / 1460 - cycle_day n / 146096) / 365

abbrev year_day : ℕ → ℕ
year_day n = cycle_day n + cycle_year n / 100 - cycle_year n * 365 - cycle_year n / 4

abbrev shifted_month : ℕ → ℕ
shifted_month n = (5 * year_day n + 2) / 153

abbrev month_of : ℕ → ℕ
month_of n = if ltb (shifted_month n) 10 then shifted_month n + 3 else shifted_month n - 9

abbrev day_of_month : ℕ → ℕ
day_of_month n = year_day n + 1 - (153 * shifted_month n + 2) / 5

abbrev year_of : ℕ → ℕ
year_of n = (n + 306) / 146097 * 400 + cycle_year n + (if leb (month_of n) 2 then 1 else 0)

unfoldable pub date_text : ℕ → String
date_text n =
    padded 4 (year_of n) <> "-" <> padded 2 (month_of n) <> "-" <> padded 2 (day_of_month n)

-- `t.Format("2006-01-02")`, to the year 9999
unfoldable pub format_date : Time → String
format_date t = date_text (t / day)

-- `%s` of a time at midnight in UTC: `(time.Time).String`
unfoldable pub midnight_text : Time → String
unfolding format_date
midnight_text t = format_date t <> " 00:00:00 +0000 UTC"
