-- ===== src/TimeInterval/ShortMonth.antt =====
-- `daysInMonth` of pkg/gds/timeinterval/timeinterval.go in a month in which a zone's clocks go
-- forward.
use woocoo.Base.{ℕ, suc, ◌+◌, ◌*◌, ◌≤◌, ◌<◌, ◌≡◌, false, true, arith}
use woocoo.Base.Int.{negsuc}
use woocoo.TimeInterval.{InclusiveRange}
use woocoo.TimeInterval.Contains.{Civil, days_in_month, in_days}

abbrev last_day : InclusiveRange
last_day = record { begin = negsuc 0; end = negsuc 0 }

days_in_month-short :
    (t : Civil) (days lost : ℕ)
    → t.month_minutes + lost ≡ suc days * 1440
    → 0 < lost
    → lost ≤ 1440
    → days_in_month t ≡ days
unfolding days_in_month
days_in_month-short t days lost e h k = omega arith

-- In a month that is shorter than its days by up to a day, as where clocks go forward, the range
-- from -1 to -1 does not hold the last day of the month, and holds the day before it.
pub in_days-short_month :
    (t : Civil) (days lost : ℕ)
    → t.month_minutes + lost ≡ suc days * 1440
    → 0 < lost
    → lost ≤ 1440
    → 0 < days
    → (in_days (days_in_month t) (record t { day = suc days }) last_day ≡ false)
      × (in_days (days_in_month t) (record t { day = days }) last_day ≡ true)
unfolding in_days
in_days-short_month t days lost e h k l =
    rw (days_in_month-short t days lost e h k) (ground arith, ground arith)
