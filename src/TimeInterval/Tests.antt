-- ===== src/TimeInterval/Tests.antt =====
-- Texts of ranges, and the theorems at them. `title` is a stand-in: it raises the first letter.
use woocoo.Base.{
  ℕ, ◌+◌, ◌-◌, ◌/◌, ◌%◌, ◌≤◌, ◌<◌, ◌≡◌, ◌↔◌, refl, true, false, ◌&&◌, List, [], ◌∷◌, none, some,
  arith, codes, leb, if◌then◌else◌,
}
use woocoo.Base.Int.{◌+ℤ◌, pos, negsuc}
use woocoo.TimeInterval.{
  TimeRange, InclusiveRange, accepted, rejected, bad_order, parse_time, unmarshal_time,
  unmarshal_day, unmarshal_weekday, check_days,
}
use woocoo.TimeInterval.Times.{clock, parse_time_iff}
use woocoo.TimeInterval.Ranges.{unmarshal_time-bounds, unmarshal_day-nonempty, check_days-refuses}
use woocoo.TimeInterval.Contains.{
  Civil, TimeInterval, resolve, days_in_month, in_days, contains_time,
}
use woocoo.TimeInterval.Meaning.{Contains, Between, contains_time_iff}
use woocoo.TimeInterval.ShortMonth.{in_days-short_month}

abbrev title : List ℕ → List ℕ
title [] = []
title (c ∷ s) = (if leb b'a' c && leb c b'z' then c - 32 else c) ∷ s

weekdays_read :
    unmarshal_weekday title (codes "monday~Friday")
    ≡ accepted (record { begin = pos 1; end = pos 5 })
unfolding unmarshal_weekday
weekdays_read = refl

abbrev office : TimeRange
office = record { start_minute = pos 540; end_minute = pos 1020 }

office_read : unmarshal_time title (codes "09:00~17:00") ≡ accepted office
unfolding unmarshal_time parse_time
office_read = refl

abbrev week_end : InclusiveRange
week_end = record { begin = pos 22; end = negsuc 0 }

week_end_read : unmarshal_day title (codes "22~-1") ≡ accepted week_end
unfolding unmarshal_day
week_end_read = refl

parse_time_iff_example :
    (parse_time (codes "24:00") ≡ accepted (pos 1440))
    ↔ ((n : ℕ) × (n < 1441) × (codes "24:00" ≡ clock (n / 60) (n % 60)) × (pos 1440 ≡ pos n))
parse_time_iff_example = parse_time_iff (codes "24:00") (pos 1440)

unmarshal_time-bounds_example :
    (s : ℕ) × (e : ℕ) × (office ≡ record { start_minute = pos s; end_minute = pos e })
    × (s < e)
    × (e ≤ 1440)
unmarshal_time-bounds_example = unmarshal_time-bounds title (codes "09:00~17:00") office office_read

check_days-refuses_example :
    (check_days (record { begin = pos 29; end = negsuc 0 }) ≡ rejected bad_order)
    × Between (resolve 31 (pos 29)) (pos 29) (resolve 31 (negsuc 0))
check_days-refuses_example =
    check_days-refuses 29 0 31 (omega arith) (omega arith) (omega arith) (omega arith) (omega arith)

abbrev noon : Civil
noon = record {
  hour = 12;
  minute = 0;
  day = 30;
  month = 6;
  weekday = 2;
  year = pos 2026;
  month_minutes = 43200;
}

unmarshal_day-nonempty_example :
    (day : ℕ) × (0 < day) × (day ≤ 30) × (in_days 30 (record noon { day = day }) week_end ≡ true)
unfolding ◌+ℤ◌
unmarshal_day-nonempty_example =
    unmarshal_day-nonempty title (codes "22~-1") week_end noon 30 week_end_read (omega arith)
      (omega arith) (omega arith)

abbrev interval : TimeInterval ℕ
interval = record {
  times = some (office ∷ []);
  weekdays = none;
  days_of_month = some (week_end ∷ []);
  months = none;
  years = none;
  location = some 1;
}

abbrev shift : Civil → ℕ → Civil
shift t zone = record t { hour = t.hour + zone }

noon_in : contains_time (λ t. t) shift interval noon ≡ true
unfolding contains_time
noon_in = refl

contains_time_iff_example :
    (contains_time (λ t. t) shift interval noon ≡ true) ↔ Contains interval 30 (shift noon 1)
contains_time_iff_example =
    contains_time_iff (λ t. t) shift interval noon 30
      (omega arith, omega arith, omega arith, omega arith)

-- 31 days, less an hour.
abbrev march : Civil
march = record noon { month_minutes = 44580 }

in_days-short_month_example :
    (in_days
        (days_in_month march)
        (record march { day = 31 })
        (record { begin = negsuc 0; end = negsuc 0 })
      ≡ false)
    × (in_days
          (days_in_month march)
          (record march { day = 30 })
          (record { begin = negsuc 0; end = negsuc 0 })
        ≡ true)
in_days-short_month_example =
    in_days-short_month march 30 60 (omega arith) (omega arith) (omega arith) (omega arith)
