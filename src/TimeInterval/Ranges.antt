-- ===== src/TimeInterval/Ranges.antt =====
-- What the texts of ranges in pkg/gds/timeinterval/timeinterval.go can stand for.
use mathlib.Core.Path.{subst}
use woocoo.Base.{
  ℕ, zero, suc, true, ◌+◌, ◌≤◌, ◌<◌, ◌≡◌, refl, List, [], ◌∷◌, arith, Bool-cases, inl, inr,
  contains, to_lower,
}
use woocoo.Base.Int.{ℤ, pos, negsuc, ◌+ℤ◌, ◌≤ℤ◌}
use woocoo.TimeInterval.{
  TimeRange, InclusiveRange, Parsed, accepted, rejected, bad_order, ◌>>=◌, Kind, time,
  member_from_string, range_parts, range_from_string, check_times, check_days, unmarshal_time,
  unmarshal_day,
}
use woocoo.TimeInterval.Contains.{Civil, resolve, in_days}
use woocoo.TimeInterval.Meaning.{Between, clamp-between, both_iff}
use woocoo.TimeInterval.Times.{parse_time_iff}

after-accepted {ℓ ℓ'} :
    {S : Type ℓ} {T : Type ℓ'} (read : Parsed S) (next : S → Parsed T) {t : T}
    → (read >>= next) ≡ accepted t
    → (s : S) × (read ≡ accepted s) × (next s ≡ accepted t)
after-accepted (rejected problem) next h = cc
after-accepted (accepted s) next h = (s, refl, h)

abbrev Members : Kind → InclusiveRange → Type 0
Members kind r =
    ((s : List ℕ) × (member_from_string kind s ≡ accepted r.begin))
    × ((s : List ℕ) × (member_from_string kind s ≡ accepted r.end))

Members-time :
    (s : List ℕ) (v : ℤ)
    → member_from_string time s ≡ accepted v
    → (n : ℕ) × (n < 1441) × (v ≡ pos n)
unfolding member_from_string
Members-time s v h = let (n, l, _, e) = (parse_time_iff s v).0 h in (n, l, e)

check_times-bounds :
    (a b : ℕ) (r : TimeRange)
    → b < 1441
    → check_times (record { begin = pos a; end = pos b }) ≡ accepted r
    → (r ≡ record { start_minute = pos a; end_minute = pos b }) × (a < b) × (b ≤ 1440)
unfolding check_times
check_times-bounds a b r l h = ground arith

check_days-same : (a r : InclusiveRange) → check_days a ≡ accepted r → a ≡ r
unfolding check_days
check_days-same a r h = ground arith

check_days-nonempty :
    (a b : ℤ) (r : InclusiveRange) (days : ℕ)
    → 28 ≤ days
    → check_days (record { begin = a; end = b }) ≡ accepted r
    → resolve days a ≤ℤ resolve days b
unfolding check_days ◌+ℤ◌
check_days-nonempty (pos a) (pos b) r days d h = ground arith
check_days-nonempty (pos a) (negsuc b) r days d h = ground arith
check_days-nonempty (negsuc a) (pos b) r days d h = ground arith
check_days-nonempty (negsuc a) (negsuc b) r days d h = ground arith

module _ (title : List ℕ → List ℕ) where
  -- Both bounds of a range are members.
  range_parts-Members :
      (kind : Kind) (parts : List (List ℕ)) {r : InclusiveRange}
      → range_parts title kind parts ≡ accepted r
      → Members kind r
  unfolding range_parts
  range_parts-Members kind [] h = cc
  range_parts-Members kind (a ∷ []) h = cc
  range_parts-Members kind (a ∷ b ∷ c ∷ s) h = cc
  range_parts-Members kind (a ∷ b ∷ []) {r} h =
      let (x, first, rest) = after-accepted (member_from_string kind (title a)) _ h in
      let (y, last, made) = after-accepted (member_from_string kind (title b)) _ rest in
      let same : record { begin = x; end = y } ≡ r = cc in
      subst (Members kind) same ((title a, first), (title b, last))

  range_from_string-Members :
      (kind : Kind) (text : List ℕ) {r : InclusiveRange}
      → range_from_string title kind text ≡ accepted r
      → Members kind r
  unfolding range_from_string
  range_from_string-Members kind text {r} h = elim (Bool-cases (contains b'~' (to_lower text))) [
    | inl pair ↦ range_parts-Members kind _ (rw (pair, range_from_string) at h)
    | inr single ↦
        let (n, read, made) =
          after-accepted (member_from_string kind (title (to_lower text))) _
            (rw (single, range_from_string) at h) in
        let same : record { begin = n; end = n } ≡ r = cc in
        subst (Members kind) same ((_, read), (_, read))
  ]

  -- A time range that is read is not empty and lies in one day: it starts before it ends, and ends by
  -- minute 1440.
  pub unmarshal_time-bounds :
      (text : List ℕ) (r : TimeRange)
      → unmarshal_time title text ≡ accepted r
      → (s : ℕ) × (e : ℕ) × (r ≡ record { start_minute = pos s; end_minute = pos e })
        × (s < e)
        × (e ≤ 1440)
  unfolding unmarshal_time
  unmarshal_time-bounds text r h =
      let (read, parsed, checked) =
        after-accepted (range_from_string title time text) check_times h in
      let ((s, first), (t, last)) = range_from_string-Members time text parsed in
      let (a, _, a') = Members-time s read.begin first in
      let (b, l, b') = Members-time t read.end last in
      let whole : read ≡ record { begin = pos a; end = pos b } = cc in
      let (same, less, day) = check_times-bounds a b r l (rw whole at checked) in
      (a, b, same, less, day)

-- The first day of a range that begins in a month and does not end before it lies in the range.
first_day-in :
    (days : ℕ) (begin end : ℤ)
    → 28 ≤ days
    → begin ≤ℤ end
    → begin ≤ℤ pos days
    → pos 1 ≤ℤ end
    → (day : ℕ) × (0 < day) × (day ≤ days) × (begin ≤ℤ pos day) × (pos day ≤ℤ end)
first_day-in days (pos zero) end d h k l = (1, omega arith, omega arith, ground arith, l)
first_day-in days (pos (suc n)) end d h k l = (suc n, omega arith, ground arith, ground arith, h)
first_day-in days (negsuc n) end d h k l = (1, omega arith, omega arith, ground arith, l)

-- A day range that is read holds a day of each month of 28 days or more in which its first day does
-- not come behind the month's end and its last day not before the month's start, the days counted
-- from either end of the month: the test of `ContainsTime` for a day range accepts such a day.
pub unmarshal_day-nonempty :
    (title : List ℕ → List ℕ) (text : List ℕ) (r : InclusiveRange) (t : Civil) (days : ℕ)
    → unmarshal_day title text ≡ accepted r
    → 28 ≤ days
    → resolve days r.begin ≤ℤ pos days
    → pos 1 ≤ℤ resolve days r.end
    → (day : ℕ) × (0 < day) × (day ≤ days) × (in_days days (record t { day = day }) r ≡ true)
unfolding unmarshal_day in_days
unmarshal_day-nonempty title text r t days h d begins ends =
    let (r', read, checked) =
      after-accepted (range_from_string title Kind.number text) check_days h in
    let ordered : resolve days r.begin ≤ℤ resolve days r.end =
      rw (← check_days-same r' r checked) (check_days-nonempty r'.begin r'.end r days d checked) in
    let (day, low, high, from_begin, to_end) =
      first_day-in days (resolve days r.begin) (resolve days r.end) d ordered begins ends in
    (
      day,
      low,
      high,
      rw (clamp-between days day (resolve days r.begin) (resolve days r.end) low high)
          ((both_iff (resolve days r.begin) (pos day) (resolve days r.end)).1 (from_begin, to_end)),
    )

-- The check of a day range that ends at a day counted from the end of the month refuses more than
-- the ranges that are always empty: the range from day `b` to day -(e + 1) is refused if
-- b + e + 1 > 28, also where day `b` lies in it, in a month of at least b + e days.
pub check_days-refuses :
    (b e days : ℕ)
    → 0 < b
    → b ≤ 31
    → e ≤ 30
    → 28 < b + suc e
    → b + e ≤ days
    → (check_days (record { begin = pos b; end = negsuc e }) ≡ rejected bad_order)
      × Between (resolve days (pos b)) (pos b) (resolve days (negsuc e))
unfolding check_days ◌+ℤ◌
check_days-refuses b e days h k l m n = (ground arith, ground arith)
