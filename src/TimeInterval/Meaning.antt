-- ===== src/TimeInterval/Meaning.antt =====
-- What an interval of pkg/gds/timeinterval/timeinterval.go means.
use woocoo.Base.{
  ℕ, suc, ◌+◌, ◌*◌, ◌≤◌, ◌<◌, ◌≡◌, ◌↔◌, ◌⊎◌, inl, inr, refl, Bool, true, false, ◌&&◌, List, [], ◌∷◌,
  Option, none, some, arith, if◌then◌else◌, Bool-cases,
}
use woocoo.Base.Int.{ℤ, pos, negsuc, ◌+ℤ◌, ◌≤ℤ◌, ltb_ℤ}
use woocoo.TimeInterval.{TimeRange, InclusiveRange, leb_ℤ}
use woocoo.TimeInterval.Contains.{
  Civil, TimeInterval, days_in_month, clamp, resolve, minute_of_day, in_times, in_range, minus,
  in_days, found, allowed, located, contains_time,
}

-- The instant's day lies in its month, which has this many days, and is not shorter than they are
-- nor longer by a day: clocks do not go forward in it.
abbrev pub IsDated : (days : ℕ) → Civil → Type 0
IsDated days t =
    (0 < t.day)
    × (t.day ≤ days)
    × (days * 1440 ≤ t.month_minutes)
    × (t.month_minutes < suc days * 1440)

days_in_month-IsDated : (days : ℕ) (t : Civil) → IsDated days t → days_in_month t ≡ days
unfolding days_in_month
days_in_month-IsDated days t (a, b, c, d) = omega arith

abbrev pub Between : ℤ → ℤ → ℤ → Type 0
Between a n b = (a ≤ℤ n) × (n ≤ℤ b)

-- Some element of the list has the property.
abbrev pub Any {ℓ} : {A : Type ℓ} → (A → Type 0) → List A → Type 0
Any P [] = ⊥
Any P (x ∷ xs) = P x ⊎ Any P xs

abbrev pub Allows {ℓ} : {A : Type ℓ} → (A → Type 0) → Option (List A) → Type 0
Allows P none = Unit
Allows P (some xs) = Any P xs

leb_ℤ_iff : (a b : ℤ) → (leb_ℤ a b ≡ true) ↔ (a ≤ℤ b)
leb_ℤ_iff a b = ground arith

-- Clamping to the month and skipping a range behind its end change nothing for a day of the month.
pub clamp-between :
    (days day : ℕ) (begin end : ℤ)
    → 0 < day
    → day ≤ days
    → ((if ltb_ℤ (pos days) begin
          then false
          else leb_ℤ (clamp begin (minus days) (pos days)) (pos day)
            && leb_ℤ (pos day) (clamp end (minus days) (pos days)))
        ≡ (leb_ℤ begin (pos day) && leb_ℤ (pos day) end))
unfolding clamp
clamp-between days day begin end p q = ground arith

pub both_iff : (a n b : ℤ) → ((leb_ℤ a n && leb_ℤ n b) ≡ true) ↔ Between a n b
both_iff a n b = ground arith

-- A day of a month is on or behind a bound, where -1 is the last day and -(e + 1) the e-th before it.
abbrev pub NotBefore : (days day : ℕ) → (bound : ℤ) → Type 0
NotBefore days day (pos n) = n ≤ day
NotBefore days day (negsuc e) = days ≤ day + e

abbrev pub NotAfter : (days day : ℕ) → (bound : ℤ) → Type 0
NotAfter days day (pos n) = day ≤ n
NotAfter days day (negsuc e) = day + e ≤ days

abbrev pub InDays : (days : ℕ) → Civil → InclusiveRange → Type 0
InDays days t r = NotBefore days t.day r.begin × NotAfter days t.day r.end

resolve-NotBefore :
    (days day : ℕ) (bound : ℤ) → (resolve days bound ≤ℤ pos day) ↔ NotBefore days day bound
unfolding ◌+ℤ◌
resolve-NotBefore days day (pos n) = ground arith
resolve-NotBefore days day (negsuc e) = ground arith

resolve-NotAfter :
    (days day : ℕ) (bound : ℤ) → (pos day ≤ℤ resolve days bound) ↔ NotAfter days day bound
unfolding ◌+ℤ◌
resolve-NotAfter days day (pos n) = ground arith
resolve-NotAfter days day (negsuc e) = ground arith

in_days_iff :
    (days : ℕ) (t : Civil) (r : InclusiveRange)
    → IsDated days t
    → (in_days (days_in_month t) t r ≡ true) ↔ InDays days t r
unfolding in_days
in_days_iff days t r d =
    let low = resolve-NotBefore days t.day r.begin in
    let high = resolve-NotAfter days t.day r.end in
    let between = both_iff (resolve days r.begin) (pos t.day) (resolve days r.end) in
    rw
      (
        days_in_month-IsDated days t d,
        clamp-between days t.day (resolve days r.begin) (resolve days r.end) d.0 d.1,
      )
      (
        λ e. let (a, b) = between.0 e in (low.0 a, high.0 b),
        λ (a, b). between.1 (low.1 a, high.1 b),
      )

module _ {ℓ} {A : Type ℓ} (p : A → Bool) (P : A → Type 0) (h : (x : A) → (p x ≡ true) ↔ P x) where
  found_sound : (xs : List A) → found p xs ≡ true → Any P xs
  found_sound [] e = cc
  found_sound (x ∷ xs) e = elim (Bool-cases (p x)) [
    | inl first ↦ inl ((h x).0 first)
    | inr later ↦ inr (found_sound xs (rw later at e))
  ]

  found_complete : (xs : List A) → Any P xs → found p xs ≡ true
  found_complete [] a = absurd a
  found_complete (x ∷ xs) (inl here) = rw ((h x).1 here)
  found_complete (x ∷ xs) (inr later) = ground (arith, found_complete xs later)

  allowed_iff : (xs : Option (List A)) → (allowed p xs ≡ true) ↔ Allows P xs
  allowed_iff none = (λ e. tt, λ u. refl)
  allowed_iff (some xs) = (found_sound xs, found_complete xs)

abbrev pub InTimes : Civil → TimeRange → Type 0
InTimes t r = (r.start_minute ≤ℤ minute_of_day t) × (minute_of_day t +ℤ pos 1 ≤ℤ r.end_minute)

abbrev pub InRange : ℤ → InclusiveRange → Type 0
InRange n r = Between r.begin n r.end

-- What an interval means in a month of this many days: each restriction that it has is met by one of
-- its ranges.
abbrev pub Contains : {Zone : Type 0} → TimeInterval Zone → (days : ℕ) → Civil → Type 0
Contains tp days t =
    Allows (InTimes t) tp.times
    × Allows (InDays days t) tp.days_of_month
    × Allows (InRange (pos t.month)) tp.months
    × Allows (InRange (pos t.weekday)) tp.weekdays
    × Allows (InRange t.year) tp.years

in_times_iff : (t : Civil) (r : TimeRange) → (in_times t r ≡ true) ↔ InTimes t r
unfolding ◌+ℤ◌
in_times_iff t r = ground arith

all_iff :
    (a b c d e : Bool)
    → ((if a then if b then if c then if d then e else false else false else false else false)
        ≡ true)
      ↔ ((a ≡ true) × (b ≡ true) × (c ≡ true) × (d ≡ true) × (e ≡ true))
all_iff a b c d e = ground arith

module _ {Zone Instant : Type 0} (fields : Instant → Civil) (in_zone : Instant → Zone → Instant)
    (tp : TimeInterval Zone) (t : Instant) where
  -- `ContainsTime` accepts an instant exactly when, read in the interval's zone, it meets every
  -- restriction by one of its ranges: the minute of the day from the start on and before the end,
  -- the day between inclusive bounds, of which a negative one counts back from the last day, -1, and
  -- the month, the weekday and the year between inclusive bounds. The instant's day lies between 1 and
  -- the length of its month, and the zone's clocks do not go forward in this month.
  pub contains_time_iff :
      (length : ℕ)
      → IsDated length (fields (located fields in_zone tp t))
      → (contains_time fields in_zone tp t ≡ true)
        ↔ Contains tp length (fields (located fields in_zone tp t))
  unfolding contains_time
  contains_time_iff length d = (
    λ e.
        let (a, b, c, w, y) = (all_iff _ _ _ _ _).0 e in
        (
          times.0 a,
          days.0 b,
          (ranges (pos at.month) tp.months).0 c,
          (ranges (pos at.weekday) tp.weekdays).0 w,
          (ranges at.year tp.years).0 y,
        ),
    λ (a, b, c, w, y). (all_iff _ _ _ _ _).1 (
      times.1 a,
      days.1 b,
      (ranges (pos at.month) tp.months).1 c,
      (ranges (pos at.weekday) tp.weekdays).1 w,
      (ranges at.year tp.years).1 y,
    ),
  )
    where
      at : Civil
      at = fields (located fields in_zone tp t)

      times : (allowed (in_times at) tp.times ≡ true) ↔ Allows (InTimes at) tp.times
      times = allowed_iff (in_times at) (InTimes at) (in_times_iff at) tp.times

      days :
          (allowed (in_days (days_in_month at) at) tp.days_of_month ≡ true)
          ↔ Allows (InDays length at) tp.days_of_month
      days =
          allowed_iff (in_days (days_in_month at) at) (InDays length at)
            (λ r. in_days_iff length at r d) tp.days_of_month

      ranges :
          (n : ℤ) (rs : Option (List InclusiveRange))
          → (allowed (in_range n) rs ≡ true) ↔ Allows (InRange n) rs
      ranges n rs = allowed_iff (in_range n) (InRange n) (λ r. both_iff r.begin n r.end) rs
