-- ===== src/TimeInterval/Contains.antt =====
-- `ContainsTime` of pkg/gds/timeinterval/timeinterval.go.
use woocoo.Base.{
  ℕ, ◌+◌, ◌-◌, ◌*◌, ◌/◌, Bool, true, false, ◌&&◌, List, [], ◌∷◌, Option, none, some, ltb,
  if◌then◌else◌,
}
use woocoo.Base.Int.{ℤ, pos, negsuc, ◌+ℤ◌, ltb_ℤ}
use woocoo.TimeInterval.{TimeRange, InclusiveRange, leb_ℤ, is_negative}

-- The fields of an instant in its zone. `month_minutes` is the time from the start of its month to
-- the start of the next one, as `time` computes it in that zone.
pub record Civil : Type 0 where
  pub hour : ℕ
  pub minute : ℕ
  pub day : ℕ
  pub month : ℕ
  pub weekday : ℕ
  pub year : ℤ
  pub month_minutes : ℕ

pub record TimeInterval (Zone : Type 0) : Type 0 where
  pub times : Option (List TimeRange)
  pub weekdays : Option (List InclusiveRange)
  pub days_of_month : Option (List InclusiveRange)
  pub months : Option (List InclusiveRange)
  pub years : Option (List InclusiveRange)
  pub location : Option Zone

-- `int(diff.Hours() / 24)`.
unfoldable pub days_in_month : Civil → ℕ
days_in_month t = t.month_minutes / 1440

unfoldable pub clamp : ℤ → ℤ → ℤ → ℤ
clamp n min max = if leb_ℤ n min then min else if leb_ℤ max n then max else n

-- A bound of a day range, counted from the end of the month if it is negative.
abbrev pub resolve : ℕ → ℤ → ℤ
resolve days n = if is_negative n then pos days +ℤ n +ℤ pos 1 else n

abbrev pub minute_of_day : Civil → ℤ
minute_of_day t = pos (t.hour * 60 + t.minute)

-- The bodies of the loops.
abbrev pub in_times : Civil → TimeRange → Bool
in_times t r = leb_ℤ r.start_minute (minute_of_day t) && ltb_ℤ (minute_of_day t) r.end_minute

abbrev pub in_range : ℤ → InclusiveRange → Bool
in_range n r = leb_ℤ r.begin n && leb_ℤ n r.end

-- -1 * days.
abbrev pub minus : ℕ → ℤ
minus days = if ltb 0 days then negsuc (days - 1) else pos 0

unfoldable pub in_days : ℕ → Civil → InclusiveRange → Bool
unfolding clamp ◌+ℤ◌
in_days days t r =
    let begin = resolve days r.begin in
    let end = resolve days r.end in
    if ltb_ℤ (pos days) begin
    then false
    else leb_ℤ (clamp begin (minus days) (pos days)) (pos t.day)
      && leb_ℤ (pos t.day) (clamp end (minus days) (pos days))

-- A loop over the ranges that stops at the first one that holds; no list is no restriction.
abbrev pub found {ℓ} : {A : Type ℓ} → (A → Bool) → List A → Bool
found p [] = false
found p (x ∷ xs) = let rest = found p xs in if p x then true else rest

abbrev pub allowed {ℓ} : {A : Type ℓ} → (A → Bool) → Option (List A) → Bool
allowed p none = true
allowed p (some xs) = found p xs

module _ {Zone Instant : Type 0} (fields : Instant → Civil)
    (in_zone : Instant → Zone → Instant) where
  abbrev pub located : TimeInterval Zone → Instant → Instant
  located tp t = elim tp.location [ none ↦ t | some zone ↦ in_zone t zone ]

  unfoldable pub contains_time : TimeInterval Zone → Instant → Bool
  unfolding in_days days_in_month
  contains_time tp instant =
      let t = fields (located tp instant) in
      if allowed (in_times t) tp.times
      then if allowed (in_days (days_in_month t) t) tp.days_of_month
        then if allowed (in_range (pos t.month)) tp.months
          then if allowed (in_range (pos t.weekday)) tp.weekdays
            then allowed (in_range t.year) tp.years
            else false
          else false
        else false
      else false
