-- ===== src/TimeInterval.antt =====
-- pkg/gds/timeinterval/timeinterval.go: ranges of times, their texts and the test of an instant.
--
-- An `int` is an integer, the bounds of the ranges stay far from its limits. A nil slice is `none`.
-- What the source takes from other packages is a parameter: `title`, the title case of
-- golang.org/x/text, and the zones and the calendar of `time`, which give an instant's fields and
-- the length of its month.
pub mod Times
pub mod Contains
pub mod Meaning
pub mod Ranges
pub mod ShortMonth
mod Tests
use woocoo.Base.{
  ℕ, ◌+◌, ◌*◌, ◌/◌, Bool, true, false, ◌&&◌, ◌||◌, List, [], ◌∷◌, Option, none, some, leb, ◌==◌,
  if◌then◌else◌, codes, same_text, split, to_lower, contains, atoi, is_digit,
}
use woocoo.Base.Int.{ℤ, pos, negsuc, ◌+ℤ◌, ltb_ℤ}

pub record TimeRange : Type 0 where
  pub start_minute : ℤ
  pub end_minute : ℤ

pub record InclusiveRange : Type 0 where
  pub begin : ℤ
  pub end : ℤ

pub data RangeError : Type 0 where
  invalid_format not_a_member out_of_range bad_order : RangeError

-- A member or a range that was read, or the reason why not.
pub data Parsed {ℓ} (T : Type ℓ) : Type ℓ where
  rejected : RangeError → Parsed T
  accepted : T → Parsed T

infixl 5 ◌>>=◌
abbrev pub ◌>>=◌ {ℓ ℓ'} : {S : Type ℓ} {T : Type ℓ'} → Parsed S → (S → Parsed T) → Parsed T
rejected problem >>= next = rejected problem
accepted member >>= next = next member

abbrev pub leb_ℤ : ℤ → ℤ → Bool
leb_ℤ a b = if ltb_ℤ b a then false else true

-- The regular expression of `parseTime`: an hour below 24 and a minute below 60, or 24:00.
pub valid_time : List ℕ → Bool
valid_time (a ∷ b ∷ c ∷ d ∷ e ∷ []) =
    ((((a == b'0' || a == b'1') && is_digit b) || (a == b'2' && (leb b'0' b && leb b b'3')))
      && c == b':'
      && (leb b'0' d && leb d b'5')
      && is_digit e)
    || same_text (a ∷ b ∷ c ∷ d ∷ e ∷ []) (codes "24:00")
valid_time _ = false

member_of : Option ℤ → Parsed ℤ
member_of none = rejected not_a_member
member_of (some n) = accepted n

-- The checks of `parseTime` behind the two calls of `Atoi`.
time_of : ℤ → ℤ → Parsed ℤ
time_of (pos hours) (pos minutes) =
    if leb hours 24 && leb minutes 60
    then accepted (pos (hours * 60 + minutes))
    else rejected out_of_range
time_of _ _ = rejected out_of_range

time_parts : List (List ℕ) → Parsed ℤ
unfolding member_of time_of
time_parts (hours ∷ minutes ∷ []) = do
  h ← member_of (atoi hours)
  m ← member_of (atoi minutes)
  time_of h m
time_parts _ = rejected invalid_format

pub parse_time : List ℕ → Parsed ℤ
unfolding valid_time time_parts
parse_time text = if valid_time text then time_parts (split b':' text) else rejected invalid_format

-- `daysOfWeek` and `months`.
abbrev pub days_of_week : List (List ℕ)
days_of_week =
    codes "Sunday"
    ∷ codes "Monday"
    ∷ codes "Tuesday"
    ∷ codes "Wednesday"
    ∷ codes "Thursday"
    ∷ codes "Friday"
    ∷ codes "Saturday"
    ∷ []

abbrev pub months : List (List ℕ)
months =
    codes "January"
    ∷ codes "February"
    ∷ codes "March"
    ∷ codes "April"
    ∷ codes "May"
    ∷ codes "June"
    ∷ codes "July"
    ∷ codes "August"
    ∷ codes "September"
    ∷ codes "October"
    ∷ codes "November"
    ∷ codes "December"
    ∷ []

-- The place of a name in such a table, counted from `n`.
abbrev pub index_from : ℕ → List ℕ → List (List ℕ) → Option ℤ
index_from n name [] = none
index_from n name (x ∷ xs) = if same_text name x then some (pos n) else index_from (n + 1) name xs

-- The four readings of a member: a number, a weekday, a month, a time.
pub data Kind : Type 0 where
  number weekday month time : Kind

pub member_from_string : Kind → List ℕ → Parsed ℤ
unfolding member_of parse_time
member_from_string number text = member_of (atoi text)
member_from_string weekday text = member_of (index_from 0 text days_of_week)
member_from_string month text = member_of (index_from 1 text months)
member_from_string time text = parse_time text

module _ (title : List ℕ → List ℕ) where
  range_parts : Kind → List (List ℕ) → Parsed InclusiveRange
  unfolding member_from_string
  range_parts kind (first ∷ last ∷ []) = do
    a ← member_from_string kind (title first)
    b ← member_from_string kind (title last)
    accepted (record { begin = a; end = b })
  range_parts kind _ = rejected invalid_format

  -- `stringableRangeFromString`.
  pub range_from_string : Kind → List ℕ → Parsed InclusiveRange
  unfolding range_parts member_from_string
  range_from_string kind text =
      let low = to_lower text in
      if contains b'~' low
      then range_parts kind (split b'~' low)
      else (member_from_string kind (title low) >>= λ n. accepted (record { begin = n; end = n }))

abbrev pub ordered : InclusiveRange → Parsed InclusiveRange
ordered r = if ltb_ℤ r.end r.begin then rejected bad_order else accepted r

-- The checks of `DayOfMonthRange.UnmarshalText`.
pub is_day : ℤ → Bool
is_day (pos n) = if n == 0 then false else leb n 31
is_day (negsuc n) = leb n 30

abbrev pub checked : ℤ → ℤ
checked (pos n) = pos n
checked (negsuc n) = pos 28 +ℤ negsuc n

abbrev pub is_negative : ℤ → Bool
is_negative a = ltb_ℤ a (pos 0)

pub check_days : InclusiveRange → Parsed InclusiveRange
unfolding is_day ◌+ℤ◌
check_days r =
    if is_day r.begin
    then if is_day r.end
      then if is_negative r.begin && ltb_ℤ (pos 0) r.end
        then rejected bad_order
        else if ltb_ℤ (checked r.end) (checked r.begin)
        then rejected bad_order
        else accepted r
      else rejected out_of_range
    else rejected out_of_range

pub check_times : InclusiveRange → Parsed TimeRange
check_times r =
    if leb_ℤ r.end r.begin
    then rejected bad_order
    else accepted (record { start_minute = r.begin; end_minute = r.end })

module _ (title : List ℕ → List ℕ) where
  pub unmarshal_weekday : List ℕ → Parsed InclusiveRange
  unfolding range_from_string
  unmarshal_weekday text = range_from_string title weekday text >>= ordered

  pub unmarshal_month : List ℕ → Parsed InclusiveRange
  unfolding range_from_string
  unmarshal_month text = range_from_string title month text >>= ordered

  pub unmarshal_year : List ℕ → Parsed InclusiveRange
  unfolding range_from_string
  unmarshal_year text = range_from_string title number text >>= ordered

  pub unmarshal_day : List ℕ → Parsed InclusiveRange
  unfolding range_from_string check_days
  unmarshal_day text = range_from_string title number text >>= check_days

  pub unmarshal_time : List ℕ → Parsed TimeRange
  unfolding range_from_string check_times
  unmarshal_time text = range_from_string title time text >>= check_times
