-- ===== src/TimeInterval/Times.antt =====
-- `parseTime` and the time ranges of pkg/gds/timeinterval/timeinterval.go.
use woocoo.Base.{
  ℕ, zero, suc, ◌+◌, ◌-◌, ◌*◌, ◌/◌, ◌%◌, ◌≤◌, ◌<◌, ◌≡◌, ◌↔◌, ◌∙◌, sym, ap, refl, Bool, true, false,
  ◌&&◌, List, [], ◌∷◌, arith, ◌==◌, Bool-cases, inl, inr,
}
use woocoo.Base.Int.{ℤ, pos, negsuc}
use woocoo.TimeInterval.{Parsed, accepted, rejected, valid_time, parse_time}

-- The text of an hour and a minute, two digits each.
abbrev pub clock : ℕ → ℕ → List ℕ
clock h m = (b'0' + h / 10) ∷ (b'0' + h % 10) ∷ b':' ∷ (b'0' + m / 10) ∷ (b'0' + m % 10) ∷ []

abbrev is_minutes : ℕ → Parsed ℤ → Bool
is_minutes n (accepted (pos k)) = k == n
is_minutes n _ = false

-- Whether `parse_time` reads the text of each minute below a number as that minute.
every_minute : ℕ → Bool
every_minute zero = true
every_minute (suc n) = is_minutes n (parse_time (clock (n / 60) (n % 60))) && every_minute n

every_minute_sound :
    (count n : ℕ)
    → n < count
    → every_minute count ≡ true
    → is_minutes n (parse_time (clock (n / 60) (n % 60))) ≡ true
unfolding every_minute
every_minute_sound zero n less h = absurd (omega arith)
every_minute_sound (suc count) n less h = elim (Bool-cases (count == n)) [
  | inl last ↦
      let e : count ≡ n = ground arith in
      let first : is_minutes count (parse_time (clock (count / 60) (count % 60))) ≡ true =
        ground arith in
      rw e at first
  | inr before ↦ every_minute_sound count n (ground arith) (ground arith)
]

minutes_table : every_minute 1441 ≡ true
unfolding every_minute parse_time
minutes_table = refl

is_minutes_sound : (n : ℕ) (r : Parsed ℤ) → is_minutes n r ≡ true → r ≡ accepted (pos n)
is_minutes_sound n (accepted (pos k)) h = ground arith
is_minutes_sound n (accepted (negsuc k)) h = cc
is_minutes_sound n (rejected e) h = cc

pub parse_time-clock : (n : ℕ) → n < 1441 → parse_time (clock (n / 60) (n % 60)) ≡ accepted (pos n)
parse_time-clock n h = is_minutes_sound n _ (every_minute_sound 1441 n h minutes_table)

-- Five characters that read as a time of at most 24:00.
record IsClock (a b c d e : ℕ) : Type 0 where
  tens : b'0' ≤ a
  hour : (b'0' ≤ b) × (b ≤ b'9')
  colon : c ≡ b':'
  minutes : (b'0' ≤ d) × (d ≤ b'5')
  minute : (b'0' ≤ e) × (e ≤ b'9')
  total : ((a - b'0') * 10 + (b - b'0')) * 60 + ((d - b'0') * 10 + (e - b'0')) < 1441

IsClock-text :
    (a b c d e : ℕ)
    → IsClock a b c d e
    → (n : ℕ) × (n < 1441) × (a ∷ b ∷ c ∷ d ∷ e ∷ [] ≡ clock (n / 60) (n % 60))
IsClock-text a b c d e k =
    let n : ℕ = ((a - b'0') * 10 + (b - b'0')) * 60 + ((d - b'0') * 10 + (e - b'0')) in
    let hours : n / 60 ≡ (a - b'0') * 10 + (b - b'0') = omega (arith, k.minutes, k.minute) in
    let minutes : n % 60 ≡ (d - b'0') * 10 + (e - b'0') = omega (arith, k.minutes, k.minute) in
    let a' : a ≡ b'0' + n / 60 / 10 = omega (arith, hours, k.tens, k.hour) in
    let b' : b ≡ b'0' + n / 60 % 10 = omega (arith, hours, k.tens, k.hour) in
    let d' : d ≡ b'0' + n % 60 / 10 = omega (arith, minutes, k.minutes, k.minute) in
    let e' : e ≡ b'0' + n % 60 % 10 = omega (arith, minutes, k.minutes, k.minute) in
    (n, k.total, cc (a', b', k.colon, d', e'))

-- The texts that the regular expression accepts.
valid_time_sound :
    (text : List ℕ)
    → valid_time text ≡ true
    → (n : ℕ) × (n < 1441) × (text ≡ clock (n / 60) (n % 60))
unfolding valid_time
valid_time_sound [] h = cc
valid_time_sound (a ∷ []) h = cc
valid_time_sound (a ∷ b ∷ []) h = cc
valid_time_sound (a ∷ b ∷ c ∷ []) h = cc
valid_time_sound (a ∷ b ∷ c ∷ d ∷ []) h = cc
valid_time_sound (a ∷ b ∷ c ∷ d ∷ e ∷ []) h = IsClock-text a b c d e (record {
  tens = ground arith;
  hour = ground arith;
  colon = ground arith;
  minutes = ground arith;
  minute = ground arith;
  total = ground arith;
})
valid_time_sound (a ∷ b ∷ c ∷ d ∷ e ∷ f ∷ s) h = cc

ok-injective {ℓ} : {A : Type ℓ} {a b : A} → accepted a ≡ accepted b → a ≡ b
ok-injective e = cc

parse_time-valid : (text : List ℕ) {v : ℤ} → parse_time text ≡ accepted v → valid_time text ≡ true
unfolding parse_time
parse_time-valid text h = elim (Bool-cases (valid_time text)) [
  | inl good ↦ good
  | inr bad ↦ absurd (let e = rw (bad, parse_time) at h in cc)
]

-- `parseTime` accepts exactly the texts of the minutes of a day, 0 to 1440, as two digits for the
-- hour, a colon and two digits for the minute, and gives that minute.
pub parse_time_iff :
    (text : List ℕ) (v : ℤ)
    → (parse_time text ≡ accepted v)
      ↔ ((n : ℕ) × (n < 1441) × (text ≡ clock (n / 60) (n % 60)) × (v ≡ pos n))
parse_time_iff text v = (
  λ h.
      let (n, l, e) = valid_time_sound text (parse_time-valid text h) in
      (n, l, e, ok-injective (sym h ∙ ap parse_time e ∙ parse_time-clock n l)),
  λ (n, l, e, w). ap parse_time e ∙ parse_time-clock n l ∙ ap accepted (sym w),
)
