-- ===== src/Log/Text/Padding.antt =====
-- The decimal numbers that `writePadding` of pkg/log/text.go writes, for the parts of a time.
use woocoo.Base.{
  ℕ, zero, suc, ◌+◌, ◌-◌, ◌*◌, ◌/◌, ◌%◌, ◌≤◌, ◌<◌, ◌≡◌, ◌⊎◌, refl, ap, ◌∙◌, true, [], ◌∷◌, none,
  some, inl, inr, leb, ltb, arith, length, Bool-cases,
}
use woocoo.Log.Text.{Bytes, add_zeros, add_digits, write_padding}
use woocoo.Log.Text.Reading.{All}

-- The number that a text of decimal digits gives.
abbrev pub value_from : ℕ → Bytes → ℕ
value_from v [] = v
value_from v (c ∷ s) = value_from (v * 10 + (c - b'0')) s

abbrev pub IsDigits : Bytes → Type 0
IsDigits s = All (λ c. (b'0' ≤ c) × (c ≤ b'9')) s

-- The powers of ten up to the source's array of 8 digits.
abbrev pub power : ℕ → ℕ
power zero = 1
power (suc k) = 10 * power k

-- What the loops leave: digits of the number, at least `width` of them and at most 8.
abbrev pub Pads : (n width : ℕ) → Bytes → Type 0
Pads n width s = (value_from 0 s ≡ n) × IsDigits s × (width ≤ length s) × (length s ≤ 8)

add_zeros-Pads :
    (free width n : ℕ) (digits : Bytes)
    → width ≤ 8
    → value_from 0 digits ≡ n
    → IsDigits digits
    → length digits + free ≡ 8
    → Pads n width (add_zeros free width digits)
unfolding add_zeros
add_zeros-Pads zero width n digits w v d l = (v, d, omega arith, omega arith)
add_zeros-Pads (suc free) width n digits w v d l = elim (Bool-cases (ltb (8 - suc free) width)) [
  | inl pad ↦
      rw (add_zeros, pad)
        (add_zeros-Pads free width n (b'0' ∷ digits) w v ((omega arith, omega arith), d)
          (omega arith))
  | inr wide ↦ rw (add_zeros, wide) ((v, d, ground arith, omega arith))
]

-- A digit that is not the last leaves room for one more.
leb-room : (free n : ℕ) → n < power (suc free) → leb 10 n ≡ true → 0 < free
leb-room zero n b more = ground arith
leb-room (suc free) n b more = omega arith

-- The digits of `n` go before those written.
add_digits-Pads :
    (free width n m : ℕ) (digits : Bytes)
    → width ≤ 8
    → n < power free
    → 0 < free
    → value_from n digits ≡ m
    → IsDigits digits
    → length digits + free ≡ 8
    → (s : Bytes) × (add_digits free width n digits ≡ some s) × Pads m width s
unfolding add_digits
add_digits-Pads zero width n m digits w b f v d l = absurd (omega arith)
add_digits-Pads (suc free) width n m digits w b f v d l = elim (Bool-cases (leb 10 n)) [
  | inl more ↦
      let e : n / 10 * 10 + (n % 10 + b'0' - b'0') ≡ n = omega arith in
      let (s, run, pads) =
        add_digits-Pads free width (n / 10) m ((n % 10 + b'0') ∷ digits) w (omega arith)
          (leb-room free n b more) (ap (λ x. value_from x digits) e ∙ v)
          ((omega arith, omega arith), d) (omega arith) in
      (s, rw (add_digits, more) run, pads)
  | inr last ↦
      let e : 0 * 10 + (n + b'0' - b'0') ≡ n = omega arith in
      let short : n < 10 = ground arith in
      (
        add_zeros free width ((n + b'0') ∷ digits),
        rw (add_digits, last) refl,
        add_zeros-Pads free width m ((n + b'0') ∷ digits) w (ap (λ x. value_from x digits) e ∙ v)
            ((omega arith, omega arith), d) (omega arith),
      )
]

power_positive : (k : ℕ) → 1 ≤ power k
power_positive zero = omega arith
power_positive (suc k) = omega (arith, power_positive k)

add_digits-panics :
    (free width n : ℕ) (digits : Bytes) → power free ≤ n → add_digits free width n digits ≡ none
unfolding add_digits
add_digits-panics zero width n digits b = refl
add_digits-panics (suc free) width n digits b =
    let large : 10 ≤ n = omega (arith, power_positive free) in
    let more : leb 10 n ≡ true = ground arith in
    rw (add_digits, more) (add_digits-panics free width (n / 10) _ (omega arith))

-- At a width of 8 at most, a number below 10 ^ 8 is written as decimal digits of its value, the
-- width's number of them at least and 8 at most. A number from 10 ^ 8 on makes `writePadding` panic.
pub write_padding-Pads :
    (n width : ℕ)
    → width ≤ 8
    → ((n < 100000000) × (s : Bytes) × (write_padding n width ≡ some s) × Pads n width s)
      ⊎ ((100000000 ≤ n) × (write_padding n width ≡ none))
unfolding write_padding
write_padding-Pads n width w = elim (Bool-cases (ltb n 100000000)) [
  | inl small ↦
      let b : n < 100000000 = ground arith in
      let (s, run, pads) = add_digits-Pads 8 width n n [] w b (omega arith) refl tt refl in
      inl (b, s, run, pads)
  | inr large ↦ let b : 100000000 ≤ n = ground arith in inr (b, add_digits-panics 8 width n [] b)
]
