-- ===== src/Log/Text/Control.antt =====
-- No control character leaves the escapes of pkg/log/text.go.
use woocoo.Base.{
  ℕ, zero, suc, ◌-◌, ◌/◌, ◌≤◌, Bool, [], ◌∷◌, ◌++◌, Option, none, some, inl, inr, leb, ltb, arith,
  Bool-cases, Option-cases,
}
use woocoo.Log.Text.{
  add_zeros, add_digits, write_padding, Bytes, try_add_rune_self, rune_size, rune_error, safe_from,
  safe_add_string, need_double_quotes, safe_add_string_with_quote,
}
use woocoo.Log.Text.Reading.{All, Copies, rune_size-Copies}

-- No byte below 32.
abbrev pub IsPrintable : Bytes → Type 0
IsPrintable s = All (λ c. 32 ≤ c) s

pub IsPrintable-append : (s t : Bytes) → IsPrintable s → IsPrintable t → IsPrintable (s ++ t)
IsPrintable-append [] t p q = q
IsPrintable-append (c ∷ s) t (p, ps) q = (p, IsPrintable-append s t ps q)

try_add_rune_self-IsPrintable : (c : ℕ) → IsPrintable (try_add_rune_self c)
unfolding try_add_rune_self
try_add_rune_self-IsPrintable c = ground arith

safe_from-IsPrintable :
    (copying : ℕ) (s : Bytes) → Copies copying s → IsPrintable (safe_from copying s)
unfolding safe_from
safe_from-IsPrintable zero [] k = tt
safe_from-IsPrintable (suc copying) [] k = tt
safe_from-IsPrintable (suc copying) (c ∷ s) (k, ks) =
    (omega arith, safe_from-IsPrintable copying s ks)
safe_from-IsPrintable zero (c ∷ s) k = elim (Bool-cases (ltb c 128)) [
  | inl ascii ↦
      rw (safe_from, ascii)
        (IsPrintable-append (try_add_rune_self c) (safe_from zero s)
          (try_add_rune_self-IsPrintable c) (safe_from-IsPrintable zero s tt))
  | inr wide ↦ elim (Option-cases (rune_size c s)) [
    | inl no_rune ↦
        rw (safe_from, wide, no_rune)
          (IsPrintable-append rune_error (safe_from zero s) (omega arith)
            (safe_from-IsPrintable zero s tt))
    | inr (n, rune) ↦
        rw (safe_from, wide, rune)
          ((ground arith, safe_from-IsPrintable (n - 1) s (rune_size-Copies c s n rune)))
  ]
]

pub safe_add_string_with_quote-IsPrintable :
    (need_quotes : Bool) (s : Bytes) → IsPrintable (safe_add_string_with_quote need_quotes s)
unfolding safe_add_string_with_quote safe_add_string
safe_add_string_with_quote-IsPrintable need_quotes s =
    let safe = safe_from-IsPrintable zero s tt in
    elim (Bool-cases (need_double_quotes need_quotes s)) [
      | inl quotes ↦
          rw (safe_add_string_with_quote, quotes)
            ((omega arith, IsPrintable-append (safe_from zero s) (b'"' ∷ []) safe (omega arith)))
      | inr bare ↦ rw (safe_add_string_with_quote, bare) safe
    ]

-- What a step that may panic gives has a property.
abbrev pub Holds : {S : Type 0} → (S → Type 0) → Option S → Type 0
Holds P none = Unit
Holds P (some s) = P s

add_zeros-IsPrintable :
    (free width : ℕ) (digits : Bytes)
    → IsPrintable digits
    → IsPrintable (add_zeros free width digits)
unfolding add_zeros
add_zeros-IsPrintable zero width digits p = p
add_zeros-IsPrintable (suc free) width digits p = elim (Bool-cases (ltb (8 - suc free) width)) [
  | inl pad ↦
      rw (add_zeros, pad) (add_zeros-IsPrintable free width (b'0' ∷ digits) (omega arith, p))
  | inr wide ↦ rw (add_zeros, wide) p
]

add_digits-IsPrintable :
    (free width n : ℕ) (digits : Bytes)
    → IsPrintable digits
    → Holds IsPrintable (add_digits free width n digits)
unfolding add_digits
add_digits-IsPrintable zero width n digits p = tt
add_digits-IsPrintable (suc free) width n digits p = elim (Bool-cases (leb 10 n)) [
  | inl more ↦ rw (add_digits, more) (add_digits-IsPrintable free width (n / 10) _ (omega arith, p))
  | inr last ↦ rw (add_digits, last) (add_zeros-IsPrintable free width _ (omega arith, p))
]

pub write_padding-IsPrintable : (n width : ℕ) → Holds IsPrintable (write_padding n width)
unfolding write_padding
write_padding-IsPrintable n width = add_digits-IsPrintable 8 width n [] tt
