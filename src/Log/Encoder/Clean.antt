-- ===== src/Log/Encoder/Clean.antt =====
-- The steps of the encoder of pkg/log/text.go write no control character.
pub mod Value
use woocoo.Base.{
  ℕ, zero, suc, ◌+◌, ◌-◌, ◌*◌, ◌/◌, ◌%◌, ◌≤◌, ◌≡◌, refl, Bool, true, false, not, ◌&&◌, ◌||◌, List,
  [], ◌∷◌, ◌++◌, Option, none, some, inl, inr, leb, ltb, ◌==◌, if◌then◌else◌, arith, length, codes,
  same_text, Bool-cases,
}
use woocoo.Base.Int.{ℤ, pos, negsuc}
use woocoo.Log.Text.{Bytes, write_padding, safe_add_string_with_quote}
use woocoo.Log.Text.Reading.{All}
use woocoo.Log.Text.Control.{
  Holds, write_padding-IsPrintable, IsPrintable, IsPrintable-append,
  safe_add_string_with_quote-IsPrintable,
}
use woocoo.Log.Encoder.{
  ◌>>=◌, Encoder, LogTime, Float, nan, inf, neg_inf, finite, Field, string_field, byte_string_field,
  binary_field, duration_field, bool_field, int_field, uint_field, float_field, complex_field,
  time_field, reflected_field, reflected_error, namespace_field, object_field, array_field,
  error_field, Fields, end, field, Element, string_element, byte_string_element, duration_element,
  reflected_element, bool_element, int_element, uint_element, float_element, complex_element,
  time_element, object_element, array_element, Elements, done, element, append, ends_open,
  add_element_separator, append_string, add_key, append_raw, digits_of, decimal, show_int,
  show_bool, sign_of, magnitude, encode_time_direct, append_time, begin_quote_filed,
  end_quote_filed, cloned, append_nested, float_text, complex_text, add_field, add_all,
  append_element, append_all,
}

pub Holds-bind :
    {S T : Type 0} (P : S → Type 0) (Q : T → Type 0) (m : Option S) (next : S → Option T)
    → Holds P m
    → ((s : S) → P s → Holds Q (next s))
    → Holds Q (m >>= next)
Holds-bind P Q none next h k = tt
Holds-bind P Q (some s) next h k = k s h

-- The buffer has no control character.
abbrev pub IsClean : Encoder → Type 0
IsClean enc = IsPrintable enc.buf

pub append-IsClean :
    (enc : Encoder) (s : Bytes) → IsClean enc → IsPrintable s → IsClean (append enc s)
append-IsClean enc s p q = IsPrintable-append enc.buf s p q

add_element_separator-IsClean : (enc : Encoder) → IsClean enc → IsClean (add_element_separator enc)
unfolding add_element_separator
add_element_separator-IsClean enc p = elim (Bool-cases (ends_open enc.buf)) [
  | inl none_needed ↦ rw (add_element_separator, none_needed) p
  | inr needed ↦ rw (add_element_separator, needed) (append-IsClean enc (b',' ∷ []) p (omega arith))
]

pub append_string-IsClean :
    (enc : Encoder) (s : Bytes) → IsClean enc → IsClean (append_string enc s)
unfolding append_string
append_string-IsClean enc s p =
    append-IsClean (add_element_separator enc) _ (add_element_separator-IsClean enc p)
      (safe_add_string_with_quote-IsPrintable enc.need_quotes s)

pub add_key-IsClean : (enc : Encoder) (key : Bytes) → IsClean enc → IsClean (add_key enc key)
unfolding add_key
add_key-IsClean enc key p =
    append-IsClean (append_string enc key) (b'=' ∷ []) (append_string-IsClean enc key p)
      (omega arith)

pub append_raw-IsClean :
    (enc : Encoder) (text : Bytes) → IsClean enc → IsPrintable text → IsClean (append_raw enc text)
unfolding append_raw
append_raw-IsClean enc text p q =
    append-IsClean (add_element_separator enc) text (add_element_separator-IsClean enc p) q

digits_of-IsPrintable :
    (fuel n : ℕ) (out : Bytes) → IsPrintable out → IsPrintable (digits_of fuel n out)
digits_of-IsPrintable zero n out p = p
digits_of-IsPrintable (suc fuel) n out p =
    let digit : IsPrintable ((n % 10 + b'0') ∷ out) = (omega arith, p) in
    elim (Bool-cases (leb 10 n)) [
      | inl more ↦ rw more (digits_of-IsPrintable fuel (n / 10) _ digit)
      | inr last ↦ rw last digit
    ]

pub decimal-IsPrintable : (n : ℕ) → IsPrintable (decimal n)
decimal-IsPrintable n = digits_of-IsPrintable 20 n [] tt

pub show_int-IsPrintable : (n : ℤ) → IsPrintable (show_int n)
show_int-IsPrintable (pos n) = decimal-IsPrintable n
show_int-IsPrintable (negsuc n) = (omega arith, decimal-IsPrintable (n + 1))

pub show_bool-IsPrintable : (b : Bool) → IsPrintable (show_bool b)
show_bool-IsPrintable true = omega arith
show_bool-IsPrintable false = omega arith

sign_of_printable : (n : ℤ) → 32 ≤ sign_of n
sign_of_printable n = ground arith

-- Two texts with a character between them.
joined-IsPrintable :
    (s t : Bytes) (c : ℕ) → IsPrintable s → 32 ≤ c → IsPrintable t → IsPrintable (s ++ (c ∷ t))
joined-IsPrintable s t c p l q = IsPrintable-append s (c ∷ t) p (l, q)

encode_time_direct-IsPrintable : (t : LogTime) → Holds IsPrintable (encode_time_direct t)
unfolding encode_time_direct
encode_time_direct-IsPrintable t = read _ _ _ λ y py. read _ _ _ λ m pm. read _ _ _ λ d pd.
    read _ _ _ λ h ph. read _ _ _ λ min pmin. read _ _ _ λ s ps. read _ _ _ λ ms pms.
      read _ _ _ λ zh pzh. read _ _ _ λ zm pzm. joined-IsPrintable y _ b'/' py (omega arith) (
        joined-IsPrintable m _ b'/' pm (omega arith) (
          joined-IsPrintable d _ b' ' pd (omega arith) (
            joined-IsPrintable h _ b':' ph (omega arith) (
              joined-IsPrintable min _ b':' pmin (omega arith) (
                joined-IsPrintable s _ b'.' ps (omega arith) (
                  joined-IsPrintable ms _ b' ' pms (omega arith) (
                    (
                      sign_of_printable t.offset,
                      joined-IsPrintable zh zm b':' pzh (omega arith) pzm,
                    ))))))))
  where
    read :
        (n width : ℕ) (next : Bytes → Option Bytes)
        → ((s : Bytes) → IsPrintable s → Holds IsPrintable (next s))
        → Holds IsPrintable (write_padding n width >>= next)
    read n width next k =
        Holds-bind IsPrintable IsPrintable (write_padding n width) next
          (write_padding-IsPrintable n width) k

pub append_time-IsClean :
    (enc : Encoder) (t : LogTime) → IsClean enc → Holds IsClean (append_time enc t)
unfolding append_time
append_time-IsClean enc t p =
    Holds-bind IsPrintable IsClean (encode_time_direct t) _ (encode_time_direct-IsPrintable t)
      (λ s q. append-IsClean enc s p q)

pub append_nested-IsClean :
    (enc : Encoder) (close : ℕ) (ne : Encoder) → IsClean enc → IsClean (append_nested enc close ne)
unfolding append_nested
append_nested-IsClean enc close ne p =
    append_string-IsClean (add_element_separator enc) _ (add_element_separator-IsClean enc p)
