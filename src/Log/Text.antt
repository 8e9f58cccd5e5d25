-- ===== src/Log/Text.antt =====
-- The texts of pkg/log/text.go: escapes, quotes and padded numbers. A text is a list of bytes, below
-- 256 each, and a function here gives the bytes that the source appends to its buffer.
pub mod Reading
pub mod Control
pub mod Padding
use woocoo.Base.{
  ℕ, zero, suc, ◌+◌, ◌-◌, ◌/◌, ◌%◌, Bool, true, false, not, ◌&&◌, ◌||◌, List, [], ◌∷◌, ◌++◌, Option,
  none, some, leb, ltb, ◌==◌, if◌then◌else◌, codes,
}

abbrev pub Bytes : Type 0
Bytes = List ℕ

-- A character of `_hex`.
abbrev pub hex : ℕ → ℕ
hex d = if ltb d 10 then d + 48 else d + 87

-- `tryAddRuneSelf`, at a byte below `utf8.RuneSelf`.
unfoldable pub try_add_rune_self : ℕ → Bytes
try_add_rune_self b =
    if leb 32 b && not (b == b'\\') && not (b == b'"')
    then b ∷ []
    else if b == b'\\' || b == b'"'
    then b'\\' ∷ b ∷ []
    else if b == b'\n'
    then b'\\' ∷ b'n' ∷ []
    else if b == b'\r'
    then b'\\' ∷ b'r' ∷ []
    else if b == b'\t'
    then b'\\' ∷ b't' ∷ []
    else b'\\' ∷ b'u' ∷ b'0' ∷ b'0' ∷ hex (b / 16) ∷ hex (b % 16) ∷ []

abbrev pub within : ℕ → ℕ → ℕ → Bool
within lo hi b = leb lo b && leb b hi

abbrev pub rune_tail1 : Bytes → Option ℕ
rune_tail1 [] = none
rune_tail1 (b ∷ s) = if within 128 191 b then some 2 else none

abbrev pub rune_tail2 : ℕ → ℕ → Bytes → Option ℕ
rune_tail2 lo hi [] = none
rune_tail2 lo hi (b ∷ []) = none
rune_tail2 lo hi (b ∷ c ∷ s) = if within lo hi b && within 128 191 c then some 3 else none

abbrev pub rune_tail3 : ℕ → ℕ → Bytes → Option ℕ
rune_tail3 lo hi [] = none
rune_tail3 lo hi (b ∷ []) = none
rune_tail3 lo hi (b ∷ c ∷ []) = none
rune_tail3 lo hi (b ∷ c ∷ d ∷ s) =
    if within lo hi b && within 128 191 c && within 128 191 d then some 4 else none

-- `utf8.DecodeRune` at a first byte from 128 on: the size of the rune that stands there, or none
-- where it gives `RuneError` with the size 1.
pub rune_size : ℕ → Bytes → Option ℕ
rune_size c s =
    if ltb c 194
    then none
    else if ltb c 224
    then rune_tail1 s
    else if ltb c 240
    then rune_tail2 (if c == 224 then 160 else 128) (if c == 237 then 159 else 191) s
    else if ltb c 245
    then rune_tail3 (if c == 240 then 144 else 128) (if c == 244 then 143 else 191) s
    else none

-- What `tryAddRuneError` appends, `\ufffd`.
abbrev pub rune_error : Bytes
rune_error = b'\\' ∷ b'u' ∷ b'f' ∷ b'f' ∷ b'f' ∷ b'd' ∷ []

-- The loop of `safeAddString` and of `safeAddByteString`, with the bytes still to copy of the rune
-- that was met last.
unfoldable pub safe_from : ℕ → Bytes → Bytes
unfolding try_add_rune_self rune_size
safe_from copying [] = []
safe_from (suc copying) (c ∷ s) = c ∷ safe_from copying s
safe_from zero (c ∷ s) = elim (ltb c 128) [
  | true ↦ try_add_rune_self c ++ safe_from zero s
  | false ↦ elim (rune_size c s) [
    | none ↦ rune_error ++ safe_from zero s
    | some size ↦ c ∷ safe_from (size - 1) s
  ]
]

unfoldable pub safe_add_string : Bytes → Bytes
unfolding safe_from
safe_add_string s = safe_from zero s

-- The test of one byte in `needDoubleQuotes`.
abbrev pub is_special : ℕ → Bool
is_special b = leb b 32 || b == b'\\' || b == b'"' || b == b'[' || b == b']' || b == b'='

unfoldable pub has_special : Bytes → Bool
has_special [] = false
has_special (b ∷ s) = is_special b || has_special s

-- `needDoubleQuotes` and `needDoubleQuotesByteString`.
unfoldable pub need_double_quotes : Bool → Bytes → Bool
unfolding has_special
need_double_quotes need_quotes s = if not need_quotes then false else has_special s

-- `safeAddStringWithQuote`, and `AppendByteString` behind its separator.
unfoldable pub safe_add_string_with_quote : Bool → Bytes → Bytes
unfolding need_double_quotes safe_add_string
safe_add_string_with_quote need_quotes s =
    if not (need_double_quotes need_quotes s)
    then safe_add_string s
    else b'"' ∷ (safe_add_string s ++ b'"' ∷ [])

-- The loops of `writePadding` over the array of 8 digits, from the back: `free` is the index `i`, and
-- `none` is the panic of an index below 0.
pub add_zeros : (free width : ℕ) → Bytes → Bytes
add_zeros zero width digits = digits
add_zeros (suc free) width digits = elim (ltb (8 - suc free) width) [
  | true ↦ add_zeros free width (b'0' ∷ digits)
  | false ↦ digits
]

pub add_digits : (free width n : ℕ) → Bytes → Option Bytes
unfolding add_zeros
add_digits zero width n digits = none
add_digits (suc free) width n digits = elim (leb 10 n) [
  | true ↦ add_digits free width (n / 10) ((n % 10 + b'0') ∷ digits)
  | false ↦ some (add_zeros free width ((n + b'0') ∷ digits))
]

unfoldable pub write_padding : (n width : ℕ) → Option Bytes
unfolding add_digits
write_padding n width = add_digits 8 width n []
