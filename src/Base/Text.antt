-- ===== src/Base/Text.antt =====
-- Texts as lists of code points, and the operations of Go's `strings` and `strconv` on them that the
-- program uses, on ASCII.
use Prim.Native.Nat.{ℕ, ◌+◌, ◌-◌, ◌*◌, ◌^◌}
use Prim.Native.Char.{code}
use Prim.Native.String.{String}
use mathlib.Core.Path.{◌≡◌, refl}
use mathlib.Core.Bool.{Bool, true, false, ◌&&◌, ◌||◌}
use mathlib.Core.Option.{Option, none, some}
use mathlib.Core.List.{List, [], ◌∷◌, ◌++◌}
use native.Mathlib.Omega.{arith}
use woocoo.Base.Tests.{leb, ◌==◌, if◌then◌else◌}
use woocoo.Base.Int.{ℤ, pos, negsuc}

abbrev pub codes : String → List ℕ
codes String.[] = []
codes (String.◌∷◌ c s) = code c ∷ codes s

-- `==` on texts.
abbrev pub same_text : List ℕ → List ℕ → Bool
same_text [] [] = true
same_text (x ∷ xs) (y ∷ ys) = x == y && same_text xs ys
same_text _ _ = false

pub same_text_refl : (s : List ℕ) → same_text s s ≡ true
same_text_refl [] = refl
same_text_refl (x ∷ s) = ground (arith, same_text_refl s)

pub same_text→eq : (s t : List ℕ) → same_text s t ≡ true → s ≡ t
same_text→eq [] [] h = refl
same_text→eq [] (y ∷ t) h = absurd cc
same_text→eq (x ∷ s) [] h = absurd cc
same_text→eq (x ∷ s) (y ∷ t) h = grind (arith, same_text→eq s t)

-- `strings.Split` by a single character, with the piece read so far.
abbrev pub split_from : ℕ → List ℕ → List ℕ → List (List ℕ)
split_from sep piece [] = piece ∷ []
split_from sep piece (c ∷ s) =
    let cut = piece ∷ split_from sep [] s in
    let rest = split_from sep (piece ++ c ∷ []) s in if c == sep then cut else rest

abbrev pub split : ℕ → List ℕ → List (List ℕ)
split sep s = split_from sep [] s

-- `strings.ToLower` on ASCII.
abbrev pub to_lower : List ℕ → List ℕ
to_lower [] = []
to_lower (c ∷ s) = (if leb b'A' c && leb c b'Z' then c + 32 else c) ∷ to_lower s

abbrev pub contains : ℕ → List ℕ → Bool
contains c [] = false
contains c (x ∷ s) = x == c || contains c s

abbrev pub is_digit : ℕ → Bool
is_digit c = leb b'0' c && leb c b'9'

-- Digits in base 10, after the number read so far.
abbrev pub digits_from : ℕ → List ℕ → Option ℕ
digits_from n [] = some n
digits_from n (c ∷ s) =
    let rest = digits_from (n * 10 + (c - b'0')) s in if is_digit c then rest else none

abbrev pub unsigned : List ℕ → Option ℕ
unsigned [] = none
unsigned (c ∷ s) = digits_from 0 (c ∷ s)

abbrev pub in_int64 : ℤ → Option ℤ
in_int64 (pos n) = if leb n (2 ^ 63 - 1) then some (pos n) else none
in_int64 (negsuc n) = if leb n (2 ^ 63 - 1) then some (negsuc n) else none

abbrev pub negated : ℕ → ℤ
negated n = if n == 0 then pos 0 else negsuc (n - 1)

abbrev pub signed : Bool → Option ℕ → Option ℤ
signed negative none = none
signed negative (some n) = in_int64 (if negative then negated n else pos n)

-- `strconv.Atoi` on a platform with 64 bits.
abbrev pub atoi : List ℕ → Option ℤ
atoi [] = none
atoi (c ∷ s) =
    if c == b'-'
    then signed true (unsigned s)
    else if c == b'+'
    then signed false (unsigned s)
    else signed false (unsigned (c ∷ s))
