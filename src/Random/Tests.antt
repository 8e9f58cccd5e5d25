-- ===== src/Random/Tests.antt =====
-- Strings of three letters and of none, and the theorems at them.
use woocoo.Base.{
  arith, ℕ, ◌≡◌, refl, inr, List, [], ◌∷◌, none, some, codes, length, if◌then◌else◌, leb, take,
}
use woocoo.Random.{random_string}
use woocoo.Random.Letters.{picked, joined, random_string-picked, random_string-stuck}

program : Unit {0}
unfolding random_string
program = tt

-- The byte 255 is skipped, and the last byte is not used.
abbrev reads : List (List ℕ)
reads = (0 ∷ 255 ∷ 53 ∷ []) ∷ (26 ∷ 9 ∷ 8 ∷ []) ∷ []

abc : random_string 3 reads ≡ some (codes "ABa")
unfolding program
abc = refl

random_string-picked_example : random_string 3 reads ≡ (
    if leb 3 (length (picked (joined reads))) then some (take 3 (picked (joined reads))) else none)
random_string-picked_example = random_string-picked 3 reads (omega arith)

abbrev overflowing : ℕ
overflowing = 205

random_string-stuck_example : random_string overflowing ([] ∷ [] ∷ []) ≡ none
random_string-stuck_example =
    random_string-stuck overflowing ([] ∷ [] ∷ []) (inr refl) (refl, (refl, tt))
