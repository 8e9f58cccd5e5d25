-- ===== src/Base/Lists.antt =====
-- Lists measured and searched by native numbers, predicates on lists, and maps as functions.
use Prim.Native.Nat.{ℕ, zero, suc, ◌+◌, ◌≤◌}
use mathlib.Core.Path.{◌≡◌, refl, ap}
use mathlib.Core.Bool.{Bool, false, ◌||◌}
use mathlib.Core.List.{List, [], ◌∷◌, ◌++◌}
use native.Mathlib.Omega.{arith}
use woocoo.Base.Tests.{◌==◌, if◌then◌else◌}

module _ {ℓ} {A : Type ℓ} where
  abbrev pub length : List A → ℕ
  length [] = 0
  length (x ∷ xs) = suc (length xs)

-- Whether a number stands in a list.
abbrev pub mem : ℕ → List ℕ → Bool
mem r [] = false
mem r (x ∷ xs) = r == x || mem r xs

-- No number stands in the list twice.
abbrev pub NoRepeat : List ℕ → Type 0
NoRepeat [] = Unit
NoRepeat (x ∷ xs) = (mem x xs ≡ false) × NoRepeat xs

-- A map from numbers, with one entry written.
abbrev pub update {ℓ} : {A : Type ℓ} → (ℕ → A) → ℕ → A → ℕ → A
update f k v j = if j == k then v else f j

pub mem-append_one : (r x : ℕ) (xs : List ℕ) → mem r (xs ++ x ∷ []) ≡ (mem r xs || r == x)
mem-append_one r x [] = ground arith
mem-append_one r x (y ∷ ys) = ground (arith, mem-append_one r x ys)

pub NoRepeat-append_one :
    (x : ℕ) (xs : List ℕ) → NoRepeat xs → mem x xs ≡ false → NoRepeat (xs ++ x ∷ [])
NoRepeat-append_one x [] h n = (refl, tt)
NoRepeat-append_one x (y ∷ ys) h n =
    (ground (arith, mem-append_one y x ys), NoRepeat-append_one x ys h.1 (ground arith))

-- `xs[:n]` and `xs[n:]`, for n up to the length.
abbrev pub take {ℓ} : {A : Type ℓ} → ℕ → List A → List A
take zero xs = []
take (suc n) [] = []
take (suc n) (x ∷ xs) = x ∷ take n xs

abbrev pub drop {ℓ} : {A : Type ℓ} → ℕ → List A → List A
drop zero xs = xs
drop (suc n) [] = []
drop (suc n) (x ∷ xs) = drop n xs

module _ {ℓ} {A : Type ℓ} where
  pub take-append : (xs ys : List A) → take (length xs) (xs ++ ys) ≡ xs
  take-append [] ys = refl
  take-append (x ∷ xs) ys = ap (λ zs. x ∷ zs) (take-append xs ys)

  pub drop-append : (xs ys : List A) → drop (length xs) (xs ++ ys) ≡ ys
  drop-append [] ys = refl
  drop-append (x ∷ xs) ys = drop-append xs ys

  pub take_drop : (n : ℕ) (xs : List A) → take n xs ++ drop n xs ≡ xs
  take_drop zero xs = refl
  take_drop (suc n) [] = refl
  take_drop (suc n) (x ∷ xs) = ap (λ zs. x ∷ zs) (take_drop n xs)

  pub length-append : (xs ys : List A) → length (xs ++ ys) ≡ length xs + length ys
  length-append [] ys = omega arith
  length-append (x ∷ xs) ys = omega (arith, length-append xs ys)

  pub length-take : (n : ℕ) (xs : List A) → n ≤ length xs → length (take n xs) ≡ n
  length-take zero xs h = refl
  length-take (suc n) [] h = absurd (omega arith)
  length-take (suc n) (x ∷ xs) h = ap suc (length-take n xs (omega arith))
