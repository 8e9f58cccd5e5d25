-- ===== src/Random/Letters.antt =====
-- The letters that `RandomString` of pkg/gds/random.go gives, and when it gives none.
use woocoo.Base.{
  ℕ, zero, suc, ◌+◌, ◌-◌, ◌≤◌, ◌<◌, ◌≡◌, ◌⊎◌, ◌∙◌, inl, inr, refl, sym, ap, Bool, true, false, List,
  [], ◌∷◌, ◌++◌, Option, none, some, arith, ltb, leb, ◌==◌, if◌then◌else◌, length, length-append,
  take, Bool-cases,
}
use mathlib.Core.List.{append-nil, append_assoc}
use woocoo.Random.{max_byte, letter, chunk, fill, fill_rounds, random_string}

-- The letters of the bytes that are not skipped.
abbrev pub picked : List ℕ → List ℕ
picked [] = []
picked (rb ∷ rbs) = let rest = picked rbs in if ltb max_byte rb then rest else letter rb ∷ rest

abbrev pub joined : List (List ℕ) → List ℕ
joined [] = []
joined (xs ∷ xss) = xs ++ joined xss

length-append_one : (b : List ℕ) (x : ℕ) → length (b ++ x ∷ []) ≡ length b + 1
length-append_one [] x = refl
length-append_one (y ∷ b) x = let h = length-append_one b x in omega arith

-- A letter is written: the string is full, or the loop goes on.
fill-kept :
    (n m x : ℕ) (b rbs : List ℕ)
    → n ≡ length b + suc m
    → ((k : ℕ)
        → n ≡ length (b ++ x ∷ []) + suc k
        → fill n (b ++ x ∷ []) rbs
          ≡ ((b ++ x ∷ []) ++ take (suc k) (picked rbs), leb (suc k) (length (picked rbs))))
    → (elim (length (b ++ x ∷ []) == n) as (λ t. List ℕ × Bool) [
      | true ↦ (b ++ x ∷ [], true)
      | false ↦ fill n (b ++ x ∷ []) rbs
    ])
      ≡ (b ++ x ∷ take m (picked rbs), leb (suc m) (suc (length (picked rbs))))
fill-kept n zero x b rbs e ih =
    let full : (length (b ++ x ∷ []) == n) ≡ true = let h = length-append_one b x in ground arith in
    let enough : leb 1 (suc (length (picked rbs))) ≡ true = ground arith in rw (full, enough)
fill-kept n (suc k) x b rbs e ih =
    let h = length-append_one b x in
    let more : (length (b ++ x ∷ []) == n) ≡ false = ground arith in
    let same : leb (suc (suc k)) (suc (length (picked rbs))) ≡ leb (suc k) (length (picked rbs)) =
      ground arith in
    let left : n ≡ length (b ++ x ∷ []) + suc k = omega arith in
    rw (more, same, ih k left, append_assoc b (x ∷ []) (take (suc k) (picked rbs)))

fill-picked :
    (n m : ℕ) (b rbs : List ℕ)
    → n ≡ length b + suc m
    → fill n b rbs ≡ (b ++ take (suc m) (picked rbs), leb (suc m) (length (picked rbs)))
unfolding fill
fill-picked n m b [] e = let no : leb (suc m) 0 ≡ false = ground arith in rw (append-nil b, no)
fill-picked n m b (rb ∷ rbs) e = elim (Bool-cases (ltb max_byte rb)) [
  | inl skip ↦ rw (fill, skip) (fill-picked n m b rbs e)
  | inr keep ↦
      rw (fill, keep)
        (fill-kept n m (letter rb) b rbs e
          (λ k left. fill-picked n k (b ++ letter rb ∷ []) rbs left))
]

picked-append : (xs ys : List ℕ) → picked (xs ++ ys) ≡ picked xs ++ picked ys
picked-append [] ys = refl
picked-append (x ∷ xs) ys = ground (arith, picked-append xs ys)

take-enough : (k : ℕ) (xs ys : List ℕ) → k ≤ length xs → take k (xs ++ ys) ≡ take k xs
take-enough zero xs ys h = refl
take-enough (suc k) [] ys h = absurd (omega arith)
take-enough (suc k) (x ∷ xs) ys h = ap (◌∷◌ x) (take-enough k xs ys (omega arith))

take-over : (k j : ℕ) (xs ys : List ℕ) → k ≡ length xs + j → take k (xs ++ ys) ≡ xs ++ take j ys
take-over k j [] ys h = let e : k ≡ j = omega arith in rw e
take-over zero j (x ∷ xs) ys h = absurd (omega arith)
take-over (suc k) j (x ∷ xs) ys h = ap (◌∷◌ x) (take-over k j xs ys (omega arith))

take-all : (k : ℕ) (xs : List ℕ) → length xs ≤ k → take k xs ≡ xs
take-all zero [] h = refl
take-all zero (x ∷ xs) h = absurd (omega arith)
take-all (suc k) [] h = refl
take-all (suc k) (x ∷ xs) h = ap (◌∷◌ x) (take-all k xs (omega arith))

-- The string that `k` letters make after the letters `b`.
abbrev finish : List ℕ → ℕ → List ℕ → Option (List ℕ)
finish b k letters = if leb k (length letters) then some (b ++ take k letters) else none

next_round :
    (n : ℕ) (b round : List ℕ) (rounds : List (List ℕ)) (p : List ℕ × Bool)
    → fill n b round ≡ p
    → fill_rounds n b (round ∷ rounds)
      ≡ (elim p.1 as (λ t. Option (List ℕ)) [ true ↦ some p.0 | false ↦ fill_rounds n p.0 rounds ])
unfolding fill_rounds
next_round n b round rounds p e =
    ap
      (λ q. elim q.1 as (λ t. Option (List ℕ)) [
        | true ↦ some q.0
        | false ↦ fill_rounds n q.0 rounds
      ])
      e

round_full :
    (n m : ℕ) (b round : List ℕ) (rounds : List (List ℕ))
    → n ≡ length b + suc m
    → leb (suc m) (length (picked round)) ≡ true
    → fill_rounds n b (round ∷ rounds) ≡ some (b ++ take (suc m) (picked round))
round_full n m b round rounds e h =
    rw (next_round n b round rounds _ (fill-picked n m b round e), h)

round_short :
    (n m : ℕ) (b round : List ℕ) (rounds : List (List ℕ))
    → n ≡ length b + suc m
    → leb (suc m) (length (picked round)) ≡ false
    → fill_rounds n b (round ∷ rounds) ≡ fill_rounds n (b ++ picked round) rounds
round_short n m b round rounds e h = rw (
  next_round n b round rounds _ (fill-picked n m b round e),
  h,
  take-all (suc m) (picked round) (ground arith),
)

finish-enough :
    (m : ℕ) (b p q : List ℕ)
    → leb (suc m) (length p) ≡ true
    → finish b (suc m) (p ++ q) ≡ some (b ++ take (suc m) p)
finish-enough m b p q h =
    let size = length-append p q in
    let long : leb (suc m) (length (p ++ q)) ≡ true = ground arith in
    rw (long, take-enough (suc m) p q (ground arith))

finish-over :
    (m k : ℕ) (b p q : List ℕ)
    → suc m ≡ length p + suc k
    → finish b (suc m) (p ++ q) ≡ finish (b ++ p) (suc k) q
finish-over m k b p q h =
    let size = length-append p q in
    let same : leb (suc m) (length (p ++ q)) ≡ leb (suc k) (length q) = ground arith in
    rw (same, take-over (suc m) (suc k) p q h, append_assoc b p (take (suc k) q))

fill_rounds-finish :
    (n m : ℕ) (b : List ℕ) (rounds : List (List ℕ))
    → n ≡ length b + suc m
    → fill_rounds n b rounds ≡ finish b (suc m) (picked (joined rounds))
unfolding fill_rounds
fill_rounds-finish n m b [] e = let no : leb (suc m) 0 ≡ false = ground arith in rw no
fill_rounds-finish n m b (round ∷ rounds) e =
    let p = picked round in
    let q = picked (joined rounds) in
    rw (picked-append round (joined rounds)) (elim (Bool-cases (leb (suc m) (length p))) [
      | inl full ↦ round_full n m b round rounds e full ∙ sym (finish-enough m b p q full)
      | inr short ↦
          let k : ℕ = m - length p in
          let left : suc m ≡ length p + suc k = ground arith in
          let size = length-append b p in
          round_short n m b round rounds e short
          ∙ fill_rounds-finish n k (b ++ p) rounds (omega arith)
          ∙ sym (finish-over m k b p q left)
    ])

-- `RandomString` of a length above 0 gives the letters of the first bytes that are at most 207, as
-- many as the length, as soon as the reads hold that many such bytes, and goes on reading until then.
pub random_string-picked :
    (len : ℕ) (rounds : List (List ℕ))
    → 0 < len
    → random_string len rounds ≡ (
        if leb len (length (picked (joined rounds)))
        then some (take len (picked (joined rounds)))
        else none)
unfolding random_string
random_string-picked zero rounds h = absurd (omega arith)
random_string-picked (suc m) rounds h = fill_rounds-finish (suc m) m [] rounds (omega arith)

-- Every read has as many bytes as the program asks for.
abbrev pub IsRead : ℕ → List (List ℕ) → Type 0
IsRead len [] = Unit
IsRead len (round ∷ rounds) = (length round ≡ chunk len) × IsRead len rounds

fill_rounds-empty :
    (len : ℕ) (rounds : List (List ℕ))
    → chunk len ≡ 0
    → IsRead len rounds
    → fill_rounds len [] rounds ≡ none
unfolding fill_rounds fill
fill_rounds-empty len [] z h = refl
fill_rounds-empty len ([] ∷ rounds) z (e, h) = fill_rounds-empty len rounds z h
fill_rounds-empty len ((x ∷ xs) ∷ rounds) z (e, h) = absurd (omega arith)

-- `RandomString` of the length 0 or 205 gives no text, however often it reads: no read of the size
-- that the program asks for has a byte.
pub random_string-stuck :
    (len : ℕ) (rounds : List (List ℕ))
    → (len ≡ 0) ⊎ (len ≡ 205)
    → IsRead len rounds
    → random_string len rounds ≡ none
unfolding random_string
random_string-stuck len rounds which h =
    let z : chunk len ≡ 0 = ground arith in fill_rounds-empty len rounds z h
