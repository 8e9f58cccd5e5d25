-- ===== src/Random.antt =====
-- `RandomString` of pkg/gds/random.go.
--
-- The random source is what its reads give: one list of bytes for each pass of the outer loop. The
-- loop has no other end than a full string, so that `none` says that it still runs after these reads.
pub mod Letters
mod Tests
use woocoo.Base.{
  ℕ, zero, suc, ◌+◌, ◌*◌, ◌/◌, ◌%◌, Bool, true, false, List, [], ◌∷◌, ◌++◌, Option, none, some, ltb,
  ◌==◌, codes, length, drop,
}

-- `randomStringCharset`.
abbrev pub charset : List ℕ
charset = codes "ABCDEFGHIJKLMNOPQRSTUVWXYZabcdefghijklmnopqrstuvwxyz"

-- `randomStringMaxByte`.
abbrev pub max_byte : ℕ
max_byte = 207

abbrev pub first : List ℕ → ℕ
first [] = 0
first (c ∷ cs) = c

abbrev pub letter : ℕ → ℕ
letter rb = first (drop (rb % 52) charset)

-- The number of bytes that one pass reads, in 8 bits.
abbrev pub chunk : ℕ → ℕ
chunk len = (len + len / 4) % 256

-- The inner loop, over the letters written so far: the letters, and whether the string is full.
unfoldable pub fill : ℕ → List ℕ → List ℕ → List ℕ × Bool
fill len b [] = (b, false)
fill len b (rb ∷ rbs) = elim (ltb max_byte rb) [
  | true ↦ fill len b rbs
  | false ↦
      let b' = b ++ letter rb ∷ [] in
      elim (length b' == len) [ true ↦ (b', true) | false ↦ fill len b' rbs ]
]

unfoldable pub fill_rounds : ℕ → List ℕ → List (List ℕ) → Option (List ℕ)
fill_rounds len b [] = none
fill_rounds len b (round ∷ rounds) =
    let (b', full) = fill len b round in
    elim full [ true ↦ some b' | false ↦ fill_rounds len b' rounds ]

unfoldable pub random_string : ℕ → List (List ℕ) → Option (List ℕ)
unfolding fill fill_rounds
random_string len rounds = fill_rounds len [] rounds
