-- ===== src/Security/Policy.antt =====
-- The wildcard patterns of pkg/security/policy.go. A string is its list of runes, as the source
-- matches it; '*' stands for any run of runes and '?' for one rune.
use woocoo.Base.{
  ℕ, ◌≡◌, ◌≢◌, ◌↔◌, ◌⊎◌, refl, sym, ap, Bool, true, false, ◌||◌, ◌&&◌, List, [], ◌∷◌, ◌++◌, arith,
  ◌==◌, if◌then◌else◌, Bool-cases, inl, inr,
}
use mathlib.Core.List.{append-nil}

-- `deepMatchRune`. A test of a pattern rune is by `elim`, so that only the branch taken is computed.
unfoldable pub deep_match : List ℕ → List ℕ → Bool → Bool
deep_match [] [] simple = true
deep_match (x ∷ s) [] simple = false
deep_match [] (p ∷ ps) simple = elim (p == b'*') [
  | true ↦ deep_match [] ps simple
  | false ↦ if p == b'?' then simple else false
]
deep_match (x ∷ s) (p ∷ ps) simple = elim (p == b'*') [
  | true ↦ deep_match (x ∷ s) ps simple || deep_match s (p ∷ ps) simple
  | false ↦ elim (p == b'?') [
    | true ↦ deep_match s ps simple
    | false ↦ x == p && deep_match s ps simple
  ]
]

abbrev pub is_empty : List ℕ → Bool
is_empty [] = true
is_empty _ = false

abbrev pub is_star : List ℕ → Bool
is_star (p ∷ []) = p == b'*'
is_star _ = false

-- `arnMatch`.
unfoldable pub arn_match : List ℕ → List ℕ → Bool
unfolding deep_match
arn_match pattern resource =
    if is_empty pattern
    then is_empty resource
    else if is_star pattern
    then true
    else deep_match resource pattern false

-- `Action.MatchResource` and `Resource.MatchResource`.
unfoldable pub match_resource : List ℕ → List ℕ → Bool
unfolding arn_match
match_resource pattern resource = arn_match pattern resource

-- What a pattern means, with no matching in it: the text is cut into one piece for each rune of the
-- pattern.
pub data Fits : List ℕ → List ℕ → Type 0 where
  end : Fits [] []
  star :
      {p : ℕ} {ps s : List ℕ} (u v : List ℕ) → p ≡ b'*' → s ≡ u ++ v → Fits ps v → Fits (p ∷ ps) s
  one : {p : ℕ} {ps v : List ℕ} (x : ℕ) → p ≡ b'?' → Fits ps v → Fits (p ∷ ps) (x ∷ v)
  literal :
      {p : ℕ} {ps v : List ℕ} (x : ℕ)
      → p ≢ b'*'
      → p ≢ b'?'
      → x ≡ p
      → Fits ps v
      → Fits (p ∷ ps) (x ∷ v)

abbrev Star : ℕ → List ℕ → List ℕ → Type 0
Star p ps s = (u : List ℕ) × (v : List ℕ) × (s ≡ u ++ v) × Fits ps v

-- A pattern that begins with '*' fits a text by a cut.
Fits-Star : {p : ℕ} {ps s : List ℕ} → p ≡ b'*' → Fits (p ∷ ps) s → Star p ps s
Fits-Star e (star u v _ cut f) = (u, v, cut, f)
Fits-Star e (one x q f) = absurd (omega arith)
Fits-Star e (literal x q r same f) = absurd (q e)

Fits-longer : {p : ℕ} {ps s : List ℕ} (x : ℕ) → p ≡ b'*' → Fits (p ∷ ps) s → Fits (p ∷ ps) (x ∷ s)
Fits-longer x e f = let (u, v, cut, g) = Fits-Star e f in star (x ∷ u) v e (ap (◌∷◌ x) cut) g

or-cases : (a b : Bool) → (a || b) ≡ true → (a ≡ true) ⊎ (b ≡ true)
or-cases true b h = inl refl
or-cases false b h = inr h

deep_match_sound : (s ps : List ℕ) → deep_match s ps false ≡ true → Fits ps s
unfolding deep_match
deep_match_sound [] [] h = end
deep_match_sound (x ∷ s) [] h = cc
deep_match_sound [] (p ∷ ps) h = elim (Bool-cases (p == b'*')) [
  | inl any ↦ star [] [] (ground arith) refl (deep_match_sound [] ps (rw (any, deep_match) at h))
  | inr other ↦ absurd (ground arith)
]
deep_match_sound (x ∷ s) (p ∷ ps) h = elim (Bool-cases (p == b'*')) [
  | inl any ↦
      elim (or-cases (deep_match (x ∷ s) ps false) (deep_match s (p ∷ ps) false) (ground arith)) [
        | inl skipped ↦ star [] (x ∷ s) (ground arith) refl (deep_match_sound (x ∷ s) ps skipped)
        | inr taken ↦ Fits-longer x (ground arith) (deep_match_sound s (p ∷ ps) taken)
      ]
  | inr other ↦ elim (Bool-cases (p == b'?')) [
    | inl single ↦ one x (ground arith) (deep_match_sound s ps (ground arith))
    | inr plain ↦
        literal x (ground arith) (ground arith) (ground arith)
          (deep_match_sound s ps (ground arith))
  ]
]

-- A '*' takes up any text before a text that the rest of the pattern matches.
deep_match-star :
    (p : ℕ) (ps u v : List ℕ)
    → p ≡ b'*'
    → deep_match v ps false ≡ true
    → deep_match (u ++ v) (p ∷ ps) false ≡ true
unfolding deep_match
deep_match-star p ps [] [] e h = ground arith
deep_match-star p ps [] (x ∷ v) e h = ground arith
deep_match-star p ps (x ∷ u) v e h = ground (arith, deep_match-star p ps u v e h)

deep_match_complete : {ps s : List ℕ} → Fits ps s → deep_match s ps false ≡ true
unfolding deep_match
deep_match_complete end = refl
deep_match_complete (star {p} {ps} u v e cut f) =
    rw cut (deep_match-star p ps u v e (deep_match_complete f))
deep_match_complete (one {p} {ps} {v} x e f) = ground (arith, deep_match_complete f)
deep_match_complete (literal {p} {ps} {v} x ne ne' same f) = ground (arith, deep_match_complete f)

-- `deepMatchRune` decides whether the pattern fits the text, under the flag that `arnMatch` passes.
deep_match_iff : (s ps : List ℕ) → (deep_match s ps false ≡ true) ↔ Fits ps s
deep_match_iff s ps = (deep_match_sound s ps, deep_match_complete)

arn_match-deep_match :
    (pattern resource : List ℕ) → arn_match pattern resource ≡ deep_match resource pattern false
unfolding arn_match
arn_match-deep_match [] [] = refl
arn_match-deep_match [] (x ∷ s) = refl
arn_match-deep_match (p ∷ []) resource = elim (Bool-cases (p == b'*')) [
  | inl any ↦ rw any (
      sym (
        deep_match_complete
          (star {p = p} resource [] (ground arith) (sym (append-nil resource)) end)))
  | inr other ↦ rw other
]
arn_match-deep_match (p ∷ q ∷ ps) resource = refl

-- `MatchResource` accepts a resource exactly when the resource can be cut into one piece for each
-- rune of the pattern: any text for '*', one rune for '?', and the rune itself for any other. The
-- shortcuts for the empty pattern and for "*" change nothing.
pub match_resource_iff :
    (pattern resource : List ℕ) → (match_resource pattern resource ≡ true) ↔ Fits pattern resource
unfolding match_resource
match_resource_iff pattern resource =
    rw (arn_match-deep_match pattern resource) (deep_match_iff resource pattern)
