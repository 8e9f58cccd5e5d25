-- ===== src/Conf/Expand.antt =====
-- What `ParseEnv` of pkg/conf/util.go makes of a text.
use woocoo.Base.{
  ℕ, zero, suc, ◌≤◌, ◌≡◌, ◌≢◌, ◌↔◌, ◌∙◌, refl, sym, ap, subst, inl, inr, true, false, [], ◌∷◌, ◌++◌,
  Option, none, some, length, ◌==◌, length-append, Bool-cases, Option-cases, some-eq, arith,
}
use woocoo.Web.{Text}
use woocoo.Conf.Env.{
  is_name, braced, not_empty, matched_name, trimmed_name, replace_from, has_match, parse_env,
}

-- Every character may stand in a name.
abbrev pub AllName : Text → Type 0
AllName [] = Unit
AllName (c ∷ s) = (is_name c ≡ true) × AllName s

-- "${", a name that is not empty, "}", and the rest.
abbrev pub Placeholder : (name rest : Text) → Text
Placeholder name rest = b'$' ∷ b'{' ∷ (name ++ b'}' ∷ rest)

abbrev pub IsPlaceholder : (s name rest : Text) → Type 0
IsPlaceholder s name rest = (s ≡ Placeholder name rest) × AllName name × (name ≢ [])

-- The texts that stand for a text in an environment, read from the left: a placeholder stands for the
-- value of its name without blanks around it, and a character that begins no placeholder for itself.
pub data Expands (env : Text → Text) : Text → Text → Type 0 where
  end : Expands env [] []
  replaced :
      (s name rest out : Text)
      → IsPlaceholder s name rest
      → Expands env rest out
      → Expands env s (env (trimmed_name name) ++ out)
  plain :
      (c : ℕ) (s out : Text)
      → ((name rest : Text) → ¬ (IsPlaceholder (c ∷ s) name rest))
      → Expands env s out
      → Expands env (c ∷ s) (c ∷ out)

braced-found :
    (s name : Text)
    → braced s ≡ some name
    → (rest : Text) × (s ≡ name ++ b'}' ∷ rest) × AllName name
unfolding braced
braced-found [] name h = absurd cc
braced-found (c ∷ s) name h = elim (Bool-cases (is_name c)) [
  | inl named ↦ elim (Option-cases (braced s)) [
    | inl open_end ↦ absurd (let g = rw (braced, named, open_end) at h in cc)
    | inr (inner, found) ↦
        let same : c ∷ inner ≡ name = some-eq (rw (braced, named, found) at h) in
        let (rest, e, all) = braced-found s inner found in
        subst (λ (n : Text). (rest : Text) × (c ∷ s ≡ n ++ b'}' ∷ rest) × AllName n) same
          (rest, ap (λ t. c ∷ t) e, (named, all))
  ]
  | inr no_name ↦ elim (Bool-cases (c == b'}')) [
    | inl brace ↦
        let same : [] ≡ name = some-eq (rw (braced, no_name, brace) at h) in
        let close : c ≡ b'}' = ground arith in
        subst (λ (n : Text). (rest : Text) × (c ∷ s ≡ n ++ b'}' ∷ rest) × AllName n) same
          (s, ap (λ d. d ∷ s) close, tt)
    | inr other ↦ absurd (let g = rw (braced, no_name, other) at h in cc)
  ]
]

braced-full : (name rest : Text) → AllName name → braced (name ++ b'}' ∷ rest) ≡ some name
unfolding braced
braced-full [] rest all = refl
braced-full (c ∷ name) rest (named, all) = rw (braced, named, braced-full name rest all) refl

not_empty-found :
    (o : Option Text) (name : Text) → not_empty o ≡ some name → (o ≡ some name) × (name ≢ [])
not_empty-found none name h = absurd cc
not_empty-found (some []) name h = absurd cc
not_empty-found (some (c ∷ cs)) name h = (h, λ e. (let g = h ∙ ap some e in cc))

matched_name-found :
    (s name : Text) → matched_name s ≡ some name → (rest : Text) × IsPlaceholder s name rest
unfolding matched_name
matched_name-found [] name h = absurd cc
matched_name-found (d ∷ []) name h = absurd cc
matched_name-found (d ∷ b ∷ s) name h = elim (Bool-cases (d == b'$')) [
  | inr other ↦ absurd (let g = rw (matched_name, other) at h in cc)
  | inl dollar ↦ elim (Bool-cases (b == b'{')) [
    | inr other ↦ absurd (let g = rw (matched_name, dollar, other) at h in cc)
    | inl open_brace ↦
        let (found, ne) =
          not_empty-found (braced s) name (rw (matched_name, dollar, open_brace) at h) in
        let (rest, e, all) = braced-found s name found in
        let d_is : d ≡ b'$' = ground arith in
        let b_is : b ≡ b'{' = ground arith in (rest, (λ i. d_is i ∷ b_is i ∷ e i, all, ne))
  ]
]

matched_name-full :
    (name rest : Text) → AllName name → name ≢ [] → matched_name (Placeholder name rest) ≡ some name
unfolding matched_name
matched_name-full [] rest all ne = absurd (ne refl)
matched_name-full (c ∷ name) rest all ne = ap not_empty (braced-full (c ∷ name) rest all)

module _ (env : Text → Text) where
  replace_from-over :
      (name rest : Text)
      → replace_from env (suc (length name)) (name ++ b'}' ∷ rest) ≡ replace_from env zero rest
  unfolding replace_from
  replace_from-over [] rest = refl
  replace_from-over (c ∷ name) rest = replace_from-over name rest

  replace_from-placeholder :
      (name rest : Text)
      → AllName name
      → name ≢ []
      → replace_from env zero (Placeholder name rest)
        ≡ env (trimmed_name name) ++ replace_from env zero rest
  unfolding replace_from
  replace_from-placeholder name rest all ne =
      rw (replace_from, matched_name-full name rest all ne)
        (ap (λ t. env (trimmed_name name) ++ t) (replace_from-over name rest))

  replace_from-plain :
      (c : ℕ) (s : Text)
      → matched_name (c ∷ s) ≡ none
      → replace_from env zero (c ∷ s) ≡ c ∷ replace_from env zero s
  unfolding replace_from
  replace_from-plain c s unmatched = rw (replace_from, unmatched) refl

  not-IsPlaceholder :
      (s : Text) → matched_name s ≡ none → (name rest : Text) → ¬ (IsPlaceholder s name rest)
  not-IsPlaceholder s unmatched name rest (e, all, ne) =
      let g : none ≡ some name =
        sym unmatched ∙ ap matched_name e ∙ matched_name-full name rest all ne in
      cc

  replace_from-Expands : (n : ℕ) (s : Text) → length s ≤ n → Expands env s (replace_from env zero s)
  unfolding replace_from
  replace_from-Expands n [] le = end
  replace_from-Expands zero (c ∷ s) le = absurd (omega arith)
  replace_from-Expands (suc n) (c ∷ s) le = elim (Option-cases (matched_name (c ∷ s))) [
    | inl unmatched ↦
        subst (λ t. Expands env (c ∷ s) t) (sym (replace_from-plain c s unmatched))
          (plain c s (replace_from env zero s) (not-IsPlaceholder (c ∷ s) unmatched)
            (replace_from-Expands n s (omega arith)))
    | inr (name, found) ↦
        let (rest, (e, all, ne)) = matched_name-found (c ∷ s) name found in
        let shorter : length rest ≤ n =
          (let long = ap length e in
            let sum = length-append name (b'}' ∷ rest) in omega (arith, le, long, sum)) in
        subst (λ t. Expands env (c ∷ s) t)
          (sym (ap (replace_from env zero) e ∙ replace_from-placeholder name rest all ne))
          (replaced (c ∷ s) name rest (replace_from env zero rest) (e, all, ne)
            (replace_from-Expands n rest shorter))
  ]

  Expands-replace_from : {s out : Text} → Expands env s out → out ≡ replace_from env zero s
  unfolding replace_from
  Expands-replace_from end = refl
  Expands-replace_from (replaced s name rest out (e, all, ne) expands) =
      ap (λ t. env (trimmed_name name) ++ t) (Expands-replace_from expands)
      ∙ sym (ap (replace_from env zero) e ∙ replace_from-placeholder name rest all ne)
  Expands-replace_from (plain c s out unmatched expands) =
      elim (Option-cases (matched_name (c ∷ s))) [
        | inl none_there ↦
            ap (λ t. c ∷ t) (Expands-replace_from expands) ∙ sym (replace_from-plain c s none_there)
        | inr (name, found) ↦
            let (rest, is) = matched_name-found (c ∷ s) name found in
            absurd (unmatched name rest is)
      ]

  replace_from-no_match : (s : Text) → has_match s ≡ false → replace_from env zero s ≡ s
  unfolding has_match replace_from
  replace_from-no_match [] h = refl
  replace_from-no_match (c ∷ s) h = elim (Option-cases (matched_name (c ∷ s))) [
    | inl unmatched ↦
        replace_from-plain c s unmatched
        ∙ ap (λ t. c ∷ t) (replace_from-no_match s (rw (has_match, unmatched) at h))
    | inr (name, found) ↦ absurd (let g = rw (has_match, found) at h in cc)
  ]

  parse_env-replace : (src : Text) → parse_env env src ≡ replace_from env zero src
  unfolding parse_env
  parse_env-replace src = elim (Bool-cases (has_match src)) [
    | inl some_match ↦ rw some_match
    | inr no_match ↦ rw no_match (sym (replace_from-no_match src no_match))
  ]

-- `ParseEnv` gives the one text that stands for its argument in the environment: read from the left,
-- each "${name}" with a name of letters, digits, "_" and blanks is replaced by the variable of that
-- name without the blanks around it, what was replaced is not read again, and all else is kept.
pub parse_env_iff :
    (env : Text → Text) (src out : Text) → Expands env src out ↔ (out ≡ parse_env env src)
parse_env_iff env src out = (
  λ expands. Expands-replace_from env expands ∙ sym (parse_env-replace env src),
  λ e.
      subst (λ t. Expands env src t) (sym (e ∙ parse_env-replace env src))
        (replace_from-Expands env (length src) src (omega arith)),
)
