-- ===== src/Web/KeyAuth/Decision.antt =====
-- Which requests web/handler/keyauth.go passes on.
use woocoo.Base.{
  ◌≡◌, ◌↔◌, ◌⊎◌, inl, inr, refl, true, false, List, [], ◌∷◌, Option, none, some, arith, Bool-cases,
  Option-cases,
}
use woocoo.Web.{Text, Request, WebError, Result, ok, err}
use woocoo.Web.KeyAuth.{
  Validator, KeyAuthConfig, LastErrors, passed, try_keys, try_extractors, first_err, outcome_of,
  key_auth,
}

-- A key that the validator accepts, and one that it has no error for.
abbrev pub IsValid : Validator → Text → Type 0
IsValid v key = ((v key).0 ≡ true) × ((v key).1 ≡ none)

abbrev pub IsQuiet : Validator → Text → Type 0
IsQuiet v key = (v key).1 ≡ none

abbrev pub AnyValid : Validator → List Text → Type 0
AnyValid v [] = ⊥
AnyValid v (key ∷ keys) = IsValid v key ⊎ AnyValid v keys

abbrev pub AllQuiet : Validator → List Text → Type 0
AllQuiet v [] = Unit
AllQuiet v (key ∷ keys) = IsQuiet v key × AllQuiet v keys

abbrev pub ValidResult : Validator → Result (List Text) → Type 0
ValidResult v (ok keys) = AnyValid v keys
ValidResult v (err e) = ⊥

abbrev pub QuietResult : Validator → Result (List Text) → Type 0
QuietResult v (ok keys) = AllQuiet v keys
QuietResult v (err e) = ⊥

-- Some extractor gives a valid key.
abbrev pub HasValid : Validator → Request → List (Request → Result (List Text)) → Type 0
HasValid v r [] = ⊥
HasValid v r (e ∷ es) = ValidResult v (e r) ⊎ HasValid v r es

-- No extractor fails, and the validator has no error for any key.
abbrev pub HasNoError : Validator → Request → List (Request → Result (List Text)) → Type 0
HasNoError v r [] = Unit
HasNoError v r (e ∷ es) = QuietResult v (e r) × HasNoError v r es

module _ (v : Validator) (key : Text) (keys : List Text) (last : Option WebError) where
  after_error :
      (e : WebError) → (v key).1 ≡ some e → try_keys v (key ∷ keys) last ≡ try_keys v keys (some e)
  unfolding try_keys
  after_error e h = rw (try_keys, h)

  after_valid : (v key).1 ≡ none → (v key).0 ≡ true → try_keys v (key ∷ keys) last ≡ (true, last)
  unfolding try_keys
  after_valid h k = rw (try_keys, h, k)

  after_invalid :
      (v key).1 ≡ none → (v key).0 ≡ false → try_keys v (key ∷ keys) last ≡ try_keys v keys last
  unfolding try_keys
  after_invalid h k = rw (try_keys, h, k)

try_keys-valid :
    (v : Validator) (keys : List Text) (last : Option WebError)
    → ((try_keys v keys last).0 ≡ true) ↔ AnyValid v keys
unfolding try_keys
try_keys-valid v [] last = (λ h. cc, λ a. absurd a)
try_keys-valid v (key ∷ keys) last = elim (Option-cases (v key).1) [
  | inr (e, h) ↦
      let ih = try_keys-valid v keys (some e) in
      rw (after_error v key keys last e h)
        ((λ a. inr (ih.0 a), λ a. elim a [ inl (b, n) ↦ absurd cc | inr b ↦ ih.1 b ]))
  | inl h ↦ elim (Bool-cases (v key).0) [
    | inl k ↦ rw (after_valid v key keys last h k) ((λ a. inl (k, h), λ a. refl))
    | inr k ↦
        let ih = try_keys-valid v keys last in
        rw (after_invalid v key keys last h k)
          ((λ a. inr (ih.0 a), λ a. elim a [ inl (b, n) ↦ absurd cc | inr b ↦ ih.1 b ]))
  ]
]

try_keys-quiet :
    (v : Validator) (keys : List Text) (last : Option WebError)
    → (try_keys v keys last).0 ≡ false
    → ((try_keys v keys last).1 ≡ none) ↔ ((last ≡ none) × AllQuiet v keys)
unfolding try_keys
try_keys-quiet v [] last h = (λ e. (e, tt), λ (e, u). e)
try_keys-quiet v (key ∷ keys) last f = elim (Option-cases (v key).1) [
  | inr (e, h) ↦
      let ih = try_keys-quiet v keys (some e) (rw (after_error v key keys last e h) at f) in
      rw (after_error v key keys last e h)
        ((λ a. absurd (let (b, q) = ih.0 a in cc), λ (l, qs). absurd (let q = qs.0 in cc)))
  | inl h ↦ elim (Bool-cases (v key).0) [
    | inl k ↦ absurd (let g = rw (after_valid v key keys last h k) at f in cc)
    | inr k ↦
        let ih = try_keys-quiet v keys last (rw (after_invalid v key keys last h k) at f) in
        rw (after_invalid v key keys last h k)
          ((λ a. let (l, q) = ih.0 a in (l, (h, q)), λ (l, qs). ih.1 (l, qs.1)))
  ]
]

Result-cases :
    (x : Result (List Text)) → ((e : WebError) × (x ≡ err e)) ⊎ ((keys : List Text) × (x ≡ ok keys))
Result-cases (err e) = inl (e, refl)
Result-cases (ok keys) = inr (keys, refl)

module _ (v : Validator) (r : Request) (x : Request → Result (List Text))
    (xs : List (Request → Result (List Text))) (last : LastErrors) where
  after_failure :
      (e : WebError)
      → x r ≡ err e
      → try_extractors v r (x ∷ xs) last
        ≡ try_extractors v r xs (record last { extractor_err = some e })
  unfolding try_extractors
  after_failure e h = rw (try_extractors, h)

  after_accepted :
      (keys : List Text)
      → x r ≡ ok keys
      → (try_keys v keys last.auth_err).0 ≡ true
      → (try_extractors v r (x ∷ xs) last).0 ≡ true
  unfolding try_extractors
  after_accepted keys h k = rw (try_extractors, h, k)

  after_rejected :
      (keys : List Text)
      → x r ≡ ok keys
      → (try_keys v keys last.auth_err).0 ≡ false
      → try_extractors v r (x ∷ xs) last
        ≡ try_extractors v r xs (record last { auth_err = (try_keys v keys last.auth_err).1 })
  unfolding try_extractors
  after_rejected keys h k = rw (try_extractors, h, k)

try_extractors-valid :
    (v : Validator) (r : Request) (xs : List (Request → Result (List Text))) (last : LastErrors)
    → ((try_extractors v r xs last).0 ≡ true) ↔ HasValid v r xs
unfolding try_extractors
try_extractors-valid v r [] last = (λ h. cc, λ a. absurd a)
try_extractors-valid v r (x ∷ xs) last = elim (Result-cases (x r)) [
  | inl (e, h) ↦
      let ih = try_extractors-valid v r xs (record last { extractor_err = some e }) in
      rw (after_failure v r x xs last e h, h)
        ((λ a. inr (ih.0 a), λ a. elim a [ inl b ↦ absurd b | inr b ↦ ih.1 b ]))
  | inr (keys, h) ↦
      let some_key = try_keys-valid v keys last.auth_err in
      elim (Bool-cases (try_keys v keys last.auth_err).0) [
        | inl k ↦
            rw (after_accepted v r x xs last keys h k, h) ((λ a. inl (some_key.0 k), λ a. refl))
        | inr k ↦
            let ih =
              try_extractors-valid v r xs
                (record last { auth_err = (try_keys v keys last.auth_err).1 }) in
            rw (after_rejected v r x xs last keys h k, h)
              ((
                λ a. inr (ih.0 a),
                λ a. elim a [ inl b ↦ absurd (let t = some_key.1 b in cc) | inr b ↦ ih.1 b ],
              ))
      ]
]

abbrev HasNone : LastErrors → Type 0
HasNone last = (last.auth_err ≡ none) × (last.extractor_err ≡ none)

try_extractors-quiet :
    (v : Validator) (r : Request) (xs : List (Request → Result (List Text))) (last : LastErrors)
    → (try_extractors v r xs last).0 ≡ false
    → HasNone (try_extractors v r xs last).1 ↔ (HasNone last × HasNoError v r xs)
unfolding try_extractors
try_extractors-quiet v r [] last f = (λ n. (n, tt), λ (n, u). n)
try_extractors-quiet v r (x ∷ xs) last f = elim (Result-cases (x r)) [
  | inl (e, h) ↦
      let step = after_failure v r x xs last e h in
      let ih =
        try_extractors-quiet v r xs (record last { extractor_err = some e }) (rw step at f) in
      rw (step, h) ((λ a. absurd (let n = (ih.0 a).0.1 in cc), λ (n, qs). absurd qs.0))
  | inr (keys, h) ↦ elim (Bool-cases (try_keys v keys last.auth_err).0) [
    | inl k ↦ absurd (let t = after_accepted v r x xs last keys h k in cc)
    | inr k ↦
        let step = after_rejected v r x xs last keys h k in
        let quiet = try_keys-quiet v keys last.auth_err k in
        let ih =
          try_extractors-quiet v r xs (record last { auth_err = (try_keys v keys last.auth_err).1 })
            (rw step at f) in
        rw (step, h)
          ((
            λ a. let ((n, m), q) = ih.0 a in let (l, all) = quiet.0 n in ((l, m), (all, q)),
            λ (n, qs). ih.1 ((quiet.1 (n.0, qs.0), n.1), qs.1),
          ))
  ]
]

outcome_of-first_err :
    (a b : Option WebError) → (outcome_of (first_err a b) ≡ passed) ↔ ((a ≡ none) × (b ≡ none))
outcome_of-first_err a b = ground arith

-- Without an error handler, a request that is not skipped passes exactly when some extractor gives a
-- key that the validator accepts, or when no extractor fails and the validator has no error for any
-- of the keys: a validator that refuses every key without an error lets the request pass.
pub key_auth_iff :
    (c : KeyAuthConfig) (r : Request)
    → c.skipper r ≡ false
    → c.error_handler ≡ none
    → (key_auth c r ≡ passed)
      ↔ (HasValid c.validator r c.extractors ⊎ HasNoError c.validator r c.extractors)
unfolding key_auth
key_auth_iff c r s n =
    let start : LastErrors = record { extractor_err = none; auth_err = none } in
    let valid = try_extractors-valid c.validator r c.extractors start in
    elim (Bool-cases (try_extractors c.validator r c.extractors start).0) [
      | inl k ↦ rw (key_auth, s, k) ((λ a. inl (valid.0 k), λ a. refl))
      | inr k ↦
          let quiet = try_extractors-quiet c.validator r c.extractors start k in
          let out =
            outcome_of-first_err (try_extractors c.validator r c.extractors start).1.auth_err
              (try_extractors c.validator r c.extractors start).1.extractor_err in
          rw (key_auth, s, k, n)
            ((
              λ a. inr (quiet.0 (out.0 a)).1,
              λ a. elim a [
                | inl b ↦ absurd (let t = valid.1 b in cc)
                | inr b ↦ out.1 (quiet.1 ((refl, refl), b))
              ],
            ))
    ]
