-- ===== src/Web/Jwt/Authentic.antt =====
-- Which requests the JWT middleware of web/handler/jwt.go lets pass.
use woocoo.Base.{
  ◌≡◌, ◌≢◌, ◌⊎◌, ◌∙◌, refl, sym, ap, Bool, true, false, List, [], ◌∷◌, Option, none, some, inl, inr,
  Bool-cases, Option-cases,
}
use woocoo.Web.{Text, Request, Result, WebError, ok, err}
use woocoo.Web.Jwt.{
  JwtError, jwt_missing, Verdict, valid, refused, JwtConfig, checked_verdict, handle_token, Search,
  authenticated, broken, searching, with_principal, try_auths, search_token, passed, jwt_middleware,
}

module _ (Token : Type 0) (c : JwtConfig Token) where
  -- A text among those that an extractor of the list gives.
  abbrev pub IsIn : Text → List Text → Type 0
  IsIn auth [] = ⊥
  IsIn auth (a ∷ auths) = (auth ≡ a) ⊎ IsIn auth auths

  abbrev pub IsExtracted : Request → List (Request → Result (List Text)) → Text → Type 0
  IsExtracted r [] auth = ⊥
  IsExtracted r (extractor ∷ extractors) auth =
      ((auths : List Text) × (extractor r ≡ ok auths) × IsIn auth auths)
      ⊎ IsExtracted r extractors auth

  -- The store, if there is one, has the token's identity.
  abbrev pub IsStored : Option (Text → Bool) → Token → Type 0
  IsStored none token = Unit
  IsStored (some has) token = (jti : Text) × (c.get_token_id token ≡ some jti) × (has jti ≡ true)

  -- A token that the middleware may let pass.
  abbrev pub IsAuthentic : Token → Text → Type 0
  IsAuthentic token auth = (c.parse_token auth ≡ valid token) × IsStored c.token_store token

  handle_token-IsAuthentic :
      (auth : Text) (token : Token)
      → handle_token Token c auth ≡ valid token
      → IsAuthentic token auth
  unfolding handle_token
  handle_token-IsAuthentic auth token h = go c.token_store (c.parse_token auth) refl h
    where
      go :
          (store : Option (Text → Bool)) (v : Verdict Token)
          → c.parse_token auth ≡ v
          → checked_verdict Token c store v ≡ valid token
          → (c.parse_token auth ≡ valid token) × IsStored store token
      go store (refused e) p h = absurd cc
      go none (valid token') p h = (p ∙ h, tt)
      go (some has) (valid token') p h = elim (Option-cases (c.get_token_id token')) [
        | inl nothing ↦ absurd (let g = rw nothing at h in cc)
        | inr (jti, id) ↦ elim (Bool-cases (has jti)) [
          | inr missing ↦ absurd (let g = rw (id, missing) at h in cc)
          | inl there ↦
              let g = rw (id, there) at h in
              let same : token' ≡ token = cc in
              (p ∙ ap valid same, (jti, ap c.get_token_id (sym same) ∙ id, there))
        ]
      ]

  Verdict-cases :
      (v : Verdict Token)
      → ((e : JwtError) × (v ≡ refused e)) ⊎ ((token : Token) × (v ≡ valid token))
  Verdict-cases (refused e) = inl (e, refl)
  Verdict-cases (valid token) = inr (token, refl)

  Result-cases :
      (v : Result (List Text))
      → ((e : WebError) × (v ≡ err e)) ⊎ ((auths : List Text) × (v ≡ ok auths))
  Result-cases (err e) = inl (e, refl)
  Result-cases (ok auths) = inr (auths, refl)

  -- How a search may end.
  abbrev Ends : Search Token → Type 0
  Ends s =
      ((token : Token) × (s ≡ authenticated token))
      ⊎ ((e : JwtError) × (s ≡ broken e))
      ⊎ ((last : Option JwtError) × (s ≡ searching last))

  Search-Ends : (s : Search Token) → Ends s
  Search-Ends (authenticated token) = inl (token, refl)
  Search-Ends (broken e) = inr (inl (e, refl))
  Search-Ends (searching last) = inr (inr (last, refl))

  with_principal-authenticated :
      (principal : Option (Token → Option JwtError)) (token token' : Token)
      → with_principal Token principal token ≡ authenticated token'
      → token ≡ token'
  with_principal-authenticated none token token' h = cc
  with_principal-authenticated (some principal) token token' h =
      elim (Option-cases (principal token)) [
        | inl fine ↦ (let g = rw fine at h in cc)
        | inr (e, failed) ↦ absurd (let g = rw failed at h in cc)
      ]

  with_principal-searching :
      (principal : Option (Token → Option JwtError)) (token : Token) (last : Option JwtError)
      → with_principal Token principal token ≢ searching last
  with_principal-searching none token last h = cc
  with_principal-searching (some principal) token last h = elim (Option-cases (principal token)) [
    | inl fine ↦ (let g = rw fine at h in cc)
    | inr (e, failed) ↦ (let g = rw failed at h in cc)
  ]

  try_auths-IsAuthentic :
      (auths : List Text) (last : Option JwtError) (token : Token)
      → try_auths Token c auths last ≡ authenticated token
      → (auth : Text) × IsIn auth auths × IsAuthentic token auth
  unfolding try_auths
  try_auths-IsAuthentic [] last token h = absurd cc
  try_auths-IsAuthentic (auth ∷ auths) last token h =
      elim (Verdict-cases (handle_token Token c auth)) [
        | inl (e, bad) ↦
            let (found, there, authentic) =
              try_auths-IsAuthentic auths (some e) token (rw (try_auths, bad) at h) in
            (found, inr there, authentic)
        | inr (token', good) ↦
            let same =
              with_principal-authenticated c.principal token' token (rw (try_auths, good) at h) in
            (auth, inl refl, handle_token-IsAuthentic auth token (good ∙ ap valid same))
      ]

  try_auths-none :
      (auths : List Text) (last : Option JwtError)
      → try_auths Token c auths last ≡ searching none
      → (auths ≡ []) × (last ≡ none)
  unfolding try_auths
  try_auths-none [] last h = (refl, cc)
  try_auths-none (auth ∷ auths) last h = elim (Verdict-cases (handle_token Token c auth)) [
    | inl (e, bad) ↦
        let (all, none_there) = try_auths-none auths (some e) (rw (try_auths, bad) at h) in
        absurd cc
    | inr (token', good) ↦
        absurd (with_principal-searching c.principal token' none (rw (try_auths, good) at h))
  ]

  search_token-IsAuthentic :
      (r : Request) (es : List (Request → Result (List Text))) (x t : Option JwtError)
      (token : Token)
      → search_token Token c r es x t ≡ authenticated token
      → (auth : Text) × IsExtracted r es auth × IsAuthentic token auth
  unfolding search_token
  search_token-IsAuthentic r [] x none token h = absurd cc
  search_token-IsAuthentic r [] x (some e) token h = absurd cc
  search_token-IsAuthentic r (extractor ∷ es) x t token h = elim (Result-cases (extractor r)) [
    | inl (e, p) ↦
        let (auth, there, authentic) =
          search_token-IsAuthentic r es (some jwt_missing) t token (rw (search_token, p) at h) in
        (auth, inr there, authentic)
    | inr (auths, p) ↦ elim (Search-Ends (try_auths Token c auths t)) [
      | inl (token', done) ↦
          let g = rw (search_token, p, done) at h in
          let same : token' ≡ token = cc in
          let (auth, there, authentic) =
            try_auths-IsAuthentic auths t token (done ∙ ap authenticated same) in
          (auth, inl (auths, p, there), authentic)
      | inr (inl (e, done)) ↦ absurd (let g = rw (search_token, p, done) at h in cc)
      | inr (inr (last, done)) ↦
          let (auth, there, authentic) =
            search_token-IsAuthentic r es x last token (rw (search_token, p, done) at h) in
          (auth, inr there, authentic)
    ]
  ]

  -- Every extractor that succeeds gives a text.
  abbrev pub Giving : Request → List (Request → Result (List Text)) → Type 0
  Giving r [] = Unit
  Giving r (extractor ∷ extractors) = (extractor r ≢ ok []) × Giving r extractors

  -- A search that ends without an error has had no extractor.
  search_token-none :
      (r : Request) (es : List (Request → Result (List Text))) (x t : Option JwtError)
      → Giving r es
      → search_token Token c r es x t ≡ searching none
      → (es ≡ []) × (x ≡ none) × (t ≡ none)
  unfolding search_token
  search_token-none r [] x none giving h = (refl, cc, refl)
  search_token-none r [] x (some e) giving h = absurd cc
  search_token-none r (extractor ∷ es) x t (gives, giving) h = elim (Result-cases (extractor r)) [
    | inl (e, p) ↦
        let (q, missing, rest) =
          search_token-none r es (some jwt_missing) t giving (rw (search_token, p) at h) in
        absurd cc
    | inr (auths, p) ↦ elim (Search-Ends (try_auths Token c auths t)) [
      | inl (token', done) ↦ absurd (let g = rw (search_token, p, done) at h in cc)
      | inr (inl (e, done)) ↦ absurd (let g = rw (search_token, p, done) at h in cc)
      | inr (inr (last, done)) ↦
          let (q, y, no_error) =
            search_token-none r es x last giving (rw (search_token, p, done) at h) in
          let (empty, fine) = try_auths-none auths t (done ∙ ap searching no_error) in
          absurd (gives (p ∙ ap ok empty))
    ]
  ]

  -- A request that is not skipped passes with a token only: one that was parsed from a text of one of
  -- the extractors, and whose identity the store has if there is a store. There is an extractor, each
  -- gives a text where it succeeds, and no handler of errors lets a request pass.
  pub jwt_middleware-IsAuthentic :
      (r : Request) (taken : Option Token)
      → c.skipper r ≡ false
      → c.error_handler ≡ none
      → c.extractors ≢ []
      → Giving r c.extractors
      → jwt_middleware Token c r ≡ passed taken
      → (token : Token) × (auth : Text) × (taken ≡ some token)
        × IsExtracted r c.extractors auth
        × IsAuthentic token auth
  unfolding jwt_middleware
  jwt_middleware-IsAuthentic r taken checked strict some_extractor giving h =
      elim (Search-Ends (search_token Token c r c.extractors none none)) [
        | inl (token, done) ↦
            let g = rw (jwt_middleware, checked, done) at h in
            let same : taken ≡ some token = cc in
            let (auth, there, authentic) =
              search_token-IsAuthentic r c.extractors none none token done in
            (token, auth, same, there, authentic)
        | inr (inl (e, done)) ↦
            absurd (let g = rw (jwt_middleware, checked, done, strict) at h in cc)
        | inr (inr (none, done)) ↦
            let (empty, y, z) = search_token-none r c.extractors none none giving done in
            absurd (some_extractor empty)
        | inr (inr (some e, done)) ↦
            absurd (let g = rw (jwt_middleware, checked, done, strict) at h in cc)
      ]
