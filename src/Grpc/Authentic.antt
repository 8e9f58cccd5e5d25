-- ===== src/Grpc/Authentic.antt =====
-- Which calls the interceptors of rpc/grpcx/interceptor/jwt.go hand to the handler.
use woocoo.Base.{
  ℕ, ◌≡◌, ◌≢◌, ◌⊎◌, ◌↔◌, ◌∙◌, refl, sym, ap, inl, inr, Bool, true, false, List, [], ◌∷◌, Option,
  none, some, if◌then◌else◌, Option-cases, some-eq,
}
use woocoo.Web.{Text}
use woocoo.Grpc.{Metadata}
use woocoo.Grpc.Interceptor.{
  TokenError, parsing_error, Parse, read_token, no_token, Admission, admitted, rejected, Served,
  handles, strip, scan_values, any_found, values_from_metadata, prefix_of, any_text, JwtOptions,
  with_claims, try_texts, try_extracted, with_token, served, unary_interceptor, stream_interceptor,
}
use woocoo.Grpc.Prefix.{Carries, strip-Carries, Carries-strip}

module _ (Token Principal : Type 0) (o : JwtOptions Token Principal) where
  -- The first value with a text that parses has the claims of the principal.
  abbrev pub FirstValid : (prefix : Text) → List Text → Principal → Type 0
  FirstValid prefix [] p = ⊥
  FirstValid prefix (v ∷ vs) p =
      ((a : Text) × (token : Token) × Carries prefix v a
        × (o.parse_token a ≡ read_token token)
        × (o.principal token ≡ some p))
      ⊎ (((a : Text) → Carries prefix v a → (e : ℕ) × (o.parse_token a ≡ no_token e))
          × FirstValid prefix vs p)

  Parse-cases :
      (r : Parse Token) → ((e : ℕ) × (r ≡ no_token e)) ⊎ ((token : Token) × (r ≡ read_token token))
  Parse-cases (no_token e) = inl (e, refl)
  Parse-cases (read_token token) = inr (token, refl)

  with_claims-admitted :
      (r : Option Principal) (p : Principal)
      → with_claims Token Principal r ≡ admitted p
      → r ≡ some p
  with_claims-admitted none p h = absurd cc
  with_claims-admitted (some q) p h = cc

  try_texts-FirstValid :
      (prefix : Text) (vs : List Text) (last : Option TokenError) (p : Principal)
      → try_texts Token Principal o (scan_values prefix vs) last ≡ admitted p
      → FirstValid prefix vs p
  unfolding try_texts scan_values
  try_texts-FirstValid prefix [] none p h = absurd cc
  try_texts-FirstValid prefix [] (some e) p h = absurd cc
  try_texts-FirstValid prefix (v ∷ vs) last p h = elim (Option-cases (strip prefix v)) [
    | inl without ↦ inr (
      λ a c. absurd (let g = Carries-strip prefix v a c in cc),
      try_texts-FirstValid prefix vs last p (rw (scan_values, without) at h),
    )
    | inr (a, has) ↦ elim (Parse-cases (o.parse_token a)) [
      | inl (e, bad) ↦ inr (
        λ a' c.
            let same : a ≡ a' = some-eq (sym has ∙ Carries-strip prefix v a' c) in
            (e, ap o.parse_token (sym same) ∙ bad),
        try_texts-FirstValid prefix vs (some (parsing_error e)) p
            (rw (scan_values, has, try_texts, bad) at h),
      )
      | inr (token, good) ↦ inl (
        a,
        token,
        strip-Carries prefix v a has,
        good,
        with_claims-admitted (o.principal token) p (rw (scan_values, has, try_texts, good) at h),
      )
    ]
  ]

  FirstValid-try_texts :
      (prefix : Text) (vs : List Text) (last : Option TokenError) (p : Principal)
      → FirstValid prefix vs p
      → try_texts Token Principal o (scan_values prefix vs) last ≡ admitted p
  unfolding try_texts scan_values
  FirstValid-try_texts prefix [] last p h = absurd h
  FirstValid-try_texts prefix (v ∷ vs) last p (inl (a, token, c, good, claims)) =
      rw (scan_values, Carries-strip prefix v a c, try_texts, good, claims) refl
  FirstValid-try_texts prefix (v ∷ vs) last p (inr (skip, rest)) =
      elim (Option-cases (strip prefix v)) [
        | inl without ↦ rw (scan_values, without) (FirstValid-try_texts prefix vs last p rest)
        | inr (a, has) ↦
            let (e, bad) = skip a (strip-Carries prefix v a has) in
            rw (scan_values, has, try_texts, bad)
              (FirstValid-try_texts prefix vs (some (parsing_error e)) p rest)
      ]

  -- The metadata has the token's name, and among its values is a first one that is valid.
  abbrev pub Authenticates : Option Metadata → Principal → Type 0
  Authenticates md p =
      (m : Metadata) × (md ≡ some m)
      × ((vs : List Text) × (m o.token_lookup ≡ some vs)
          × FirstValid (prefix_of o.auth_scheme) vs p)

  try_extracted-admitted :
      (prefix : Text) (ss : List Text) (p : Principal)
      → try_extracted Token Principal o (any_found prefix ss) ≡ admitted p
      → try_texts Token Principal o ss none ≡ admitted p
  unfolding try_extracted
  try_extracted-admitted prefix [] p h = absurd cc
  try_extracted-admitted prefix (s ∷ ss) p h = h

  admitted-try_extracted :
      (prefix : Text) (ss : List Text) (p : Principal)
      → try_texts Token Principal o ss none ≡ admitted p
      → try_extracted Token Principal o (any_found prefix ss) ≡ admitted p
  unfolding try_extracted try_texts
  admitted-try_extracted prefix [] p h = absurd cc
  admitted-try_extracted prefix (s ∷ ss) p h = h

  with_token-Authenticates :
      (md : Option Metadata) (p : Principal)
      → with_token Token Principal o md ≡ admitted p
      → Authenticates md p
  unfolding with_token values_from_metadata try_extracted
  with_token-Authenticates none p h = absurd cc
  with_token-Authenticates (some m) p h = elim (Option-cases (m o.token_lookup)) [
    | inl without ↦ absurd (let g = rw (with_token, values_from_metadata, without) at h in cc)
    | inr (vs, has) ↦
        let tried =
          try_extracted-admitted (prefix_of o.auth_scheme)
            (scan_values (prefix_of o.auth_scheme) vs) p
            (rw (with_token, values_from_metadata, has) at h) in
        (m, refl, (vs, has, try_texts-FirstValid (prefix_of o.auth_scheme) vs none p tried))
  ]

  Authenticates-with_token :
      (md : Option Metadata) (p : Principal)
      → Authenticates md p
      → with_token Token Principal o md ≡ admitted p
  unfolding with_token values_from_metadata
  Authenticates-with_token none p (m, e, more) = absurd cc
  Authenticates-with_token (some m) p (m', e, (vs, has, valid)) =
      let same : m o.token_lookup ≡ some vs =
        ap (λ (f : Metadata). f o.token_lookup) (some-eq e) ∙ has in
      rw (with_token, values_from_metadata, same)
        (admitted-try_extracted (prefix_of o.auth_scheme) (scan_values (prefix_of o.auth_scheme) vs)
          p (FirstValid-try_texts (prefix_of o.auth_scheme) vs none p valid))

  served-admitted :
      (a : Admission Principal) (p : Principal)
      → served Token Principal a ≡ handles (some p)
      → a ≡ admitted p
  served-admitted (rejected e) p h = absurd cc
  served-admitted (admitted q) p h = cc

  served-some : (a : Admission Principal) → served Token Principal a ≢ handles none
  served-some (rejected e) h = cc
  served-some (admitted q) h = cc

  -- What a call's outcome says: the handler has a principal for a method that is not excluded with a
  -- first valid value, and it is called without one for an excluded method, and for no other.
  abbrev pub Decides : (method : Text) → Option Metadata → Principal → Served Principal → Type 0
  Decides method md p outcome =
      ((outcome ≡ handles (some p)) ↔ ((any_text o.exclude method ≡ false) × Authenticates md p))
      × ((outcome ≡ handles none) ↔ (any_text o.exclude method ≡ true))

  gate-Decides :
      (method : Text) (md : Option Metadata) (p : Principal) (excluded : Bool)
      → any_text o.exclude method ≡ excluded
      → Decides method md p (
          if excluded
          then handles none
          else served Token Principal (with_token Token Principal o md))
  gate-Decides method md p true e = (
    (
      λ h. absurd cc,
      λ (h : (any_text o.exclude method ≡ false) × Authenticates md p). absurd (let g = h.0 in cc),
    ),
    (λ h. e, λ h. refl),
  )
  gate-Decides method md p false e = (
    (
      λ h. (
        e,
        with_token-Authenticates md p (served-admitted (with_token Token Principal o md) p h),
      ),
      λ (h : (any_text o.exclude method ≡ false) × Authenticates md p).
          ap (served Token Principal) (Authenticates-with_token md p h.1),
    ),
    (λ h. absurd (served-some (with_token Token Principal o md) h), λ h. absurd cc),
  )

-- For unary calls and for streams, whatever golang-jwt makes of a text: the handler is called with the
-- principal of p exactly when the method is not excluded and the metadata has values under the
-- configured name of which the first with a text that parses has the claims of p; the values before it
-- lack the scheme or do not parse, and the text is what stands behind the scheme. The handler is
-- called without a principal exactly when the method is excluded.
pub interceptor_iff :
    (Token Principal : Type 0) (o : JwtOptions Token Principal) (method : Text)
    (md : Option Metadata) (p : Principal)
    → Decides Token Principal o method md p (unary_interceptor Token Principal o method md)
      × Decides Token Principal o method md p (stream_interceptor Token Principal o method md)
unfolding unary_interceptor stream_interceptor
interceptor_iff Token Principal o method md p =
    let gate = gate-Decides Token Principal o method md p (any_text o.exclude method) refl in
    (gate, gate)
