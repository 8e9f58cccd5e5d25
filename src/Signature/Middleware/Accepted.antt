-- ===== src/Signature/Middleware/Accepted.antt =====
-- What the middleware of web/handler/signer/sign.go accepts before it stores the signature.
use woocoo.Base.{
  ℕ, ◌+◌, ◌-◌, ◌≤◌, ◌≡◌, ◌∙◌, sym, ap, ◌||◌, Option, none, some, inl, inr, ltb, arith, Bool-cases,
}
use woocoo.Web.{Text, Request}
use woocoo.Signature.{gives, Platform, HttpRequest, Entries, parse_sign_time}
use woocoo.Signature.Sign.{verify}
use woocoo.Signature.Verified.{bind-gives, gives-injective}
use woocoo.Signature.Middleware.{
  Middleware, parameter, parsed, extractor_verify_param, signature_fields, accept_request,
}

module _ (plat : Platform) (view : HttpRequest → Request) where
  -- A time is in the window that ends now.
  abbrev pub InWindow : (interval now t : ℕ) → Type 0
  InWindow interval now t = (t ≤ now) × (now ≤ t + interval)

  -- The nonce and the time are the ones that the request names.
  abbrev pub IsNamed :
      Middleware → (fields : Entries) → HttpRequest → (nonce : Text) → (t : ℕ) → Type 0
  IsNamed mw fields r nonce t =
      let s = mw.config.signer_config in
      (parameter plat view mw.nonce_extractor fields s.nonce_key r ≡ gives nonce)
      × (text : Text) × (parameter plat view mw.timestamp_extractor fields s.timestamp_key r
          ≡ gives text)
      × (parse_sign_time plat s.date_format text ≡ some t)

  some-injective : (a b : ℕ) → some a ≡ some b → a ≡ b
  some-injective a b h = cc

  parsed-gives : (m : Option ℕ) (t : ℕ) → parsed m ≡ gives t → m ≡ some t
  parsed-gives none t h = absurd (cc)
  parsed-gives (some t') t h = ap some (gives-injective t' t h)

  IsNamed-same :
      (mw : Middleware) (fields : Entries) (r : HttpRequest) (nonce nonce' : Text) (t t' : ℕ)
      → IsNamed mw fields r nonce t
      → IsNamed mw fields r nonce' t'
      → t ≡ t'
  IsNamed-same mw fields r nonce nonce' t t' (n, text, got, time) (n', text', got', time') =
      let same = gives-injective text text' (sym got ∙ got') in
      let g = rw same at time in some-injective t t' (sym g ∙ time')

  extractor_verify_param-IsNamed :
      (mw : Middleware) (now : ℕ) (fields : Entries) (r : HttpRequest) (nonce : Text) (t : ℕ)
      → extractor_verify_param plat view mw now fields r ≡ gives (nonce, t)
      → IsNamed mw fields r nonce t × InWindow mw.config.interval now t
  unfolding extractor_verify_param
  extractor_verify_param-IsNamed mw now fields r nonce t h =
      let s = mw.config.signer_config in
      let (n, got_nonce, h1) =
        bind-gives (parameter plat view mw.nonce_extractor fields s.nonce_key r) _ (nonce, t) h in
      let (text, got_text, h2) =
        bind-gives (parameter plat view mw.timestamp_extractor fields s.timestamp_key r) _
          (nonce, t) h1 in
      let (t', got_t, h3) =
        bind-gives (parsed (parse_sign_time plat s.date_format text)) _ (nonce, t) h2 in
      elim (Bool-cases (ltb now t' || ltb mw.config.interval (now - t'))) [
        | inl late ↦ absurd (let g = rw late at h3 in cc)
        | inr good ↦
            let both = gives-injective (n, t') (nonce, t) (rw good at h3) in
            let same = ap (λ p. p.1) both in
            (
              (
                got_nonce ∙ ap (λ p. gives (p.0)) both,
                text,
                got_text,
                parsed-gives (parse_sign_time plat s.date_format text) t (got_t ∙ ap gives same),
              ),
              rw (← same) ((ground arith, ground arith)),
            )
      ]

  -- What passes: the request names a signature, a nonce and a time in the window, and is verified
  -- with them.
  pub accept_request-verified :
      (mw : Middleware) (random : Text) (now : ℕ) (r : HttpRequest) (signature : Text)
      → accept_request plat view mw random now r ≡ gives signature
      → (fields : Entries) × (nonce : Text) × (t : ℕ) × (r' : HttpRequest) × (signature_fields plat
            view mw r
          ≡ gives (signature, fields))
        × IsNamed mw fields r nonce t
        × InWindow mw.config.interval now t
        × (verify plat random mw.signature r nonce t ≡ gives r')
  unfolding accept_request
  accept_request-verified mw random now r signature h =
      let ((sig, fields), held, h1) = bind-gives (signature_fields plat view mw r) _ signature h in
      let ((nonce, t), params, h2) =
        bind-gives (extractor_verify_param plat view mw now fields r) _ signature h1 in
      let (r', verified, h3) =
        bind-gives (verify plat random mw.signature r nonce t) _ signature h2 in
      let same = gives-injective sig signature h3 in
      (
        fields,
        nonce,
        t,
        r',
        held ∙ ap (λ x. gives (x, fields)) same,
        (extractor_verify_param-IsNamed mw now fields r nonce t params).0,
        (extractor_verify_param-IsNamed mw now fields r nonce t params).1,
        verified,
      )

  -- Whenever a request is accepted, its signature and its time are the same.
  pub accept_request-same :
      (mw : Middleware) (random random' : Text) (now now' : ℕ) (r : HttpRequest)
      (signature signature' : Text)
      → accept_request plat view mw random now r ≡ gives signature
      → accept_request plat view mw random' now' r ≡ gives signature'
      → (signature ≡ signature')
        × (t : ℕ) × InWindow mw.config.interval now t
        × InWindow mw.config.interval now' t
  accept_request-same mw random random' now now' r signature signature' h h' =
      let (fields, nonce, t, r1, held, named, window, verified) =
        accept_request-verified mw random now r signature h in
      let (fields', nonce', t', r1', held', named', window', verified') =
        accept_request-verified mw random' now' r signature' h' in
      let both = gives-injective (signature, fields) (signature', fields') (sym held ∙ held') in
      let named2 = rw (ap (λ p. p.1) both) at named in
      let same = IsNamed-same mw fields' r nonce nonce' t t' named2 named' in
      (ap (λ p. p.0) both, t, window, rw same window')
