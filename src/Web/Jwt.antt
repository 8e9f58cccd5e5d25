-- ===== src/Web/Jwt.antt =====
-- The JWT middleware of web/handler/jwt.go. What golang-jwt makes of a text is the type Token; the
-- functions of the configuration are parts of the record JwtConfig, and `principal` is the error of
-- `WithPrincipalContext`.
pub mod Authentic
use woocoo.Base.{ℕ, Bool, true, false, List, [], ◌∷◌, Option, none, some, if◌then◌else◌}
use woocoo.Web.{Text, Request, Result, ok, err}

pub data JwtError : Type 0 where
  jwt_missing token_unverifiable token_invalid_claims : JwtError
  custom_error : ℕ → JwtError

-- A result with such an error.
pub data Verdict (Token : Type 0) : Type 0 where
  valid : Token → Verdict Token
  refused : JwtError → Verdict Token

module _ (Token : Type 0) where
  pub record JwtConfig : Type 0 where
    pub skipper : Request → Bool
    pub extractors : List (Request → Result (List Text))
    pub parse_token : Text → Verdict Token
    -- The cache of a token store, by whether it has a key.
    pub token_store : Option (Text → Bool)
    pub get_token_id : Token → Option Text
    pub principal : Option (Token → Option JwtError)
    pub error_handler : Option (Option JwtError → Option JwtError)

  -- What the store says of a token that was parsed.
  abbrev pub stored_verdict : (Text → Bool) → Token → Option Text → Verdict Token
  stored_verdict has token none = refused token_invalid_claims
  stored_verdict has token (some jti) = if has jti then valid token else refused token_unverifiable

  abbrev pub checked_verdict : JwtConfig → Option (Text → Bool) → Verdict Token → Verdict Token
  checked_verdict c store (refused e) = refused e
  checked_verdict c none (valid token) = valid token
  checked_verdict c (some has) (valid token) = stored_verdict has token (c.get_token_id token)

  unfoldable pub handle_token : JwtConfig → Text → Verdict Token
  handle_token c auth = checked_verdict c c.token_store (c.parse_token auth)

  -- Where the loops stand: a token was taken, the loop was left, or it goes on with the last error.
  pub data Search : Type 0 where
    authenticated : Token → Search
    broken : JwtError → Search
    searching : (last : Option JwtError) → Search

  abbrev pub with_principal : Option (Token → Option JwtError) → Token → Search
  with_principal none token = authenticated token
  with_principal (some principal) token = elim (principal token) [
    | none ↦ authenticated token
    | some e ↦ broken e
  ]

  -- The loop over the texts of an extractor.
  unfoldable pub try_auths : JwtConfig → List Text → Option JwtError → Search
  unfolding handle_token
  try_auths c [] last = searching last
  try_auths c (auth ∷ auths) last = elim (handle_token c auth) [
    | refused e ↦ try_auths c auths (some e)
    | valid token ↦ with_principal c.principal token
  ]

  -- The loop over the extractors, with `lastExtractorErr` and `lastTokenErr`, and the error behind it.
  abbrev pub or_extractor_err : Option JwtError → Option JwtError → Search
  or_extractor_err none extractor_err = searching extractor_err
  or_extractor_err (some e) extractor_err = searching (some e)

  unfoldable pub search_token :
      JwtConfig
      → Request
      → List (Request → Result (List Text))
      → (extractor_err token_err : Option JwtError) → Search
  unfolding try_auths
  search_token c r [] extractor_err token_err = or_extractor_err token_err extractor_err
  search_token c r (extractor ∷ extractors) extractor_err token_err = elim (extractor r) [
    | err e ↦ search_token c r extractors (some jwt_missing) token_err
    | ok auths ↦ elim (try_auths c auths token_err) [
      | authenticated token ↦ authenticated token
      | broken e ↦ broken e
      | searching last ↦ search_token c r extractors extractor_err last
    ]
  ]

  -- A request goes on, with a token or without one, or is aborted with the status 401.
  pub data JwtOutcome : Type 0 where
    passed : Option Token → JwtOutcome
    unauthorized : JwtError → JwtOutcome

  abbrev pub handled_error :
      Option (Option JwtError → Option JwtError) → Option JwtError → Option JwtError
  handled_error none e = e
  handled_error (some handler) e = handler e

  abbrev pub answered : Option JwtError → JwtOutcome
  answered none = passed none
  answered (some e) = unauthorized e

  unfoldable pub jwt_middleware : JwtConfig → Request → JwtOutcome
  unfolding search_token
  jwt_middleware c r =
      if c.skipper r then passed none else elim (search_token c r c.extractors none none) [
        | authenticated token ↦ passed (some token)
        | broken e ↦ answered (handled_error c.error_handler (some e))
        | searching last ↦ answered (handled_error c.error_handler last)
      ]
