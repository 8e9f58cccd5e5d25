-- ===== src/Grpc/Interceptor.antt =====
-- rpc/grpcx/interceptor/jwt.go. What golang-jwt makes of a text is the type Token, and a principal is
-- what security.NewGenericPrincipalByClaims makes of its claims.
use woocoo.Base.{
  ℕ, Bool, false, ◌&&◌, ◌||◌, List, [], ◌∷◌, Option, none, some, same_text, ltb, ◌==◌, length, take,
  drop, if◌then◌else◌,
}
use woocoo.Web.{Text}
use woocoo.Web.Extractor.{equal_fold, scheme_prefix}
use woocoo.Grpc.{Metadata}

-- `parsing_error` is an error of `ParseTokenFunc`.
pub data TokenError : Type 0 where
  token_missing bad_claims no_value no_value_with_prefix : TokenError
  parsing_error : ℕ → TokenError

pub data Extracted : Type 0 where
  texts : List Text → Extracted
  no_texts : TokenError → Extracted

pub data Parse (Token : Type 0) : Type 0 where
  read_token : Token → Parse Token
  no_token : ℕ → Parse Token

pub data Admission (Principal : Type 0) : Type 0 where
  admitted : Principal → Admission Principal
  rejected : TokenError → Admission Principal

-- The handler is called, with a principal in its context or with the context unchanged.
pub data Served (Principal : Type 0) : Type 0 where
  handles : Option Principal → Served Principal
  denied : TokenError → Served Principal

-- The text of a value behind the prefix of the length `len`, if it has the prefix.
abbrev pub strip_by : (len : ℕ) → (prefix v : Text) → Option Text
strip_by len prefix v =
    if len == 0
    then some v
    else if ltb len (length v) && equal_fold (take len v) prefix
    then some (drop len v)
    else none

abbrev pub strip : (prefix v : Text) → Option Text
strip prefix v = strip_by (length prefix) prefix v

-- The loop of `valuesFromMetadata` over the values of a name.
unfoldable pub scan_values : Text → List Text → List Text
scan_values prefix [] = []
scan_values prefix (v ∷ vs) = elim (strip prefix v) [
  | some a ↦ a ∷ scan_values prefix vs
  | none ↦ scan_values prefix vs
]

abbrev pub any_found : Text → List Text → Extracted
any_found prefix (v ∷ vs) = texts (v ∷ vs)
any_found prefix [] = no_texts (if ltb 0 (length prefix) then no_value_with_prefix else no_value)

unfoldable pub values_from_metadata : (key prefix : Text) → Option Metadata → Extracted
unfolding scan_values
values_from_metadata key prefix none = no_texts token_missing
values_from_metadata key prefix (some md) = elim (md key) [
  | none ↦ no_texts token_missing
  | some values ↦ any_found prefix (scan_values prefix values)
]

-- The prefix that `createExtractor` makes of the scheme.
abbrev pub prefix_of : Text → Text
prefix_of [] = []
prefix_of (c ∷ scheme) = scheme_prefix (c ∷ scheme)

abbrev pub any_text : List Text → Text → Bool
any_text [] s = false
any_text (x ∷ xs) s = same_text x s || any_text xs s

module _ (Token Principal : Type 0) where
  -- `JWTOptions`; `principal` gives nothing for claims that are no map.
  pub record JwtOptions : Type 0 where
    pub exclude : List Text
    pub token_lookup : Text
    pub auth_scheme : Text
    pub parse_token : Text → Parse Token
    pub principal : Token → Option Principal

  abbrev pub with_claims : Option Principal → Admission Principal
  with_claims none = rejected bad_claims
  with_claims (some p) = admitted p

  -- The loop of `withToken`, with `lastTokenErr`.
  unfoldable pub try_texts :
      JwtOptions → List Text → (last : Option TokenError) → Admission Principal
  try_texts o [] none = rejected token_missing
  try_texts o [] (some e) = rejected e
  try_texts o (s ∷ ss) last = elim (o.parse_token s) [
    | no_token e ↦ try_texts o ss (some (parsing_error e))
    | read_token token ↦ with_claims (o.principal token)
  ]

  unfoldable pub try_extracted : JwtOptions → Extracted → Admission Principal
  unfolding try_texts
  try_extracted o (no_texts e) = rejected token_missing
  try_extracted o (texts ss) = try_texts o ss none

  unfoldable pub with_token : JwtOptions → Option Metadata → Admission Principal
  unfolding values_from_metadata try_extracted
  with_token o md =
      try_extracted o (values_from_metadata o.token_lookup (prefix_of o.auth_scheme) md)

  abbrev pub served : Admission Principal → Served Principal
  served (rejected e) = denied e
  served (admitted p) = handles (some p)

  -- The function that `UnaryServerInterceptor` returns, and the one that `SteamServerInterceptor`
  -- returns, whose context is that of the stream.
  unfoldable pub unary_interceptor :
      JwtOptions → (full_method : Text) → Option Metadata → Served Principal
  unfolding with_token
  unary_interceptor o full_method md =
      if any_text o.exclude full_method then handles none else served (with_token o md)

  unfoldable pub stream_interceptor :
      JwtOptions → (full_method : Text) → Option Metadata → Served Principal
  unfolding with_token
  stream_interceptor o full_method md =
      if any_text o.exclude full_method then handles none else served (with_token o md)
