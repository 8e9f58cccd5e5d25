-- ===== src/Signature.antt =====
-- The signatures of pkg/httpx/signature.go: the configuration, the request, and what is collected of it
-- for a signature. Texts are ASCII, a time is a number, and a panic is an error of its own.
pub mod Config
pub mod Canonical
pub mod Scheme
pub mod Sign
pub mod Verified
pub mod Middleware
mod Tests
mod MiddlewareTests
use woocoo.Base.{
  ℕ, ◌+◌, Bool, true, false, not, ◌&&◌, ◌||◌, List, [], ◌∷◌, ◌++◌, Option, none, some, ltb, leb,
  ◌==◌, if◌then◌else◌, codes, same_text, split, length, drop,
}
use woocoo.Web.{Text, Request, WebError, ok, err}
use woocoo.Web.Extractor.{values_from_header}
use woocoo.Httpx.{first_value}

pub data SignError : Type 0 where
  no_auth_lookup no_signature_key unknown_algorithm unreadable_body invalid_signature panic :
      SignError
  no_extractor bad_time expired_time replayed : SignError
  bad_header : WebError → SignError

pub data SignOutcome (S : Type 0) : Type 0 where
  gives : S → SignOutcome S
  fails : SignError → SignOutcome S

infixl 5 ◌>>=◌
abbrev pub ◌>>=◌ : {S T : Type 0} → SignOutcome S → (S → SignOutcome T) → SignOutcome T
m >>= next = elim m [ fails e ↦ fails e | gives s ↦ next s ]

-- The name of an `Algorithm`; `unset` is the zero value, whose hash is nil.
pub data Algorithm : Type 0 where
  unset sha1 sha256 : Algorithm

-- What the signers take from the standard library: `CanonicalMIMEHeaderKey`, `Values.Encode` of the
-- parsed query, the hashes, the encodings of bytes, and the texts of a time.
pub record Platform : Type 0 where
  pub canonical : Text → Text
  pub encode_query : Text → Text
  pub hash : Algorithm → Text → Text
  pub hmac : Algorithm → (key text : Text) → Text
  pub hex_encode : Text → Text
  pub base64_encode : Text → Text
  pub unix_text : ℕ → Text
  pub format : ℕ → Text → Text
  pub utc : ℕ → ℕ
  pub parse_unix : Text → Option ℕ
  pub parse : (layout text : Text) → Option ℕ

-- The body of a request: nil, one that is read, or one whose reading fails.
pub data Body : Type 0 where
  nil unreadable : Body
  content : Text → Body

-- What is read of an `http.Request`. The values of a header are given by its canonical name;
-- `plain_url` is the URL without its fragment as a text.
pub record HttpRequest : Type 0 where
  pub method : Text
  pub host : Text
  pub url_host : Text
  pub opaque : Text
  pub path : Text
  pub escaped_path : Text
  pub raw_query : Text
  pub plain_url : Text
  pub body : Body
  pub headers : Text → List Text
  pub context : Text → Option Text

-- A Go map from texts to texts, the newest entry first; a missing key reads as "".
abbrev pub Entries : Type 0
Entries = List (Text × Text)

abbrev pub put : Entries → (key val : Text) → Entries
put entries key val = (key, val) ∷ entries

abbrev pub value_of : Entries → Text → Text
value_of [] key = []
value_of ((k, v) ∷ entries) key = if same_text k key then v else value_of entries key

-- `SigningCtx`, without the request.
pub record SigningCtx : Type 0 where
  pub nonce : Text
  pub body_digest : Text
  pub signed_headers : Text
  pub canonical_uri : Text
  pub canonical_query_string : Text
  pub sign_time : ℕ
  pub signature : Text
  pub credential_string : Text
  pub string_to_sign : Text
  pub canonical_headers : List Text
  pub signed_vals : Entries

pub record SignerConfig : Type 0 where
  pub credentials : Entries
  pub signed_lookups : Entries
  pub auth_lookup : Text
  pub auth_scheme : Text
  pub auth_headers : List Text
  pub auth_header_delimiter : Text
  pub timestamp_key : Text
  pub nonce_key : Text
  pub algorithm : Algorithm
  pub date_format : Text
  pub delimiter : Text
  pub unsigned_payload : Bool
  pub disable_uri_path_escaping : Bool
  pub dry : Bool
  pub scope_headers : List Text
  pub scope_queries : List Text
  pub signature_query_key : Text
  pub signature_header_key : Text

abbrev pub is_empty : Text → Bool
is_empty [] = true
is_empty (c ∷ s) = false

-- `strings.Join`.
abbrev pub join : Text → List Text → Text
join sep [] = []
join sep (p ∷ []) = p
join sep (p ∷ q ∷ ps) = p ++ (sep ++ join sep (q ∷ ps))

-- `FormatSignTime`.
abbrev pub format_sign_time : Platform → ℕ → Text → Text
format_sign_time plat t layout = if is_empty layout then plat.unix_text t else plat.format t layout

-- `ParseSignTime`.
abbrev pub parse_sign_time : Platform → (layout text : Text) → Option ℕ
parse_sign_time plat layout text =
    if is_empty layout then plat.parse_unix text else plat.parse layout text

-- `r.Header.Values`, `r.Header.Set` and `r.Header.Add`.
abbrev pub header_values : Platform → HttpRequest → Text → List Text
header_values plat r name = r.headers (plat.canonical name)

abbrev pub set_header : Platform → HttpRequest → (name val : Text) → HttpRequest
set_header plat r name val = record r {
  headers = λ n. if same_text (plat.canonical name) n then val ∷ [] else r.headers n;
}

abbrev pub add_header : Platform → HttpRequest → (name val : Text) → HttpRequest
add_header plat r name val = record r {
  headers = λ n. if same_text (plat.canonical name) n then r.headers n ++ val ∷ [] else r.headers n;
}

-- The header of a request, to the functions of the extractors.
abbrev pub as_request : Platform → HttpRequest → Request
as_request plat r = record {
  header_values = header_values plat r;
  query_array = λ name. [];
  params = [];
  cookies = [];
  form = λ name. [];
}

-- `valueFromLookupExp`.
abbrev pub scheme_of : List Text → Text
scheme_of [] = []
scheme_of (name ∷ []) = []
scheme_of (name ∷ scheme ∷ more) = scheme ++ b' ' ∷ []

unfoldable pub value_from_lookup_exp : Platform → HttpRequest → Text → Text
value_from_lookup_exp plat r exp =
    let hps = split b'>' exp in
    let scheme = scheme_of hps in
    elim (values_from_header (as_request plat r) (first_value hps) scheme (length scheme)) [
      | err e ↦ []
      | ok su ↦ first_value su
    ]
