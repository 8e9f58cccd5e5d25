-- ===== src/Web/JwtTests.antt =====
-- Tokens in a header, and the theorem about the JWT middleware there.
use woocoo.Base.{
  ◌≡◌, ◌≢◌, refl, Bool, false, List, [], ◌∷◌, Option, none, some, codes, same_text, if◌then◌else◌,
}
use woocoo.Web.{Text, Request, ok}
use woocoo.Web.Extractor.{from_header, extract}
use woocoo.Web.Jwt.{
  token_unverifiable, custom_error, valid, refused, JwtConfig, passed, unauthorized, jwt_middleware,
}
use woocoo.Web.Jwt.Authentic.{IsExtracted, IsAuthentic, jwt_middleware-IsAuthentic}

abbrev bearer : List Text → Request
bearer auths = record {
  header_values = λ name. auths;
  query_array = λ name. [];
  params = [];
  cookies = [];
  form = λ name. [];
}

-- A token is its own identity, and "bad" is none.
abbrev tokens : Option (Text → Bool) → JwtConfig Text
tokens store = record {
  skipper = λ r. false;
  extractors = extract (from_header (codes "Authorization") (codes "Bearer ")) ∷ [];
  parse_token =
      λ auth. if same_text auth (codes "bad") then refused (custom_error 1) else valid auth;
  token_store = store;
  get_token_id = λ token. some token;
  principal = none;
  error_handler = none;
}

abbrev only_b : Text → Bool
only_b key = same_text key (codes "b")

abbrev request : Request
request = bearer (codes "Bearer bad" ∷ codes "Bearer a" ∷ codes "Bearer b" ∷ [])

takes_stored : jwt_middleware Text (tokens (some only_b)) request ≡ passed (some (codes "b"))
unfolding jwt_middleware extract
takes_stored = refl

refuses_unstored :
    jwt_middleware Text (tokens (some only_b)) (bearer (codes "Bearer a" ∷ []))
    ≡ unauthorized token_unverifiable
unfolding jwt_middleware extract
refuses_unstored = refl

-- Without an extractor there is no error, and every request passes.
passes_unread :
    jwt_middleware Text (record (tokens none) { extractors = [] }) (bearer []) ≡ passed none
unfolding jwt_middleware
passes_unread = refl

has_extractor : (tokens (some only_b)).extractors ≢ []
has_extractor h = cc

has_texts : extract (from_header (codes "Authorization") (codes "Bearer ")) request ≢ ok []
unfolding extract
has_texts h = cc

jwt_middleware-IsAuthentic_example :
    (token : Text) × (auth : Text) × ◌≡◌ {A = Option Text} (some (codes "b")) (some token)
    × IsExtracted Text (tokens (some only_b)) request (tokens (some only_b)).extractors auth
    × IsAuthentic Text (tokens (some only_b)) token auth
jwt_middleware-IsAuthentic_example =
    jwt_middleware-IsAuthentic Text (tokens (some only_b)) request (some (codes "b")) refl refl
      has_extractor (has_texts, tt) takes_stored
