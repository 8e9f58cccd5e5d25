-- ===== src/Web/Tests.antt =====
-- A request with an api key in a header, and the theorems at it.
use woocoo.Base.{
  ◌≡◌, ◌≤◌, ◌↔◌, ◌⊎◌, refl, Bool, true, false, [], ◌∷◌, Option, none, codes, same_text,
  if◌then◌else◌,
}
use woocoo.Web.{Text, Request, WebError, ok, err, bad_lookup}
use woocoo.Web.Extractor.{from_header, values_from_query, extract, create_extractors}
use woocoo.Web.Extractor.Limit.{extract-length}
use woocoo.Web.KeyAuth.{KeyAuthConfig, passed, key_auth}
use woocoo.Web.KeyAuth.Decision.{HasValid, HasNoError, key_auth_iff}
use woocoo.Web.Skip.{path_skipper, path_skipper-slash}

program : Unit {0}
unfolding extract create_extractors key_auth path_skipper
program = tt

abbrev api_key : Text
api_key = codes "X-Api-Key"

abbrev request : Request
request = record {
  header_values =
      λ name. if same_text name api_key then codes "wrong" ∷ codes "secret" ∷ [] else [];
  query_array = λ name. [];
  params = [];
  cookies = [];
  form = λ name. [];
}

-- It accepts one key, and refuses the others without an error.
abbrev validator : Text → Bool × Option WebError
validator key = (same_text key (codes "secret"), none)

abbrev config : KeyAuthConfig
config = record {
  skipper = λ r. false;
  extractors = extract (from_header api_key []) ∷ [];
  validator = validator;
  error_handler = none;
}

lookup :
    create_extractors (λ s. s) (codes "header:X-Api-Key,query:key") []
    ≡ ok (from_header api_key [] ∷ values_from_query (codes "key") ∷ [])
unfolding program
lookup = refl

lookup_refused : create_extractors (λ s. s) (codes "header") [] ≡ err bad_lookup
unfolding program
lookup_refused = refl

passes : key_auth config request ≡ passed
unfolding program
passes = refl

-- A validator that accepts nothing.
passes_without_key : key_auth (record config { validator = λ key. (false, none) }) request ≡ passed
unfolding program
passes_without_key = refl

extract-length_example : (1 ≤ 2) × (2 ≤ 20)
unfolding program
extract-length_example =
    extract-length (from_header api_key []) request (codes "wrong" ∷ codes "secret" ∷ []) refl

key_auth_iff_example : (key_auth config request ≡ passed) ↔ (
    HasValid validator request (extract (from_header api_key []) ∷ [])
    ⊎ HasNoError validator request (extract (from_header api_key []) ∷ []))
key_auth_iff_example = key_auth_iff config request refl refl

abbrev health : Text
health = codes "/health"

skips : path_skipper (health ∷ []) (codes "/health//") ≡ true
unfolding program
skips = refl

-- An excluded path that itself ends in a slash is never met.
excluded_slash : path_skipper (codes "/health/" ∷ []) (codes "/health/") ≡ false
unfolding program
excluded_slash = refl

skips_with_slash : path_skipper (health ∷ []) (codes "/health/") ≡ path_skipper (health ∷ []) health
skips_with_slash = path_skipper-slash (health ∷ []) health
