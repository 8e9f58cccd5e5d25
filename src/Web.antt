-- ===== src/Web.antt =====
-- The keys of a web request: pkg/httpx/util.go, web/handler/extractor.go, web/handler/keyauth.go,
-- web/handler/jwt.go, web/handler/errorhandle.go and the excluded paths of web/handler/middleware.go; and
-- the compressed responses of web/handler/gzip.
--
-- A request is what net/http and gin read of it: the values of a header, given by its canonical name,
-- the values of a query, the parameters of the path, the cookies, and the values of the form.
pub mod Extractor
pub mod KeyAuth
pub mod Skip
pub mod ErrorHandle
pub mod Jwt
pub mod Gzip
mod Tests
mod ErrorTests
mod JwtTests
mod GzipTests
use woocoo.Base.{ℕ, List}

abbrev pub Text : Type 0
Text = List ℕ

pub record Request : Type 0 where
  pub header_values : Text → List Text
  pub query_array : Text → List Text
  pub params : List (Text × Text)
  pub cookies : List (Text × Text)
  pub form : Text → List Text

pub data WebError : Type 0 where
  header_missing header_invalid query_missing param_missing cookie_missing form_missing : WebError
  bad_lookup no_extractors : WebError
  user_error : ℕ → WebError

pub data Result {ℓ} (A : Type ℓ) : Type ℓ where
  ok : A → Result A
  err : WebError → Result A
