-- ===== src/Grpc/Tests.antt =====
-- Calls with tokens, and the theorem about the interceptors there; a panic, and the key of a service.
use woocoo.Base.{ℕ, ◌≡◌, refl, [], ◌∷◌, none, some, codes, same_text, if◌then◌else◌}
use woocoo.Web.{Text}
use woocoo.Grpc.{Metadata}
use woocoo.Grpc.Interceptor.{
  read_token, no_token, handles, denied, token_missing, JwtOptions, unary_interceptor,
  stream_interceptor,
}
use woocoo.Grpc.Authentic.{Decides, interceptor_iff}
use woocoo.Grpc.Recovery.{Platform, panicked_with, on_logger, recovery_interceptor}
use woocoo.Grpc.Service.{build_key}

-- A token is its own principal, and "bad" is none.
abbrev bearer : JwtOptions Text Text
bearer = record {
  exclude = codes "/s/open" ∷ [];
  token_lookup = codes "authorization";
  auth_scheme = codes "Bearer";
  parse_token = λ s. if same_text s (codes "bad") then no_token 1 else read_token s;
  principal = λ token. some token;
}

abbrev metadata : Metadata
metadata name =
    if same_text name (codes "authorization")
    then some (codes "x" ∷ codes "bearer bad" ∷ codes "Bearer a" ∷ [])
    else none

takes_first :
    unary_interceptor Text Text bearer (codes "/s/m") (some metadata) ≡ handles (some (codes "a"))
unfolding unary_interceptor
takes_first = refl

passes_excluded : stream_interceptor Text Text bearer (codes "/s/open") none ≡ handles none
unfolding stream_interceptor
passes_excluded = refl

refuses_none : stream_interceptor Text Text bearer (codes "/s/m") none ≡ denied token_missing
unfolding stream_interceptor
refuses_none = refl

interceptor_iff_example :
    Decides Text Text bearer
      (codes "/s/m")
      (some metadata)
      (codes "a")
      (unary_interceptor Text Text bearer (codes "/s/m") (some metadata))
    × Decides Text Text bearer
        (codes "/s/m")
        (some metadata)
        (codes "a")
        (stream_interceptor Text Text bearer (codes "/s/m") (some metadata))
interceptor_iff_example =
    interceptor_iff Text Text bearer (codes "/s/m") (some metadata) (codes "a")

-- Every value is an error.
abbrev errors_only : Platform ℕ ℕ ℕ
errors_only = record { as_error = λ v. some v; internal = λ v. 13 }

recovers :
    recovery_interceptor ℕ ℕ ℕ errors_only none (panicked_with 7)
    ≡ (none, some 7, some (on_logger 7))
unfolding recovery_interceptor
recovers = refl

keys :
    build_key (record {
      name = codes "s";
      namespace = codes "ns";
      version = codes "v1";
      host = codes "h";
      port = 80;
      protocol = [];
      metadata = none;
    })
    ≡ codes "/ns/s/v1/h:80"
unfolding build_key
keys = refl
