-- ===== src/Signature/Sign.antt =====
-- `Sign` and `Verify` of pkg/httpx/signature.go. The method `AttachData` of the three signers does nothing.
use woocoo.Base.{ℕ, [], if◌then◌else◌, same_text}
use woocoo.Web.{Text, Result, ok, err}
use woocoo.Httpx.{get_signed_request_signature}
use woocoo.Signature.{
  invalid_signature, bad_header, SignOutcome, gives, fails, ◌>>=◌, Platform, HttpRequest,
  SigningCtx, as_request,
}
use woocoo.Signature.Config.{Signature}
use woocoo.Signature.Canonical.{build_canonical_request}
use woocoo.Signature.Scheme.{calculate_signature, attach_request}

abbrev pub new_ctx : (nonce : Text) (sign_time : ℕ) → SigningCtx
new_ctx nonce sign_time = record {
  nonce = nonce;
  body_digest = [];
  signed_headers = [];
  canonical_uri = [];
  canonical_query_string = [];
  sign_time = sign_time;
  signature = [];
  credential_string = [];
  string_to_sign = [];
  canonical_headers = [];
  signed_vals = [];
}

-- What `Sign` and `Verify` share: the request as it is changed, and the signature of it.
unfoldable pub calculate :
    Platform
    → (random : Text) → Signature
    → HttpRequest
    → SigningCtx
    → SignOutcome (HttpRequest × SigningCtx)
unfolding build_canonical_request calculate_signature
calculate plat random s r ctx =
    build_canonical_request plat random s.config s.signer r ctx >>= λ (r', ctx').
    calculate_signature plat s.config s.signer r' ctx' >>= λ ctx''. gives (r', ctx'')

unfoldable pub sign :
    Platform
    → (random : Text) → Signature
    → HttpRequest
    → (nonce : Text) → (sign_time : ℕ) → SignOutcome HttpRequest
unfolding calculate attach_request
sign plat random s r nonce sign_time =
    calculate plat random s r (new_ctx nonce sign_time) >>= λ (r', ctx).
    gives (attach_request plat s.config s.signer r' ctx)

abbrev pub found_text : Result Text → SignOutcome Text
found_text (err e) = fails (bad_header e)
found_text (ok sig) = gives sig

-- `ConstantTimeCompare`.
abbrev pub compared : (expected sig : Text) → HttpRequest → SignOutcome HttpRequest
compared expected sig r = if same_text expected sig then gives r else fails invalid_signature

unfoldable pub verify :
    Platform
    → (random : Text) → Signature
    → HttpRequest
    → (nonce : Text) → (sign_time : ℕ) → SignOutcome HttpRequest
unfolding calculate get_signed_request_signature
verify plat random s r nonce sign_time =
    found_text (
      get_signed_request_signature (as_request plat r) s.config.signature_header_key
        s.config.auth_scheme s.config.auth_header_delimiter)
    >>= λ sig. calculate plat random s r (new_ctx nonce sign_time) >>= λ (r', ctx).
        compared ctx.signature sig r'
