-- ===== src/Signature/Tests.antt =====
-- A request that is signed and verified, and the theorems at it.
use woocoo.Base.{
  ◌/◌, ◌%◌, ◌≡◌, refl, ap, true, false, [], ◌∷◌, ◌++◌, none, some, ◌==◌, codes, arith, to_lower,
  take, inl, inr, Bool-cases, if◌then◌else◌, same_text,
}
use woocoo.Web.{Text}
use woocoo.Httpx.{hex, get_uri_path, escape_path}
use woocoo.Signature.{gives, Platform, content, HttpRequest, SigningCtx, SignerConfig}
use woocoo.Signature.Config.{default_signer, default_kind, build_signer, default_signer_config}
use woocoo.Signature.Canonical.{replace_plus}
use woocoo.Signature.Sign.{new_ctx, calculate, sign, verify}
use woocoo.Signature.Verified.Default.{signature_of, sign-verify}

abbrev pub hex_text : Text → Text
hex_text [] = []
hex_text (c ∷ s) = hex (c / 16) ∷ hex (c % 16) ∷ hex_text s

abbrev pub platform : Platform
platform = record {
  canonical = to_lower;
  encode_query = λ q. q;
  hash = λ algorithm text. take 3 text;
  hmac = λ algorithm key text. key ++ take 2 text;
  hex_encode = hex_text;
  base64_encode = hex_text;
  unix_text = λ t. codes "1700";
  format = λ t layout. layout;
  utc = λ t. t;
  parse_unix = λ text. if same_text text (codes "1700") then some 0 else none;
  parse = λ layout text. none;
}

replace_plus-settled : (q : Text) → replace_plus (replace_plus q) ≡ replace_plus q
replace_plus-settled [] = refl
replace_plus-settled (c ∷ q) = elim (Bool-cases (c == b'+')) [
  | inl plus ↦ rw plus (ap (λ s. b'%' ∷ b'2' ∷ b'0' ∷ s) (replace_plus-settled q))
  | inr other ↦ rw (other, other, replace_plus-settled q)
]

abbrev pub config : SignerConfig
config = record default_signer_config {
  credentials = (codes "id", codes "me") ∷ (codes "secret", codes "key") ∷ [];
  signed_lookups = (codes "timestamp", []) ∷ (codes "host", codes "header") ∷ [];
  auth_scheme = codes "TEST";
  auth_headers = codes "timestamp" ∷ [];
}

abbrev pub built_config : SignerConfig
built_config = record config {
  signed_lookups =
      (codes "timestamp", codes "header:timestamp") ∷ (codes "host", codes "header:host") ∷ [];
  auth_scheme = codes "TEST ";
  scope_headers = codes "host" ∷ codes "timestamp" ∷ [];
  signature_header_key = codes "Authorization";
}

builds :
    build_signer default_kind config
    ≡ gives (record { config = built_config; signer = default_signer })
unfolding build_signer
builds = refl

abbrev request : HttpRequest
request = record {
  method = codes "GET";
  host = codes "h";
  url_host = [];
  opaque = [];
  path = codes "/a b";
  escaped_path = codes "/a b";
  raw_query = codes "x=1+2";
  plain_url = codes "http://h/a%20b?x=1+2";
  body = content (codes "body");
  headers = λ name. [];
  context = λ name. none;
}

abbrev pub stamped_request : HttpRequest
stamped_request = record request {
  raw_query = codes "x=1%202";
  headers = λ name. if same_text (codes "timestamp") name then codes "1700" ∷ [] else [];
}

abbrev pub signed_ctx : SigningCtx
signed_ctx = record (new_ctx [] 0) {
  body_digest = codes "626F64";
  signed_headers = codes "host;timestamp";
  canonical_uri = codes "/a%20b";
  canonical_query_string = codes "x=1%202";
  signature = codes "6B65795445";
  string_to_sign = codes "TEST\n1700\n474554";
  canonical_headers = codes "host" ∷ codes "timestamp" ∷ [];
  signed_vals =
      (codes "timestamp", codes "1700")
      ∷ (codes "host", codes "h")
      ∷ (codes "timestamp", codes "1700")
      ∷ [];
}

calculates :
    calculate platform []
      (signature_of platform built_config false b',' (b' ' ∷ []))
      request
      (new_ctx [] 0)
    ≡ gives (stamped_request, signed_ctx)
unfolding calculate get_uri_path escape_path
calculates = refl

sign-verify_example :
    (signed verified : HttpRequest) × (sign platform []
        (signature_of platform built_config false b',' (b' ' ∷ []))
        request
        []
        0
      ≡ gives signed)
    × (verify platform [] (signature_of platform built_config true b',' (b' ' ∷ [])) signed [] 0
        ≡ gives verified)
sign-verify_example =
    sign-verify platform [] [] built_config true b',' (b' ' ∷ []) request stamped_request [] 0
      signed_ctx replace_plus-settled (refl, (refl, tt)) calculates refl
      (omega arith, refl, (omega arith, refl, tt)) (omega arith) (ground arith)
