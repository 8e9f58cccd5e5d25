-- ===== src/Signature/Scheme.antt =====
-- What is signed, how, and how the signature is attached: `StringToSign`, `CalculateSignature` and
-- `AttachRequest` of the three signers of pkg/httpx/signature.go.
pub mod Attached
use woocoo.Base.{
  ℕ, ◌+◌, ◌-◌, Bool, true, false, not, ◌&&◌, ◌||◌, List, [], ◌∷◌, ◌++◌, Option, none, some, ltb,
  leb, ◌==◌, if◌then◌else◌, codes, same_text, length,
}
use woocoo.Web.{Text}
use woocoo.Signature.{
  SignError, panic, SignOutcome, gives, fails, ◌>>=◌, Algorithm, unset, sha1, sha256, Platform,
  HttpRequest, Entries, value_of, SigningCtx, SignerConfig, is_empty, join, header_values,
  set_header, add_header,
}
use woocoo.Signature.Config.{cut_right, Signer, default_signer, token_signer, hmac_signer}
use woocoo.Signature.Canonical.{sum}

-- The lines of the canonical headers.
abbrev pub header_lines : Text → Entries → List Text → Text
header_lines delimiter vals [] = []
header_lines delimiter vals (header ∷ headers) =
    header ++ (b':' ∷ (value_of vals header ++ (delimiter ++ header_lines delimiter vals headers)))

abbrev pub is_blank : ℕ → Bool
is_blank c = c == b' '

-- The canonical request of the default signer, which is hashed.
unfoldable pub canonical_request : SignerConfig → HttpRequest → SigningCtx → Text
canonical_request s r ctx = join s.delimiter (
    r.method
    ∷ ctx.canonical_uri
    ∷ ctx.canonical_query_string
    ∷ (header_lines s.delimiter ctx.signed_vals ctx.canonical_headers)
    ∷ ctx.signed_headers
    ∷ ctx.body_digest
    ∷ [])

abbrev pub credential_line : SignerConfig → SigningCtx → Text
credential_line s ctx =
    if is_empty ctx.credential_string then [] else ctx.credential_string ++ s.delimiter

unfoldable pub default_string_to_sign :
    Platform → SignerConfig → HttpRequest → SigningCtx → SignOutcome SigningCtx
unfolding canonical_request
default_string_to_sign plat s r ctx = sum plat s.algorithm (canonical_request s r ctx) >>= λ h.
    gives (record ctx {
      string_to_sign =
          cut_right is_blank s.auth_scheme
          ++ (s.delimiter
              ++ (value_of ctx.signed_vals s.timestamp_key
                  ++ (s.delimiter ++ (credential_line s ctx ++ plat.hex_encode h))));
    })

-- A name and a value with a sign between them.
abbrev pub pair_text : Entries → Text → Text
pair_text vals key = key ++ (b'=' ∷ value_of vals key)

abbrev pub pair_texts : Entries → List Text → List Text
pair_texts vals [] = []
pair_texts vals (key ∷ keys) = pair_text vals key ∷ pair_texts vals keys

-- With no key to sign, the slice of all but the last one is out of range.
unfoldable pub token_string_to_sign : SignerConfig → List Text → SigningCtx → SignOutcome SigningCtx
token_string_to_sign s [] ctx = fails panic
token_string_to_sign s (key ∷ keys) ctx =
    gives
      (record ctx { string_to_sign = join s.delimiter (pair_texts ctx.signed_vals (key ∷ keys)) })

unfoldable pub hmac_string_to_sign : SignerConfig → HttpRequest → SigningCtx → SigningCtx
hmac_string_to_sign s r ctx = record ctx {
  string_to_sign = join s.delimiter (
      r.method
      ∷ ctx.canonical_uri
      ∷ ctx.canonical_query_string
      ∷ (value_of s.credentials (codes "id"))
      ∷ (value_of ctx.signed_vals s.timestamp_key)
      ∷ (header_lines s.delimiter ctx.signed_vals ctx.canonical_headers)
      ∷ []);
}

abbrev pub string_to_sign_of :
    Platform → SignerConfig → Signer → HttpRequest → SigningCtx → SignOutcome SigningCtx
string_to_sign_of plat s default_signer r ctx = default_string_to_sign plat s r ctx
string_to_sign_of plat s (token_signer keys) r ctx = token_string_to_sign s keys ctx
string_to_sign_of plat s (hmac_signer keys) r ctx = gives (hmac_string_to_sign s r ctx)

-- The keyed hash, or the plain one where there is no secret.
abbrev pub keyed : Platform → Algorithm → (secret text : Text) → SignOutcome Text
keyed plat unset secret text = fails panic
keyed plat sha1 secret text =
    gives (if is_empty secret then plat.hash sha1 text else plat.hmac sha1 secret text)
keyed plat sha256 secret text =
    gives (if is_empty secret then plat.hash sha256 text else plat.hmac sha256 secret text)

abbrev pub signature_text : Platform → Signer → Text → Text
signature_text plat default_signer h = plat.hex_encode h
signature_text plat (token_signer keys) h = plat.hex_encode h
signature_text plat (hmac_signer keys) h = plat.base64_encode h

-- `CalculateSignature` of the three signers.
unfoldable pub calculate_signature :
    Platform → SignerConfig → Signer → HttpRequest → SigningCtx → SignOutcome SigningCtx
unfolding default_string_to_sign token_string_to_sign hmac_string_to_sign
calculate_signature plat s signer r ctx = string_to_sign_of plat s signer r ctx >>= λ ctx'.
    keyed plat s.algorithm (value_of s.credentials (codes "secret")) ctx'.string_to_sign >>= λ h.
    gives (record ctx' { signature = signature_text plat signer h })

-- The fields that precede the signature, each with the delimiter behind it.
abbrev pub delimited : Text → List Text → Text
delimited delimiter [] = []
delimited delimiter (field ∷ fields) = field ++ (delimiter ++ delimited delimiter fields)

-- `Add` where the header is there already, `Set` else.
unfoldable pub attach_header : Platform → HttpRequest → (name val : Text) → HttpRequest
attach_header plat r name val = elim (header_values plat r name) [
  | [] ↦ set_header plat r name val
  | v ∷ vs ↦ add_header plat r name val
]

abbrev pub signature_field : Text → Text
signature_field signature = codes "Signature=" ++ signature

abbrev pub default_fields : SignerConfig → SigningCtx → List Text
default_fields s ctx =
    pair_texts ctx.signed_vals s.auth_headers ++ (codes "SignedHeaders=" ++ ctx.signed_headers) ∷ []

-- The value of the header that the default signer and the token signer write.
abbrev pub auth_value : SignerConfig → List Text → SigningCtx → Text
auth_value s fields ctx =
    s.auth_scheme ++ (delimited s.auth_header_delimiter fields ++ signature_field ctx.signature)

unfoldable pub attach_default : Platform → SignerConfig → HttpRequest → SigningCtx → HttpRequest
unfolding attach_header
attach_default plat s r ctx =
    if s.dry
    then r
    else if not (is_empty s.signature_query_key)
    then record r {
      raw_query = r.raw_query ++ (b'&' ∷ (s.signature_query_key ++ (b'=' ∷ ctx.signature)));
    }
    else attach_header plat r s.signature_header_key (auth_value s (default_fields s ctx) ctx)

unfoldable pub attach_token : Platform → SignerConfig → HttpRequest → SigningCtx → HttpRequest
unfolding attach_header
attach_token plat s r ctx =
    attach_header plat r s.signature_header_key
      (auth_value s (pair_texts ctx.signed_vals s.auth_headers) ctx)

-- The names that the signer for HMAC lists: it compares the index of a header, from `i` on, with the
-- number of lookups.
abbrev pub listed : (lookups i : ℕ) → List Text → Text
listed lookups i [] = []
listed lookups i (header ∷ headers) =
    let rest = listed lookups (i + 1) headers in
    if i + 1 == lookups then header ++ rest else header ++ (b';' ∷ rest)

abbrev pub algorithm_name : Algorithm → Text
algorithm_name unset = []
algorithm_name sha1 = codes "sha1"
algorithm_name sha256 = codes "sha256"

abbrev pub set_algorithm : Platform → Algorithm → HttpRequest → HttpRequest
set_algorithm plat unset r = r
set_algorithm plat sha1 r = set_header plat r (codes "X-HMAC-ALGORITHM") (codes "hmac-sha1")
set_algorithm plat sha256 r = set_header plat r (codes "X-HMAC-ALGORITHM") (codes "hmac-sha256")

unfoldable pub attach_hmac : Platform → SignerConfig → HttpRequest → SigningCtx → HttpRequest
unfolding attach_header
attach_hmac plat s r ctx =
    let id = value_of s.credentials (codes "id") in
    let stamp = value_of ctx.signed_vals s.timestamp_key in
    if is_empty s.auth_scheme
    then set_header plat
        (set_header plat
          (set_header plat
            (set_algorithm plat s.algorithm
              (set_header plat r s.signature_header_key ctx.signature))
            (codes "X-HMAC-ACCESS-KEY") id)
          s.timestamp_key stamp)
        (codes "X-HMAC-SIGNED-HEADERS") (join (b';' ∷ []) ctx.canonical_headers)
    else attach_header plat r s.signature_header_key (
        s.auth_scheme
        ++ (s.auth_header_delimiter
            ++ (delimited s.auth_header_delimiter
                  (id ∷ ctx.signature ∷ algorithm_name s.algorithm ∷ stamp ∷ [])
                ++ listed (length s.signed_lookups) 0 s.auth_headers)))

-- `AttachRequest` of the three signers.
unfoldable pub attach_request :
    Platform → SignerConfig → Signer → HttpRequest → SigningCtx → HttpRequest
unfolding attach_default attach_token attach_hmac
attach_request plat s default_signer r ctx = attach_default plat s r ctx
attach_request plat s (token_signer keys) r ctx = attach_token plat s r ctx
attach_request plat s (hmac_signer keys) r ctx = attach_hmac plat s r ctx
