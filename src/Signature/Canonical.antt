-- ===== src/Signature/Canonical.antt =====
-- What the signers of pkg/httpx/signature.go collect of a request: `BuildCanonicalRequest` and its parts.
use woocoo.Base.{
  false, not, ◌&&◌, List, [], ◌∷◌, ◌++◌, Option, none, some, ◌==◌, if◌then◌else◌, codes, same_text,
  drop,
}
use woocoo.Web.{Text}
use woocoo.Web.Extractor.{equal_fold}
use woocoo.Httpx.{escape_path, get_uri_path, has_prefix}
use woocoo.Signature.{
  unknown_algorithm, unreadable_body, panic, SignOutcome, gives, fails, ◌>>=◌, Algorithm, unset,
  sha1, sha256, Platform, Body, nil, unreadable, content, HttpRequest, Entries, put, SigningCtx,
  SignerConfig, is_empty, join, format_sign_time, header_values, set_header, value_from_lookup_exp,
}
use woocoo.Signature.Config.{
  trim_space, sort_texts, Signer, default_signer, token_signer, hmac_signer,
}

abbrev pub empty_string_sha256 : Text
empty_string_sha256 = codes "e3b0c44298fc1c149afbf4c8996fb92427ae41e4649b934ca495991b7852b855"

abbrev pub empty_string_sha1 : Text
empty_string_sha1 = codes "d41d8cd98f00b204e9800998ecf8427e"

-- `s.Algorithm.hash()`: the hash of the zero value is nil.
abbrev pub sum : Platform → Algorithm → Text → SignOutcome Text
sum plat unset text = fails panic
sum plat sha1 text = gives (plat.hash sha1 text)
sum plat sha256 text = gives (plat.hash sha256 text)

abbrev pub empty_digest : Algorithm → SignOutcome Text
empty_digest unset = fails unknown_algorithm
empty_digest sha1 = gives empty_string_sha1
empty_digest sha256 = gives empty_string_sha256

unfoldable pub build_body_digest : Platform → Algorithm → Body → SignOutcome Text
build_body_digest plat algorithm nil = empty_digest algorithm
build_body_digest plat algorithm unreadable = fails unreadable_body
build_body_digest plat algorithm (content bytes) =
    sum plat algorithm bytes >>= λ h. gives (plat.hex_encode h)

abbrev pub trim_all : List Text → List Text
trim_all [] = []
trim_all (v ∷ vs) = trim_space v ∷ trim_all vs

-- The value of a scope header, unless the loop continues without one.
abbrev pub joined_values : List Text → Option Text
joined_values [] = none
joined_values (v ∷ vs) = some (join (b',' ∷ []) (trim_all (v ∷ vs)))

unfoldable pub scope_value : Platform → HttpRequest → Text → Option Text
scope_value plat r header =
    if equal_fold header (codes "host")
    then some (if is_empty r.host then r.url_host else r.host)
    else joined_values (header_values plat r header)

abbrev pub add_scope : SigningCtx → Text → Option Text → SigningCtx
add_scope ctx header none = ctx
add_scope ctx header (some value) = record ctx {
  canonical_headers = ctx.canonical_headers ++ header ∷ [];
  signed_vals = put ctx.signed_vals header value;
}

-- The loop of `BuildCanonicalHeaders`.
unfoldable pub scan_scope : Platform → HttpRequest → List Text → SigningCtx → SigningCtx
unfolding scope_value
scan_scope plat r [] ctx = ctx
scan_scope plat r (header ∷ headers) ctx =
    scan_scope plat r headers (add_scope ctx header (scope_value plat r header))

abbrev pub build_canonical_headers : Platform → SignerConfig → HttpRequest → SigningCtx → SigningCtx
build_canonical_headers plat s r ctx =
    scan_scope plat r s.scope_headers (record ctx { canonical_headers = [] })

unfoldable pub build_canonical_uri : SignerConfig → HttpRequest → SignOutcome Text
build_canonical_uri s r = elim (get_uri_path r.opaque r.escaped_path) [
  | none ↦ fails panic
  | some uri ↦ gives (if s.disable_uri_path_escaping then uri else escape_path uri false)
]

-- `strings.ReplaceAll` of "+" by "%20".
abbrev pub replace_plus : Text → Text
replace_plus [] = []
replace_plus (c ∷ s) = if c == b'+' then b'%' ∷ b'2' ∷ b'0' ∷ replace_plus s else c ∷ replace_plus s

abbrev pub canonical_query : Platform → Text → Text
canonical_query plat raw_query = replace_plus (plat.encode_query raw_query)

-- The header of the timestamp, which the lookups can find.
abbrev pub stamped : Platform → SignerConfig → (stamp : Text) → HttpRequest → HttpRequest
stamped plat s stamp r =
    if not s.dry && not (is_empty s.timestamp_key)
    then set_header plat r s.timestamp_key stamp
    else r

abbrev pub digest_if_signed : Platform → SignerConfig → HttpRequest → SigningCtx → SignOutcome Text
digest_if_signed plat s r ctx =
    if not s.unsigned_payload
    then build_body_digest plat s.algorithm r.body
    else gives ctx.body_digest

-- `BuildCanonicalRequest` of the default signer, with the request that it changes.
unfoldable pub build_default :
    Platform → SignerConfig → HttpRequest → SigningCtx → SignOutcome (HttpRequest × SigningCtx)
unfolding build_body_digest scan_scope build_canonical_uri
build_default plat s r ctx =
    let stamp = format_sign_time plat ctx.sign_time s.date_format in
    let r1 = stamped plat s stamp r in
    digest_if_signed plat s r1 ctx >>= λ digest.
    let ctx1 = build_canonical_headers plat s r1 (record ctx {
      signed_vals = put ctx.signed_vals s.timestamp_key stamp;
      body_digest = digest;
    }) in
    build_canonical_uri s r1 >>= λ uri.
    let query = canonical_query plat r1.raw_query in
    gives (
      record r1 { raw_query = query },
      record ctx1 {
        canonical_uri = uri;
        canonical_query_string = query;
        signed_headers = join (b';' ∷ []) ctx1.canonical_headers;
      },
    )

-- Where a lookup of the token signer finds its value.
abbrev pub put_unless_empty : SigningCtx → (key val : Text) → SigningCtx
put_unless_empty ctx key [] = ctx
put_unless_empty ctx key (c ∷ val) = record ctx { signed_vals = put ctx.signed_vals key (c ∷ val) }

abbrev pub put_if_some : SigningCtx → (key : Text) → Option Text → SigningCtx
put_if_some ctx key none = ctx
put_if_some ctx key (some val) = record ctx { signed_vals = put ctx.signed_vals key val }

unfoldable pub put_lookup : Platform → HttpRequest → (key loc : Text) → SigningCtx → SigningCtx
put_lookup plat r key loc ctx =
    if same_text loc (codes "CanonicalUri")
    then record ctx { signed_vals = put ctx.signed_vals key r.plain_url }
    else if has_prefix (codes "header:") loc
    then put_unless_empty ctx key (value_from_lookup_exp plat r (drop 7 loc))
    else if has_prefix (codes "context:") loc
    then put_if_some ctx key (r.context (drop 8 loc))
    else ctx

-- `random` is what `gds.RandomString` gives.
abbrev pub put_nonce : (random key : Text) → SigningCtx → SigningCtx
put_nonce random key ctx =
    let nonce = if is_empty ctx.nonce then random else ctx.nonce in
    record ctx { nonce = nonce; signed_vals = put ctx.signed_vals key nonce }

unfoldable pub take_lookup :
    Platform
    → (random : Text) → SignerConfig
    → HttpRequest
    → (key loc : Text) → SigningCtx
    → SigningCtx
unfolding put_lookup
take_lookup plat random s r key loc ctx =
    if same_text key s.timestamp_key
    then record ctx {
      signed_vals = put ctx.signed_vals key (format_sign_time plat ctx.sign_time s.date_format);
    }
    else if same_text key s.nonce_key
    then put_nonce random key ctx
    else put_lookup plat r key loc ctx

unfoldable pub scan_lookups :
    Platform → (random : Text) → SignerConfig → HttpRequest → Entries → SigningCtx → SigningCtx
unfolding take_lookup
scan_lookups plat random s r [] ctx = ctx
scan_lookups plat random s r ((key, loc) ∷ lookups) ctx =
    scan_lookups plat random s r lookups (take_lookup plat random s r key loc ctx)

-- The loop of the signer for HMAC.
unfoldable pub scan_hmac : Platform → HttpRequest → List Text → SigningCtx → SigningCtx
scan_hmac plat r [] ctx = ctx
scan_hmac plat r (header ∷ headers) ctx =
    let named = record ctx { canonical_headers = ctx.canonical_headers ++ header ∷ [] } in
    scan_hmac plat r headers (put_unless_empty named header (value_from_lookup_exp plat r header))

abbrev pub build_hmac : Platform → SignerConfig → HttpRequest → SigningCtx → SigningCtx
build_hmac plat s r ctx =
    let stamp = format_sign_time plat (plat.utc ctx.sign_time) s.date_format in
    let ctx1 =
      scan_hmac plat r s.scope_headers
        (record ctx { signed_vals = put ctx.signed_vals s.timestamp_key stamp }) in
    record ctx1 {
      canonical_headers = sort_texts ctx1.canonical_headers;
      canonical_uri = r.path;
      canonical_query_string = plat.encode_query r.raw_query;
    }

-- `BuildCanonicalRequest` of the three signers.
unfoldable pub build_canonical_request :
    Platform
    → (random : Text) → SignerConfig
    → Signer
    → HttpRequest
    → SigningCtx
    → SignOutcome (HttpRequest × SigningCtx)
unfolding build_default scan_lookups scan_hmac
build_canonical_request plat random s default_signer r ctx = build_default plat s r ctx
build_canonical_request plat random s (token_signer keys) r ctx =
    gives (r, scan_lookups plat random s r s.signed_lookups ctx)
build_canonical_request plat random s (hmac_signer keys) r ctx = gives (r, build_hmac plat s r ctx)
