-- ===== src/Signature/Config.antt =====
-- `SignerConfig` of pkg/httpx/signature.go: the lookups, and the construction of a `Signature`.
use woocoo.Base.{
  ℕ, Bool, true, false, not, ◌&&◌, ◌||◌, List, [], ◌∷◌, ◌++◌, ltb, leb, ◌==◌, if◌then◌else◌, codes,
  same_text, split, to_lower,
}
use woocoo.Web.{Text}
use woocoo.Web.Extractor.{ends_with_space}
use woocoo.Signature.{
  no_auth_lookup, no_signature_key, unknown_algorithm, panic, SignOutcome, gives, fails, ◌>>=◌,
  Algorithm, unset, sha1, sha256, Entries, SignerConfig, is_empty,
}

-- `strings.TrimSpace`, and `strings.TrimRight` by a test of a character.
abbrev pub is_space : ℕ → Bool
is_space c = c == b' ' || (leb 9 c && leb c 13)

abbrev pub cut_left : (ℕ → Bool) → Text → Text
cut_left cut [] = []
cut_left cut (c ∷ s) = let rest = cut_left cut s in if cut c then rest else c ∷ s

abbrev pub cut_right : (ℕ → Bool) → Text → Text
cut_right cut [] = []
cut_right cut (c ∷ s) =
    let rest = cut_right cut s in if is_empty rest && cut c then [] else c ∷ rest

abbrev pub trim_space : Text → Text
trim_space s = cut_right is_space (cut_left is_space s)

-- `sort.Strings`, in the order of bytes.
abbrev pub before : Text → Text → Bool
before [] t = true
before (c ∷ s) [] = false
before (c ∷ s) (d ∷ t) = ltb c d || (c == d && before s t)

abbrev pub insert : Text → List Text → List Text
insert s [] = s ∷ []
insert s (t ∷ ts) = let rest = insert s ts in if before s t then s ∷ t ∷ ts else t ∷ rest

abbrev pub sort_texts : List Text → List Text
sort_texts [] = []
sort_texts (s ∷ ss) = insert s (sort_texts ss)

-- A case of the switch in `extractSignedLookups`.
abbrev pub is_header : Text → Bool
is_header loc = is_empty loc || same_text loc (codes "header")

abbrev pub is_query : Text → Bool
is_query loc = same_text loc (codes "query")

abbrev pub with_location : (key loc : Text) → Text
with_location key loc =
    if is_header loc
    then codes "header:" ++ key
    else if is_query loc
    then codes "query:" ++ key
    else if same_text loc (codes "context")
    then codes "context:" ++ key
    else loc

abbrev pub with_locations : Entries → Entries
with_locations [] = []
with_locations ((key, loc) ∷ lookups) = (key, with_location key loc) ∷ with_locations lookups

-- The keys that the loop appends to a scope.
abbrev pub keys_at : (Text → Bool) → Entries → List Text
keys_at at [] = []
keys_at at ((key, loc) ∷ lookups) =
    let rest = keys_at at lookups in if at loc then key ∷ rest else rest

unfoldable pub extract_signed_lookups : SignerConfig → SignerConfig
extract_signed_lookups s = record s {
  signed_lookups = with_locations s.signed_lookups;
  scope_headers = sort_texts (s.scope_headers ++ keys_at is_header s.signed_lookups);
  scope_queries = sort_texts (s.scope_queries ++ keys_at is_query s.signed_lookups);
}

-- A round of `extractAuthLookup`; a source of one part makes it panic.
abbrev pub take_key : SignerConfig → List Text → SignOutcome SignerConfig
take_key s [] = gives s
take_key s (loc ∷ []) =
    let name = to_lower (trim_space loc) in
    if same_text name (codes "header") || same_text name (codes "query")
    then fails panic
    else gives s
take_key s (loc ∷ key ∷ more) =
    let name = to_lower (trim_space loc) in
    if same_text name (codes "header")
    then gives (record s { signature_header_key = trim_space key })
    else if same_text name (codes "query")
    then gives (record s { signature_query_key = trim_space key })
    else gives s

abbrev pub take_keys : SignerConfig → List Text → SignOutcome SignerConfig
take_keys s [] = gives s
take_keys s (source ∷ sources) = take_key s (split b':' source) >>= λ s'. take_keys s' sources

abbrev pub spaced : Text → Text
spaced scheme =
    if not (is_empty scheme) && not (ends_with_space scheme) then scheme ++ b' ' ∷ [] else scheme

unfoldable pub extract_auth_lookup : SignerConfig → SignOutcome SignerConfig
extract_auth_lookup s = take_keys s (split b',' s.auth_lookup) >>= λ s'.
    gives (record s' { auth_scheme = spaced s'.auth_scheme })

unfoldable pub init_data : SignerConfig → SignOutcome SignerConfig
unfolding extract_signed_lookups extract_auth_lookup
init_data s = extract_auth_lookup (extract_signed_lookups s)

unfoldable pub validate : SignerConfig → SignOutcome SignerConfig
validate s =
    if is_empty s.signature_query_key && is_empty s.signature_header_key
    then fails no_signature_key
    else gives s

-- `algorithmFromString`.
abbrev pub algorithm_from_string : Text → SignOutcome Algorithm
algorithm_from_string name =
    let lower = to_lower name in
    if same_text lower (codes "sha1")
    then gives sha1
    else if same_text lower (codes "sha256")
    then gives sha256
    else fails unknown_algorithm

-- `DefaultSignerConfig`, with the credentials of `NewSignerConfig`.
abbrev pub default_signer_config : SignerConfig
default_signer_config = record {
  credentials = (codes "id", []) ∷ (codes "secret", []) ∷ [];
  signed_lookups = [];
  auth_lookup = codes "header:Authorization";
  auth_scheme = [];
  auth_headers = [];
  auth_header_delimiter = codes ", ";
  timestamp_key = codes "timestamp";
  nonce_key = codes "nonce";
  algorithm = sha1;
  date_format = [];
  delimiter = b'\n' ∷ [];
  unsigned_payload = false;
  disable_uri_path_escaping = false;
  dry = false;
  scope_headers = [];
  scope_queries = [];
  signature_query_key = [];
  signature_header_key = [];
}

-- The implementations of `Signer`. The sorted keys are those of `lookUpSorted`.
pub data Signer : Type 0 where
  default_signer : Signer
  token_signer hmac_signer : (look_up_sorted : List Text) → Signer

pub data SignerKind : Type 0 where
  default_kind token_kind hmac_kind : SignerKind

abbrev pub keys_of : Entries → List Text
keys_of [] = []
keys_of ((key, loc) ∷ entries) = key ∷ keys_of entries

abbrev pub or_else : (text default : Text) → Text
or_else text default = if is_empty text then default else text

abbrev pub or_sha256 : Algorithm → Algorithm
or_sha256 unset = sha256
or_sha256 sha1 = sha1
or_sha256 sha256 = sha256

-- `NewDefaultSigner`, `NewTokenSigner` and `NewHMACSigner`, with the configuration, which the last one
-- changes.
unfoldable pub new_signer : SignerKind → SignerConfig → SignOutcome (Signer × SignerConfig)
new_signer default_kind s =
    if is_empty s.auth_lookup then fails no_auth_lookup else gives (default_signer, s)
new_signer token_kind s = gives (token_signer (sort_texts (keys_of s.signed_lookups)), s)
new_signer hmac_kind s = gives (
  hmac_signer (sort_texts (keys_of s.signed_lookups)),
  record s {
    timestamp_key = or_else s.timestamp_key (codes "date");
    date_format = or_else s.date_format (codes "Mon, 02 Jan 2006 15:04:05 GMT");
    algorithm = or_sha256 s.algorithm;
  },
)

pub record Signature : Type 0 where
  pub config : SignerConfig
  pub signer : Signer

-- `BuildSigner` with the option `WithSigner`.
unfoldable pub build_signer : SignerKind → SignerConfig → SignOutcome Signature
unfolding new_signer init_data validate
build_signer kind s = new_signer kind s >>= λ (signer, s'). init_data s' >>= λ s''.
    validate s'' >>= λ config. gives (record { config = config; signer = signer })

-- `NewSignerConfig` behind its options, and `NewSignature` without an option for the signer.
unfoldable pub new_signer_config : SignerConfig → SignOutcome SignerConfig
unfolding init_data validate
new_signer_config s = init_data s >>= λ s'. validate s'

unfoldable pub new_signature : SignerConfig → SignOutcome Signature
unfolding new_signer new_signer_config
new_signature s = new_signer_config s >>= λ s'. new_signer default_kind s' >>= λ (signer, config).
    gives (record { config = config; signer = signer })
