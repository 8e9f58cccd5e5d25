-- ===== src/Polaris/Target.antt =====
-- The options of a client from the target of gRPC or from the registry's options: `targetToOptions`,
-- `convertDialOptions` and `filterMetadata` of contrib/polarismesh/registry.go.
use woocoo.Base.{
  Bool, true, false, ◌||◌, List, [], ◌∷◌, Option, none, some, to_lower, codes, same_text, drop,
  length, Dict, entry, with_entry, if◌then◌else◌,
}
use woocoo.Httpx.{has_prefix}
use woocoo.Web.{Text}
use woocoo.Polaris.{DialOptions, no_options}

pub data TargetError : Type 0 where
  bad_route bad_circuit_breaker : Text → TargetError
  bad_encoding bad_json : TargetError
  bad_options : TargetError → TargetError

pub data Parsed : Type 0 where
  found_options : DialOptions → Parsed
  unparsed : TargetError → Parsed

-- `registry.DialOptions` of rpc/grpcx/registry/registry.go.
pub record RegistryOptions : Type 0 where
  pub namespace : Text
  pub service_name : Text
  pub version : Text
  pub metadata : Dict Text

-- The URL of a `resolver.Target`. A key of a query has a first value and further ones.
pub record Target : Type 0 where
  pub host : Text
  pub opaque : Text
  pub path : Text
  pub raw_query : Text
  pub query : Dict (Text × List Text)

abbrev any_of : List Text → Text → Bool
any_of [] s = false
any_of (x ∷ xs) s = same_text x s || any_of xs s

-- `strconv.ParseBool`.
abbrev pub parse_bool : Text → Option Bool
parse_bool s =
    if any_of (codes "1" ∷ codes "t" ∷ codes "T" ∷ codes "TRUE" ∷ codes "true" ∷ codes "True" ∷ [])
      s
    then some true
    else if any_of
        (codes "0" ∷ codes "f" ∷ codes "F" ∷ codes "FALSE" ∷ codes "false" ∷ codes "False" ∷ []) s
    then some false
    else none

abbrev trim_slash : Text → Text
trim_slash [] = []
trim_slash (c ∷ s) = if has_prefix (b'/' ∷ []) (c ∷ s) then s else c ∷ s

abbrev first_of : Text → Text → Text
first_of [] path = path
first_of (c ∷ opaque) path = c ∷ opaque

-- The walk of `filterMetadata` over the metadata.
pub filter_from : Text → Dict Text → Dict Text → Dict Text
filter_from prefix [] out = out
filter_from prefix ((k, v) ∷ metadata) out =
    let kept = filter_from prefix metadata (with_entry out (drop (length prefix) k) v) in
    let left = filter_from prefix metadata out in if has_prefix prefix k then kept else left

unfoldable pub filter_metadata : Dict Text → Text → Dict Text
unfolding filter_from
filter_metadata metadata prefix = filter_from prefix metadata []

abbrev set_route : Option Text → DialOptions → Parsed
set_route none tar = found_options tar
set_route (some v) tar = elim (parse_bool v) [
  | none ↦ unparsed (bad_route v)
  | some b ↦ found_options (record tar { route = b })
]

abbrev set_circuit_breaker : Option Text → DialOptions → Parsed
set_circuit_breaker none tar = found_options tar
set_circuit_breaker (some v) tar = elim (parse_bool v) [
  | none ↦ unparsed (bad_circuit_breaker v)
  | some b ↦ found_options (record tar { circuit_breaker = b })
]

abbrev set_src_service : Option Text → DialOptions → Parsed
set_src_service none tar = found_options tar
set_src_service (some v) tar = found_options (record tar { src_service = v })

infixl 5 ◌>>=◌
abbrev ◌>>=◌ : Parsed → (DialOptions → Parsed) → Parsed
p >>= next = elim p [ unparsed e ↦ unparsed e | found_options options ↦ next options ]

unfoldable pub convert_dial_options : RegistryOptions → DialOptions → Parsed
unfolding filter_metadata
convert_dial_options src tar =
    set_route (entry src.metadata (codes "route")) named
    >>= set_circuit_breaker (entry src.metadata (codes "circuitBreaker"))
    >>= set_src_service (entry src.metadata (codes "srcService"))
  where
    named : DialOptions
    named = record tar {
      namespace = src.namespace;
      service = src.service_name;
      headers = filter_metadata src.metadata (codes "header_");
      src_metadata = filter_metadata src.metadata (codes "src_");
    }

-- One key of the query, which the `switch` reads in lower case.
unfoldable pub set_option : Text → Text → DialOptions → Parsed
set_option k v options =
    if same_text (to_lower k) (codes "namespace")
    then found_options (record options { namespace = v })
    else if same_text (to_lower k) (codes "service")
    then found_options (record options { service = v })
    else if same_text (to_lower k) (codes "srcservice")
    then found_options (record options { src_service = v })
    else if same_text (to_lower k) (codes "route")
    then set_route (some v) options
    else if has_prefix (codes "src_") k
    then found_options
        (record options { src_metadata = with_entry options.src_metadata (drop 4 k) v })
    else found_options options

unfoldable pub read_query : Dict (Text × List Text) → DialOptions → Parsed
unfolding set_option
read_query [] options = found_options options
read_query ((k, (v, more)) ∷ query) options = set_option k v options >>= read_query query

-- Without a path the service is not read here, but from the query.
abbrev pub from_path : Target → DialOptions
from_path target = elim target.path [
  | [] ↦ no_options
  | c ∷ path ↦ record no_options {
    namespace = target.host;
    service = trim_slash (first_of target.opaque (c ∷ path));
  }
]

abbrev behind : (TargetError → TargetError) → Parsed → Parsed
behind wrap (found_options options) = found_options options
behind wrap (unparsed e) = unparsed (wrap e)

module _ (base64_decode : Text → Option Text) (unmarshal : Text → Option RegistryOptions) where
  -- The options of the key "options", base64 of a JSON text; an empty one is passed over.
  unfoldable pub decode_options : Text → DialOptions → Parsed
  unfolding convert_dial_options
  decode_options [] options = found_options options
  decode_options (c ∷ s) options = elim (base64_decode (c ∷ s)) [
    | none ↦ unparsed bad_encoding
    | some json ↦ elim (unmarshal json) [
      | none ↦ unparsed bad_json
      | some src ↦ behind bad_options (convert_dial_options src options)
    ]
  ]

  abbrev pub from_query : Dict (Text × List Text) → DialOptions → Parsed
  from_query query options = elim (entry query (codes "options")) [
    | some (v, more) ↦ decode_options v options
    | none ↦ read_query query options
  ]

  unfoldable pub target_to_options : Target → Parsed
  unfolding decode_options read_query
  target_to_options target = elim target.raw_query [
    | [] ↦ found_options (from_path target)
    | c ∷ s ↦ elim target.query [
      | [] ↦ found_options (from_path target)
      | kv ∷ query ↦ from_query (kv ∷ query) (from_path target)
    ]
  ]
