-- ===== src/Grpc/Service.antt =====
-- rpc/grpcx/registry/registry.go: the drivers, the options of a target, and the address and the key of
-- a service. A service is the record of the registry of polaris.
use woocoo.Base.{
  ℕ, List, [], ◌∷◌, ◌++◌, Option, none, some, codes, Dict, entry, with_entry, if◌then◌else◌,
}
use woocoo.Httpx.{has_prefix, join_slash}
use woocoo.Log.Encoder.{decimal}
use woocoo.Web.{Text}
use woocoo.Polaris.Registry.{ServiceInfo}
use woocoo.Polaris.Target.{RegistryOptions, Target}

-- `driverManager`, whose drivers are numbers.
abbrev pub register_driver : Dict ℕ → (scheme : Text) → ℕ → Dict ℕ
register_driver drivers scheme drv = with_entry drivers scheme drv

abbrev pub get_driver : Dict ℕ → (scheme : Text) → Option ℕ
get_driver drivers scheme = entry drivers scheme

abbrev pub service_address : ServiceInfo → Text
service_address si = si.host ++ b':' ∷ decimal si.port

abbrev rooted_namespace : Text → Text
rooted_namespace namespace =
    if has_prefix (b'/' ∷ []) namespace then namespace else b'/' ∷ namespace

unfoldable pub node_path : (namespace name version addr : Text) → Text
node_path namespace name version addr =
    join_slash (rooted_namespace namespace ∷ name ∷ version ∷ addr ∷ [])

unfoldable pub build_key : ServiceInfo → Text
unfolding node_path
build_key si = node_path si.namespace si.name si.version (service_address si)

pub data OptionsError : Type 0 where
  undecodable unreadable_json : OptionsError

pub data RegistryParsed : Type 0 where
  read_options : RegistryOptions → RegistryParsed
  unread_options : OptionsError → RegistryParsed

abbrev no_registry_options : RegistryOptions
no_registry_options = record { namespace = []; service_name = []; version = []; metadata = [] }

abbrev opaque_or_path : Text → Text → Text
opaque_or_path [] path = path
opaque_or_path (c ∷ opaque) path = c ∷ opaque

module _ (base64_decode : Text → Option Text) (unmarshal : Text → Option RegistryOptions) where
  -- The value of the key "options"; an empty one leaves the options empty.
  abbrev decoded : Option (Text × List Text) → RegistryParsed
  decoded none = read_options no_registry_options
  decoded (some ([], more)) = read_options no_registry_options
  decoded (some (c ∷ s, more)) = elim (base64_decode (c ∷ s)) [
    | none ↦ unread_options undecodable
    | some json ↦ elim (unmarshal json) [
      | none ↦ unread_options unreadable_json
      | some options ↦ read_options options
    ]
  ]

  -- `TargetToOptions`.
  unfoldable pub registry_options : Target → RegistryParsed
  registry_options target = elim target.raw_query [
    | [] ↦ read_options (record no_registry_options {
      namespace = target.host;
      service_name = opaque_or_path target.opaque target.path;
    })
    | c ∷ s ↦ decoded (entry target.query (codes "options"))
  ]
