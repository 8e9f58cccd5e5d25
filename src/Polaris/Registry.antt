-- ===== src/Polaris/Registry.antt =====
-- The registry of contrib/polarismesh/registry.go, the global context of context.go and the caller's
-- metadata of client.go.
use woocoo.Base.{
  ℕ, ◌/◌, Bool, true, List, [], ◌∷◌, ◌++◌, Option, none, some, codes, split, ltb, Dict, entry,
  with_entry, without_entry, if◌then◌else◌,
}
use woocoo.Httpx.{join_slash}
use woocoo.Web.{Text}
use woocoo.Polaris.{Reply, reply, failure, Instance, InstancesResponse, or_no_text}
use woocoo.Polaris.Resolver.{InstancesRequest, is_skipped}

-- `registry.ServiceInfo` of rpc/grpcx/registry/registry.go; its map may be nil.
pub record ServiceInfo : Type 0 where
  pub name : Text
  pub namespace : Text
  pub version : Text
  pub host : Text
  pub port : ℕ
  pub protocol : Text
  pub metadata : Option (Dict Text)

pub record RegisterRequest : Type 0 where
  pub namespace : Text
  pub service : Text
  pub version : Text
  pub host : Text
  pub port : ℕ
  pub ttl : Option ℕ
  pub protocol : Option Text
  pub service_token : Text
  pub metadata : Option (Dict Text)

pub record DeregisterRequest : Type 0 where
  pub namespace : Text
  pub service : Text
  pub host : Text
  pub port : ℕ
  pub service_token : Text

-- The name of the token in the metadata, `registerServiceTokenKey`.
abbrev pub token_key : Text
token_key = codes "token"

abbrev pub token_of : Option (Dict Text) → Text
token_of none = []
token_of (some metadata) = or_no_text (entry metadata token_key)

abbrev pub without_token : Option (Dict Text) → Option (Dict Text)
without_token none = none
without_token (some metadata) = some (without_entry metadata token_key)

abbrev optional_text : Text → Option Text
optional_text [] = none
optional_text (c ∷ s) = some (c ∷ s)

-- The request of `Register`, with the TTL of the options in nanoseconds.
unfoldable pub register_request : (ttl : ℕ) → ServiceInfo → RegisterRequest
register_request ttl info = record {
  namespace = info.namespace;
  service = info.name;
  version = info.version;
  host = info.host;
  port = info.port;
  ttl = if ltb 0 ttl then some (ttl / 1000000000) else none;
  protocol = optional_text info.protocol;
  service_token = token_of info.metadata;
  metadata = without_token info.metadata;
}

abbrev pub reply_error {ℓ} : {A : Type ℓ} → Reply A → Option ℕ
reply_error (reply a) = none
reply_error (failure e) = some e

-- `Register`: the requests kept, and the error if any. The request is kept before it is sent.
unfoldable pub register :
    (RegisterRequest → Reply ℕ)
    → (ttl : ℕ) → List RegisterRequest
    → ServiceInfo
    → List RegisterRequest × Option ℕ
unfolding register_request
register send ttl kept info =
    (kept ++ register_request ttl info ∷ [], reply_error (send (register_request ttl info)))

unfoldable pub deregister_request : ServiceInfo → DeregisterRequest
deregister_request info = record {
  namespace = info.namespace;
  service = info.name;
  host = info.host;
  port = info.port;
  service_token = token_of info.metadata;
}

unfoldable pub unregister : (DeregisterRequest → Option ℕ) → ServiceInfo → Option ℕ
unfolding deregister_request
unregister send info = send (deregister_request info)

-- The last part of a name and those before it.
abbrev pub last_part : Text → List Text → List Text × Text
last_part p [] = ([], p)
last_part p (q ∷ ps) = let (before, last) = last_part q ps in (p ∷ before, last)

abbrev namespaced : Text → List Text × Text → Text × Text
namespaced whole ([], last) = (codes "default", whole)
namespaced whole (p ∷ before, last) = (join_slash (p ∷ before), last)

-- The namespace and the service that `GetServiceInfos` reads of a name.
unfoldable pub split_service_name : Text → Text × Text
split_service_name name = elim (split b'/' name) [
  | [] ↦ (codes "default", name)
  | p ∷ parts ↦ namespaced name (last_part p parts)
]

abbrev pub info_of : Instance → ServiceInfo
info_of i = record {
  name = i.service;
  namespace = i.namespace;
  version = i.version;
  host = i.host;
  port = i.port;
  protocol = i.protocol;
  metadata = some i.metadata;
}

unfoldable pub service_infos : List Instance → List ServiceInfo
service_infos [] = []
service_infos (i ∷ is) =
    let rest = service_infos is in if is_skipped i then rest else info_of i ∷ rest

unfoldable pub get_service_infos :
    (InstancesRequest → Reply InstancesResponse) → Text → Reply (List ServiceInfo)
unfolding split_service_name service_infos
get_service_infos get name =
    let (namespace, service) = split_service_name name in
    elim (get (record { service = service; namespace = namespace; skip_route_filter = true })) [
      | failure e ↦ failure e
      | reply resp ↦ reply (service_infos resp.instances)
    ]

-- `Driver`: the registries and the builders of resolvers by their names.
pub record Driver : Type 0 where
  pub registries : Dict ℕ
  pub builders : Dict ℕ

abbrev pub named : Text → Text
named [] = codes "polaris"
named (c ∷ s) = c ∷ s

-- `GetRegistry`; `none` is its error.
abbrev pub get_registry : Driver → Text → Option ℕ
get_registry drv name = entry drv.registries name

-- `CreateRegistry`, where `fresh` is a new registry with the configuration applied; its failure is the
-- panic of `Apply`. A global one is not kept.
unfoldable pub create_registry :
    Driver → (name : Text) → (global : Bool) → (fresh : Reply ℕ) → Driver × Reply ℕ
create_registry drv name global fresh = elim (entry drv.registries (named name)) [
  | some r ↦ (drv, reply r)
  | none ↦ elim fresh [
    | failure e ↦ (drv, failure e)
    | reply r ↦ (
      if global then drv else record drv { registries = with_entry drv.registries (named name) r },
      reply r,
    )
  ]
]

-- `ResolverBuilder`, where `fresh` is a builder with the context of the configuration.
unfoldable pub resolver_builder :
    Driver → (name : Text) → (global : Bool) → (fresh : Reply ℕ) → Driver × Reply ℕ
resolver_builder drv name global fresh = elim (entry drv.builders (named name)) [
  | some b ↦ (drv, reply b)
  | none ↦ elim fresh [
    | failure e ↦ (drv, failure e)
    | reply b ↦ (
      if global then drv else record drv { builders = with_entry drv.builders (named name) b },
      reply b,
    )
  ]
]
