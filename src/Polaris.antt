-- ===== src/Polaris.antt =====
-- The adapter to polaris, contrib/polarismesh: the options of a client, the instances of a service and
-- what polaris-go, gRPC and net/url are asked for.
--
-- A metadata value of gRPC is a function from names in lower case, as `metadata.MD` keeps them. An
-- error of another package is a number.
pub mod Target
pub mod Resolver
pub mod Balancer
pub mod Picker
pub mod Serving
pub mod RateLimit
pub mod Registry
pub mod Context
mod Tests
use woocoo.Base.{
  ℕ, Bool, true, false, List, [], ◌∷◌, ◌++◌, Option, none, some, to_lower, codes, Dict, ◌==◌,
  if◌then◌else◌,
}
use woocoo.Log.Encoder.{decimal}
use woocoo.Web.{Text}

-- The answer of another package.
pub data Reply {ℓ} (A : Type ℓ) : Type ℓ where
  reply : A → Reply A
  failure : ℕ → Reply A

-- What is read of a `model.Instance`.
pub record Instance : Type 0 where
  pub namespace : Text
  pub service : Text
  pub host : Text
  pub port : ℕ
  pub version : Text
  pub protocol : Text
  pub metadata : Dict Text
  pub weight : ℕ
  pub healthy : Bool
  pub isolated : Bool

-- `model.InstancesResponse`, with the address of its cluster.
pub record InstancesResponse : Type 0 where
  pub instances : List Instance
  pub total_weight : ℕ
  pub cluster : Option ℕ

-- `dialOptions` of client.go.
pub record DialOptions : Type 0 where
  pub namespace : Text
  pub service : Text
  pub headers : Dict Text
  pub src_service : Text
  pub src_metadata : Dict Text
  pub route : Bool
  pub circuit_breaker : Bool

abbrev pub no_options : DialOptions
no_options = record {
  namespace = [];
  service = [];
  headers = [];
  src_service = [];
  src_metadata = [];
  route = false;
  circuit_breaker = false;
}

-- The text "host:port", of the resolver, of the picker's map and of `Pick`.
abbrev pub address : Instance → Text
address i = i.host ++ b':' ∷ decimal i.port

abbrev pub default_if_empty : Text → Text
default_if_empty [] = codes "default"
default_if_empty (c ∷ s) = c ∷ s

-- `getNamespace`.
abbrev pub namespace_of : DialOptions → Text
namespace_of options = default_if_empty options.namespace

-- The metadata of a context, and the values that `MD.Get` reads.
abbrev pub Metadata : Type 0
Metadata = Text → List Text

abbrev pub values : Metadata → Text → List Text
values md key = md (to_lower key)

-- The metadata of a context that may have none.
abbrev pub or_empty : Option Metadata → Metadata
or_empty none = λ key. []
or_empty (some md) = md

-- `extractBareMethodName`: what stands behind the last "/", "" without one.
abbrev pub behind_last : Text → Option Text
behind_last [] = none
behind_last (c ∷ s) = elim (behind_last s) [
  | some rest ↦ some rest
  | none ↦ if c == b'/' then some s else none
]

abbrev pub or_no_text : Option Text → Text
or_no_text none = []
or_no_text (some s) = s

abbrev pub extract_bare_method_name : Text → Text
extract_bare_method_name full = or_no_text (behind_last full)

-- The arguments of a request, by the function of polaris-go that builds them.
pub data Argument : Type 0 where
  path_argument caller_ip_argument : Text → Argument
  label_argument header_argument caller_service_argument : Text → Text → Argument
