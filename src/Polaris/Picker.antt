-- ===== src/Polaris/Picker.antt =====
-- `Pick` of contrib/polarismesh/balancer.go: the labels and the routes of a call, the choice of an
-- instance, and the report of its result.
use woocoo.Base.{
  ℕ, Bool, true, false, List, [], ◌∷◌, ◌++◌, Option, none, some, same_text, codes, drop, length,
  Dict, entry, if◌then◌else◌,
}
use woocoo.Httpx.{has_prefix}
use woocoo.Web.{Text}
use woocoo.Polaris.{
  Reply, reply, failure, Instance, InstancesResponse, DialOptions, namespace_of, address, Metadata,
  values, or_empty, extract_bare_method_name, Argument, path_argument, label_argument,
}
use woocoo.Polaris.Balancer.{LbConfig, Picker}

-- `model.ServiceInfo`.
pub record SourceService : Type 0 where
  pub service : Text
  pub namespace : Text
  pub metadata : Dict Text

-- A routing rule: the keys of the metadata of each source, of the inbound and the outbound rules.
pub record Routing : Type 0 where
  pub inbounds : List (List (List Text))
  pub outbounds : List (List (List Text))

pub record RoutersRequest : Type 0 where
  pub instances : InstancesResponse
  pub source : Option SourceService
  pub arguments : List Argument

pub record LbRequest : Type 0 where
  pub instances : InstancesResponse
  pub lb_policy : Text
  pub hash_key : Text

-- What is asked of polaris-go: the routing rule of a service, which may be missing, the routers and
-- the load balancer, and its two names of labels.
pub record Sdk : Type 0 where
  pub label_path : Text
  pub label_header : Text
  pub service_rule : (namespace service : Text) → Reply (Option Routing)
  pub process_routers : RoutersRequest → Reply InstancesResponse
  pub process_load_balance : LbRequest → Reply Instance

-- `balancer.PickInfo`.
pub record PickInfo : Type 0 where
  pub full_method_name : Text
  pub outgoing : Option Metadata

-- The keys of a Go map that is a set.
abbrev pub add_label : List Text → Text → List Text
add_label [] key = key ∷ []
add_label (k ∷ labels) key =
    let rest = add_label labels key in if same_text k key then k ∷ labels else k ∷ rest

abbrev pub add_labels : List Text → List Text → List Text
add_labels labels [] = labels
add_labels labels (k ∷ keys) = add_labels (add_label labels k) keys

abbrev pub source_labels : List Text → List (List Text) → List Text
source_labels labels [] = labels
source_labels labels (keys ∷ sources) = source_labels (add_labels labels keys) sources

abbrev pub rule_labels : List Text → List (List (List Text)) → List Text
rule_labels labels [] = labels
rule_labels labels (sources ∷ rules) = rule_labels (source_labels labels sources) rules

unfoldable pub collect_route_labels : Routing → List Text
collect_route_labels routing = rule_labels (rule_labels [] routing.inbounds) routing.outbounds

abbrev pub header_label : Text → List Text → List Argument
header_label label [] = []
header_label label (v ∷ vs) = label_argument label v ∷ []

-- The argument of a label, if the call has one.
unfoldable pub label_arguments : Sdk → PickInfo → Text → List Argument
label_arguments sdk info label =
    if same_text label sdk.label_path
    then path_argument (extract_bare_method_name info.full_method_name) ∷ []
    else if has_prefix sdk.label_header label
    then header_label label (values (or_empty info.outgoing) (drop (length sdk.label_header) label))
    else []

abbrev pub all_arguments : Sdk → PickInfo → List Text → List Argument
all_arguments sdk info [] = []
all_arguments sdk info (label ∷ labels) =
    label_arguments sdk info label ++ all_arguments sdk info labels

-- `addTrafficLabels`: its errors are logged, and the request goes on without arguments.
unfoldable pub traffic_labels : Sdk → DialOptions → PickInfo → List Argument
unfolding label_arguments collect_route_labels
traffic_labels sdk options info = elim (sdk.service_rule (namespace_of options) options.service) [
  | failure e ↦ []
  | reply none ↦ []
  | reply (some routing) ↦ all_arguments sdk info (collect_route_labels routing)
]

abbrev first_or : List Text → Text → Text
first_or [] s = s
first_or (v ∷ vs) s = v

abbrev config_policy : Option LbConfig → Text
config_policy none = []
config_policy (some cfg) = cfg.lb_policy

abbrev config_hash_key : Option LbConfig → Text
config_hash_key none = []
config_hash_key (some cfg) = cfg.hash_key

-- What the call says goes before the configuration.
unfoldable pub build_load_balance_request :
    Option LbConfig → Option Metadata → InstancesResponse → LbRequest
build_load_balance_request cfg md instances = record {
  instances = instances;
  lb_policy =
      first_or (values (or_empty md) (codes "polaris.balancer.request.lbPolicy"))
        (config_policy cfg);
  hash_key =
      first_or (values (or_empty md) (codes "polaris.balancer.request.hashKey"))
        (config_hash_key cfg);
}

-- `resultReporter`, without its clock.
pub record Reporter : Type 0 where
  pub method : Text
  pub namespace : Text
  pub service : Text
  pub instance : Instance
  pub source : Option SourceService
  pub circuit_breaker : Bool

-- `balancer.DoneInfo`: whether bytes came, and the status code of an error.
pub record DoneInfo : Type 0 where
  pub bytes_received : Bool
  pub error : Option ℕ

pub record CallResult : Type 0 where
  pub called : Instance
  pub succeeded : Bool
  pub code : ℕ
  pub caller : Option SourceService

-- `reportInfoAnalyzer` of balancer_config.go.
abbrev pub analyze : Option ℕ → Bool × ℕ
analyze none = (true, 0)
analyze (some code) = (false, code)

-- `report`: what is handed to `UpdateServiceCallResult`, if anything.
unfoldable pub report : Reporter → DoneInfo → Option CallResult
report r info =
    let (succeeded, code) = analyze info.error in
    if info.bytes_received
    then some
        (record { called = r.instance; succeeded = succeeded; code = code; caller = r.source })
    else none

-- `sub_conn_unavailable` is `ErrNoSubConnAvailable`, `panicked` a picker without options.
pub data PickOutcome : Type 0 where
  picked : (sub_conn : ℕ) → Reporter → PickOutcome
  pick_failed : ℕ → PickOutcome
  sub_conn_unavailable panicked : PickOutcome

unfoldable pub source_service : DialOptions → Option SourceService
source_service options = elim options.src_service [
  | [] ↦ none
  | c ∷ s ↦ some (record {
    service = c ∷ s;
    namespace = namespace_of options;
    metadata = options.src_metadata;
  })
]

-- The labels of the call, unless the options carry metadata of their own for a custom route.
abbrev pub route_arguments : Sdk → DialOptions → PickInfo → Dict Text → List Argument
route_arguments sdk options info [] = traffic_labels sdk options info
route_arguments sdk options info (kv ∷ metadata) = []

unfoldable pub routed : Sdk → DialOptions → PickInfo → InstancesResponse → Reply InstancesResponse
unfolding traffic_labels source_service
routed sdk options info response = elim options.route [
  | false ↦ reply response
  | true ↦ sdk.process_routers (record {
    instances = response;
    source = source_service options;
    arguments = route_arguments sdk options info options.src_metadata;
  })
]

abbrev pub reporter_of : DialOptions → PickInfo → Instance → Reporter
reporter_of options info i = record {
  method = info.full_method_name;
  namespace = options.namespace;
  service = options.service;
  instance = i;
  source = source_service options;
  circuit_breaker = options.circuit_breaker;
}

-- The connection of the instance that was chosen.
abbrev pub connected : Option ℕ → Reporter → PickOutcome
connected none r = sub_conn_unavailable
connected (some sc) r = picked sc r

unfoldable pub pick_with : Sdk → Picker → DialOptions → PickInfo → PickOutcome
unfolding routed build_load_balance_request
pick_with sdk p options info = elim (routed sdk options info p.response) [
  | failure e ↦ pick_failed e
  | reply resp ↦
      elim (sdk.process_load_balance (build_load_balance_request p.lb_cfg info.outgoing resp)) [
        | failure e ↦ pick_failed e
        | reply i ↦ connected (entry p.ready (address i)) (reporter_of options info i)
      ]
]

unfoldable pub pick : Sdk → Picker → PickInfo → PickOutcome
unfolding pick_with
pick sdk p info = elim p.options [ none ↦ panicked | some options ↦ pick_with sdk p options info ]
