-- ===== src/Polaris/Tests.antt =====
-- Two instances behind a resolver, and the theorem about picks there; targets, quotas and contexts.
use mathlib.Core.List.{Memᴰ}
use woocoo.Base.{
  ℕ, ◌≡◌, refl, sym, subst, Bool, true, false, List, [], ◌∷◌, Option, none, some, codes,
}
use woocoo.Web.{Text}
use woocoo.Polaris.{
  Reply, reply, failure, Instance, InstancesResponse, DialOptions, no_options,
  extract_bare_method_name,
}
use woocoo.Polaris.Target.{
  Target, found_options, unparsed, bad_route, filter_metadata, target_to_options,
}
use woocoo.Polaris.Resolver.{
  InstancesRequest, State, update_state, on_instances_update, filter_instances, use_instances,
}
use woocoo.Polaris.Balancer.{
  Balancer, Picker, picker_of, update_client_conn_state, build_picker, by_address, copy_response,
  ready_instances,
}
use woocoo.Polaris.Picker.{Sdk, PickInfo, pick}
use woocoo.Polaris.Serving.{pick-Serves}
use woocoo.Polaris.Serving.Loops.{total_weight_of}
use woocoo.Polaris.Serving.Updates.{Chooses, IsUsable, Serves}
use woocoo.Polaris.RateLimit.{
  match_caller_ip, match_header, rate_limit, Call, Limiter, calls_handler, resource_exhausted,
  rate_limit_interceptor,
}
use woocoo.Polaris.Registry.{split_service_name}
use woocoo.Polaris.Context.{inject_caller_info}

abbrev instance_at : (port : ℕ) → (healthy : Bool) → Instance
instance_at port healthy = record {
  namespace = codes "default";
  service = codes "s";
  host = codes "h";
  port = port;
  version = [];
  protocol = [];
  metadata = [];
  weight = port;
  healthy = healthy;
  isolated = false;
}

abbrev two : InstancesResponse
two = record {
  instances = instance_at 1 false ∷ instance_at 2 true ∷ [];
  total_weight = 3;
  cluster = some 7;
}

abbrev get_two : InstancesRequest → Reply InstancesResponse
get_two request = reply two

abbrev dial : DialOptions
dial = record no_options { service = codes "s" }

abbrev only : InstancesResponse
only = record two { instances = instance_at 2 true ∷ []; total_weight = 2 }

abbrev state : State
state = record { options = dial; response = only; addresses = codes "h:2" ∷ [] }

leaves_unhealthy : on_instances_update get_two dial true ≡ update_state state
unfolding on_instances_update filter_instances use_instances
leaves_unhealthy = refl

abbrev new : Balancer
new = record { options = none; response = none; lb_cfg = none }

abbrev updated : Balancer
updated = record { options = some dial; response = some only; lb_cfg = none }

first_update :
    update_client_conn_state new (record { attributes = some (dial, only); balancer_config = none })
    ≡ some updated
unfolding update_client_conn_state
first_update = refl

-- A first response without a cluster is a panic.
no_cluster :
    update_client_conn_state new
      (record { attributes = some (dial, record only { cluster = none }); balancer_config = none })
    ≡ none
unfolding update_client_conn_state
no_cluster = refl

abbrev ready : List (ℕ × Text)
ready = (5, codes "h:1") ∷ (6, codes "h:2") ∷ []

abbrev picker : Picker
picker = record {
  ready = (codes "h:1", 5) ∷ (codes "h:2", 6) ∷ [];
  options = some dial;
  lb_cfg = none;
  response = only;
}

builds : build_picker updated ready ≡ picker_of picker
unfolding build_picker by_address copy_response ready_instances
builds = refl

abbrev head_of : List Instance → Reply Instance
head_of [] = failure 1
head_of (i ∷ is) = reply i

-- A load balancer that takes the first instance.
abbrev first_sdk : Sdk
first_sdk = record {
  label_path = codes "$path";
  label_header = codes "$header.";
  service_rule = λ namespace service. reply none;
  process_routers = λ request. reply request.instances;
  process_load_balance = λ request. head_of request.instances.instances;
}

head_of-Memᴰ : (is : List Instance) (i : Instance) → head_of is ≡ reply i → Memᴰ i is
head_of-Memᴰ [] i h = absurd cc
head_of-Memᴰ (x ∷ is) i h = Memᴰ.head cc

first_sdk-Chooses : Chooses first_sdk
first_sdk-Chooses = record {
  routes = λ request resp h i there.
      let same : request.instances ≡ resp = cc in
      subst (λ (r : InstancesResponse). Memᴰ i r.instances) (sym same) there;
  balances = λ request i h. head_of-Memᴰ request.instances.instances i h;
}

abbrev info : PickInfo
info = record { full_method_name = codes "/s/m"; outgoing = none }

pick-Serves_example :
    Serves (IsUsable get_two dial) first_sdk ready (pick first_sdk picker info)
    × (only.total_weight ≡ total_weight_of only.instances)
pick-Serves_example =
    pick-Serves first_sdk first_sdk-Chooses get_two dial state leaves_unhealthy new updated none
      first_update ready picker builds info

bare_method : extract_bare_method_name (codes "/svc/Method") ≡ codes "Method"
bare_method = refl

prefixed :
    filter_metadata ((codes "src_a", codes "1") ∷ (codes "b", codes "2") ∷ []) (codes "src_")
    ≡ (codes "a", codes "1") ∷ []
unfolding filter_metadata
prefixed = refl

-- polaris://ns/svc?route=<route>&src_a=1
abbrev target : Text → Target
target route = record {
  host = codes "ns";
  opaque = [];
  path = codes "/svc";
  raw_query = codes "q";
  query = (codes "Route", (route, [])) ∷ (codes "src_a", (codes "1", [])) ∷ [];
}

abbrev undecoded : {A : Type 0} → Text → Option A
undecoded s = none

reads_query :
    target_to_options undecoded undecoded (target (codes "true"))
    ≡ found_options (record no_options {
      namespace = codes "ns";
      service = codes "svc";
      route = true;
      src_metadata = (codes "a", codes "1") ∷ [];
    })
unfolding target_to_options
reads_query = refl

refuses_route :
    target_to_options undecoded undecoded (target (codes "yes"))
    ≡ unparsed (bad_route (codes "yes"))
unfolding target_to_options
refuses_route = refl

namespaces : split_service_name (codes "a/b/svc") ≡ (codes "a/b", codes "svc")
unfolding split_service_name
namespaces = refl

abbrev limiter : Limiter
limiter = record {
  namespace = codes "ns";
  rules = λ namespace service.
      reply (some (rate_limit ((match_caller_ip ∷ match_header (codes "X") ∷ []) ∷ [])));
  get_quota = λ request. reply (true, request.method);
}

abbrev call : Text → Call
call method = record {
  full_method = method;
  incoming = some (λ key. codes "v" ∷ []);
  peer_address = some (codes "1:2");
}

is_limited : rate_limit_interceptor limiter (call (codes "/s/m")) ≡ resource_exhausted (codes "m")
unfolding rate_limit_interceptor
is_limited = refl

is_no_method : rate_limit_interceptor limiter (call (codes "m")) ≡ calls_handler
unfolding rate_limit_interceptor
is_no_method = refl

-- A call without outgoing metadata loses its caller's context.
loses_context :
    (inject_caller_info
      (record no_options { src_service = codes "a" })
      (record { inherits = true; outgoing = none })).inherits
    ≡ false
unfolding inject_caller_info
loses_context = refl
