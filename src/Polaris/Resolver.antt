-- ===== src/Polaris/Resolver.antt =====
-- contrib/polarismesh/resolver.go: the resolver that asks polaris for the instances of a service and
-- hands their addresses to gRPC.
use woocoo.Base.{
  ℕ, ◌+◌, Bool, true, false, not, ◌||◌, List, [], ◌∷◌, ◌++◌, Option, none, some, map, if◌then◌else◌,
}
use woocoo.Web.{Text}
use woocoo.Polaris.{
  Reply, reply, failure, Instance, InstancesResponse, DialOptions, namespace_of, address,
}
use woocoo.Polaris.Target.{Target, TargetError, Parsed, found_options, unparsed}

pub record InstancesRequest : Type 0 where
  pub service : Text
  pub namespace : Text
  pub skip_route_filter : Bool

-- `resolver.State`: the two attributes and the addresses.
pub record State : Type 0 where
  pub options : DialOptions
  pub response : InstancesResponse
  pub addresses : List Text

-- What the resolver tells the `ClientConn`.
pub data Update : Type 0 where
  report_error : ℕ → Update
  update_state : State → Update

abbrev pub is_skipped : Instance → Bool
is_skipped i = not i.healthy || i.isolated

-- The loop over the instances, with `usedInstances` and `totalWeight`.
unfoldable pub use_instances : List Instance → List Instance → ℕ → List Instance × ℕ
use_instances [] used total = (used, total)
use_instances (i ∷ is) used total =
    let without = use_instances is used total in
    let with = use_instances is (used ++ i ∷ []) (total + i.weight) in
    if is_skipped i then without else with

unfoldable pub filter_instances : Bool → InstancesResponse → InstancesResponse
unfolding use_instances
filter_instances false resp = resp
filter_instances true resp =
    let (used, total) = use_instances resp.instances [] 0 in
    record resp { instances = used; total_weight = total }

module _ (get_instances : InstancesRequest → Reply InstancesResponse) where
  unfoldable pub on_instances_update : DialOptions → (skip_route_filter : Bool) → Update
  unfolding filter_instances
  on_instances_update options skip =
      elim (get_instances (record {
        service = options.service;
        namespace = namespace_of options;
        skip_route_filter = skip;
      })) [
        | failure e ↦ report_error e
        | reply resp ↦ update_state (record {
          options = options;
          response = filter_instances skip resp;
          addresses = map address (filter_instances skip resp).instances;
        })
      ]

  -- What the goroutine of `Watch` receives: the end of its context, or a token of the channel `rn`.
  pub data Signal : Type 0 where
    done resolve : Signal

  -- The loop of `Watch`, over what it receives: the updates, and the watcher kept at the end.
  -- `watch_all` answers the calls of `WatchAllInstances` by their number.
  unfoldable pub watch :
      (watch_all : ℕ → Reply ℕ)
      → DialOptions
      → (round : ℕ) → List Signal
      → (watcher : Option ℕ) → List Update × Option ℕ
  unfolding on_instances_update
  watch watch_all options round [] watcher = ([], watcher)
  watch watch_all options round (done ∷ signals) watcher = ([], watcher)
  watch watch_all options round (resolve ∷ signals) watcher = elim (watch_all round) [
    | failure e ↦ (on_instances_update options true ∷ report_error e ∷ [], watcher)
    | reply w ↦
        let (updates, last) = watch watch_all options (round + 1) signals (some w) in
        (on_instances_update options true ∷ updates, last)
  ]

pub data BuildError : Type 0 where
  bad_target : TargetError → BuildError
  no_service no_context : BuildError

pub data Built : Type 0 where
  resolver_of : (context : ℕ) → DialOptions → Built
  not_built : BuildError → Built

abbrev with_context : Option ℕ → Option ℕ → DialOptions → Built
with_context (some context) global options = resolver_of context options
with_context none (some context) options = resolver_of context options
with_context none none options = not_built no_context

-- `Build`, with the builder's context and the global one.
unfoldable pub build_resolver : (Target → Parsed) → (own global : Option ℕ) → Target → Built
build_resolver to_options own global target = elim (to_options target) [
  | unparsed e ↦ not_built (bad_target e)
  | found_options options ↦ elim options.service [
    | [] ↦ not_built no_service
    | c ∷ s ↦ with_context own global options
  ]
]
