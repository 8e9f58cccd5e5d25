-- ===== src/Polaris/Serving/Updates.antt =====
-- What the resolver and the balancer of contrib/polarismesh hand on.
use mathlib.Core.List.{Memᴰ}
use mathlib.Core.List.Memᴰ.{not-nil}
use woocoo.Base.{
  ℕ, ◌≡◌, ◌⊎◌, refl, sym, ap, subst, inl, inr, true, false, List, [], Option, none, some,
  Option-cases, some-eq, arith,
}
use woocoo.Web.{Text}
use woocoo.Polaris.{
  Reply, reply, failure, Instance, InstancesResponse, DialOptions, namespace_of, address,
}
use woocoo.Polaris.Resolver.{
  InstancesRequest, State, update_state, is_skipped, filter_instances, on_instances_update,
}
use woocoo.Polaris.Balancer.{LbConfig, Balancer, with_cluster, or_keep, update_client_conn_state}
use woocoo.Polaris.Picker.{
  RoutersRequest, LbRequest, Sdk, PickOutcome, picked, pick_failed, sub_conn_unavailable, panicked,
}
use woocoo.Polaris.Serving.Loops.{use_instances-usable}

-- The routers and the load balancer choose among the instances that they are given.
pub record Chooses (sdk : Sdk) : Type 0 where
  pub routes :
      (request : RoutersRequest) (resp : InstancesResponse)
      → sdk.process_routers request ≡ reply resp
      → (i : Instance) → Memᴰ i resp.instances
      → Memᴰ i request.instances.instances
  pub balances :
      (request : LbRequest) (i : Instance)
      → sdk.process_load_balance request ≡ reply i
      → Memᴰ i request.instances.instances

-- An instance that polaris gives for the service, healthy and not isolated.
abbrev pub IsUsable : (InstancesRequest → Reply InstancesResponse) → DialOptions → Instance → Type 0
IsUsable get options i =
    (resp : InstancesResponse) × (get (record {
      service = options.service;
      namespace = namespace_of options;
      skip_route_filter = true;
    })
      ≡ reply resp)
    × Memᴰ i resp.instances
    × (i.healthy ≡ true)
    × (i.isolated ≡ false)

-- The routers or the load balancer failed.
abbrev pub IsRefused : Sdk → ℕ → Type 0
IsRefused sdk e =
    ((request : RoutersRequest) × (sdk.process_routers request ≡ failure e))
    ⊎ ((request : LbRequest) × (sdk.process_load_balance request ≡ failure e))

-- What a pick may give: a ready connection to the address of an instance that may be used and that is
-- reported, or the error of a router or of the load balancer.
abbrev pub Serves : (Instance → Type 0) → Sdk → List (ℕ × Text) → PickOutcome → Type 0
Serves Usable sdk ready (picked sc r) =
    Usable r.instance × Memᴰ {A = ℕ × Text} (sc, address r.instance) ready
Serves Usable sdk ready (pick_failed e) = IsRefused sdk e
Serves Usable sdk ready sub_conn_unavailable = ⊥
Serves Usable sdk ready panicked = ⊥

pub Reply-cases {ℓ} :
    {A : Type ℓ} (r : Reply A) → ((e : ℕ) × (r ≡ failure e)) ⊎ ((a : A) × (r ≡ reply a))
Reply-cases (failure e) = inl (e, refl)
Reply-cases (reply a) = inr (a, refl)

pub update_state-eq : (s t : State) → update_state s ≡ update_state t → s ≡ t
update_state-eq s t h = cc

pub is_skipped-usable :
    (i : Instance) → is_skipped i ≡ false → (i.healthy ≡ true) × (i.isolated ≡ false)
is_skipped-usable i h = ground arith

pub on_instances_update-IsUsable :
    (get : InstancesRequest → Reply InstancesResponse) (options : DialOptions) (st : State)
    → on_instances_update get options true ≡ update_state st
    → (i : Instance) → Memᴰ i st.response.instances
    → IsUsable get options i
unfolding on_instances_update filter_instances
on_instances_update-IsUsable get options st h i there =
    elim (Reply-cases (
      get (record {
        service = options.service;
        namespace = namespace_of options;
        skip_route_filter = true;
      }))) [
        | inl (e, failed) ↦ absurd (let g = rw (on_instances_update, failed) at h in cc)
        | inr (resp, given) ↦
            let same = update_state-eq _ st (rw (on_instances_update, given) at h) in
            let before = subst (λ (s : State). Memᴰ i s.response.instances) (sym same) there in
            elim (use_instances-usable resp.instances [] 0 i before) [
              | inl none_yet ↦ absurd (not-nil none_yet)
              | inr (found, kept) ↦
                  let (healthy, joined) = is_skipped-usable i kept in
                  (resp, given, found, healthy, joined)
            ]
      ]

pub with_cluster-instances :
    (resp kept : InstancesResponse) (last : Option InstancesResponse) (cluster : Option ℕ)
    → with_cluster resp last cluster ≡ some kept
    → resp.instances ≡ kept.instances
with_cluster-instances resp kept last (some cluster) h =
    ap (λ (r : InstancesResponse). r.instances) (some-eq h)
with_cluster-instances resp kept none none h = absurd cc
with_cluster-instances resp kept (some last) none h =
    ap (λ (r : InstancesResponse). r.instances) (some-eq h)

pub or_keep-some {ℓ} : {A : Type ℓ} (o : Option A) (a : A) → (x : A) × (or_keep o (some a) ≡ some x)
or_keep-some none a = (a, refl)
or_keep-some (some b) a = (b, refl)

-- After an update of the resolver there is a response with its instances, and there are options.
abbrev pub Updated : Balancer → List Instance → Type 0
Updated b is =
    ((kept : InstancesResponse) × (b.response ≡ some kept) × (is ≡ kept.instances))
    × ((o : DialOptions) × (b.options ≡ some o))

pub update_client_conn_state-Updated :
    (b b' : Balancer) (options : DialOptions) (resp : InstancesResponse) (cfg : Option LbConfig)
    → update_client_conn_state b
        (record { attributes = some (options, resp); balancer_config = cfg })
      ≡ some b'
    → Updated b' resp.instances
unfolding update_client_conn_state
update_client_conn_state-Updated b b' options resp cfg h =
    elim (Option-cases (with_cluster resp b.response resp.cluster)) [
      | inl nil ↦ absurd (let g = rw (update_client_conn_state, nil) at h in cc)
      | inr (kept, e) ↦
          subst (λ (c : Balancer). Updated c resp.instances)
            (some-eq (rw (update_client_conn_state, e) at h))
            (
              (kept, refl, with_cluster-instances resp kept b.response resp.cluster e),
              or_keep-some b.options options,
            )
    ]
