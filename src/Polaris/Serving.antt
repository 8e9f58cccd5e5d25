-- ===== src/Polaris/Serving.antt =====
-- What the connections that the picker of contrib/polarismesh gives stand for.
pub mod Loops
pub mod Updates
use mathlib.Core.List.{Memᴰ}
use mathlib.Core.List.Memᴰ.{not-nil, append_cases, eq_of_singleton}
use woocoo.Base.{
  ℕ, ◌+◌, ◌≡◌, ◌⊎◌, ◌∙◌, refl, sym, ap, subst, inl, inr, Bool, true, false, List, [], ◌∷◌, ◌++◌,
  Option, none, some, Dict, entry, with_entry, same_text, same_text→eq, Bool-cases, Option-cases,
  arith,
}
use woocoo.Web.{Text}
use woocoo.Polaris.{
  Reply, reply, failure, Instance, InstancesResponse, DialOptions, namespace_of, address,
}
use woocoo.Polaris.Resolver.{
  InstancesRequest, State, update_state, is_skipped, use_instances, filter_instances,
  on_instances_update,
}
use woocoo.Polaris.Balancer.{
  LbConfig, Balancer, ClientConnState, with_cluster, update_client_conn_state, Picker, PickerOf,
  picker_of, by_address, is_ready, ready_instances, copy_response, build_picker,
}
use woocoo.Polaris.Picker.{
  RoutersRequest, LbRequest, Sdk, PickInfo, Reporter, PickOutcome, picked, pick_failed,
  sub_conn_unavailable, panicked, build_load_balance_request, routed, pick_with, pick,
}
use woocoo.Polaris.Serving.Loops.{
  total_weight_of, ready_instances-ready, ready_instances-weight, by_address-entry,
}
use woocoo.Polaris.Serving.Updates.{
  Chooses, IsUsable, IsRefused, Serves, Reply-cases, on_instances_update-IsUsable, Updated,
  update_client_conn_state-Updated,
}

reply-eq {ℓ} : {A : Type ℓ} {a b : A} → reply a ≡ reply b → a ≡ b
reply-eq h = cc

picker_of-eq : (p q : Picker) → picker_of p ≡ picker_of q → p ≡ q
picker_of-eq p q h = cc

-- The picker that a balancer with a response builds.
abbrev made : Balancer → List (ℕ × Text) → Option InstancesResponse → Picker
made b ready resp = record {
  ready = by_address ready [];
  options = b.options;
  lb_cfg = b.lb_cfg;
  response = copy_response (by_address ready []) resp;
}

build_picker-made :
    (b : Balancer) (ready : List (ℕ × Text)) (p : Picker)
    → build_picker b ready ≡ picker_of p
    → made b ready b.response ≡ p
unfolding build_picker
build_picker-made b [] p h = absurd cc
build_picker-made b (c ∷ ready) p h = picker_of-eq _ p h

-- What holds of a picker when a call comes.
pub record IsReady (Usable : Instance → Type 0) (ready : List (ℕ × Text)) (p : Picker)
    : Type 0 where
  pub configured : (o : DialOptions) × (p.options ≡ some o)
  pub usable : (i : Instance) → Memᴰ i p.response.instances → Usable i
  pub connected_to :
      (i : Instance)
      → Memᴰ i p.response.instances
      → (sc : ℕ) × (entry p.ready (address i) ≡ some sc)
  pub weighed : p.response.total_weight ≡ total_weight_of p.response.instances
  pub listed_there :
      (sc : ℕ) (a : Text) → entry p.ready a ≡ some sc → Memᴰ {A = ℕ × Text} (sc, a) ready

module _ (sdk : Sdk) (c : Chooses sdk) (o : DialOptions) (info : PickInfo) where
  routed-within :
      (response resp : InstancesResponse)
      → routed sdk o info response ≡ reply resp
      → (i : Instance) → Memᴰ i resp.instances
      → Memᴰ i response.instances
  unfolding routed
  routed-within response resp h i there = elim (Bool-cases o.route) [
    | inl routes ↦ c.routes _ resp (rw (routed, routes) at h) i there
    | inr direct ↦
        let same : reply response ≡ reply resp = rw (routed, direct) at h in
        subst (λ (r : InstancesResponse). Memᴰ i r.instances) (sym (reply-eq same)) there
  ]

  routed-IsRefused :
      (response : InstancesResponse) (e : ℕ)
      → routed sdk o info response ≡ failure e
      → IsRefused sdk e
  unfolding routed
  routed-IsRefused response e h = elim (Bool-cases o.route) [
    | inl routes ↦ inl (_, rw (routed, routes) at h)
    | inr direct ↦ absurd (let g = rw (routed, direct) at h in cc)
  ]

  pick_with-Serves :
      {Usable : Instance → Type 0} {ready : List (ℕ × Text)} (p : Picker)
      → IsReady Usable ready p
      → Serves Usable sdk ready (pick_with sdk p o info)
  unfolding pick_with build_load_balance_request
  pick_with-Serves p r = elim (Reply-cases (routed sdk o info p.response)) [
    | inl (e, failed) ↦ rw (pick_with, failed) (routed-IsRefused p.response e failed)
    | inr (resp, given) ↦
        elim (Reply-cases
          (sdk.process_load_balance (build_load_balance_request p.lb_cfg info.outgoing resp))) [
            | inl (e, failed) ↦ rw (pick_with, given, failed) (inr (_, failed))
            | inr (i, chosen) ↦
                let there = routed-within p.response resp given i (c.balances _ i chosen) in
                let (sc, e) = r.connected_to i there in
                rw (pick_with, given, chosen, e) (r.usable i there, r.listed_there sc (address i) e)
          ]
  ]

is_ready-some : (o : Option ℕ) → is_ready o ≡ true → (sc : ℕ) × (o ≡ some sc)
is_ready-some none h = absurd cc
is_ready-some (some sc) h = (sc, refl)

made-IsReady :
    {Usable : Instance → Type 0} (b : Balancer) (resp : InstancesResponse) (ready : List (ℕ × Text))
    → ((o : DialOptions) × (b.options ≡ some o))
    → ((i : Instance) → Memᴰ i resp.instances → Usable i)
    → IsReady Usable ready (made b ready (some resp))
unfolding copy_response
made-IsReady b resp ready configured usable = record {
  configured = configured;
  usable = λ i there. usable i (among i there).0;
  connected_to = λ i there. is_ready-some _ (among i there).1;
  weighed = omega (arith, ready_instances-weight scs resp.instances [] 0);
  listed_there = λ sc a e. elim (by_address-entry ready [] a sc e) [
    | inl there ↦ there
    | inr none_yet ↦ absurd cc
  ];
}
  where
    scs : Dict ℕ
    scs = by_address ready []

    among :
        (i : Instance)
        → Memᴰ i (ready_instances scs resp.instances [] 0).0
        → Memᴰ i resp.instances × (is_ready (entry scs (address i)) ≡ true)
    among i there = elim (ready_instances-ready scs resp.instances [] 0 i there) [
      | inl none_yet ↦ absurd (not-nil none_yet)
      | inr found ↦ found
    ]

pick-configured :
    (sdk : Sdk) (p : Picker) (info : PickInfo) (o : DialOptions)
    → p.options ≡ some o
    → pick sdk p info ≡ pick_with sdk p o info
unfolding pick
pick-configured sdk p info o e = rw e

-- The composition of the resolver, the balancer and the picker, with routers and a load balancer that
-- choose among the instances they are given: a pick by a picker that is built after an update gives
-- the ready connection to the address of a healthy and not isolated instance of the service, and
-- reports that instance, or it gives the error of a router or of the load balancer; it never finds no
-- connection and never panics. The weight that the picker hands on is the sum over its instances.
pub pick-Serves :
    (sdk : Sdk)
    → Chooses sdk
    → (get : InstancesRequest → Reply InstancesResponse) (options : DialOptions) (st : State)
    → on_instances_update get options true ≡ update_state st
    → (b b' : Balancer) (cfg : Option LbConfig)
    → update_client_conn_state b
        (record { attributes = some (st.options, st.response); balancer_config = cfg })
      ≡ some b'
    → (ready : List (ℕ × Text)) (p : Picker) → build_picker b' ready ≡ picker_of p
    → (info : PickInfo)
    → Serves (IsUsable get options) sdk ready (pick sdk p info)
      × (p.response.total_weight ≡ total_weight_of p.response.instances)
pick-Serves sdk c get options st asked b b' cfg updated ready p built info =
    let ((kept, response, same), configured) =
      update_client_conn_state-Updated b b' st.options st.response cfg updated in
    let usable =
      subst (λ (is : List Instance). (i : Instance) → Memᴰ i is → IsUsable get options i) same
        (on_instances_update-IsUsable get options st asked) in
    let r : IsReady (IsUsable get options) ready p =
      subst (λ (q : Picker). IsReady (IsUsable get options) ready q)
        (ap (made b' ready) (sym response) ∙ build_picker-made b' ready p built)
        (made-IsReady b' kept ready configured usable) in
    let (o, has) = r.configured in
    (
      subst (λ (q : PickOutcome). Serves (IsUsable get options) sdk ready q)
          (sym (pick-configured sdk p info o has)) (pick_with-Serves sdk c o info p r),
      r.weighed,
    )
