-- ===== src/Polaris/Balancer.antt =====
-- contrib/polarismesh/balancer.go: what the balancer keeps of the resolver, and the picker that it
-- builds when connections become ready.
use woocoo.Base.{
  ℕ, ◌+◌, Bool, true, false, List, [], ◌∷◌, ◌++◌, Option, none, some, Dict, entry, with_entry,
  if◌then◌else◌,
}
use woocoo.Web.{Text}
use woocoo.Polaris.{Instance, InstancesResponse, DialOptions, address}

-- `LBConfig` of balancer_config.go.
pub record LbConfig : Type 0 where
  pub hash_key : Text
  pub lb_policy : Text

pub record Balancer : Type 0 where
  pub options : Option DialOptions
  pub response : Option InstancesResponse
  pub lb_cfg : Option LbConfig

-- `balancer.ClientConnState`: the attributes that the resolver sets, and a parsed configuration.
pub record ClientConnState : Type 0 where
  pub attributes : Option (DialOptions × InstancesResponse)
  pub balancer_config : Option LbConfig

-- The cluster that is kept; `none` is the panic of a response that is nil.
abbrev pub with_cluster :
    InstancesResponse → Option InstancesResponse → Option ℕ → Option InstancesResponse
with_cluster resp last (some cluster) = some resp
with_cluster resp none none = none
with_cluster resp (some last) none = some (record resp { cluster = last.cluster })

abbrev pub or_keep {ℓ} : {A : Type ℓ} → Option A → Option A → Option A
or_keep (some a) o = some a
or_keep none o = o

-- `UpdateClientConnState` up to the call of the base balancer: the options are those of the first
-- update, the response and the configuration those of the last.
unfoldable pub update_client_conn_state : Balancer → ClientConnState → Option Balancer
update_client_conn_state b state = elim state.attributes [
  | none ↦ some (record b { lb_cfg = or_keep state.balancer_config b.lb_cfg })
  | some (options, resp) ↦ elim (with_cluster resp b.response resp.cluster) [
    | none ↦ none
    | some kept ↦ some (record {
      options = or_keep b.options (some options);
      response = some kept;
      lb_cfg = or_keep state.balancer_config b.lb_cfg;
    })
  ]
]

-- `polarisNamingPicker`. A connection is a number, given by its address.
pub record Picker : Type 0 where
  pub ready : Dict ℕ
  pub options : Option DialOptions
  pub lb_cfg : Option LbConfig
  pub response : InstancesResponse

pub data PickerOf : Type 0 where
  err_picker : PickerOf
  picker_of : Picker → PickerOf

-- The loop over `ReadySCs`, in the order in which it walks over the map.
unfoldable pub by_address : List (ℕ × Text) → Dict ℕ → Dict ℕ
by_address [] scs = scs
by_address ((sc, addr) ∷ ready) scs = by_address ready (with_entry scs addr sc)

abbrev pub is_ready : Option ℕ → Bool
is_ready none = false
is_ready (some sc) = true

-- The loop over the instances, with `readyInstances` and `totalWeight`.
unfoldable pub ready_instances : Dict ℕ → List Instance → List Instance → ℕ → List Instance × ℕ
ready_instances scs [] ready total = (ready, total)
ready_instances scs (i ∷ is) ready total =
    let with = ready_instances scs is (ready ++ i ∷ []) (total + i.weight) in
    let without = ready_instances scs is ready total in
    if is_ready (entry scs (address i)) then with else without

-- The copy of the response that the picker keeps; `copyR` is empty before the first response.
abbrev pub no_response : InstancesResponse
no_response = record { instances = []; total_weight = 0; cluster = none }

unfoldable pub copy_response : Dict ℕ → Option InstancesResponse → InstancesResponse
unfolding ready_instances
copy_response scs none = no_response
copy_response scs (some resp) =
    let (ready, total) = ready_instances scs resp.instances [] 0 in
    record resp { instances = ready; total_weight = total }

unfoldable pub build_picker : Balancer → List (ℕ × Text) → PickerOf
unfolding by_address copy_response
build_picker b [] = err_picker
build_picker b (sc ∷ ready) = picker_of (record {
  ready = by_address (sc ∷ ready) [];
  options = b.options;
  lb_cfg = b.lb_cfg;
  response = copy_response (by_address (sc ∷ ready) []) b.response;
})
