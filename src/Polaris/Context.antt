-- ===== src/Polaris/Context.antt =====
-- contrib/polarismesh/context.go and client.go: the global context of polaris, and what a call carries
-- in the metadata of its context.
use woocoo.Base.{
  ℕ, Bool, true, false, ◌||◌, List, [], ◌∷◌, ◌++◌, Option, none, some, to_lower, codes, same_text,
  Dict, if◌then◌else◌,
}
use woocoo.Web.{Text}
use woocoo.Polaris.{Reply, reply, failure, DialOptions, Metadata, or_empty}

-- `PolarisContext`, of the global variable.
abbrev pub polaris_context : Option ℕ → Reply ℕ
polaris_context none = failure 0
polaris_context (some context) = reply context

-- `SetPolarisContextOnceByConfig`: the variable and the error. `InitContextByConfig` assigns the
-- variable also when it fails, with nil.
unfoldable pub set_polaris_context_once : Option ℕ → Reply ℕ → Option ℕ × Option ℕ
set_polaris_context_once (some context) fresh = (some context, none)
set_polaris_context_once none (failure e) = (none, some e)
set_polaris_context_once none (reply context) = (some context, none)

-- `InitPolarisContext`, where `loaded` is the configuration read and `init` makes a context of it: the
-- variable and the context.
unfoldable pub init_polaris_context :
    (loaded : Reply ℕ) → (init : ℕ → Reply ℕ) → (global : Bool) → Option ℕ → Option ℕ × Reply ℕ
unfolding set_polaris_context_once
init_polaris_context (failure e) init global var = (var, failure e)
init_polaris_context (reply config) init false var = (var, init config)
init_polaris_context (reply config) init true var =
    let (kept, err) = set_polaris_context_once var (init config) in
    elim err [ some e ↦ (kept, failure e) | none ↦ (kept, polaris_context kept) ]

-- A context of a call: whether it descends from the caller's, with its deadline, and the outgoing
-- metadata.
pub record CallContext : Type 0 where
  pub inherits : Bool
  pub outgoing : Option Metadata

-- One pair of `AppendToOutgoingContext`.
abbrev pub append_outgoing : CallContext → (key val : Text) → CallContext
append_outgoing ctx key val = record ctx {
  outgoing = some (λ name.
      if same_text name (to_lower key)
      then or_empty ctx.outgoing name ++ val ∷ []
      else or_empty ctx.outgoing name);
}

abbrev policy_key : Text
policy_key = codes "polaris.balancer.request.lbPolicy"

abbrev hash_key_key : Text
hash_key_key = codes "polaris.balancer.request.hashKey"

-- `WithLoadBalance`, with the first hash key if there is one.
unfoldable pub with_load_balance : CallContext → (policy : Text) → List Text → CallContext
with_load_balance ctx policy [] = append_outgoing ctx policy_key policy
with_load_balance ctx policy ([] ∷ more) = append_outgoing ctx policy_key policy
with_load_balance ctx policy ((c ∷ s) ∷ more) =
    append_outgoing (append_outgoing ctx policy_key policy) hash_key_key (c ∷ s)

-- Without outgoing metadata the context is a new one, not the caller's.
abbrev with_outgoing : CallContext → CallContext
with_outgoing ctx = elim ctx.outgoing [
  | none ↦ record { inherits = false; outgoing = some (λ key. []) }
  | some md ↦ ctx
]

abbrev is_set : Text → Bool
is_set [] = false
is_set (c ∷ s) = true

abbrev has_entries : Dict Text → Bool
has_entries [] = false
has_entries (kv ∷ d) = true

abbrev append_headers : CallContext → Dict Text → CallContext
append_headers ctx [] = ctx
append_headers ctx ((k, v) ∷ headers) = append_headers (append_outgoing ctx k v) headers

abbrev with_caller : DialOptions → CallContext → CallContext
with_caller options ctx =
    if is_set options.src_service
    then append_outgoing
        (append_outgoing ctx (codes "polaris.request.caller.service") options.src_service)
        (codes "polaris.request.caller.namespace") options.namespace
    else ctx

-- The context that `injectCallerInfo` hands to the invoker.
unfoldable pub inject_caller_info : DialOptions → CallContext → CallContext
inject_caller_info options ctx =
    if is_set options.src_service || has_entries options.headers
    then append_headers (with_caller options (with_outgoing ctx)) options.headers
    else ctx
