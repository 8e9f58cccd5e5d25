-- ===== src/Polaris/RateLimit.antt =====
-- contrib/polarismesh/ratelimit.go: the interceptor that asks polaris for a quota before a call.
use woocoo.Base.{Bool, true, false, List, [], ◌∷◌, ◌++◌, Option, none, some, codes, split}
use woocoo.Web.{Text}
use woocoo.Polaris.{
  Reply, reply, failure, Metadata, values, or_empty, Argument, caller_service_argument,
  header_argument, caller_ip_argument,
}

-- A `MatchArgument`, by its type; only a header has a key that is read.
pub data MatchArgument : Type 0 where
  match_caller_service match_caller_ip match_other : MatchArgument
  match_header : Text → MatchArgument

-- What the engine answers: the rules, each with its arguments, or a value of another type.
pub data RuleValue : Type 0 where
  rate_limit : List (List MatchArgument) → RuleValue
  other_value : RuleValue

-- What is read of a call: its method, the metadata of its context and the peer's address.
pub record Call : Type 0 where
  pub full_method : Text
  pub incoming : Option Metadata
  pub peer_address : Option Text

pub record QuotaRequest : Type 0 where
  pub namespace : Text
  pub service : Text
  pub method : Text
  pub arguments : List Argument

abbrev pub concat : List (List MatchArgument) → List MatchArgument
concat [] = []
concat (arguments ∷ rules) = arguments ++ concat rules

-- `fetchArguments`; `none` is its result false.
unfoldable pub fetch_arguments : Reply (Option RuleValue) → Option (List MatchArgument)
fetch_arguments (failure e) = none
fetch_arguments (reply none) = none
fetch_arguments (reply (some other_value)) = none
fetch_arguments (reply (some (rate_limit rules))) = some (concat rules)

abbrev caller_argument : List Text → List Text → List Argument
caller_argument (s ∷ ss) (n ∷ ns) = caller_service_argument n s ∷ []
caller_argument _ _ = []

abbrev header_value : Text → List Text → List Argument
header_value key [] = []
header_value key (v ∷ vs) = header_argument key v ∷ []

-- The address "ip:port" in two parts.
abbrev client_ip : List Text → List Argument
client_ip (ip ∷ port ∷ []) = caller_ip_argument ip ∷ []
client_ip _ = []

abbrev peer_ip : Option Text → List Argument
peer_ip none = []
peer_ip (some address) = client_ip (split b':' address)

-- The `switch` over the type of an argument.
unfoldable pub match_argument : Call → MatchArgument → List Argument
match_argument call match_caller_service =
    caller_argument (values (or_empty call.incoming) (codes "polaris.request.caller.service"))
      (values (or_empty call.incoming) (codes "polaris.request.caller.namespace"))
match_argument call (match_header key) = header_value key (values (or_empty call.incoming) key)
match_argument call match_caller_ip = peer_ip call.peer_address
match_argument call match_other = []

unfoldable pub match_arguments : Call → List MatchArgument → List Argument
unfolding match_argument
match_arguments call [] = []
match_arguments call (item ∷ items) = match_argument call item ++ match_arguments call items

abbrev matched : Call → Option (List MatchArgument) → List Argument
matched call none = []
matched call (some items) = match_arguments call items

-- What the interceptor is built with: its namespace, the rules of the engine, and `GetQuota` with the
-- result of the future: whether the call is limited, and the text for it.
pub record Limiter : Type 0 where
  pub namespace : Text
  pub rules : (namespace service : Text) → Reply (Option RuleValue)
  pub get_quota : QuotaRequest → Reply (Bool × Text)

abbrev quota_request : Limiter → Call → List Text → Option QuotaRequest
quota_request rl call (root ∷ service ∷ method ∷ []) = some (record {
  namespace = rl.namespace;
  service = service;
  method = method;
  arguments = matched call (fetch_arguments (rl.rules rl.namespace service));
})
quota_request rl call _ = none

-- `buildQuotaRequest`; `none` is nil.
unfoldable pub build_quota_request : Limiter → Call → Option QuotaRequest
unfolding match_arguments fetch_arguments
build_quota_request rl call = quota_request rl call (split b'/' call.full_method)

-- The handler is called, or the call ends with `ResourceExhausted`.
pub data Limited : Type 0 where
  calls_handler : Limited
  resource_exhausted : Text → Limited

abbrev limited_by : Reply (Bool × Text) → Limited
limited_by (failure e) = calls_handler
limited_by (reply (false, info)) = calls_handler
limited_by (reply (true, info)) = resource_exhausted info

-- The function that `RateLimitUnaryServerInterceptor` returns.
unfoldable pub rate_limit_interceptor : Limiter → Call → Limited
unfolding build_quota_request
rate_limit_interceptor rl call = elim (build_quota_request rl call) [
  | none ↦ calls_handler
  | some request ↦ limited_by (rl.get_quota request)
]
