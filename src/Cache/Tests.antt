-- ===== src/Cache/Tests.antt =====
-- A local cache of a minute over a redis that holds one key, and the theorems at it.
use woocoo.Base.{
  ℕ, ◌≡◌, ◌<◌, ◌≤◌, refl, Bool, true, false, [], ◌∷◌, Option, none, some, same_text, same_text_refl,
  if◌then◌else◌, ◌==◌, ap,
}
use woocoo.Base.Int.{pos}
use woocoo.Cache.{
  Bytes, Key, Value, nil_value, bytes, text, flag, int, float, object, pointer, Receiver, to_flag,
  to_int, to_float, to_object, Result, ok, err, not_registered, unchanged, wrote, Options,
  no_options, skip_cache, skip_remote, is, expiration,
}
use woocoo.Cache.Codec.{Library, marshal, unmarshal}
use woocoo.Cache.Codec.RoundTrip.{receiver_of, IsPlain, IsCodec, unmarshal-marshal}
use woocoo.Cache.Lfu.{TinyLfu, Config, apply_offset, fix_ttl, set_options, get_inner}
use woocoo.Cache.Lfu.Expiry.{fix_ttl-range}
use woocoo.Cache.Lfu.Laws.{Keeps, get_inner-set_options}
use woocoo.Cache.Manager.{
  Manager, register_cache, unregister_cache, get_cache, register_cache-get_cache,
}
use woocoo.Cache.Redisc.{Redisc, Client, data_found, redis_nil, reply, get}
use woocoo.Cache.Redisc.Laws.{get-skip_cache, get-raw_unwritten}

program : Unit {0}
unfolding is expiration apply_offset fix_ttl marshal unmarshal set_options get_inner get
    register_cache unregister_cache get_cache
program = tt

-- One byte for the kind, then the numbers.
abbrev encode : Value → Option Bytes
encode (flag true) = some (1 ∷ [])
encode (flag false) = some (0 ∷ [])
encode (int n) = some (n ∷ [])
encode (float n) = some (n ∷ [])
encode (object t n) = some (t ∷ n ∷ [])
encode v = none

abbrev decode : Bytes → Receiver → Option Value
decode (n ∷ []) to_flag = some (flag (n == 1))
decode (n ∷ []) to_int = some (int n)
decode (n ∷ []) to_float = some (float n)
decode (t ∷ n ∷ []) (to_object u) = some (object t n)
decode b r = none

abbrev lib : Library
lib = record { encode = encode; decode = decode; s2_encode = λ b. b; s2_decode = some }

decode-encode :
    (v : Value) (b : Bytes) → IsPlain v → encode v ≡ some b → decode b (receiver_of v) ≡ some v
decode-encode nil_value b p h = absurd p
decode-encode (pointer v) b p h = absurd p
decode-encode (bytes s) b p h = absurd cc
decode-encode (text s) b p h = absurd cc
decode-encode (flag true) b p h = let e : b ≡ 1 ∷ [] = cc in rw e
decode-encode (flag false) b p h = let e : b ≡ 0 ∷ [] = cc in rw e
decode-encode (int n) b p h = let e : b ≡ n ∷ [] = cc in rw e (refl)
decode-encode (float n) b p h = let e : b ≡ n ∷ [] = cc in rw e (refl)
decode-encode (object t n) b p h = let e : b ≡ t ∷ n ∷ [] = cc in rw e

lib-IsCodec : IsCodec lib
lib-IsCodec = record { reads = decode-encode; expands = λ b. refl }

-- A store that keeps everything.
abbrev store : TinyLfu
store = record {
  Store = Key → Option Value;
  fresh = λ size samples key. none;
  fetch = λ s key. (s, s key);
  put = λ s i key. if same_text i.key key then some i.value else s key;
  drop = λ s key other. if same_text key other then none else s other;
}

store-Keeps : Keeps store
store-Keeps s i = rw (same_text_refl i.key)

abbrev redis : Client
redis = record {
  Store = Key → Option Bytes;
  fetch = λ s key. (s, elim (s key) [ none ↦ redis_nil | some b ↦ data_found b ]);
  put = λ mode s key b ttl. (λ other. if same_text key other then some b else s other, reply true);
  exists = λ s key. elim (s key) [ none ↦ false | some b ↦ true ];
  drop = λ s key. (λ other. if same_text key other then none else s other, none);
}

-- A minute, and a sixtieth of it at random.
abbrev minute : Config
minute = record {
  size = 1000;
  samples = 100000;
  ttl = 60000;
  deviation = 60;
  subsidiary = true;
  offset = 0;
}

abbrev applied : Config
applied = record minute { offset = 1000 }

abbrev draw : ℕ → ℕ
draw n = 0

abbrev key : Key
key = 107 ∷ []

abbrev answer : Value
answer = object 3 42

unmarshal-marshal_example : unmarshal lib (3 ∷ 42 ∷ 0 ∷ []) (receiver_of answer) ≡ wrote answer
unfolding program
unmarshal-marshal_example = unmarshal-marshal lib lib-IsCodec answer 3 (42 ∷ 0 ∷ []) tt refl

draw-IsBounded : (n : ℕ) → 0 < n → draw n < n
draw-IsBounded n h = h

fix_ttl-range_example : (5000 ≤ 5000) × (5000 ≤ 6000)
unfolding program
fix_ttl-range_example =
    fix_ttl-range draw minute applied (pos 5000) no_options 5000 draw-IsBounded refl refl refl refl

get_inner-set_options_example :
    (get_inner store lib draw applied
      (λ other. if same_text key other then some (bytes (3 ∷ 42 ∷ 0 ∷ [])) else none)
      key
      (to_object 3)
      false).1
    ≡ wrote answer
unfolding program
get_inner-set_options_example =
    get_inner-set_options store lib draw applied (λ k. none) _ key answer (pos 0) no_options
      store-Keeps lib-IsCodec tt (3, 42 ∷ 0 ∷ [], refl) refl

abbrev getter : Key → Result Value
getter k = ok answer

abbrev skipping : ℕ → Bool → Options
skipping mode raw = record no_options { skip = mode; raw = raw; getter_func = some getter }

abbrev world : Redisc store redis
world = record { local = some (λ k. none); remote = λ k. none; stats = none }

get-skip_cache_example :
    get store redis lib draw applied
      (pos 0)
      world
      key
      (to_object 3)
      nil_value
      (skipping skip_cache false)
    ≡ (world, wrote answer)
unfolding program
get-skip_cache_example =
    get-skip_cache store redis lib draw applied (pos 0) world key nil_value answer 3 (42 ∷ 0 ∷ [])
      (skipping skip_cache false) getter lib-IsCodec tt refl refl refl refl refl refl

get-raw_unwritten_example :
    (get store redis lib draw applied
      (pos 0)
      world
      key
      (to_object 3)
      nil_value
      (skipping skip_remote true)).1
    ≡ unchanged
unfolding program
get-raw_unwritten_example =
    ap (λ r. r.1)
      (get-raw_unwritten store redis lib draw applied (pos 0) world (λ k. none) key nil_value answer
        (skipping skip_remote true) getter 60000 tt refl refl refl refl refl refl refl refl)

abbrev empty_manager : Manager ℕ
empty_manager = record { drivers = []; default_driver = none }

registers_again :
    ((register_cache empty_manager key 5).1 ≡ ok tt)
    × (get_cache (register_cache empty_manager key 5).0 key ≡ ok 5)
    × (get_cache (unregister_cache (register_cache empty_manager key 5).0 key) key
        ≡ err not_registered)
    × ((register_cache (unregister_cache (register_cache empty_manager key 5).0 key) key 6).1
        ≡ ok tt)
unfolding program
registers_again = register_cache-get_cache empty_manager 107 [] 5 6 refl
