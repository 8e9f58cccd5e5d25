-- ===== src/Signature/MiddlewareTests.antt =====
-- The middleware at the signed request, and the theorems about it there.
use mathlib.Core.Path.{subst}
use woocoo.Base.{
  ℕ, ◌+◌, ◌<◌, ◌≤◌, ◌≡◌, ◌⊎◌, refl, arith, ltb, ◌&&◌, Bool, true, false, ◌||◌, List, [], ◌∷◌,
  Option, none, some, codes, inl, inr, Bool-cases, if◌then◌else◌, same_text, same_text_refl,
}
use woocoo.Web.{Text}
use woocoo.Web.Extractor.{from_header}
use woocoo.Web.Skip.{path_skipper}
use woocoo.Httpx.{get_uri_path}
use woocoo.Signature.{SignError, gives, fails, HttpRequest, SignerConfig, as_request, Entries}
use woocoo.Signature.Config.{default_signer}
use woocoo.Signature.Sign.{verify}
use woocoo.Signature.Middleware.{Middleware, build, signature_fields, apply_func, apply_all}
use woocoo.Base.Int.{ℤ, pos, negsuc, ◌≤ℤ◌}
use woocoo.Cache.{Bytes, is, expiration, apply_options}
use woocoo.Cache.Codec.{Library, marshal}
use woocoo.Cache.Lfu.{TinyLfu, Config}
use woocoo.Cache.Redisc.{SetMode, Reply, reply, redis_nil, set, set_local}
use woocoo.Signature.Middleware.Stored.{
  Redis, IsRedis, RedisCache, set_in_redis, HoldsKey, redisc-IsStore,
}
use woocoo.Signature.Middleware.Replay.{apply_func-verified, apply_func-replay}
use woocoo.Signature.Tests.{platform, config, built_config, stamped_request}
use woocoo.Signature.Middleware.Accepted.{InWindow, IsNamed}

abbrev signed_request : HttpRequest
signed_request = record stamped_request {
  headers = λ name.
      if same_text (codes "authorization") name
      then codes "TEST timestamp=1700, SignedHeaders=host;timestamp, Signature=6B65795445" ∷ []
      else stamped_request.headers name;
}

abbrev server_config : SignerConfig
server_config = record built_config { dry = true }

abbrev middleware : Middleware
middleware = record {
  config = record {
    exclude = codes "/open" ∷ [];
    signer_config = server_config;
    interval = 5;
    ttl = 10;
  };
  signature = record { config = server_config; signer = default_signer };
  nonce_extractor = none;
  timestamp_extractor = none;
  signature_extractor = from_header (codes "authorization") (codes "TEST ");
}

builds_middleware :
    build platform
      (codes "sign")
      (record { exclude = codes "/open" ∷ []; signer_config = config; interval = 5; ttl = 10 })
    ≡ gives middleware
unfolding build
builds_middleware = refl

-- A redis that keeps each key with the time until which it is held.
abbrev KeyStore : Type 0
KeyStore = List (Text × ℕ)

abbrev held_at : ℕ → Text → KeyStore → Bool
held_at now key [] = false
held_at now key ((k, until) ∷ rest) = (same_text key k && ltb now until) || held_at now key rest

abbrev end_of : (now : ℕ) → ℤ → ℕ
end_of now (pos e) = now + e
end_of now (negsuc e) = now

abbrev put_unless : (now : ℕ) → SetMode → KeyStore → Text → Bytes → ℤ → KeyStore × Reply
put_unless now mode store key b e =
    if held_at now key store
    then (store, reply false)
    else ((key, end_of now e) ∷ store, reply true)

abbrev Holds : KeyStore → Text → ℕ → Type 0
Holds [] key until = ⊥
Holds ((k, u) ∷ rest) key until = ((k ≡ key) × (until ≤ u)) ⊎ Holds rest key until

held_at-Holds :
    (now until : ℕ) (store : KeyStore) (key : Text)
    → Holds store key until
    → now < until
    → held_at now key store ≡ true
held_at-Holds now until [] key h soon = absurd h
held_at-Holds now until ((k, u) ∷ rest) key (inl (same, longer)) soon =
    let now_before : ltb now u ≡ true = ground arith in
    rw (← same, same_text_refl k, now_before) refl
held_at-Holds now until ((k, u) ∷ rest) key (inr later) soon =
    rw (held_at-Holds now until rest key later soon) (or_true (same_text key k && ltb now u))
  where
    or_true : (b : Bool) → (b || true) ≡ true
    or_true true = refl
    or_true false = refl

put-Holds :
    (now : ℕ) (store store' : KeyStore) (key : Text) (b : Bytes) (e : ℤ)
    → put_unless now SetMode.nx store key b e ≡ (store', reply true)
    → (key, end_of now e) ∷ store ≡ store'
put-Holds now store store' key b e h = elim (Bool-cases (held_at now key store)) [
  | inl there ↦ absurd (let g = rw there at h in cc)
  | inr fresh ↦ let g = rw fresh at h in cc
]

end_of-lasts : (now ttl : ℕ) (e : ℤ) → 0 < ttl → pos ttl ≤ℤ e → now + ttl ≤ end_of now e
end_of-lasts now ttl (pos e) some_time h = ground arith
end_of-lasts now ttl (negsuc e) some_time h = ground arith

abbrev redis : Redis
redis = record {
  Store = KeyStore;
  fetch = λ now store key. (store, redis_nil);
  put = put_unless;
  exists = λ now store key. held_at now key store;
  drop = λ now store key. (store, none);
  Holds = Holds;
}

redis-IsRedis : IsRedis redis
redis-IsRedis = record {
  stores = λ now ttl store store' key b e some_time lasts h.
      subst (λ s. Holds s key (now + ttl)) (put-Holds now store store' key b e h)
        (inl (refl, end_of-lasts now ttl e some_time lasts));
  refuses = λ now until store key b e h soon. rw (held_at-Holds now until store key h soon) refl;
  keeps = λ now until store store' other key b e h soon set.
      subst (λ s. Holds s key until) (put-Holds now store store' other b e set) (inr h);
}

-- There is no local cache, and nil is not encoded.
abbrev no_lfu : TinyLfu
no_lfu = record {
  Store = Unit;
  fresh = λ size samples. tt;
  fetch = λ s key. (s, none);
  put = λ s item. s;
  drop = λ s key. s;
}

abbrev no_codec : Library
no_codec = record {
  encode = λ v. none;
  decode = λ b r. none;
  s2_encode = λ b. b;
  s2_decode = λ b. some b;
}

abbrev no_config : Config
no_config = record { size = 0; samples = 0; ttl = 0; deviation = 0; subsidiary = false; offset = 0 }

abbrev store_in : (now ttl : ℕ) → RedisCache no_lfu redis → Text → Option (RedisCache no_lfu redis)
store_in = set_in_redis no_lfu redis no_codec (λ n. n) no_config

abbrev empty_cache : RedisCache no_lfu redis
empty_cache = record { local = none; remote = []; stats = none }

not_excluded : path_skipper middleware.config.exclude signed_request.path ≡ false
unfolding path_skipper
not_excluded = refl

-- The time to live of ten nanoseconds is below a second, and becomes an hour.
abbrev stored : RedisCache no_lfu redis
stored = record { local = none; remote = (codes "6B65795445", 3600000000003) ∷ []; stats = none }

passes :
    apply_func platform (as_request platform) store_in middleware [] 3 empty_cache signed_request
    ≡ gives stored
unfolding apply_func get_uri_path set is marshal expiration apply_options set_local
passes = refl

apply_func-verified_example :
    (signature : Text) × (fields : Entries) × (nonce : Text) × (t : ℕ) × (r' : HttpRequest)
    × (signature_fields platform (as_request platform) middleware signed_request
        ≡ gives (signature, fields))
    × IsNamed platform (as_request platform) middleware fields signed_request nonce t
    × InWindow platform (as_request platform) 5 3 t
    × (verify platform [] middleware.signature signed_request nonce t ≡ gives r')
apply_func-verified_example =
    apply_func-verified platform (as_request platform) store_in middleware [] 3 empty_cache stored
      signed_request not_excluded passes

apply_func-replay_example :
    (e : SignError) × (apply_func platform
        (as_request platform)
        store_in
        middleware
        []
        4
        (apply_all platform
          (as_request platform)
          store_in
          middleware
          stored
          (([], 4, signed_request) ∷ []))
        signed_request
      ≡ fails e)
apply_func-replay_example =
    apply_func-replay platform (as_request platform) store_in
      (HoldsKey no_lfu redis no_codec (λ n. n) no_config)
      (redisc-IsStore no_lfu redis no_codec (λ n. n) no_config platform (as_request platform)
        redis-IsRedis)
      middleware [] [] 3 4 empty_cache stored signed_request (([], 4, signed_request) ∷ [])
      not_excluded (omega arith) (omega arith, tt) passes
