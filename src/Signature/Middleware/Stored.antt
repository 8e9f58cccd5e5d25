-- ===== src/Signature/Middleware/Stored.antt =====
-- The cache of pkg/cache/redisc/redis.go as the store of the middleware of
-- web/handler/signer/sign.go, where `StoreKey` names it.
--
-- Redis is a parameter here as there, with the time of the call: of `SET NX` with a time to live
-- `IsRedis` says what redis documents, where no key is evicted before its time.
use woocoo.Base.{ℕ, ◌+◌, ◌<◌, ◌≡◌, refl, ap, Bool, true, false, [], Option, none, some}
use woocoo.Base.Int.{ℤ, pos, ◌≤ℤ◌}
use woocoo.Web.{Text, Request}
use woocoo.Signature.{Platform, HttpRequest}
use woocoo.Signature.Middleware.Replay.{IsStore}
use woocoo.Cache.{Bytes, Key, nil_value, CacheError, Stats, key_already_exist, expiration}
use woocoo.Cache.Codec.{Library}
use woocoo.Cache.Lfu.{TinyLfu, Config}
use woocoo.Cache.Redisc.{Redisc, Client, Fetched, SetMode, Reply, reply, set}
use woocoo.Cache.Redisc.Unless.{unless_set, expiration-unless_set, set-put, set-refused}

pub record Redis : Type 1 where
  pub Store : Type 0
  pub fetch : (now : ℕ) → Store → Key → Store × Fetched
  pub put : (now : ℕ) → SetMode → Store → Key → Bytes → ℤ → Store × Reply
  pub exists : (now : ℕ) → Store → Key → Bool
  pub drop : (now : ℕ) → Store → Key → Store × Option ℕ
  pub Holds : Store → Key → (until : ℕ) → Type 0

-- A key that is written lasts for its time to live at least; while it does, it is not written anew,
-- and the writing of keys leaves it.
pub record IsRedis (redis : Redis) : Type 0 where
  pub stores :
      (now ttl : ℕ) (s s' : redis.Store) (k : Key) (b : Bytes) (e : ℤ)
      → 0 < ttl
      → pos ttl ≤ℤ e
      → redis.put now SetMode.nx s k b e ≡ (s', reply true)
      → redis.Holds s' k (now + ttl)
  pub refuses :
      (now until : ℕ) (s : redis.Store) (k : Key) (b : Bytes) (e : ℤ)
      → redis.Holds s k until
      → now < until
      → (redis.put now SetMode.nx s k b e).1 ≡ reply false
  pub keeps :
      (now until : ℕ) (s s' : redis.Store) (j k : Key) (b : Bytes) (e : ℤ)
      → redis.Holds s k until
      → now < until
      → redis.put now SetMode.nx s j b e ≡ (s', reply true)
      → redis.Holds s' k until

abbrev pub client_at : Redis → (now : ℕ) → Client
client_at redis now = record {
  Store = redis.Store;
  fetch = redis.fetch now;
  put = redis.put now;
  exists = redis.exists now;
  drop = redis.drop now;
}

-- A cache in redis between the calls.
pub record RedisCache (lfu : TinyLfu) (redis : Redis) : Type 0 where
  pub local : Option lfu.Store
  pub remote : redis.Store
  pub stats : Option Stats

module _ (lfu : TinyLfu) (redis : Redis) (lib : Library) (draw : ℕ → ℕ) (c : Config) where
  abbrev pub cache_at : (now : ℕ) → RedisCache lfu redis → Redisc lfu (client_at redis now)
  cache_at now s = record { local = s.local; remote = s.remote; stats = s.stats }

  abbrev pub state_of :
      {now : ℕ}
      → Redisc lfu (client_at redis now) × Option (Option CacheError)
      → Option (RedisCache lfu redis)
  state_of (w, some none) = some (record { local = w.local; remote = w.remote; stats = w.stats })
  state_of (w, other) = none

  -- `mw.cache.Set` of `signatureValidate`.
  abbrev pub set_in_redis :
      (now ttl : ℕ) → RedisCache lfu redis → Text → Option (RedisCache lfu redis)
  set_in_redis now ttl s key = state_of (
      set lfu (client_at redis now) lib draw c (pos now) (cache_at now s) key nil_value
        (unless_set ttl))

  abbrev pub HoldsKey : RedisCache lfu redis → Text → (until : ℕ) → Type 0
  HoldsKey s key until = redis.Holds s.remote key until

  state_of-some :
      {now : ℕ} (p : Redisc lfu (client_at redis now) × Option (Option CacheError))
      (s : RedisCache lfu redis)
      → state_of p ≡ some s
      → p ≡ (cache_at now s, some none)
  state_of-some (w, none) s h = absurd cc
  state_of-some (w, some (some e)) s h = absurd cc
  state_of-some {now} (w, some none) s h =
      let back : RedisCache lfu redis = record {
        local = w.local;
        remote = w.remote;
        stats = w.stats;
      } in
      let same : back ≡ s = cc in
      ap (λ (x : RedisCache lfu redis). (cache_at now x, some none)) same

  set_in_redis-put :
      (now ttl : ℕ) (s s' : RedisCache lfu redis) (key : Text)
      → set_in_redis now ttl s key ≡ some s'
      → redis.put now SetMode.nx s.remote key [] (expiration (unless_set ttl))
        ≡ (s'.remote, reply true)
  set_in_redis-put now ttl s s' key h =
      set-put lfu (client_at redis now) lib draw c (pos now) (cache_at now s) key ttl
        (cache_at now s') (state_of-some _ s' h)

  refused-none :
      {now : ℕ} (p : Redisc lfu (client_at redis now) × Option (Option CacheError)) (e : CacheError)
      → p.1 ≡ some (some e)
      → state_of p ≡ none
  refused-none (w, none) e h = absurd cc
  refused-none (w, some none) e h = absurd cc
  refused-none (w, some (some f)) e h = refl

  -- The cache in redis is a store of signatures.
  pub redisc-IsStore :
      (plat : Platform) (view : HttpRequest → Request)
      → IsRedis redis
      → IsStore plat view set_in_redis HoldsKey
  redisc-IsStore plat view law = record {
    stores = λ now ttl s s' key some_time h.
        law.stores now ttl s.remote s'.remote key [] (expiration (unless_set ttl)) some_time
          (expiration-unless_set ttl some_time) (set_in_redis-put now ttl s s' key h);
    refuses = λ now ttl until s key held soon. refused-none {now = now} _ key_already_exist (
        set-refused lfu (client_at redis now) lib draw c (pos now) (cache_at now s) key ttl
          (law.refuses now until s.remote key [] (expiration (unless_set ttl)) held soon));
    keeps = λ now ttl until s s' other key held soon h.
        law.keeps now until s.remote s'.remote other key [] (expiration (unless_set ttl)) held soon
          (set_in_redis-put now ttl s s' other h);
  }
