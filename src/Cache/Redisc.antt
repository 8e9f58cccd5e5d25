-- ===== src/Cache/Redisc.antt =====
-- pkg/cache/redisc/redis.go: a cache in redis with a memory cache before it.
--
-- The redis client, the memory store, the codecs, the clock and the random source are parameters.
-- `group.Do` runs its function once for the callers that wait at the same time: a call here is one
-- such run. The receiver's contents before the call are `before`, where the code can read them.
pub mod Laws
pub mod Unless
use woocoo.Base.{
  ℕ, ◌≡◌, Bool, true, false, not, ◌&&◌, ◌||◌, List, [], ◌∷◌, Option, none, some, if◌then◌else◌,
}
use woocoo.Base.Int.{ℤ}
use woocoo.Cache.{
  Bytes, Key, Value, nil_value, bytes, pointer, Receiver, nil_receiver, Result, ok, err, CacheError,
  cache_miss, key_not_exist, key_already_exist, Read, unchanged, wrote, failed, panicked, Options,
  Stats, is, skip_local, skip_remote, expiration, add_hit, add_miss,
}
use woocoo.Cache.Codec.{Library, marshal, unmarshal}
use woocoo.Cache.Lfu
use woocoo.Cache.Lfu.{TinyLfu, Config}

pub data Fetched : Type 0 where
  data_found : Bytes → Fetched
  redis_nil : Fetched
  broken : ℕ → Fetched

pub data SetMode : Type 0 where
  plain xx nx : SetMode

-- The reply to a set: whether the key was written, or an error.
pub data Reply : Type 0 where
  reply : Bool → Reply
  no_reply : ℕ → Reply

-- github.com/redis/go-redis. A ttl of 0 does not expire.
pub record Client : Type 1 where
  pub Store : Type 0
  pub fetch : Store → Key → Store × Fetched
  pub put : SetMode → Store → Key → Bytes → ℤ → Store × Reply
  pub exists : Store → Key → Bool
  pub drop : Store → Key → Store × Option ℕ

-- The state of a `Redisc`; `local` is none if the configuration has no local cache.
pub record Redisc (lfu : TinyLfu) (client : Client) : Type 0 where
  pub local : Option lfu.Store
  pub remote : client.Store
  pub stats : Option Stats

abbrev pub mode_of : Options → SetMode
mode_of opt = if opt.set_xx then SetMode.xx else if opt.set_nx then SetMode.nx else SetMode.plain

abbrev pub refusal : SetMode → Reply → Option CacheError
refusal SetMode.xx (reply false) = some key_not_exist
refusal SetMode.nx (reply false) = some key_already_exist
refusal m (reply b) = none
refusal m (no_reply n) = some (CacheError.remote n)

-- What `set` returns: the marshaled bytes, whether the value is in the local cache, and the error.
pub data SetResult : Type 0 where
  done : (marshaled : Bytes) (cached : Bool) → Option CacheError → SetResult
  set_panicked : SetResult

-- What the function of `getSetItemGroup` returns: bytes with the flag `cached`, or an error.
pub data Loaded : Type 0 where
  loaded : Bytes → (cached : Bool) → Loaded
  load_failed : CacheError → Loaded
  load_panicked : Loaded

module _ (lfu : TinyLfu) (client : Client) (lib : Library) (draw : ℕ → ℕ) (c : Config)
    (now : ℤ) where
  abbrev R : Type 0
  R = Redisc lfu client

  abbrev pub has_local : Option lfu.Store → Bool
  has_local none = false
  has_local (some s) = true

  abbrev pub uses_local : R → Options → Bool
  uses_local w opt = has_local w.local && not (is opt.skip skip_local)

  -- `getRemoteData`.
  unfoldable pub get_remote_data : R → Key → ℕ → R × Result Bytes
  get_remote_data w key skip =
      if is skip skip_remote
      then (w, err cache_miss)
      else (let (s, got) = client.fetch w.remote key in
          elim got [
            | data_found b ↦ (record w { remote = s; stats = add_hit w.stats }, ok b)
            | redis_nil ↦ (record w { remote = s; stats = add_miss w.stats }, err cache_miss)
            | broken n ↦
                (record w { remote = s; stats = add_miss w.stats }, err (CacheError.remote n))
          ])

  -- `tryGetLocal`.
  unfoldable pub try_get_local : R → Key → Receiver → Options → R × Read
  try_get_local w key r opt =
      if not (is opt.skip skip_local)
      then elim w.local [
        | none ↦ (w, failed cache_miss)
        | some s ↦
            let (s', read) = Lfu.get_inner lfu lib draw c s key r opt.raw in
            (record w { local = some s' }, read)
      ]
      else (w, failed cache_miss)

  -- `SetInner` on the local cache, with whether it succeeded; `none` is a panic.
  unfoldable pub set_local : R → Key → Value → ℤ → Options → Option (R × Bool)
  set_local w key v ttl opt = elim w.local [
    | none ↦ some (w, false)
    | some s ↦ elim (Lfu.set_inner lfu lib draw c s key v now ttl opt) [
      | none ↦ none
      | some (s', ok u) ↦ some (record w { local = some s' }, true)
      | some (s', err e) ↦ some (record w { local = some s' }, false)
    ]
  ]

  -- The value that `get` hands to the local cache: the receiver itself, a pointer.
  abbrev pub receiver_value : Receiver → Value → Read → Value
  receiver_value nil_receiver before read = nil_value
  receiver_value r before (wrote v) = pointer v
  receiver_value r before read = pointer before

  abbrev pub keep_local : R → Key → Receiver → Value → Options → Read → R × Read
  keep_local w key r before opt read =
      if uses_local w opt
      then elim (set_local w key (receiver_value r before read) opt.ttl opt) [
        | none ↦ (w, panicked)
        | some (w', cached) ↦ (w', read)
      ]
      else (w, read)

  abbrev pub from_remote : R → Key → Receiver → Value → Options → Result Bytes → R × Read
  from_remote w key r before opt (err e) = (w, failed e)
  from_remote w key r before opt (ok b) = elim (unmarshal lib b r) [
    | failed e ↦ (w, failed e)
    | panicked ↦ (w, panicked)
    | unchanged ↦ keep_local w key r before opt unchanged
    | wrote v ↦ keep_local w key r before opt (wrote v)
  ]

  -- `get`.
  unfoldable pub get_one : R → Key → Receiver → Value → Options → R × Read
  get_one w key r before opt =
      let (w1, read) = try_get_local w key r opt in
      elim read [
        | failed e ↦
            let (w2, fetched) = get_remote_data w1 key opt.skip in
            from_remote w2 key r before opt fetched
        | other ↦ (w1, other)
      ]

  abbrev pub cache_local : R → Key → Value → Bytes → ℤ → Options → R × SetResult
  cache_local w key v marshaled ttl opt =
      if uses_local w opt
      then elim (set_local w key (if opt.raw then v else bytes marshaled) ttl opt) [
        | none ↦ (w, set_panicked)
        | some (w', cached) ↦ (w', done marshaled cached none)
      ]
      else (w, done marshaled false none)

  abbrev pub set_remote : R → Key → Value → Options → Bytes → R × SetResult
  set_remote w key v opt marshaled =
      let (s, rep) = client.put (mode_of opt) w.remote key marshaled (expiration opt) in
      let w' = record w { remote = s } in
      elim (refusal (mode_of opt) rep) [
        | some e ↦ (w', done marshaled false (some e))
        | none ↦ cache_local w' key v marshaled (expiration opt) opt
      ]

  -- `set`.
  unfoldable pub set_one : R → Key → Value → Options → R × SetResult
  set_one w key v opt =
      if not (is opt.skip skip_remote)
      then elim (marshal lib v) [
        | err e ↦ (w, done [] false (some e))
        | ok b ↦ set_remote w key v opt b
      ]
      else if not opt.raw
      then elim (marshal lib v) [
        | err e ↦ (w, done [] false (some e))
        | ok b ↦ cache_local w key v b (expiration opt) opt
      ]
      else cache_local w key v [] (expiration opt) opt

  abbrev pub of_set : R × SetResult → R × Loaded
  of_set (w, done b cached none) = (w, loaded b cached)
  of_set (w, done b cached (some e)) = (w, load_failed e)
  of_set (w, set_panicked) = (w, load_panicked)

  unfoldable pub load_with : R → Key → Options → Option (Key → Result Value) → R × Loaded
  load_with w key opt none = (w, load_failed cache_miss)
  load_with w key opt (some g) = elim (g key) [
    | err e ↦ (w, load_failed e)
    | ok v ↦ of_set (set_one w key v opt)
  ]

  unfoldable pub load_remote : R → Key → Options → R × Loaded
  load_remote w key opt =
      let (w', fetched) = get_remote_data w key opt.skip in
      elim fetched [
        | ok b ↦ (w', loaded b false)
        | err cache_miss ↦ load_with w' key opt opt.getter_func
        | err e ↦ (w', load_failed e)
      ]

  unfoldable pub delete_from_local_cache : R → Key → R
  delete_from_local_cache w key = elim w.local [
    | none ↦ w
    | some s ↦ record w { local = some (lfu.drop s key) }
  ]

  -- The rest of `Group`, behind `getSetItemGroup`.
  unfoldable pub deliver : R → Key → Receiver → Loaded → R × Read
  deliver w key r (load_failed e) = (w, failed e)
  deliver w key r load_panicked = (w, panicked)
  deliver w key r (loaded [] cached) = (w, unchanged)
  deliver w key r (loaded (x ∷ b) cached) = elim (unmarshal lib (x ∷ b) r) [
    | failed e ↦ (if cached then delete_from_local_cache w key else w, failed e)
    | other ↦ (w, other)
  ]

  -- `Group`.
  unfoldable pub group : R → Key → Receiver → Options → R × Read
  group w key r opt =
      let (w1, read) = try_get_local w key r opt in
      elim read [
        | failed e ↦ let (w2, load) = load_remote w1 key opt in deliver w2 key r load
        | other ↦ (w1, other)
      ]

  abbrev pub has_getter : Options → Bool
  has_getter opt = elim opt.getter_func [ none ↦ false | some g ↦ true ]

  -- `Get`, with the options applied.
  unfoldable pub get : R → Key → Receiver → Value → Options → R × Read
  get w key r before opt =
      if opt.group || has_getter opt then group w key r opt else get_one w key r before opt

  unfoldable pub has : R → Key → R × Bool
  has w key = elim w.local [
    | none ↦ (w, client.exists w.remote key)
    | some s ↦
        let (s', here) = Lfu.has lfu lib draw c s key in
        (record w { local = some s' }, if here then true else client.exists w.remote key)
  ]

  -- `Del`, with the error of redis.
  unfoldable pub del : R → Key → R × Option CacheError
  unfolding delete_from_local_cache
  del w key =
      let w' = delete_from_local_cache w key in
      let (s, failure) = client.drop w'.remote key in
      (record w' { remote = s }, elim failure [ none ↦ none | some n ↦ some (CacheError.remote n) ])

  -- `Set`, with the options applied; the outer `none` is a panic.
  unfoldable pub set : R → Key → Value → Options → R × Option (Option CacheError)
  unfolding set_one
  set w key v opt =
      let (w', result) = set_one w key v opt in
      elim result [ set_panicked ↦ (w', none) | done b cached e ↦ (w', some e) ]

  unfoldable pub clean_local_cache : R → R
  clean_local_cache w = elim w.local [
    | none ↦ w
    | some s ↦ record w { local = some (Lfu.clean lfu lib draw c s) }
  ]
