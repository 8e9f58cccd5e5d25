-- ===== src/Cache/Redisc/Laws.antt =====
-- What a caller of pkg/cache/redisc/redis.go reads.
use woocoo.Base.{ℕ, ◌≡◌, ◌∙◌, refl, Bool, true, false, [], ◌∷◌, none, some, arith}
use woocoo.Base.Int.{ℤ}
use woocoo.Cache.{
  Bytes, Key, Value, nil_value, bytes, text, flag, int, float, object, pointer, Receiver, Result,
  ok, err, CacheError, cache_miss, unchanged, wrote, failed, Options, is, skip_local, skip_remote,
  expiration,
}
use woocoo.Cache.Codec.{Library, marshal}
use woocoo.Cache.Codec.RoundTrip.{receiver_of, IsPlain, IsCodec, unmarshal-marshal}
use woocoo.Cache.Lfu
use woocoo.Cache.Lfu.{TinyLfu, Config, Item, fix_ttl}
use woocoo.Cache.Redisc.{
  Redisc, Client, done, Loaded, loaded, get_remote_data, try_get_local, set_local, set_one,
  load_with, load_remote, deliver, group, get,
}

module _ (lfu : TinyLfu) (client : Client) (lib : Library) (draw : ℕ → ℕ) (c : Config)
    (now : ℤ) where
  deliver-wrote :
      (w : Redisc lfu client) (key : Key) (v : Value) (x : ℕ) (b : Bytes) (cached : Bool)
      → IsCodec lib
      → IsPlain v
      → marshal lib v ≡ ok (x ∷ b)
      → deliver lfu client lib draw c now w key (receiver_of v) (loaded (x ∷ b) cached)
        ≡ (w, wrote v)
  unfolding deliver
  deliver-wrote w key v x b cached k p m = rw (unmarshal-marshal lib k v x b p m, deliver)

  local-skipped :
      (w : Redisc lfu client) (key : Key) (r : Receiver) (opt : Options)
      → is opt.skip skip_local ≡ true
      → try_get_local lfu client lib draw c now w key r opt ≡ (w, failed cache_miss)
  unfolding try_get_local
  local-skipped w key r opt e = rw (e, try_get_local)

  remote-skipped :
      (w : Redisc lfu client) (key : Key) (skip : ℕ)
      → is skip skip_remote ≡ true
      → get_remote_data lfu client lib draw c now w key skip ≡ (w, err cache_miss)
  unfolding get_remote_data
  remote-skipped w key skip e = rw (e, get_remote_data)

  set-skipped :
      (w : Redisc lfu client) (key : Key) (v : Value) (b : Bytes) (opt : Options)
      → marshal lib v ≡ ok b
      → is opt.skip skip_local ≡ true
      → is opt.skip skip_remote ≡ true
      → opt.raw ≡ false
      → set_one lfu client lib draw c now w key v opt ≡ (w, done b false none)
  unfolding set_one
  set-skipped w key v b opt m sl sr nr = ground arith

  load-getter :
      (w : Redisc lfu client) (key : Key) (v : Value) (opt : Options) (g : Key → Result Value)
      (w' : Redisc lfu client) (b : Bytes) (cached : Bool)
      → get_remote_data lfu client lib draw c now w key opt.skip ≡ (w, err cache_miss)
      → opt.getter_func ≡ some g
      → g key ≡ ok v
      → set_one lfu client lib draw c now w key v opt ≡ (w', done b cached none)
      → load_remote lfu client lib draw c now w key opt ≡ (w', loaded b cached)
  unfolding load_remote load_with
  load-getter w key v opt g w' b cached e eg ev es = ground arith

  group-missed :
      (w w1 w2 : Redisc lfu client) (key : Key) (r : Receiver) (opt : Options) (e : CacheError)
      (l : Loaded)
      → try_get_local lfu client lib draw c now w key r opt ≡ (w1, failed e)
      → load_remote lfu client lib draw c now w1 key opt ≡ (w2, l)
      → group lfu client lib draw c now w key r opt ≡ deliver lfu client lib draw c now w2 key r l
  unfolding group
  group-missed w w1 w2 key r opt e l t h = ground arith

  get-getter :
      (w : Redisc lfu client) (key : Key) (r : Receiver) (before : Value) (opt : Options)
      (g : Key → Result Value)
      → opt.getter_func ≡ some g
      → get lfu client lib draw c now w key r before opt
        ≡ group lfu client lib draw c now w key r opt
  unfolding get
  get-getter w key r before opt g e = ground arith

  -- A read that skips both levels, with a getter, delivers the getter's value to a receiver of its
  -- type, and changes neither the caches nor the counters. The value is one that is marshalled to at
  -- least one byte, the codecs read what they wrote, and `raw` is not set.
  pub get-skip_cache :
      (w : Redisc lfu client) (key : Key) (before v : Value) (x : ℕ) (b : Bytes) (opt : Options)
      (g : Key → Result Value)
      → IsCodec lib
      → IsPlain v
      → marshal lib v ≡ ok (x ∷ b)
      → opt.getter_func ≡ some g
      → g key ≡ ok v
      → is opt.skip skip_local ≡ true
      → is opt.skip skip_remote ≡ true
      → opt.raw ≡ false
      → get lfu client lib draw c now w key (receiver_of v) before opt ≡ (w, wrote v)
  get-skip_cache w key before v x b opt g k p m eg ev sl sr nr =
      get-getter w key (receiver_of v) before opt g eg
      ∙ group-missed w w w key (receiver_of v) opt cache_miss _ (local-skipped w key _ opt sl) (
          load-getter w key v opt g w (x ∷ b) false (remote-skipped w key opt.skip sr) eg ev
            (set-skipped w key v (x ∷ b) opt m sl sr nr))
      ∙ deliver-wrote w key v x b false k p m

  get_inner-missed :
      (s : lfu.Store) (key : Key) (v : Value) (raw : Bool)
      → IsPlain v
      → (lfu.fetch s key).1 ≡ none
      → Lfu.get_inner lfu lib draw c s key (receiver_of v) raw
        ≡ ((lfu.fetch s key).0, failed cache_miss)
  unfolding Lfu.get_inner
  get_inner-missed s key nil_value raw p e = absurd p
  get_inner-missed s key (pointer v) raw p e = absurd p
  get_inner-missed s key (bytes b) raw p e = rw e
  get_inner-missed s key (text b) raw p e = rw e
  get_inner-missed s key (flag b) raw p e = rw e
  get_inner-missed s key (int b) raw p e = rw e
  get_inner-missed s key (float b) raw p e = rw e
  get_inner-missed s key (object t b) raw p e = rw e

  local-missed :
      (w : Redisc lfu client) (s : lfu.Store) (key : Key) (v : Value) (opt : Options)
      → IsPlain v
      → w.local ≡ some s
      → (lfu.fetch s key).1 ≡ none
      → is opt.skip skip_local ≡ false
      → try_get_local lfu client lib draw c now w key (receiver_of v) opt
        ≡ (record w { local = some (lfu.fetch s key).0 }, failed cache_miss)
  unfolding try_get_local
  local-missed w s key v opt p es em sl = rw (sl, es, get_inner-missed s key v opt.raw p em)

  set_value-raw :
      (s : lfu.Store) (key : Key) (v : Value) (t : ℕ) (raw : Bool)
      → raw ≡ true
      → Lfu.set_value lfu lib draw c s key v now t raw
        ≡ (lfu.put s (record { key = key; value = v; expire_at = Lfu.expiry now t }), ok tt)
  unfolding Lfu.set_value
  set_value-raw s key v t raw e = rw e

  set_inner-raw :
      (s : lfu.Store) (key : Key) (v : Value) (ttl : ℤ) (opt : Options) (t : ℕ)
      → opt.raw ≡ true
      → fix_ttl draw c ttl opt ≡ some t
      → Lfu.set_inner lfu lib draw c s key v now ttl opt
        ≡ some (lfu.put s (record { key = key; value = v; expire_at = Lfu.expiry now t }), ok tt)
  unfolding Lfu.set_inner
  set_inner-raw s key v ttl opt t nr ef = rw (Lfu.set_inner, ef, set_value-raw s key v t opt.raw nr)

  set_local-raw :
      (w : Redisc lfu client) (s : lfu.Store) (key : Key) (v : Value) (ttl : ℤ) (opt : Options)
      (t : ℕ)
      → w.local ≡ some s
      → opt.raw ≡ true
      → fix_ttl draw c ttl opt ≡ some t
      → set_local lfu client lib draw c now w key v ttl opt
        ≡ some (
          record w {
            local =
                some (lfu.put s (record { key = key; value = v; expire_at = Lfu.expiry now t }));
          },
          true,
        )
  unfolding set_local
  set_local-raw w s key v ttl opt t es nr ef =
      rw (es, set_local, set_inner-raw s key v ttl opt t nr ef)

  set-raw :
      (w : Redisc lfu client) (s : lfu.Store) (key : Key) (v : Value) (opt : Options) (t : ℕ)
      → w.local ≡ some s
      → is opt.skip skip_local ≡ false
      → is opt.skip skip_remote ≡ true
      → opt.raw ≡ true
      → fix_ttl draw c (expiration opt) opt ≡ some t
      → set_one lfu client lib draw c now w key v opt ≡ (
        record w {
          local = some (lfu.put s (record { key = key; value = v; expire_at = Lfu.expiry now t }));
        },
        done [] true none,
      )
  unfolding set_one
  set-raw w s key v opt t es sl sr nr ef =
      let l = set_local-raw w s key v (expiration opt) opt t es nr ef in simp (sr, nr, es, sl, l)

  deliver-nothing :
      (w : Redisc lfu client) (key : Key) (r : Receiver) (cached : Bool)
      → deliver lfu client lib draw c now w key r (loaded [] cached) ≡ (w, unchanged)
  unfolding deliver
  deliver-nothing w key r cached = refl

  -- A raw read that skips redis, on a key that the local cache does not hold, with a getter that gives
  -- a value of a plain type: the value is put into the local cache, and the receiver of that type is
  -- left as it was, with no error.
  pub get-raw_unwritten :
      (w : Redisc lfu client) (s : lfu.Store) (key : Key) (before v : Value) (opt : Options)
      (g : Key → Result Value) (t : ℕ)
      → IsPlain v
      → w.local ≡ some s
      → (lfu.fetch s key).1 ≡ none
      → opt.getter_func ≡ some g
      → g key ≡ ok v
      → is opt.skip skip_local ≡ false
      → is opt.skip skip_remote ≡ true
      → opt.raw ≡ true
      → fix_ttl draw c (expiration opt) opt ≡ some t
      → get lfu client lib draw c now w key (receiver_of v) before opt ≡ (
        record w {
          local = some (
              lfu.put
                (lfu.fetch s key).0
                (record { key = key; value = v; expire_at = Lfu.expiry now t }));
        },
        unchanged,
      )
  get-raw_unwritten w s key before v opt g t p es em eg ev sl sr nr ef =
      let w1 : Redisc lfu client = record w { local = some (lfu.fetch s key).0 } in
      get-getter w key (receiver_of v) before opt g eg
      ∙ group-missed w w1 _ key (receiver_of v) opt cache_miss _
          (local-missed w s key v opt p es em sl)
          (load-getter w1 key v opt g _ [] true (remote-skipped w1 key opt.skip sr) eg ev
            (set-raw w1 (lfu.fetch s key).0 key v opt t refl sl sr nr ef))
      ∙ deliver-nothing _ key (receiver_of v) true
