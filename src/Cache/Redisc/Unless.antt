-- ===== src/Cache/Redisc/Unless.antt =====
-- `Set` of pkg/cache/redisc/redis.go with `WithTTL` and `WithSetNX`, of the value nil.
use woocoo.Base.{ℕ, ◌<◌, ◌≡◌, ◌∙◌, refl, sym, ap, true, false, [], ◌∷◌, Option, none, some, arith}
use woocoo.Base.Int.{ℤ, pos, ◌≤ℤ◌}
use woocoo.Cache.{
  Bytes, Key, Value, nil_value, CacheError, key_already_exist, Options, with_ttl, with_set_nx,
  apply_options, is, expiration,
}
use woocoo.Cache.Codec.{Library, marshal}
use woocoo.Cache.Lfu.{TinyLfu, Config}
use woocoo.Cache.Redisc.{
  Redisc, Client, SetMode, Reply, reply, no_reply, set_local, cache_local, set_one, set,
}

abbrev pub unless_set : (ttl : ℕ) → Options
unless_set ttl = apply_options (with_ttl (pos ttl) ∷ with_set_nx ∷ [])

pub expiration-unless_set : (ttl : ℕ) → 0 < ttl → pos ttl ≤ℤ expiration (unless_set ttl)
unfolding expiration apply_options
expiration-unless_set ttl h = ground arith

module _ (lfu : TinyLfu) (client : Client) (lib : Library) (draw : ℕ → ℕ) (c : Config)
    (now : ℤ) where
  cache_local-remote :
      (w : Redisc lfu client) (key : Key) (v : Value) (b : Bytes) (ttl : ℤ) (opt : Options)
      → (cache_local lfu client lib draw c now w key v b ttl opt).0.remote ≡ w.remote
  unfolding set_local
  cache_local-remote w key v b ttl opt = ground arith

  set-first :
      (w : Redisc lfu client) (key : Key) (v : Value) (opt : Options)
      → (set lfu client lib draw c now w key v opt).0
        ≡ (set_one lfu client lib draw c now w key v opt).0
  unfolding set
  set-first w key v opt = ground arith

  module _ (w : Redisc lfu client) (key : Key) (ttl : ℕ) where
    abbrev put : client.Store × Reply
    put = client.put SetMode.nx w.remote key [] (expiration (unless_set ttl))

    abbrev result : Redisc lfu client × Option (Option CacheError)
    result = set lfu client lib draw c now w key nil_value (unless_set ttl)

    set_one-remote :
        (rep : Reply)
        → put.1 ≡ rep
        → (set_one lfu client lib draw c now w key nil_value (unless_set ttl)).0.remote ≡ put.0
    unfolding set_one marshal is apply_options
    set_one-remote (reply true) e = ground (
      arith,
      e,
      cache_local-remote (record w { remote = put.0 }) key nil_value []
          (expiration (unless_set ttl)) (unless_set ttl),
    )
    set_one-remote (reply false) e = ground (arith, e)
    set_one-remote (no_reply n) e = ground (arith, e)

    set-remote : result.0.remote ≡ put.0
    set-remote =
        ap (λ (x : Redisc lfu client). x.remote) (set-first w key nil_value (unless_set ttl))
        ∙ set_one-remote put.1 refl

    -- `Set` fails if redis does not reply that it has written the key.
    set-replied : (rep : Reply) → put.1 ≡ rep → result.1 ≡ some none → rep ≡ reply true
    unfolding set set_one marshal is apply_options
    set-replied (reply true) e h = refl
    set-replied (reply false) e h = let g = rw (e, set, set_one) at h in absurd cc
    set-replied (no_reply n) e h = let g = rw (e, set, set_one) at h in absurd cc

    -- `Set` has put the key, which redis had not.
    pub set-put :
        (w' : Redisc lfu client) → result ≡ (w', some none) → put ≡ (w'.remote, reply true)
    set-put w' h =
        let first : put.0 ≡ w'.remote =
          sym set-remote
          ∙ ap (λ (p : Redisc lfu client × Option (Option CacheError)). p.0.remote) h in
        let second : put.1 ≡ reply true = set-replied put.1 refl (ap (λ p. p.1) h) in
        rw (← first, ← second) refl

    -- `Set` fails if redis has the key.
    pub set-refused : put.1 ≡ reply false → result.1 ≡ some (some key_already_exist)
    unfolding set set_one marshal is apply_options
    set-refused h = rw (h, set, set_one) refl
