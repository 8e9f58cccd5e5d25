-- ===== src/Cache/Lfu/Laws.antt =====
-- What pkg/cache/lfu/cache.go reads after a set.
use woocoo.Base.{
  ℕ, ◌≡◌, ◌∙◌, refl, ap, sym, inl, inr, Bool-cases, Option-cases, Bool, true, false, ◌∷◌, some,
  arith,
}
use woocoo.Base.Int.{ℤ}
use woocoo.Cache.{
  Bytes, Key, Value, nil_value, bytes, text, flag, int, float, object, pointer, ok, wrote, Options,
}
use woocoo.Cache.Codec.{Library, marshal}
use woocoo.Cache.Codec.RoundTrip.{receiver_of, IsPlain, IsCodec, unmarshal-marshal}
use woocoo.Cache.Lfu.{
  Item, TinyLfu, Config, assign, stored, expiry, fix_ttl, set_value, set_options, get_inner,
  is_found,
}

-- The store holds what was just put into it.
abbrev pub Keeps : TinyLfu → Type 0
Keeps lfu = (s : lfu.Store) (i : Item) → (lfu.fetch (lfu.put s i) i.key).1 ≡ some i.value

-- A raw value, or one that is marshalled to at least one byte.
abbrev pub IsVisible : Library → Value → Bool → Type 0
IsVisible lib v true = Unit
IsVisible lib v false = (x : ℕ) × (b : Bytes) × (marshal lib v ≡ ok (x ∷ b))

assign-own : (v : Value) → IsPlain v → assign v (receiver_of v) ≡ wrote v
unfolding assign
assign-own nil_value p = absurd p
assign-own (pointer v) p = absurd p
assign-own (bytes b) p = refl
assign-own (text b) p = refl
assign-own (flag b) p = refl
assign-own (int b) p = refl
assign-own (float b) p = refl
assign-own (object t n) p = ground arith

stored-raw : (lib : Library) (v : Value) → IsPlain v → stored lib true v (receiver_of v) ≡ wrote v
unfolding stored
stored-raw lib nil_value p = absurd p
stored-raw lib (pointer v) p = absurd p
stored-raw lib (bytes b) p = assign-own (bytes b) tt
stored-raw lib (text b) p = assign-own (text b) tt
stored-raw lib (flag b) p = assign-own (flag b) tt
stored-raw lib (int b) p = assign-own (int b) tt
stored-raw lib (float b) p = assign-own (float b) tt
stored-raw lib (object t n) p = assign-own (object t n) tt

module _ (lfu : TinyLfu) (lib : Library) (draw : ℕ → ℕ) (c : Config) where
  get_inner-found :
      (s : lfu.Store) (key : Key) (v held : Value) (raw : Bool)
      → IsPlain v
      → (lfu.fetch s key).1 ≡ some held
      → (get_inner lfu lib draw c s key (receiver_of v) raw).1 ≡ stored lib raw held (receiver_of v)
  unfolding get_inner
  get_inner-found s key nil_value held raw p e = absurd p
  get_inner-found s key (pointer v) held raw p e = absurd p
  get_inner-found s key (bytes b) held raw p e = rw e
  get_inner-found s key (text b) held raw p e = rw e
  get_inner-found s key (flag b) held raw p e = rw e
  get_inner-found s key (int b) held raw p e = rw e
  get_inner-found s key (float b) held raw p e = rw e
  get_inner-found s key (object t b) held raw p e = rw e

  get_inner-set_value :
      (s : lfu.Store) (key : Key) (v : Value) (now : ℤ) (t : ℕ) (raw : Bool)
      → Keeps lfu
      → IsCodec lib
      → IsPlain v
      → IsVisible lib v raw
      → (get_inner lfu lib draw c
          (set_value lfu lib draw c s key v now t raw).0
          key
          (receiver_of v)
          raw).1
        ≡ wrote v
  unfolding set_value stored
  get_inner-set_value s key v now t true keeps k p seen =
      get_inner-found _ key v v true p
        (keeps s (record { key = key; value = v; expire_at = expiry now t }))
      ∙ stored-raw lib v p
  get_inner-set_value s key v now t false keeps k p (x, b, m) = rw m (
      get_inner-found _ key v (bytes (x ∷ b)) false p
        (keeps s (record { key = key; value = bytes (x ∷ b); expire_at = expiry now t }))
      ∙ unmarshal-marshal lib k v x b p m)

  from_put :
      (s s' : lfu.Store) (key : Key) (v : Value) (now : ℤ) (t : ℕ) (raw : Bool)
      → some (set_value lfu lib draw c s key v now t raw) ≡ some (s', ok tt)
      → (s0 : lfu.Store) × (u : ℕ) × (s' ≡ (set_value lfu lib draw c s0 key v now u raw).0)
  from_put s s' key v now t raw h =
      let p : set_value lfu lib draw c s key v now t raw ≡ (s', ok tt) = cc in
      (s, t, sym (ap (λ q. q.0) p))

  set_options-put :
      (s s' : lfu.Store) (key : Key) (v : Value) (now : ℤ) (opt : Options)
      → set_options lfu lib draw c s key v now opt ≡ some (s', ok tt)
      → (s0 : lfu.Store) × (t : ℕ) × (s' ≡ (set_value lfu lib draw c s0 key v now t opt.raw).0)
  unfolding set_options
  set_options-put s s' key v now opt h = elim (Option-cases (fix_ttl draw c opt.ttl opt)) [
    | inl n ↦ absurd (let g = rw (set_options, n) at h in cc)
    | inr (t, e) ↦ elim (Bool-cases opt.set_xx) [
      | inl xx ↦ elim (Bool-cases (is_found lfu lib draw c (lfu.fetch s key).1)) [
        | inl f ↦ from_put _ s' key v now t opt.raw (rw (set_options, e, xx, f) at h)
        | inr f ↦ absurd (let g = rw (set_options, e, xx, f) at h in cc)
      ]
      | inr xx ↦ elim (Bool-cases opt.set_nx) [
        | inl nx ↦ elim (Bool-cases (is_found lfu lib draw c (lfu.fetch s key).1)) [
          | inl f ↦ absurd (let g = rw (set_options, e, xx, nx, f) at h in cc)
          | inr f ↦ from_put _ s' key v now t opt.raw (rw (set_options, e, xx, nx, f) at h)
        ]
        | inr nx ↦ from_put s s' key v now t opt.raw (rw (set_options, e, xx, nx) at h)
      ]
    ]
  ]

  -- What a successful set stores under a key, in any of its modes, a read of that key returns to a
  -- receiver of the value's type. The store holds what was just put into it, the codecs read what
  -- they wrote, and the value is raw or is marshalled to at least one byte.
  pub get_inner-set_options :
      (s s' : lfu.Store) (key : Key) (v : Value) (now : ℤ) (opt : Options)
      → Keeps lfu
      → IsCodec lib
      → IsPlain v
      → IsVisible lib v opt.raw
      → set_options lfu lib draw c s key v now opt ≡ some (s', ok tt)
      → (get_inner lfu lib draw c s' key (receiver_of v) opt.raw).1 ≡ wrote v
  get_inner-set_options s s' key v now opt keeps k p seen h =
      let (s0, t, e) = set_options-put s s' key v now opt h in
      ap (λ x. (get_inner lfu lib draw c x key (receiver_of v) opt.raw).1) e
      ∙ get_inner-set_value s0 key v now t opt.raw keeps k p seen
