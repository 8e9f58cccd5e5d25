-- ===== src/Cache/Lfu.antt =====
-- pkg/cache/lfu/cache.go: the memory cache over the TinyLFU store, which is a parameter.
--
-- The mutex makes each method one step, so a method is a function from a store to a store. `now` is
-- the clock of the call, and `draw n` the number that the random source gives for `Int63n(n)`.
pub mod Expiry
pub mod Laws
use woocoo.Base.{
  ℕ, ◌+◌, ◌/◌, ◌≡◌, Bool, true, false, not, ◌&&◌, Option, none, some, ltb, leb, ◌==◌, if◌then◌else◌,
}
use woocoo.Base.Int.{ℤ, pos, negsuc, ltb_ℤ, ◌+ℤ◌}
use woocoo.Cache.{
  Bytes, Key, Value, nil_value, bytes, text, flag, int, float, object, pointer, Receiver,
  nil_receiver, not_pointer, to_bytes, to_text, to_flag, to_int, to_float, to_object, CacheError,
  cache_miss, receiver_must_pointer, value_receiver_nil, not_bytes, key_not_exist,
  key_already_exist, Result, ok, err, Read, unchanged, wrote, failed, panicked, Options, is,
  skip_remote,
}
use woocoo.Cache.Codec.{Library, marshal, unmarshal}

-- `tinylfu.Item`; `none` is the zero time, at which an item does not expire.
pub record Item : Type 0 where
  pub key : Key
  pub value : Value
  pub expire_at : Option ℤ

-- github.com/vmihailenco/go-tinylfu. A read changes the store, which counts it.
pub record TinyLfu : Type 1 where
  pub Store : Type 0
  pub fresh : (size samples : ℕ) → Store
  pub fetch : Store → Key → Store × Option Value
  pub put : Store → Item → Store
  pub drop : Store → Key → Store

-- The fields of `Config` and `TinyLFU` that the methods read. Durations here are not negative.
pub record Config : Type 0 where
  pub size : ℕ
  pub samples : ℕ
  pub ttl : ℕ
  pub deviation : ℕ
  pub subsidiary : Bool
  pub offset : ℕ

-- `maxOffset`.
abbrev pub max_offset : ℕ
max_offset = 10000000000

-- The offset that `Apply` computes; `none` is the panic of a division by zero.
unfoldable pub apply_offset : Config → Option Config
apply_offset c =
    if c.subsidiary
    then if c.deviation == 0
      then none
      else (let offset = c.ttl / c.deviation in
          some (record c { offset = if ltb max_offset offset then max_offset else offset }))
    else some c

-- `rand.Int63n`, which panics if its bound is 0.
abbrev pub int63n : (ℕ → ℕ) → ℕ → Option ℕ
int63n draw n = if n == 0 then none else some (draw n)

abbrev pub add_to : ℕ → Option ℕ → Option ℕ
add_to ttl none = none
add_to ttl (some n) = some (ttl + n)

abbrev pub capped : Config → ℤ → Options → ℤ
capped c ttl opt =
    if c.subsidiary && not (is opt.skip skip_remote)
    then if ltb_ℤ (pos c.ttl) ttl then pos c.ttl else ttl
    else ttl

abbrev pub or_default : Config → ℤ → ℕ
or_default c (negsuc n) = c.ttl
or_default c (pos n) = if n == 0 then c.ttl else n

-- `fixTTL`; `none` is a panic.
unfoldable pub fix_ttl : (ℕ → ℕ) → Config → ℤ → Options → Option ℕ
fix_ttl draw c ttl opt =
    let base = or_default c (capped c ttl opt) in
    if ltb 0 c.offset
    then if leb c.ttl base
      then add_to base (int63n draw c.offset)
      else if c.deviation == 0
      then none
      else add_to base (int63n draw (base / c.deviation))
    else some base

-- The type switch of `GetInner` for raw values: an assertion of another type panics.
unfoldable pub assign : Value → Receiver → Read
assign nil_value r = unchanged
assign (text s) to_text = wrote (text s)
assign (bytes b) to_bytes = wrote (bytes b)
assign (flag b) to_flag = wrote (flag b)
assign (int n) to_int = wrote (int n)
assign (float x) to_float = wrote (float x)
assign (object t n) (to_object u) = if t == u then wrote (object t n) else panicked
assign v not_pointer = failed receiver_must_pointer
assign v nil_receiver = failed value_receiver_nil
assign v r = panicked

unfoldable pub stored : Library → Bool → Value → Receiver → Read
unfolding assign unmarshal
stored lib raw nil_value r = unchanged
stored lib true v r = assign v r
stored lib false (bytes b) r = unmarshal lib b r
stored lib false v r = failed not_bytes

abbrev pub expiry : ℤ → ℕ → Option ℤ
expiry now ttl = if ttl == 0 then none else some (now +ℤ pos ttl)

module _ (lfu : TinyLfu) (lib : Library) (draw : ℕ → ℕ) (c : Config) where
  open lfu use {Store, fresh, fetch, put, drop}

  -- What `GetInner` does with what the store holds.
  abbrev pub found_read : Receiver → Bool → Option Value → Read
  found_read r raw none = failed cache_miss
  found_read r raw (some v) = stored lib raw v r

  unfoldable pub get_inner : Store → Key → Receiver → Bool → Store × Read
  get_inner s key nil_receiver raw = (s, failed value_receiver_nil)
  get_inner s key r raw = let (s', v) = fetch s key in (s', found_read r raw v)

  abbrev pub put_marshaled : Store → Key → ℤ → ℕ → Result Bytes → Store × Result (Unit {0})
  put_marshaled s key now ttl (ok b) =
      (put s (record { key = key; value = bytes b; expire_at = expiry now ttl }), ok tt)
  put_marshaled s key now ttl (err e) = (s, err e)

  unfoldable pub set_value : Store → Key → Value → ℤ → ℕ → Bool → Store × Result (Unit {0})
  unfolding marshal
  set_value s key v now ttl true =
      (put s (record { key = key; value = v; expire_at = expiry now ttl }), ok tt)
  set_value s key v now ttl false = put_marshaled s key now ttl (marshal lib v)

  -- `SetInner`; the outer `none` is a panic of `fixTTL`, after which the mutex is released.
  unfoldable pub set_inner :
      Store → Key → Value → ℤ → ℤ → Options → Option (Store × Result (Unit {0}))
  unfolding set_value fix_ttl
  set_inner s key v now ttl opt = elim (fix_ttl draw c ttl opt) [
    | none ↦ none
    | some t ↦ some (set_value s key v now t opt.raw)
  ]

  abbrev pub is_found : Option Value → Bool
  is_found none = false
  is_found (some v) = true

  -- `setOptions`, which is `Set` with the options applied.
  unfoldable pub set_options :
      Store → Key → Value → ℤ → Options → Option (Store × Result (Unit {0}))
  unfolding set_value fix_ttl
  set_options s key v now opt = elim (fix_ttl draw c opt.ttl opt) [
    | none ↦ none
    | some t ↦
        let (s', old) = fetch s key in
        if opt.set_xx
        then if is_found old
          then some (set_value s' key v now t opt.raw)
          else some (s', err key_not_exist)
        else if opt.set_nx
        then if is_found old
          then some (s', err key_already_exist)
          else some (set_value s' key v now t opt.raw)
        else some (set_value s key v now t opt.raw)
  ]

  -- `reflect.ValueOf(value).Elem().Set(reflect.ValueOf(v))` on a pointer; a nil interface panics.
  abbrev set_elem : Value → Receiver → Read
  set_elem nil_value r = panicked
  set_elem v r = assign v r

  abbrev after_set : Read → Option (Store × Result (Unit {0})) → Store → Store × Read
  after_set r none s = (s, panicked)
  after_set r (some (s', ok u)) s = (s', r)
  after_set r (some (s', err e)) s = (s', failed e)

  -- The part of `Get` behind the getter: the receiver is written, then the value is stored. An error
  -- of the second step is returned although the receiver is written.
  abbrev deliver : Store → Key → Receiver → Value → ℤ → Options → Store × Read
  deliver s key not_pointer v now opt = (s, failed receiver_must_pointer)
  deliver s key r v now opt = elim (set_elem v r) [
    | wrote w ↦ after_set (wrote w) (set_inner s key v now opt.ttl opt) s
    | other ↦ (s, other)
  ]

  abbrev load : Store → Key → Receiver → ℤ → Options → Option (Key → Result Value) → Store × Read
  load s key r now opt none = (s, failed cache_miss)
  load s key r now opt (some g) = elim (g key) [
    | err e ↦ (s, failed e)
    | ok v ↦ deliver s key r v now opt
  ]

  -- `Get`.
  unfoldable pub get : Store → Key → Receiver → ℤ → Options → Store × Read
  unfolding get_inner set_inner assign
  get s key r now opt =
      let (s', read) = get_inner s key r opt.raw in
      elim read [ failed cache_miss ↦ load s' key r now opt opt.getter_func | other ↦ (s', other) ]

  unfoldable pub has : Store → Key → Store × Bool
  has s key = let (s', v) = fetch s key in (s', is_found v)

  unfoldable pub del : Store → Key → Store
  del s key = drop s key

  unfoldable pub clean : Store → Store
  clean s = fresh c.size c.samples
