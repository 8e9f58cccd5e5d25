-- ===== src/Cache.antt =====
-- pkg/cache: the values and options that the caches share (cache.go, option.go).
--
-- A Go value of type `any` is a `Value`; an object of a type that the caches do not look into is a
-- number with the number of its type. The receiver of a read is the type of the pointer that the
-- caller passes, and a read says what it writes there. Durations are integers in nanoseconds.
pub mod Codec
pub mod Lfu
pub mod Redisc
pub mod Manager
mod Tests
use Prim.Native.Nat.{bit_and}
use woocoo.Base.{
  ℕ, ◌*◌, Bool, true, false, not, List, Option, none, some, ◌==◌, if◌then◌else◌, ltb, ◌||◌, ◌+◌,
}
use woocoo.Base.Int.{ℤ, pos, negsuc, ltb_ℤ}

abbrev pub Bytes : Type 0
Bytes = List ℕ

abbrev pub Key : Type 0
Key = List ℕ

pub data Value : Type 0 where
  nil_value : Value
  bytes text : Bytes → Value
  flag : Bool → Value
  int float : ℕ → Value
  object : (type number : ℕ) → Value
  pointer : Value → Value

pub data Receiver : Type 0 where
  nil_receiver not_pointer to_bytes to_text to_flag to_int to_float : Receiver
  to_object : (type : ℕ) → Receiver

pub data CacheError : Type 0 where
  driver_name_miss cache_miss receiver_must_pointer value_receiver_nil : CacheError
  not_bytes unknown_compression codec_failed key_not_exist key_already_exist : CacheError
  not_registered already_registered : CacheError
  remote getter : ℕ → CacheError

pub data Result {ℓ} (A : Type ℓ) : Type ℓ where
  ok : A → Result A
  err : CacheError → Result A

-- `IsNotFound` of the caches.
abbrev pub is_not_found : CacheError → Bool
is_not_found cache_miss = true
is_not_found e = false

-- What a read does with the receiver.
pub data Read : Type 0 where
  unchanged : Read
  wrote : Value → Read
  failed : CacheError → Read
  panicked : Read

-- `SkipLocal`, `SkipRemote`, `SkipCache`.
abbrev pub skip_local : ℕ
skip_local = 1

abbrev pub skip_remote : ℕ
skip_remote = 2

abbrev pub skip_cache : ℕ
skip_cache = 3

pub any : ℕ → Bool
any f = not (f == 0)

unfoldable pub is : ℕ → ℕ → Bool
is f mode = not (bit_and f mode == 0)

pub record Options : Type 0 where
  pub ttl : ℤ
  pub getter_func : Option (Key → Result Value)
  pub set_xx : Bool
  pub set_nx : Bool
  pub skip : ℕ
  pub raw : Bool
  pub group : Bool

abbrev pub no_options : Options
no_options = record {
  ttl = pos 0;
  getter_func = none;
  set_xx = false;
  set_nx = false;
  skip = 0;
  raw = false;
  group = false;
}

-- The functions that `With…` returns.
pub data OptionFunc : Type 0 where
  with_ttl : ℤ → OptionFunc
  with_getter : (Key → Result Value) → OptionFunc
  with_set_xx with_set_nx with_raw with_group : OptionFunc
  with_skip : ℕ → OptionFunc

pub apply_option : Options → OptionFunc → Options
apply_option o (with_ttl t) = record o { ttl = t }
apply_option o (with_getter g) = record o { getter_func = some g }
apply_option o with_set_xx = record o { set_xx = true }
apply_option o with_set_nx = record o { set_nx = true }
apply_option o with_raw = record o { raw = true }
apply_option o with_group = record o { group = true }
apply_option o (with_skip s) = record o { skip = s }

apply_from : Options → List OptionFunc → Options
unfolding apply_option
apply_from o List.[] = o
apply_from o (List.◌∷◌ f fs) = apply_from (apply_option o f) fs

unfoldable pub apply_options : List OptionFunc → Options
unfolding apply_from
apply_options fs = apply_from no_options fs

abbrev pub second : ℕ
second = 1000000000

-- `defaultItemTTL`.
abbrev pub default_item_ttl : ℤ
default_item_ttl = pos (3600 * second)

abbrev pub is_zero : ℤ → Bool
is_zero (pos n) = n == 0
is_zero (negsuc n) = false

unfoldable pub expiration : Options → ℤ
expiration o = if is_zero o.ttl || not (ltb_ℤ o.ttl (pos second)) then o.ttl else default_item_ttl

pub record Stats : Type 0 where
  pub hits : ℕ
  pub misses : ℕ

-- A nil `*Stats` counts nothing. The counters stay below 2^64.
unfoldable pub add_hit : Option Stats → Option Stats
add_hit none = none
add_hit (some s) = some (record s { hits = s.hits + 1 })

unfoldable pub add_miss : Option Stats → Option Stats
add_miss none = none
add_miss (some s) = some (record s { misses = s.misses + 1 })
