-- ===== src/Cache/Manager.antt =====
-- The cache manager of pkg/cache/global.go: the registered drivers and the default one.
--
-- A cache is opaque. The map is an association list, of which the first entry of a name counts. The
-- functions `Get`, `Set`, `Has`, `Del` and `IsNotFound` call the default driver, and panic without one.
use woocoo.Base.{
  ℕ, ◌≡◌, refl, ap, List, [], ◌∷◌, Option, none, some, same_text, same_text_refl, arith,
  if◌then◌else◌,
}
use woocoo.Cache.{Key, driver_name_miss, already_registered, not_registered, Result, ok, err}

module _ {C : Type 0} where
  abbrev pub driver : List (Key × C) → Key → Option C
  driver [] name = none
  driver ((n, c) ∷ ds) name = if same_text n name then some c else driver ds name

  -- `delete`.
  abbrev pub without : List (Key × C) → Key → List (Key × C)
  without [] name = []
  without ((n, c) ∷ ds) name =
      let rest = without ds name in if same_text n name then rest else (n, c) ∷ rest

-- The two package variables `_manager` and `_defaultDriver`.
pub record Manager (C : Type 0) : Type 0 where
  pub drivers : List (Key × C)
  pub default_driver : Option C

module _ {C : Type 0} where
  unfoldable pub set_default : Manager C → Key → Manager C
  set_default m name = record m { default_driver = driver m.drivers name }

  -- The first driver becomes the default.
  unfoldable pub set_first : List (Key × C) → Manager C → Key → Manager C
  unfolding set_default
  set_first [] m name = set_default m name
  set_first (d ∷ ds) m name = m

  -- `RegisterCache` behind its checks.
  unfoldable pub add_driver : Manager C → Key → C → Manager C
  unfolding set_first
  add_driver m name c = set_first m.drivers (record m { drivers = (name, c) ∷ m.drivers }) name

  unfoldable pub register_cache : Manager C → Key → C → Manager C × Result (Unit {0})
  unfolding add_driver
  register_cache m [] c = (m, err driver_name_miss)
  register_cache m (x ∷ name) c = elim (driver m.drivers (x ∷ name)) [
    | some d ↦ (m, err already_registered)
    | none ↦ (add_driver m (x ∷ name) c, ok tt)
  ]

  unfoldable pub unregister_cache : Manager C → Key → Manager C
  unregister_cache m name = record m { drivers = without m.drivers name }

  unfoldable pub get_cache : Manager C → Key → Result C
  get_cache m name = elim (driver m.drivers name) [ none ↦ err not_registered | some c ↦ ok c ]

  driver-without : (ds : List (Key × C)) (name : Key) → driver (without ds name) name ≡ none
  driver-without [] name = refl
  driver-without ((n, c) ∷ ds) name = ground (arith, driver-without ds name)

  set_first-drivers :
      (ds : List (Key × C)) (m : Manager C) (name : Key) → (set_first ds m name).drivers ≡ m.drivers
  unfolding set_first set_default
  set_first-drivers [] m name = refl
  set_first-drivers (d ∷ ds) m name = refl

  register_cache-fresh :
      (m : Manager C) (x : ℕ) (name : Key) (c : C)
      → driver m.drivers (x ∷ name) ≡ none
      → register_cache m (x ∷ name) c ≡ (add_driver m (x ∷ name) c, ok tt)
  unfolding register_cache
  register_cache-fresh m x name c e = rw (register_cache, e)

  add_driver-drivers :
      (m : Manager C) (name : Key) (c : C) → (add_driver m name c).drivers ≡ (name, c) ∷ m.drivers
  unfolding add_driver
  add_driver-drivers m name c = set_first-drivers m.drivers _ name

  get_cache-driver :
      (m : Manager C) (name : Key)
      → get_cache m name ≡ err not_registered
      → driver m.drivers name ≡ none
  unfolding get_cache
  get_cache-driver m name h = ground arith

  get_cache-added :
      (m : Manager C) (name : Key) (c : C) → get_cache (add_driver m name c) name ≡ ok c
  unfolding get_cache
  get_cache-added m name c = rw (add_driver-drivers m name c, get_cache, same_text_refl name)

  unregistered : (m : Manager C) (name : Key) → driver (unregister_cache m name).drivers name ≡ none
  unfolding unregister_cache
  unregistered m name = driver-without m.drivers name

  get_cache-unregistered :
      (m : Manager C) (name : Key) → get_cache (unregister_cache m name) name ≡ err not_registered
  unfolding get_cache
  get_cache-unregistered m name = rw (get_cache, unregistered m name)

  -- A registration under a name that is not empty and not taken succeeds, and the name then gives the
  -- cache. After an unregistration of the name it gives the error of an unknown name, and registering
  -- another cache under it succeeds again.
  pub register_cache-get_cache :
      (m : Manager C) (x : ℕ) (name : Key) (c d : C)
      → get_cache m (x ∷ name) ≡ err not_registered
      → ((register_cache m (x ∷ name) c).1 ≡ ok tt)
        × (get_cache (register_cache m (x ∷ name) c).0 (x ∷ name) ≡ ok c)
        × (get_cache (unregister_cache (register_cache m (x ∷ name) c).0 (x ∷ name)) (x ∷ name)
            ≡ err not_registered)
        × ((register_cache
              (unregister_cache (register_cache m (x ∷ name) c).0 (x ∷ name))
              (x ∷ name)
              d).1
            ≡ ok tt)
  register_cache-get_cache m x name c d h =
      let e = register_cache-fresh m x name c (get_cache-driver m (x ∷ name) h) in
      rw e (
        refl,
        get_cache-added m (x ∷ name) c,
        get_cache-unregistered _ (x ∷ name),
        ap (λ r. r.1) (register_cache-fresh _ x name d (unregistered _ (x ∷ name))),
      )
