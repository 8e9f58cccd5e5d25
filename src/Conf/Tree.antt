-- ===== src/Conf/Tree.antt =====
-- The configurations below a configuration, of pkg/conf/config.go, and `Parser.Sub` of parse.go. What
-- koanf keeps is the type K; its operations are parts of the record Koanf.
use woocoo.Base.{
  ◌≡◌, ap, Bool, true, false, not, ◌&&◌, List, [], ◌∷◌, ◌++◌, Option, none, some, if◌then◌else◌,
}
use woocoo.Web.{Text}

pub data ConfError : Type 0 where
  key_not_exists not_a_map : Text → ConfError
  index_out_of_range : ConfError

pub data Unless (A : Type 0) : Type 0 where
  gives : A → Unless A
  panics : ConfError → Unless A

-- `Join`; `none` is the panic of an index out of range.
abbrev pub dotted : Text → List Text → Text
dotted p [] = p
dotted p (q ∷ ps) = p ++ b'.' ∷ dotted q ps

abbrev pub join_keys : List Text → Option Text
join_keys [] = none
join_keys ([] ∷ ps) = join_keys ps
join_keys ((c ∷ p) ∷ ps) = some (dotted (c ∷ p) ps)

module _ (K : Type 0) where
  -- The operations of koanf that are used; `raw_keys` is in the order of the map.
  pub record Koanf : Type 0 where
    pub exists : K → Text → Bool
    pub cut : K → Text → K
    pub get_is_nil : K → Text → Bool
    pub slices : K → Text → List K
    pub map_keys : K → Text → List Text
    pub raw_keys : K → List Text
    pub keys : K → List Text

  -- A configuration without its root: the base directory and `Development` stay with it.
  pub record Node : Type 0 where
    pub operator : K
    pub basedir : Text
    pub development : Bool

  pub record Configuration : Type 0 where
    pub node : Node
    pub top : Option Node

  -- `Root`: the configuration itself where the field is nil.
  abbrev pub root : Configuration → Node
  root c = elim c.top [ none ↦ c.node | some n ↦ n ]

  abbrev pub is_nil_list : List Text → Bool
  is_nil_list [] = true
  is_nil_list (k ∷ ks) = false

  -- `Parser.Sub`.
  unfoldable pub sub_parser : Koanf → K → Text → Unless K
  sub_parser ops k key =
      if not (ops.exists k key)
      then panics (key_not_exists key)
      else if is_nil_list (ops.raw_keys (ops.cut k key)) && not (ops.get_is_nil k key)
      then panics (not_a_map key)
      else gives (ops.cut k key)

  -- `passRoot` after the parser has been replaced.
  abbrev pub below : Configuration → K → Configuration
  below c k = record { node = record c.node { operator = k }; top = some (root c) }

  abbrev with_parser : Configuration → Unless K → Unless Configuration
  with_parser c (panics e) = panics e
  with_parser c (gives k) = gives (below c k)

  unfoldable pub sub : Koanf → Configuration → Text → Unless Configuration
  unfolding sub_parser
  sub ops c [] = gives c
  sub ops c (p ∷ path) = with_parser c (sub_parser ops c.node.operator (p ∷ path))

  unfoldable pub cut_from_operator : Configuration → K → Configuration
  cut_from_operator c k = below c k

  -- `getRoot` in `Each`: the key of an item with one key.
  abbrev pub root_key : List Text → Text
  root_key (k ∷ []) = k
  root_key _ = []

  -- What `Each` hands to the callback for one item.
  unfoldable pub each_item : Koanf → Configuration → K → Text × Configuration
  unfolding cut_from_operator
  each_item ops c k = elim (root_key (ops.raw_keys k)) [
    | [] ↦ ([], cut_from_operator c k)
    | r ∷ name ↦ (
      r ∷ name,
      if is_nil_list (ops.keys (ops.cut k (r ∷ name)))
          then cut_from_operator c k
          else cut_from_operator c (ops.cut k (r ∷ name)),
    )
  ]

  abbrev each_of : Koanf → Configuration → List K → List (Text × Configuration)
  each_of ops c [] = []
  each_of ops c (k ∷ ks) = each_item ops c k ∷ each_of ops c ks

  -- The calls of the callback by `Each`.
  unfoldable pub each : Koanf → Configuration → Text → List (Text × Configuration)
  unfolding each_item
  each ops c path = each_of ops c (ops.slices c.node.operator path)

  abbrev sub_at : Koanf → Configuration → Option Text → Unless Configuration
  sub_at ops c none = panics index_out_of_range
  sub_at ops c (some path) = sub ops c path

  abbrev called : Text → Unless Configuration → Text × Unless Configuration
  called op c = (op, c)

  abbrev map_of : Koanf → Configuration → Text → List Text → List (Text × Unless Configuration)
  map_of ops c path [] = []
  map_of ops c path (op ∷ ops') =
      called op (sub_at ops c (join_keys (path ∷ op ∷ []))) ∷ map_of ops c path ops'

  -- The calls of the callback by `Map`, up to the first panic.
  unfoldable pub map_calls : Koanf → Configuration → Text → List (Text × Unless Configuration)
  unfolding sub
  map_calls ops c path = map_of ops c path (ops.map_keys c.node.operator path)

  -- A configuration below another has the root of the other.
  pub root-sub :
      (ops : Koanf) (c d : Configuration) (path : Text) → sub ops c path ≡ gives d → root d ≡ root c
  unfolding sub
  root-sub ops c d [] h = ap root (gives-eq h)
    where
      gives-eq : {a b : Configuration} → gives a ≡ gives b → b ≡ a
      gives-eq e = cc
  root-sub ops c d (p ∷ path) h = go (sub_parser ops c.node.operator (p ∷ path)) h
    where
      gives-eq : {a b : Configuration} → gives a ≡ gives b → b ≡ a
      gives-eq e = cc

      go : (r : Unless K) → with_parser c r ≡ gives d → root d ≡ root c
      go (panics e) e' = absurd cc
      go (gives k) e' = ap root (gives-eq e')
