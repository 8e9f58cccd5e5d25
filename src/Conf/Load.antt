-- ===== src/Conf/Load.antt =====
-- The files of a configuration: `loadInternal`, `tryAbs` and `Abs` of pkg/conf/config.go, and
-- `LoadFileWithEnv` of parse.go. The file system, filepath and koanf are parts of the record Files.
use woocoo.Base.{Bool, true, false, List, [], ◌∷◌, Option, none, some, codes, Dict, if◌then◌else◌}
use woocoo.Web.{Text}
use woocoo.Conf.Env.{parse_env, try_load_env}

pub data LoadError : Type 0 where
  unreadable unloadable : Text → LoadError

-- A load that went on with a value, returned an error, or panicked for a missing file.
pub data Load (A : Type 0) : Type 0 where
  loaded : A → Load A
  load_failed : LoadError → Load A
  no_file : (path : Text) → Load A

module _ (K : Type 0) where
  pub record Files : Type 0 where
    pub is_abs : Text → Bool
    pub join_path : Text → Text → Text
    pub dir : Text → Text
    pub exists : Text → Bool
    -- `filepath.Abs` of a path in the working directory; `none` is its error.
    pub absolute : Text → Option Text
    pub read_file : Text → Option Text
    pub parse_env_file : Text → Option (Dict Text)
    pub variable : Dict Text → Text → Text
    pub load_bytes : K → Text → Option K
    pub strings : K → Text → Option (List Text)

  -- `tryAbs`: the path, and whether the file is there.
  abbrev found_at : Files → Option Text → Text → Text × Bool
  found_at fs none path = (path, false)
  found_at fs (some whole) path = (whole, fs.exists whole)

  unfoldable pub try_abs : Files → (basedir path : Text) → Text × Bool
  try_abs fs basedir path =
      if fs.is_abs path
      then (path, fs.exists path)
      else if fs.exists (fs.join_path basedir path)
      then (fs.join_path basedir path, true)
      else found_at fs (fs.absolute path) path

  -- `Abs`.
  unfoldable pub abs_path : Files → (basedir path : Text) → Text
  abs_path fs basedir [] = []
  abs_path fs basedir (c ∷ path) =
      if fs.is_abs (c ∷ path) then c ∷ path else fs.join_path basedir (c ∷ path)

  -- `LoadFileWithEnv`.
  unfoldable pub load_file_with_env : Files → Dict Text → K → Text → Load K
  load_file_with_env fs env k path = elim (fs.read_file path) [
    | none ↦ load_failed (unreadable path)
    | some bytes ↦ elim (fs.load_bytes k (parse_env (fs.variable env) bytes)) [
      | none ↦ load_failed (unloadable path)
      | some k' ↦ loaded k'
    ]
  ]

  -- The loop that makes the included files absolute.
  unfoldable pub include_paths : Files → (basedir : Text) → List Text → Load (List Text)
  unfolding try_abs
  include_paths fs basedir [] = loaded []
  include_paths fs basedir (v ∷ vs) =
      let (path, there) = try_abs fs basedir v in
      let rest = include_paths fs basedir vs in if there then with_path path rest else no_file path
    where
      with_path : Text → Load (List Text) → Load (List Text)
      with_path path (loaded paths) = loaded (path ∷ paths)
      with_path path (load_failed e) = load_failed e
      with_path path (no_file missing) = no_file missing

  -- The loop that loads them, one over the other.
  unfoldable pub attach_files : Files → Dict Text → K → List Text → Load K
  unfolding load_file_with_env
  attach_files fs env k [] = loaded k
  attach_files fs env k (path ∷ paths) = elim (load_file_with_env fs env k path) [
    | loaded k' ↦ attach_files fs env k' paths
    | load_failed e ↦ load_failed e
    | no_file missing ↦ no_file missing
  ]

  -- What follows the local file: the files of its key "includeFiles", or those of the options.
  abbrev attach_included : Files → Dict Text → K → Load (List Text) → Load K
  attach_included fs env k (loaded paths) = attach_files fs env k paths
  attach_included fs env k (load_failed e) = load_failed e
  attach_included fs env k (no_file missing) = no_file missing

  unfoldable pub load_included :
      Files → (basedir : Text) → (given : List Text) → Dict Text → K → Load K
  unfolding include_paths attach_files
  load_included fs basedir given env k = elim (fs.strings k (codes "includeFiles")) [
    | none ↦ attach_files fs env k given
    | some names ↦ attach_included fs env k (include_paths fs basedir names)
  ]

  -- `loadInternal`, from the parser: the files of the environment are read before the local file.
  unfoldable pub load_internal :
      Files → (basedir local_path : Text) → (given : List Text) → Dict Text → K → Load K
  unfolding load_included load_file_with_env
  load_internal fs basedir [] given env k = load_included fs basedir given env k
  load_internal fs basedir (c ∷ path) given env k =
      let env' =
        try_load_env fs.join_path fs.read_file fs.parse_env_file (fs.dir (c ∷ path)) [] env in
      elim (load_file_with_env fs env' k (c ∷ path)) [
        | loaded k' ↦ load_included fs basedir given env' k'
        | load_failed e ↦ load_failed e
        | no_file missing ↦ no_file missing
      ]
