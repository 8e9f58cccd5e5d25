-- ===== src/Conf/Env.antt =====
-- `ParseEnv` and `TryLoadEnvFromFile` of pkg/conf/util.go, on ASCII. The environment is a map.
use woocoo.Base.{
  ℕ, zero, suc, Bool, true, false, ◌||◌, ◌&&◌, List, [], ◌∷◌, ◌++◌, Option, none, some, leb, ◌==◌,
  codes, length, is_digit, Dict, with_entry, if◌then◌else◌,
}
use woocoo.Web.{Text}

-- The class `[ \w]`.
abbrev pub is_name : ℕ → Bool
is_name c =
    c == b' ' || is_digit c || leb b'A' c && leb c b'Z' || c == b'_' || leb b'a' c && leb c b'z'

abbrev pub prefixed_by : ℕ → Option Text → Option Text
prefixed_by c none = none
prefixed_by c (some name) = some (c ∷ name)

-- `[ \w]*}` at the beginning of a text: the name before the brace.
unfoldable pub braced : Text → Option Text
braced [] = none
braced (c ∷ s) =
    let rest = braced s in
    if is_name c then prefixed_by c rest else if c == b'}' then some [] else none

-- A name of `[ \w]+` is not empty.
abbrev pub not_empty : Option Text → Option Text
not_empty none = none
not_empty (some []) = none
not_empty (some (c ∷ name)) = some (c ∷ name)

-- A match of `envRegexp` at the beginning of a text: the name between the braces.
unfoldable pub matched_name : Text → Option Text
unfolding braced
matched_name [] = none
matched_name (d ∷ []) = none
matched_name (d ∷ b ∷ s) = if d == b'$' && b == b'{' then not_empty (braced s) else none

-- `bytes.Trim` of blanks.
abbrev trim_left : Text → Text
trim_left [] = []
trim_left (c ∷ s) = let rest = trim_left s in if c == b' ' then rest else c ∷ s

abbrev trim_right_from : (blanks s : Text) → Text
trim_right_from blanks [] = []
trim_right_from blanks (c ∷ s) =
    let more = trim_right_from (blanks ++ c ∷ []) s in
    let rest = trim_right_from [] s in if c == b' ' then more else blanks ++ c ∷ rest

abbrev pub trimmed_name : Text → Text
trimmed_name s = trim_right_from [] (trim_left s)

-- `ReplaceAllFunc` with the environment; `skip` counts the characters left of the last match.
unfoldable pub replace_from : (env : Text → Text) → (skip : ℕ) → Text → Text
unfolding matched_name
replace_from env skip [] = []
replace_from env (suc skip) (c ∷ s) = replace_from env skip s
replace_from env zero (c ∷ s) = elim (matched_name (c ∷ s)) [
  | some name ↦ env (trimmed_name name) ++ replace_from env (suc (suc (length name))) s
  | none ↦ c ∷ replace_from env zero s
]

-- Whether there is a match at all.
unfoldable pub has_match : Text → Bool
unfolding matched_name
has_match [] = false
has_match (c ∷ s) = elim (matched_name (c ∷ s)) [ some name ↦ true | none ↦ has_match s ]

unfoldable pub parse_env : (env : Text → Text) → Text → Text
unfolding replace_from has_match
parse_env env src = if has_match src then replace_from env zero src else src

abbrev pub env_files : (mode : Text) → List Text
env_files [] = codes ".env" ∷ codes ".env.local" ∷ []
env_files (c ∷ mode) = codes ".env" ∷ codes ".env.local" ∷ (codes ".env." ++ c ∷ mode) ∷ []

abbrev set_all : Dict Text → Dict Text → Dict Text
set_all env [] = env
set_all env ((k, v) ∷ more) = set_all (with_entry env k v) more

module _ (join_path : Text → Text → Text) (read_file : Text → Option Text)
    (parse_file : Text → Option (Dict Text)) where
  abbrev load_file : Dict Text → Option Text → Dict Text
  load_file env none = env
  load_file env (some bytes) = elim (parse_file bytes) [ none ↦ env | some more ↦ set_all env more ]

  -- The loop over the files: one that is missing or not readable is passed over, and a later one goes
  -- before an earlier one.
  abbrev pub load_files : (scan : Text) → List Text → Dict Text → Dict Text
  load_files scan [] env = env
  load_files scan (name ∷ names) env =
      load_files scan names (load_file env (read_file (join_path scan name)))

  unfoldable pub try_load_env : (scan mode : Text) → Dict Text → Dict Text
  try_load_env scan mode env = load_files scan (env_files mode) env
