-- ===== src/Conf/Tests.antt =====
-- Texts with variables, and the theorem about them; keys and files.
use woocoo.Base.{◌≡◌, refl, [], ◌∷◌, ◌++◌, Option, none, some, codes, same_text, if◌then◌else◌}
use woocoo.Web.{Text}
use woocoo.Conf.Env.{parse_env, try_load_env}
use woocoo.Conf.Expand.{Expands, parse_env_iff}
use woocoo.Conf.Tree.{join_keys}

abbrev variables : Text → Text
variables name = if same_text name (codes "A b") then codes "${A b}1" else []

abbrev source : Text
source = codes "x${ A b }y${}$${-}${c}"

expands : parse_env variables source ≡ codes "x${A b}1y${}$${-}"
unfolding parse_env
expands = refl

parse_env_iff_example :
    (Expands variables source (parse_env variables source)
      → parse_env variables source ≡ parse_env variables source)
    × (parse_env variables source ≡ parse_env variables source
        → Expands variables source (parse_env variables source))
parse_env_iff_example = parse_env_iff variables source (parse_env variables source)

skips_empty : join_keys ([] ∷ codes "a" ∷ codes "b" ∷ []) ≡ some (codes "a.b")
skips_empty = refl

no_keys : join_keys ([] ∷ []) ≡ none
no_keys = refl

abbrev joined : Text → Text → Text
joined dir name = dir ++ b'/' ∷ name

-- The local file goes before the general one.
abbrev files : Text → Option Text
files path =
    if same_text path (codes "d/.env")
    then some (codes "1")
    else if same_text path (codes "d/.env.local")
    then some (codes "2")
    else none

later_file :
    try_load_env joined files (λ bytes. some ((codes "K", bytes) ∷ [])) (codes "d") [] []
    ≡ (codes "K", codes "2") ∷ []
unfolding try_load_env
later_file = refl
