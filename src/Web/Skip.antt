-- ===== src/Web/Skip.antt =====
-- The paths that web/handler/middleware.go excludes from a middleware.
use woocoo.Base.{
  ℕ, ◌≡◌, refl, ap, Bool, true, false, List, [], ◌∷◌, ◌++◌, ◌==◌, if◌then◌else◌, same_text,
}
use woocoo.Web.{Text}

abbrev pub trimmed : ℕ → Text → Text
trimmed c [] = if c == b'/' then [] else c ∷ []
trimmed c (d ∷ s) = c ∷ d ∷ s

-- `strings.TrimRight` by "/".
abbrev pub trim_right : Text → Text
trim_right [] = []
trim_right (c ∷ s) = trimmed c (trim_right s)

abbrev pub rooted : Text → Text
rooted [] = b'/' ∷ []
rooted (c ∷ s) = if c == b'/' then c ∷ s else b'/' ∷ c ∷ s

-- A look-up in the map of `StringsToMap`.
abbrev pub in_map : List Text → Text → Bool
in_map [] src = false
in_map (v ∷ vs) src = let rest = in_map vs src in if same_text v src then true else rest

unfoldable pub path_skip : List Text → Text → Bool
path_skip pm path = in_map pm (rooted (trim_right path))

-- `PathSkipper`, at the path of a request.
unfoldable pub path_skipper : List Text → Text → Bool
unfolding path_skip
path_skipper [] path = false
path_skipper (v ∷ exclude) path = path_skip (v ∷ exclude) path

trim_right-slash : (path : Text) → trim_right (path ++ b'/' ∷ []) ≡ trim_right path
trim_right-slash [] = refl
trim_right-slash (c ∷ path) = ap (trimmed c) (trim_right-slash path)

-- A slash at the end of the request's path changes nothing: the middleware is skipped for the path
-- with the slash exactly when it is skipped for the path without it.
pub path_skipper-slash :
    (exclude : List Text) (path : Text)
    → path_skipper exclude (path ++ b'/' ∷ []) ≡ path_skipper exclude path
unfolding path_skipper path_skip
path_skipper-slash [] path = refl
path_skipper-slash (v ∷ exclude) path =
    ap (λ p. in_map (v ∷ exclude) (rooted p)) (trim_right-slash path)
