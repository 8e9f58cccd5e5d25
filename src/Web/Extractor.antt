-- ===== src/Web/Extractor.antt =====
-- web/handler/extractor.go, and `ValuesFromHeader` of pkg/httpx/util.go. Texts are ASCII, so that a
-- length counts bytes. `canonical` is the function `CanonicalMIMEHeaderKey` of net/textproto.
pub mod Limit
use woocoo.Base.{
  ℕ, ◌+◌, Bool, true, false, not, ◌&&◌, List, [], ◌∷◌, ◌++◌, leb, ltb, ◌==◌, if◌then◌else◌, codes,
  same_text, split, to_lower, length, take, drop,
}
use woocoo.Web.{
  Text, Request, Result, ok, err, header_missing, header_invalid, query_missing, param_missing,
  cookie_missing, form_missing, bad_lookup, no_extractors,
}

-- `ExtractorLimit`.
abbrev pub extractor_limit : ℕ
extractor_limit = 20

-- `strings.EqualFold` on ASCII.
abbrev pub equal_fold : Text → Text → Bool
equal_fold a b = same_text (to_lower a) (to_lower b)

-- The loop of `ValuesFromHeader`, from the index `i` on.
pub scan_header : Text → ℕ → ℕ → List Text → List Text
scan_header prefix len i [] = []
scan_header prefix len i (v ∷ vs) =
    let rest = scan_header prefix len (i + 1) vs in
    let after = if leb 19 i then [] else rest in
    if len == 0
    then v ∷ after
    else if ltb len (length v) && equal_fold (take len v) prefix
    then drop len v ∷ after
    else rest

abbrev pub unless_empty : Result (List Text) → List Text → Result (List Text)
unless_empty e [] = e
unless_empty e (v ∷ vs) = ok (v ∷ vs)

abbrev pub from_values : Text → ℕ → List Text → Result (List Text)
from_values prefix len [] = err header_missing
from_values prefix len (v ∷ vs) =
    unless_empty (if ltb 0 len then err header_invalid else ok [])
      (scan_header prefix len 0 (v ∷ vs))

-- `ValuesFromHeader`.
unfoldable pub values_from_header : Request → Text → Text → ℕ → Result (List Text)
unfolding scan_header
values_from_header r header prefix len = from_values prefix len (r.header_values header)

-- The loop over the parameters and over the cookies, from the index `i` on.
pub scan_pairs : Text → ℕ → List (Text × Text) → List Text
scan_pairs name i [] = []
scan_pairs name i ((key, value) ∷ ps) =
    let rest = scan_pairs name (i + 1) ps in
    if same_text name key then value ∷ (if leb 19 i then [] else rest) else rest

abbrev pub limited : List Text → List Text
limited vs = if ltb 19 (length vs) then take extractor_limit vs else vs

-- The functions that `CreateExtractors` makes.
pub data Extractor : Type 0 where
  values_from_query values_from_param values_from_cookie values_from_form : Text → Extractor
  from_header : (header prefix : Text) → Extractor

unfoldable pub extract : Extractor → Request → Result (List Text)
unfolding values_from_header scan_pairs
extract (values_from_query name) r = unless_empty (err query_missing) (limited (r.query_array name))
extract (values_from_param name) r = unless_empty (err param_missing) (scan_pairs name 0 r.params)
extract (values_from_cookie name) r =
    unless_empty (err cookie_missing) (scan_pairs name 0 r.cookies)
extract (values_from_form name) r = unless_empty (err form_missing) (limited (r.form name))
extract (from_header header prefix) r = values_from_header r header prefix (length prefix)

abbrev pub ends_with_space : Text → Bool
ends_with_space [] = false
ends_with_space (x ∷ []) = x == b' '
ends_with_space (x ∷ y ∷ s) = ends_with_space (y ∷ s)

abbrev pub scheme_prefix : Text → Text
scheme_prefix scheme = if ends_with_space scheme then scheme else scheme ++ b' ' ∷ []

abbrev pub is_empty : Text → Bool
is_empty [] = true
is_empty (x ∷ s) = false

-- The prefix of a header's values: the third part if there is one.
abbrev pub header_prefix : Text → Text → List Text → Text
header_prefix scheme name (prefix ∷ more) = prefix
header_prefix scheme name [] =
    if not (is_empty scheme) && same_text name (codes "Authorization")
    then scheme_prefix scheme
    else []

module _ (canonical : Text → Text) where
  -- The switch over the kind of a source; another kind makes no extractor.
  abbrev pub add_extractor : Text → Text → Text → List Text → List Extractor → List Extractor
  add_extractor scheme kind name more es =
      if same_text kind (codes "query")
      then values_from_query name ∷ es
      else if same_text kind (codes "param")
      then values_from_param name ∷ es
      else if same_text kind (codes "cookie")
      then values_from_cookie name ∷ es
      else if same_text kind (codes "form")
      then values_from_form name ∷ es
      else if same_text kind (codes "header")
      then from_header (canonical name) (header_prefix scheme name more) ∷ es
      else es

  abbrev pub with_source : Text → List Text → Result (List Extractor) → Result (List Extractor)
  with_source scheme (kind ∷ name ∷ more) (ok es) = ok (add_extractor scheme kind name more es)
  with_source scheme (kind ∷ name ∷ more) (err e) = err e
  with_source scheme parts rest = err bad_lookup

  pub from_sources : Text → List Text → Result (List Extractor)
  from_sources scheme [] = ok []
  from_sources scheme (source ∷ sources) =
      with_source scheme (split b':' source) (from_sources scheme sources)

  abbrev pub at_least_one : Result (List Extractor) → Result (List Extractor)
  at_least_one (ok []) = err no_extractors
  at_least_one es = es

  unfoldable pub create_extractors : Text → Text → Result (List Extractor)
  unfolding from_sources
  create_extractors [] scheme = ok []
  create_extractors (c ∷ lookups) scheme =
      at_least_one (from_sources scheme (split b',' (c ∷ lookups)))
