-- ===== src/Web/Extractor/Limit.antt =====
-- How many values an extractor of web/handler/extractor.go gives.
use woocoo.Base.{ℕ, zero, suc, ◌+◌, ◌-◌, ◌≤◌, ◌≡◌, true, List, [], ◌∷◌, arith, ltb, length, take}
use woocoo.Web.{
  Text, Request, Result, ok, err, header_invalid, query_missing, param_missing, cookie_missing,
  form_missing,
}
use woocoo.Web.Extractor.{
  scan_header, scan_pairs, from_values, values_from_header, limited, unless_empty, Extractor,
  values_from_query, values_from_param, values_from_cookie, values_from_form, from_header, extract,
}

length-take : (n : ℕ) (xs : List Text) → length (take n xs) ≤ n
length-take zero xs = omega arith
length-take (suc n) [] = omega arith
length-take (suc n) (x ∷ xs) = let h = length-take n xs in omega arith

length-limited : (vs : List Text) → length (limited vs) ≤ 20
length-limited vs = ground (arith, length-take 20 vs)

length-scan_header :
    (prefix : Text) (len i : ℕ) (vs : List Text)
    → length (scan_header prefix len i vs) ≤ 1 + (19 - i)
unfolding scan_header
length-scan_header prefix len i [] = omega arith
length-scan_header prefix len i (v ∷ vs) = ground (arith, length-scan_header prefix len (i + 1) vs)

length-scan_pairs :
    (name : Text) (i : ℕ) (ps : List (Text × Text)) → length (scan_pairs name i ps) ≤ 1 + (19 - i)
unfolding scan_pairs
length-scan_pairs name i [] = omega arith
length-scan_pairs name i ((key, value) ∷ ps) = ground (arith, length-scan_pairs name (i + 1) ps)

abbrev pub IsCounted : List Text → Type 0
IsCounted vs = (1 ≤ length vs) × (length vs ≤ 20)

-- An error in place of an empty list.
unless_empty-IsCounted :
    (e : Result (List Text)) (xs vs : List Text)
    → ((ws : List Text) → e ≡ ok ws → ⊥)
    → length xs ≤ 20
    → unless_empty e xs ≡ ok vs
    → IsCounted vs
unless_empty-IsCounted e [] vs n l h = absurd (n vs h)
unless_empty-IsCounted e (x ∷ xs) vs n l h = let s : vs ≡ x ∷ xs = cc in rw s (omega arith, l)

from_values-IsCounted :
    (prefix : Text) (len : ℕ) (values vs : List Text)
    → from_values prefix len values ≡ ok vs
    → IsCounted vs
unfolding scan_header
from_values-IsCounted prefix len [] vs h = absurd cc
from_values-IsCounted prefix (suc n) (v ∷ values) vs h =
    let long : ltb 0 (suc n) ≡ true = ground arith in
    unless_empty-IsCounted (err header_invalid) _ vs (λ ws e. cc)
      (length-scan_header prefix (suc n) 0 (v ∷ values)) (rw long at h)
from_values-IsCounted prefix zero (v ∷ values) vs h =
    unless_empty-IsCounted (err header_invalid) (scan_header prefix 0 0 (v ∷ values)) vs
      (λ ws e. cc) (length-scan_header prefix 0 0 (v ∷ values)) h

-- An extractor that succeeds gives at least one value and at most 20, whatever the request holds.
pub extract-length :
    (e : Extractor) (r : Request) (vs : List Text)
    → extract e r ≡ ok vs
    → (1 ≤ length vs) × (length vs ≤ 20)
unfolding extract values_from_header
extract-length (values_from_query name) r vs h =
    unless_empty-IsCounted (err query_missing) _ vs (λ ws e. cc)
      (length-limited (r.query_array name)) h
extract-length (values_from_param name) r vs h =
    unless_empty-IsCounted (err param_missing) _ vs (λ ws e. cc) (length-scan_pairs name 0 r.params)
      h
extract-length (values_from_cookie name) r vs h =
    unless_empty-IsCounted (err cookie_missing) _ vs (λ ws e. cc)
      (length-scan_pairs name 0 r.cookies) h
extract-length (values_from_form name) r vs h =
    unless_empty-IsCounted (err form_missing) _ vs (λ ws e. cc) (length-limited (r.form name)) h
extract-length (from_header header prefix) r vs h =
    from_values-IsCounted prefix (length prefix) (r.header_values header) vs h
