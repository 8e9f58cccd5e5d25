-- ===== src/Httpx.antt =====
-- The texts of pkg/httpx/util.go: the escaped path, the path of a URL, the fields of a canonical text
-- and the signature in a header. A text is a list of bytes, below 256 each.
pub mod Escape
mod Tests
use woocoo.Base.{
  ℕ, zero, suc, ◌+◌, ◌-◌, ◌/◌, ◌%◌, Bool, true, false, not, ◌&&◌, ◌||◌, List, [], ◌∷◌, ◌++◌, Option,
  none, some, leb, ltb, ◌==◌, if◌then◌else◌, codes, same_text, split, length, take, drop,
}
use woocoo.Web.{Text, Request, Result, ok, err, header_invalid, user_error}
use woocoo.Web.Extractor.{values_from_header}

-- The table `noEscape` of pkg/httpx/signature.go.
abbrev pub no_escape : ℕ → Bool
no_escape c =
    (leb b'A' c && leb c b'Z')
    || (leb b'a' c && leb c b'z')
    || (leb b'0' c && leb c b'9')
    || c == b'-'
    || c == b'.'
    || c == b'_'
    || c == b'~'

-- A digit of the format %02X.
abbrev pub hex : ℕ → ℕ
hex n = if ltb n 10 then n + 48 else n + 55

unfoldable pub escape_path : List ℕ → Bool → List ℕ
escape_path [] encode_sep = []
escape_path (c ∷ path) encode_sep =
    let rest = escape_path path encode_sep in
    if no_escape c || (c == b'/' && not encode_sep)
    then c ∷ rest
    else b'%' ∷ hex (c / 16) ∷ hex (c % 16) ∷ rest

-- `strings.Join` with "/".
abbrev pub join_slash : List Text → Text
join_slash [] = []
join_slash (p ∷ []) = p
join_slash (p ∷ q ∷ ps) = p ++ b'/' ∷ join_slash (q ∷ ps)

abbrev pub or_root : Text → Text
or_root [] = b'/' ∷ []
or_root (c ∷ s) = c ∷ s

-- `getURIPath`, of the fields of a URL; `none` is the panic of a slice out of range.
unfoldable pub get_uri_path : (opaque escaped_path : Text) → Option Text
get_uri_path [] escaped_path = some (or_root escaped_path)
get_uri_path (c ∷ opaque) escaped_path =
    let parts = split b'/' (c ∷ opaque) in
    if ltb (length parts) 3 then none else some (b'/' ∷ join_slash (drop 3 parts))

abbrev pub has_prefix : Text → Text → Bool
has_prefix [] s = true
has_prefix (p ∷ ps) [] = false
has_prefix (p ∷ ps) (c ∷ s) = p == c && has_prefix ps s

-- `strings.Split` by a text that is not empty: the characters of a separator still to skip, and the
-- piece read so far.
abbrev pub split_text_from : Text → ℕ → Text → Text → List Text
split_text_from sep skip piece [] = piece ∷ []
split_text_from sep (suc skip) piece (c ∷ s) = split_text_from sep skip piece s
split_text_from sep zero piece (c ∷ s) =
    let cut = split_text_from sep (length sep - 1) [] s in
    let rest = split_text_from sep 0 (piece ++ c ∷ []) s in
    if has_prefix sep (c ∷ s) then piece ∷ cut else rest

abbrev pub split_text : Text → Text → List Text
split_text sep s = split_text_from sep 0 [] s

-- Where a text first stands in another.
abbrev pub cut_at : Text → Text → Text → Option (Text × Text)
cut_at sep before [] = none
cut_at sep before (c ∷ s) =
    let rest = cut_at sep (before ++ c ∷ []) s in
    if has_prefix sep (c ∷ s) then some (before, drop (length sep) (c ∷ s)) else rest

-- `ValuesFromCanonical`, with the entries of the map in the order in which they are written.
unfoldable pub values_from_pieces : Text → List Text → List (Text × Text)
values_from_pieces deli2 [] = []
values_from_pieces deli2 (p ∷ ps) =
    let rest = values_from_pieces deli2 ps in
    elim (cut_at deli2 [] p) [ none ↦ rest | some kv ↦ kv ∷ rest ]

unfoldable pub values_from_canonical : (src deli1 deli2 : Text) → List (Text × Text)
unfolding values_from_pieces
values_from_canonical src deli1 deli2 = values_from_pieces deli2 (split_text deli1 src)

abbrev pub signature_elem : Text
signature_elem = codes "Signature="

abbrev pub found_signature : Text → Result Text
found_signature [] = err (user_error 0)
found_signature (c ∷ s) = ok (c ∷ s)

-- The loop of `GetSignedRequestSignature`: `p[len(signatureElem):]` for the first piece that has the
-- element anywhere.
unfoldable pub signature_in : List Text → Result Text
signature_in [] = err (user_error 1)
signature_in (p ∷ ps) = elim (cut_at signature_elem [] p) [
  | none ↦ signature_in ps
  | some place ↦ found_signature (drop (length signature_elem) p)
]

abbrev pub first_value : List Text → Text
first_value [] = []
first_value (v ∷ vs) = v

unfoldable pub get_signed_request_signature : Request → (header scheme delt : Text) → Result Text
unfolding signature_in
get_signed_request_signature r header scheme delt =
    elim (values_from_header r header scheme (length scheme)) [
      | err e ↦ err e
      | ok auth ↦ signature_in (split_text delt (first_value auth))
    ]
