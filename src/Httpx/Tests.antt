-- ===== src/Httpx/Tests.antt =====
-- Paths and headers, and the theorem at one.
use woocoo.Base.{ℕ, ◌≡◌, refl, false, [], ◌∷◌, List, some, arith, codes}
use woocoo.Web.{Request, ok}
use woocoo.Web.Extractor.{values_from_header}
use woocoo.Httpx.{escape_path, get_uri_path, values_from_canonical, get_signed_request_signature}
use woocoo.Httpx.Escape.{Decodes, escape_path-Decodes}

program : Unit {0}
unfolding escape_path get_uri_path values_from_canonical get_signed_request_signature
    values_from_header
program = tt

abbrev path : List ℕ
path = codes "/a b"

escaped : escape_path path false ≡ codes "/a%20b"
unfolding program
escaped = refl

opaque_path : get_uri_path (codes "//host/a/b") [] ≡ some (codes "/a/b")
unfolding program
opaque_path = refl

fields :
    values_from_canonical (codes "a=1, b=2=3, c") (codes ", ") (codes "=")
    ≡ (codes "a", codes "1") ∷ (codes "b", codes "2=3") ∷ []
unfolding program
fields = refl

abbrev request : List ℕ → Request
request auth = record {
  header_values = λ name. auth ∷ [];
  query_array = λ name. [];
  params = [];
  cookies = [];
  form = λ name. [];
}

signature :
    get_signed_request_signature
      (request (codes "T a=1, Signature=xyz"))
      []
      (codes "T ")
      (codes ", ")
    ≡ ok (codes "xyz")
unfolding program
signature = refl

-- A field whose name ends in "Signature" is taken for the signature, and cut at the wrong place.
wrong_signature :
    get_signed_request_signature
      (request (codes "T X-Signature=ab, Signature=xyz"))
      []
      (codes "T ")
      (codes ", ")
    ≡ ok (codes "e=ab")
unfolding program
wrong_signature = refl

escape_path-Decodes_example : Decodes (escape_path path false) path
escape_path-Decodes_example =
    escape_path-Decodes path false (omega arith, (omega arith, (omega arith, (omega arith, tt))))
