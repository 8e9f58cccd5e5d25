-- ===== src/Web/GzipTests.antt =====
-- Responses through a writer that holds back what it is given, and the theorem about them there.
use mathlib.Core.List.{append-nil, append_assoc}
use woocoo.Base.{
  ◌≡◌, ◌∙◌, refl, sym, ap, true, false, List, [], ◌∷◌, ◌++◌, Option, none, some, codes,
}
use woocoo.Web.{Text}
use woocoo.Web.Gzip.{GzipWriter, serve_zipped, should_compress, default_excluded}
use woocoo.Web.Gzip.ReadBack.{
  Decodes, emitted, concatenated, read_response, serve_zipped-read_response,
}

-- All is put out at the end, behind a mark.
abbrev holding : GzipWriter Text
holding = record {
  fresh = [];
  write_gzip = λ w bytes. (w ++ bytes, []);
  close_gzip = λ w. b'!' ∷ w;
}

abbrev behind_mark : Text → Option Text
behind_mark [] = none
behind_mark (c ∷ s) = some s

emitted-holding :
    (w : Text) (writes : List Text)
    → emitted Text holding w writes ≡ b'!' ∷ (w ++ concatenated writes)
emitted-holding w [] = ap (λ t. b'!' ∷ t) (sym (append-nil w))
emitted-holding w (bytes ∷ more) =
    emitted-holding (w ++ bytes) more
    ∙ ap (λ t. b'!' ∷ t) (append_assoc w bytes (concatenated more))

holding-Decodes : Decodes Text holding behind_mark
holding-Decodes = record { reads = λ writes. ap behind_mark (emitted-holding [] writes) }

serve_zipped-read_response_example :
    read_response behind_mark
      (serve_zipped Text holding 2 false (codes "ab" ∷ codes "cde" ∷ [])).zipped
      (serve_zipped Text holding 2 false (codes "ab" ∷ codes "cde" ∷ [])).body
    ≡ some (codes "abcde")
serve_zipped-read_response_example =
    serve_zipped-read_response Text holding behind_mark holding-Decodes 2 false true (codes "ab")
      (codes "cde" ∷ []) (refl, (refl, tt))

-- A short write behind a long one is put out as it is, and the compressed stream has no end.
mixes :
    serve_zipped Text holding 2 false (codes "ab" ∷ codes "c" ∷ [])
    ≡ record { zipped = true; body = codes "c" }
unfolding serve_zipped
mixes = refl

-- Without a write, the end of a stream is put out where the last use of the writer compressed.
stale_end : serve_zipped Text holding 2 true [] ≡ record { zipped = false; body = codes "!" }
unfolding serve_zipped
stale_end = refl

-- The extension of a path has a dot, which the default list leaves out.
compresses_jpg :
    should_compress default_excluded (record {
      method = codes "GET";
      accept_encoding = codes "br, gzip";
      extension = codes ".jpg";
    })
    ≡ true
unfolding should_compress
compresses_jpg = refl
