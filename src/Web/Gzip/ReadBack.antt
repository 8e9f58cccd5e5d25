-- ===== src/Web/Gzip/ReadBack.antt =====
-- What a client reads of the responses of web/handler/gzip.
use mathlib.Core.List.{append-nil, append_assoc}
use woocoo.Base.{
  ℕ, ◌≡◌, ◌∙◌, refl, sym, ap, Bool, true, false, List, [], ◌∷◌, ◌++◌, Option, some, leb, length,
}
use woocoo.Web.{Text}
use woocoo.Web.Gzip.{GzipWriter, ZipResponse, ResponseWriter, write, write_all, close, serve_zipped}

abbrev pub AllReach : (min_size : ℕ) → Bool → List Text → Type 0
AllReach min_size b [] = Unit
AllReach min_size b (bytes ∷ more) = (leb min_size (length bytes) ≡ b) × AllReach min_size b more

abbrev pub concatenated : List Text → Text
concatenated [] = []
concatenated (bytes ∷ more) = bytes ++ concatenated more

module _ (W : Type 0) (gz : GzipWriter W) where
  -- What writes one after another and the end put out.
  abbrev pub emitted : W → List Text → Text
  emitted w [] = gz.close_gzip w
  emitted w (bytes ∷ more) = (gz.write_gzip w bytes).1 ++ emitted (gz.write_gzip w bytes).0 more

  -- A client's `decode` reads back what was written to a fresh writer.
  pub record Decodes (decode : Text → Option Text) : Type 0 where
    pub reads : (writes : List Text) → decode (emitted gz.fresh writes) ≡ some (concatenated writes)

  -- The writer with a body behind writes that all compress, or that all do not.
  abbrev at_body : (zips : Bool) → Text → W → ResponseWriter W
  at_body zips body w = record {
    response = record { zipped = zips; body = body };
    gzip_writer = w;
    use_zip = zips;
  }

  write-zipped :
      (min_size : ℕ) (s : ResponseWriter W) (bytes : Text)
      → leb min_size (length bytes) ≡ true
      → write W gz min_size s bytes
        ≡ at_body true
            (s.response.body ++ (gz.write_gzip s.gzip_writer bytes).1)
            (gz.write_gzip s.gzip_writer bytes).0
  unfolding write
  write-zipped min_size s bytes big = rw (write, big) refl

  -- A write that does not compress leaves the header as it is.
  write-plain :
      (min_size : ℕ) (stale : Bool) (body bytes : Text) (w : W)
      → leb min_size (length bytes) ≡ false
      → write W gz min_size (record (at_body false body w) { use_zip = stale }) bytes
        ≡ at_body false (body ++ bytes) w
  unfolding write
  write-plain min_size stale body bytes w small = rw (write, small) refl

  close-zipped :
      (min_size : ℕ) (writes : List Text) (body : Text) (w : W)
      → AllReach min_size true writes
      → close W gz (write_all W gz min_size (at_body true body w) writes)
        ≡ record { zipped = true; body = body ++ emitted w writes }
  unfolding close write_all write
  close-zipped min_size [] body w all = refl
  close-zipped min_size (bytes ∷ more) body w (big, all) =
      let (w', out) = gz.write_gzip w bytes in
      ap (λ s. close W gz (write_all W gz min_size s more))
        (write-zipped min_size (at_body true body w) bytes big)
      ∙ close-zipped min_size more (body ++ out) w' all
      ∙ ap (λ t. record { zipped = true; body = t }) (append_assoc body out (emitted w' more))

  close-plain :
      (min_size : ℕ) (writes : List Text) (body : Text) (w : W)
      → AllReach min_size false writes
      → close W gz (write_all W gz min_size (at_body false body w) writes)
        ≡ record { zipped = false; body = body ++ concatenated writes }
  unfolding close write_all write
  close-plain min_size [] body w all =
      ap (λ t. record { zipped = false; body = t }) (sym (append-nil body))
  close-plain min_size (bytes ∷ more) body w (small, all) =
      ap (λ s. close W gz (write_all W gz min_size s more))
        (write-plain min_size false body bytes w small)
      ∙ close-plain min_size more (body ++ bytes) w all
      ∙ ap (λ t. record { zipped = false; body = t }) (append_assoc body bytes (concatenated more))

  serve-zipped :
      (min_size : ℕ) (stale : Bool) (first : Text) (more : List Text)
      → AllReach min_size true (first ∷ more)
      → serve_zipped W gz min_size stale (first ∷ more)
        ≡ record { zipped = true; body = emitted gz.fresh (first ∷ more) }
  unfolding serve_zipped write_all write
  serve-zipped min_size stale first more (big, all) =
      let (w, out) = gz.write_gzip gz.fresh first in
      ap (λ s. close W gz (write_all W gz min_size s more))
        (write-zipped min_size (record (at_body false [] gz.fresh) { use_zip = stale }) first big)
      ∙ close-zipped min_size more out w all

  serve-plain :
      (min_size : ℕ) (stale : Bool) (first : Text) (more : List Text)
      → AllReach min_size false (first ∷ more)
      → serve_zipped W gz min_size stale (first ∷ more)
        ≡ record { zipped = false; body = concatenated (first ∷ more) }
  unfolding serve_zipped write_all write
  serve-plain min_size stale first more (small, all) =
      ap (λ s. close W gz (write_all W gz min_size s more))
        (write-plain min_size stale [] first gz.fresh small)
      ∙ close-plain min_size more first gz.fresh all

-- What the client reads of a response: the body, decoded if the header says so.
abbrev pub read_response : (decode : Text → Option Text) → Bool → Text → Option Text
read_response decode true body = decode body
read_response decode false body = some body

-- With a client that reads back what was written to a fresh compressing writer, and for a response that
-- is written at least once, where all writes reach the minimal size or none does: whatever the last use
-- of the pooled writer left, the client reads the bytes that were written, one after another.
pub serve_zipped-read_response :
    (W : Type 0) (gz : GzipWriter W) (decode : Text → Option Text)
    → Decodes W gz decode
    → (min_size : ℕ) (stale reach : Bool) (first : Text) (more : List Text)
    → AllReach min_size reach (first ∷ more)
    → read_response decode
        (serve_zipped W gz min_size stale (first ∷ more)).zipped
        (serve_zipped W gz min_size stale (first ∷ more)).body
      ≡ some (concatenated (first ∷ more))
serve_zipped-read_response W gz decode d min_size stale true first more all =
    ap (λ (r : ZipResponse W). read_response decode r.zipped r.body)
      (serve-zipped W gz min_size stale first more all)
    ∙ d.reads (first ∷ more)
serve_zipped-read_response W gz decode d min_size stale false first more all =
    ap (λ (r : ZipResponse W). read_response decode r.zipped r.body)
      (serve-plain W gz min_size stale first more all)
