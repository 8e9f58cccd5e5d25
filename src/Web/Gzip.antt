-- ===== src/Web/Gzip.antt =====
-- web/handler/gzip: the writer of compress.go and the handler of gzip.go. What compresses is a
-- parameter: a writer of klauspost/compress, with the bytes that a write and the end of it put out.
pub mod ReadBack
use woocoo.Base.{
  ℕ, Bool, true, false, ◌||◌, ◌&&◌, not, List, [], ◌∷◌, ◌++◌, leb, codes, same_text, length,
  if◌then◌else◌,
}
use woocoo.Httpx.{has_prefix}
use woocoo.Web.{Text}

-- What the middleware reads of a request: the method, the value of Accept-Encoding, and the extension
-- of the path that `filepath.Ext` gives, with its dot.
pub record ZipRequest : Type 0 where
  pub method : Text
  pub accept_encoding : Text
  pub extension : Text

-- `strings.Contains`.
abbrev pub has_part : (part s : Text) → Bool
has_part part [] = has_prefix part []
has_part part (c ∷ s) = has_prefix part (c ∷ s) || has_part part s

abbrev pub any_extension : List Text → Text → Bool
any_extension [] s = false
any_extension (x ∷ xs) s = same_text x s || any_extension xs s

unfoldable pub should_compress : (excluded : List Text) → ZipRequest → Bool
should_compress excluded req =
    not (same_text req.method (codes "HEAD") || not (has_part (codes "gzip") req.accept_encoding))
    && not (any_extension excluded req.extension)

abbrev pub default_excluded : List Text
default_excluded = codes ".png" ∷ codes "gif" ∷ codes "jpg" ∷ codes "jpeg" ∷ []

module _ (W : Type 0) where
  pub record GzipWriter : Type 0 where
    pub fresh : W
    pub write_gzip : W → Text → W × Text
    pub close_gzip : W → Text

  -- The response: whether its Content-Encoding is gzip, and the body.
  pub record ZipResponse : Type 0 where
    pub zipped : Bool
    pub body : Text

  pub record ResponseWriter : Type 0 where
    pub response : ZipResponse
    pub gzip_writer : W
    pub use_zip : Bool

  -- `Write`: the size of this write alone decides.
  unfoldable pub write : GzipWriter → (min_size : ℕ) → ResponseWriter → Text → ResponseWriter
  write gz min_size rw' bytes =
      if leb min_size (length bytes)
      then record {
        response = record {
          zipped = true;
          body = rw'.response.body ++ (gz.write_gzip rw'.gzip_writer bytes).1;
        };
        gzip_writer = (gz.write_gzip rw'.gzip_writer bytes).0;
        use_zip = true;
      }
      else record {
        response = record rw'.response { body = rw'.response.body ++ bytes };
        gzip_writer = rw'.gzip_writer;
        use_zip = false;
      }

  unfoldable pub write_all :
      GzipWriter → (min_size : ℕ) → ResponseWriter → List Text → ResponseWriter
  unfolding write
  write_all gz min_size rw' [] = rw'
  write_all gz min_size rw' (bytes ∷ more) =
      write_all gz min_size (write gz min_size rw' bytes) more

  -- `Close`.
  unfoldable pub close : GzipWriter → ResponseWriter → ZipResponse
  close gz rw' =
      if rw'.use_zip
      then record rw'.response { body = rw'.response.body ++ gz.close_gzip rw'.gzip_writer }
      else rw'.response

  -- The handler, for a request that should be compressed and the writes behind it. The writer comes
  -- from a pool, so that `stale` is what its last use left in `useZip`.
  unfoldable pub serve_zipped :
      GzipWriter → (min_size : ℕ) → (stale : Bool) → List Text → ZipResponse
  unfolding write_all close
  serve_zipped gz min_size stale writes = close gz (
      write_all gz min_size
        (record {
          response = record { zipped = false; body = [] };
          gzip_writer = gz.fresh;
          use_zip = stale;
        })
        writes)
