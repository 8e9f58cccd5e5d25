-- ===== src/Signature/Verified/Rerun.antt =====
-- The default signer of pkg/httpx/signature.go, run again on the request that it has signed, collects
-- the same.
use woocoo.Base.{
  ℕ, ◌≡◌, ◌∙◌, refl, sym, ap, Bool, true, false, not, ◌&&◌, List, [], ◌∷◌, if◌then◌else◌, same_text,
  codes, some, arith,
}
use woocoo.Web.{Text}
use woocoo.Web.Extractor.{equal_fold}
use woocoo.Signature.{
  SignOutcome, gives, fails, ◌>>=◌, Platform, HttpRequest, SigningCtx, SignerConfig, set_header,
  put, format_sign_time, is_empty, join,
}
use woocoo.Signature.Canonical.{
  scope_value, joined_values, add_scope, scan_scope, stamped, digest_if_signed,
  build_canonical_headers, build_canonical_uri, canonical_query, build_default,
}
use woocoo.Signature.Verified.{gives-injective}

-- A configuration that writes the signature into a header, behind a delimiter.
abbrev pub in_header : SignerConfig → (dry : Bool) → ℕ → Text → SignerConfig
in_header config dry d ds = record config {
  dry = dry;
  signature_query_key = [];
  auth_header_delimiter = d ∷ ds;
}

module _ (plat : Platform) where
  -- The headers of two requests agree at the names of a scope.
  abbrev pub Agree : (h h' : Text → List Text) → List Text → Type 0
  Agree h h' [] = Unit
  Agree h h' (name ∷ names) =
      (h (plat.canonical name) ≡ h' (plat.canonical name)) × Agree h h' names

  abbrev with_headers : HttpRequest → (Text → List Text) → Text → HttpRequest
  with_headers r h query = record r { headers = h; raw_query = query }

  scan_scope-Agree :
      (r : HttpRequest) (h h' : Text → List Text) (q q' : Text) (names : List Text)
      (ctx : SigningCtx)
      → Agree h h' names
      → scan_scope plat (with_headers r h q) names ctx
        ≡ scan_scope plat (with_headers r h' q') names ctx
  unfolding scan_scope scope_value
  scan_scope-Agree r h h' q q' [] ctx a = refl
  scan_scope-Agree r h h' q q' (name ∷ names) ctx (e, a) =
      let value : scope_value plat (with_headers r h q) name
          ≡ scope_value plat (with_headers r h' q') name =
        ap
          (λ vs.
            if equal_fold name (codes "host")
            then some (if is_empty r.host then r.url_host else r.host)
            else joined_values vs)
          e in
      ap (λ v. scan_scope plat (with_headers r h q) names (add_scope ctx name v)) value
      ∙ scan_scope-Agree r h h' q q' names
          (add_scope ctx name (scope_value plat (with_headers r h' q') name)) a

  -- The headers behind the stamp.
  abbrev stamp_headers : SignerConfig → (stamp : Text) → (Text → List Text) → Text → List Text
  stamp_headers s stamp h n =
      if not s.dry && not (is_empty s.timestamp_key)
      then (if same_text (plat.canonical s.timestamp_key) n then stamp ∷ [] else h n)
      else h n

  -- What is collected, with the parts that may fail as given.
  abbrev collected :
      SignerConfig → (stamp digest uri query : Text) → HttpRequest → SigningCtx → SigningCtx
  collected s stamp digest uri query r ctx =
      let ctx1 = build_canonical_headers plat s r (record ctx {
        signed_vals = put ctx.signed_vals s.timestamp_key stamp;
        body_digest = digest;
      }) in
      record ctx1 {
        canonical_uri = uri;
        canonical_query_string = query;
        signed_headers = join (b';' ∷ []) ctx1.canonical_headers;
      }

  changed_if :
      (b : Bool) (g : Text → List Text) (r : HttpRequest)
      → (if b then record r { headers = g } else r)
        ≡ record r { headers = λ n. if b then g n else r.headers n }
  changed_if true g r = refl
  changed_if false g r = refl

  stamped-headers :
      (s : SignerConfig) (stamp : Text) (r : HttpRequest)
      → stamped plat s stamp r ≡ with_headers r (stamp_headers s stamp r.headers) r.raw_query
  stamped-headers s stamp r =
      changed_if (not s.dry && not (is_empty s.timestamp_key))
        (set_header plat r s.timestamp_key stamp).headers r

  build_default-flat :
      (s : SignerConfig) (r : HttpRequest) (ctx : SigningCtx)
      → build_default plat s r ctx ≡ (
          digest_if_signed plat s r ctx >>= λ digest. build_canonical_uri s r >>= λ uri.
          let stamp = format_sign_time plat ctx.sign_time s.date_format in
          let h = stamp_headers s stamp r.headers in
          let query = canonical_query plat r.raw_query in
          gives (
            with_headers r h query,
            collected s stamp digest uri query (with_headers r h r.raw_query) ctx,
          ))
  unfolding build_default
  build_default-flat s r ctx =
      let stamp = format_sign_time plat ctx.sign_time s.date_format in
      ap
        (λ r1. digest_if_signed plat s r1 ctx >>= λ digest. build_canonical_uri s r1 >>= λ uri.
          let query = canonical_query plat r1.raw_query in
          gives (record r1 { raw_query = query }, collected s stamp digest uri query r1 ctx))
        (stamped-headers s stamp r)

  abbrev run :
      SignOutcome Text
      → SignOutcome Text
      → HttpRequest
      → (Text → Text → SigningCtx)
      → SignOutcome (HttpRequest × SigningCtx)
  run D U M C = D >>= λ d. U >>= λ u. gives (M, C d u)

  -- Two runs that fail alike and give contexts that agree.
  same_run :
      (D U : SignOutcome Text) (M M' : HttpRequest) (C C' : Text → Text → SigningCtx)
      → ((d u : Text) → C d u ≡ C' d u)
      → (m : HttpRequest) (c : SigningCtx) → run D U M C ≡ gives (m, c)
      → (M ≡ m) × (run D U M' C' ≡ gives (M', c))
  same_run (fails e) U M M' C C' same m c h = absurd cc
  same_run (gives d) (fails e) M M' C C' same m c h = absurd cc
  same_run (gives d) (gives u) M M' C C' same m c h =
      let e = gives-injective (M, C d u) (m, c) h in
      (ap (λ p. p.0) e, ap (λ x. gives (M', x)) (sym (same d u) ∙ ap (λ p. p.1) e))

  -- The header of the signature is none of those that are signed.
  abbrev pub IsApart : Text → List Text → Type 0
  IsApart key [] = Unit
  IsApart key (name ∷ names) =
      (same_text (plat.canonical key) (plat.canonical name) ≡ false) × IsApart key names

  -- The encoding of a query is settled: encoding it again, with "%20" for "+", changes
  -- nothing.
  abbrev pub IsSettled : Type 0
  IsSettled = (q : Text) → canonical_query plat (canonical_query plat q) ≡ canonical_query plat q

  stamped_twice :
      (dry empty same apart : Bool) (x y v : List Text)
      → apart ≡ false
      → (if not empty then (if same then x else y) else y) ≡ (
          if not dry && not empty
          then (if same
              then x
              else if apart
              then v
              else if not empty
              then (if same then x else y)
              else y)
          else if apart
          then v
          else if not empty
          then (if same then x else y)
          else y)
  stamped_twice dry empty same apart x y v e = ground arith

  -- The headers that the verifying side sees, at the names of the scope.
  Agree-stamped :
      (config : SignerConfig) (dry : Bool) (d : ℕ) (ds : Text) (stamp val : Text)
      (h : Text → List Text) (names : List Text)
      → IsApart config.signature_header_key names
      → Agree
          (stamp_headers (in_header config false d ds) stamp h)
          (stamp_headers (in_header config dry d ds) stamp (λ n.
            if same_text (plat.canonical config.signature_header_key) n
            then val ∷ []
            else stamp_headers (in_header config false d ds) stamp h n))
          names
  Agree-stamped config dry d ds stamp val h [] a = tt
  Agree-stamped config dry d ds stamp val h (name ∷ names) (e, a) = (
    stamped_twice dry (is_empty config.timestamp_key)
        (same_text (plat.canonical config.timestamp_key) (plat.canonical name)) _ (stamp ∷ [])
        (h (plat.canonical name)) (val ∷ []) e,
    Agree-stamped config dry d ds stamp val h names a,
  )

  -- A run of the signer on what it has attached the signature to gives the same context.
  pub build_default-again :
      (config : SignerConfig) (dry : Bool) (d : ℕ) (ds val : Text) (r m : HttpRequest)
      (ctx c : SigningCtx)
      → IsSettled
      → IsApart config.signature_header_key config.scope_headers
      → build_default plat (in_header config false d ds) r ctx ≡ gives (m, c)
      → (m' : HttpRequest) × (build_default plat
            (in_header config dry d ds)
            (set_header plat m config.signature_header_key val)
            ctx
          ≡ gives (m', c))
        × (m'.method ≡ m.method)
  unfolding build_canonical_uri
  build_default-again config dry d ds val r m ctx c settled apart h =
      let client = in_header config false d ds in
      let server = in_header config dry d ds in
      let stamp = format_sign_time plat ctx.sign_time config.date_format in
      let sh = stamp_headers client stamp r.headers in
      let query = canonical_query plat r.raw_query in
      let r' = set_header plat (with_headers r sh query) config.signature_header_key val in
      let sh' = stamp_headers server stamp r'.headers in
      let base = λ (digest : Text). record ctx {
        canonical_headers = [];
        signed_vals = put ctx.signed_vals config.timestamp_key stamp;
        body_digest = digest;
      } in
      let finish = λ (uri q : Text) (c1 : SigningCtx). record c1 {
        canonical_uri = uri;
        canonical_query_string = q;
        signed_headers = join (b';' ∷ []) c1.canonical_headers;
      } in
      let (e, again) =
        same_run (digest_if_signed plat client r ctx) (build_canonical_uri client r)
          (with_headers r sh query) (with_headers r' sh' (canonical_query plat query))
          (λ digest uri.
            collected client stamp digest uri query (with_headers r sh r.raw_query) ctx)
          (λ digest uri.
            collected server stamp digest uri (canonical_query plat query)
              (with_headers r' sh' query) ctx)
          (λ digest uri.
            ap (finish uri query) (
              scan_scope-Agree r sh sh' r.raw_query query config.scope_headers (base digest)
                (Agree-stamped config dry d ds stamp val r.headers config.scope_headers apart))
            ∙ ap
                (λ q.
                  finish uri q (
                    scan_scope plat (with_headers r' sh' query) config.scope_headers (base digest)))
                (sym (settled r.raw_query)))
          m c (sym (build_default-flat client r ctx) ∙ h) in
      (
        with_headers r' sh' (canonical_query plat query),
        ap (λ x. build_default plat server (set_header plat x config.signature_header_key val) ctx)
              (sym e)
            ∙ build_default-flat server r' ctx
            ∙ again,
        ap (λ x. x.method) e,
      )
