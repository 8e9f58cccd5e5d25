-- ===== src/Signature/Verified/Default.antt =====
-- A request that the default signer of pkg/httpx/signature.go signs in a header passes `Verify`, on
-- the same side or, with a dry configuration, on the other one.
use woocoo.Base.{ℕ, ◌≡◌, ◌≢◌, ◌∙◌, sym, ap, Bool, false, []}
use woocoo.Web.{Text}
use woocoo.Signature.{
  gives, ◌>>=◌, Platform, HttpRequest, SigningCtx, SignerConfig, header_values, set_header,
  as_request,
}
use woocoo.Signature.Config.{default_signer, Signature}
use woocoo.Signature.Canonical.{build_default, build_canonical_request}
use woocoo.Signature.Scheme.{
  attach_request, calculate_signature, canonical_request, default_string_to_sign, auth_value,
  default_fields, signature_field,
}
use woocoo.Signature.Scheme.Attached.{Lacks, AreFields, get_signed_request_signature-attached}
use woocoo.Signature.Sign.{new_ctx, calculate, sign, verify}
use woocoo.Signature.Verified.{
  bind-gives, gives-injective, attach_header-set_header, header_values-set_header, calculate-gives,
  verify-gives,
}
use woocoo.Signature.Verified.Rerun.{in_header, IsApart, IsSettled, build_default-again}

module _ (plat : Platform) where
  -- The signature depends on the method alone of a request behind its context.
  calculate_signature-method :
      (config : SignerConfig) (dry : Bool) (d : ℕ) (ds : Text) (m m' : HttpRequest)
      (ctx : SigningCtx)
      → m'.method ≡ m.method
      → calculate_signature plat (in_header config dry d ds) default_signer m' ctx
        ≡ calculate_signature plat (in_header config false d ds) default_signer m ctx
  unfolding calculate_signature default_string_to_sign canonical_request
  calculate_signature-method config dry d ds m m' ctx e =
      ap
        (λ method.
          calculate_signature plat (in_header config false d ds) default_signer
            (record m { method = method }) ctx)
        e

  abbrev pub signature_of : SignerConfig → (dry : Bool) → ℕ → Text → Signature
  signature_of config dry d ds = record {
    config = in_header config dry d ds;
    signer = default_signer;
  }

  -- What the default signer has calculated of a request, and the signature that it has attached.
  sign-attached :
      (random : Text) (config : SignerConfig) (d : ℕ) (ds : Text) (r m : HttpRequest) (nonce : Text)
      (t : ℕ) (ctx : SigningCtx)
      → calculate plat random (signature_of config false d ds) r (new_ctx nonce t) ≡ gives (m, ctx)
      → header_values plat m config.signature_header_key ≡ []
      → let client = in_header config false d ds in
        sign plat random (signature_of config false d ds) r nonce t
        ≡ gives (
            set_header plat m config.signature_header_key
              (auth_value client (default_fields client ctx) ctx))
  unfolding sign attach_request
  sign-attached random config d ds r m nonce t ctx h fresh =
      let client = in_header config false d ds in
      ap (λ run. run >>= λ (r', c). gives (attach_request plat client default_signer r' c)) h
      ∙ ap gives (
          attach_header-set_header plat m config.signature_header_key
            (auth_value client (default_fields client ctx) ctx) fresh)

  -- A request that the default signer signs in a header is accepted by `Verify` with the same nonce and
  -- time, whether the verifying side is dry or not. The header of the signature was not there and is
  -- not signed itself, the encoding of the query is settled, the fields in front of the signature hold
  -- neither the byte at which the delimiter starts nor "Signature=", and the signature is not empty
  -- and lacks that byte too.
  pub sign-verify :
      (random other : Text) (config : SignerConfig) (dry : Bool) (d : ℕ) (ds : Text)
      (r m : HttpRequest) (nonce : Text) (t : ℕ) (ctx : SigningCtx)
      → IsSettled plat
      → IsApart plat config.signature_header_key config.scope_headers
      → calculate plat random (signature_of config false d ds) r (new_ctx nonce t) ≡ gives (m, ctx)
      → header_values plat m config.signature_header_key ≡ []
      → AreFields d ds (default_fields (in_header config false d ds) ctx)
      → Lacks d (signature_field ctx.signature)
      → ctx.signature ≢ []
      → (signed verified : HttpRequest) × (sign plat random
            (signature_of config false d ds)
            r
            nonce
            t
          ≡ gives signed)
        × (verify plat other (signature_of config dry d ds) signed nonce t ≡ gives verified)
  unfolding verify calculate build_canonical_request
  sign-verify random other config dry d ds r m nonce t ctx settled apart h fresh fields lacks
        nonempty =
      let client = in_header config false d ds in
      let server = in_header config dry d ds in
      let val = auth_value client (default_fields client ctx) ctx in
      let signed = set_header plat m config.signature_header_key val in
      let ((m1, c1), built, signing) =
        bind-gives (build_default plat client r (new_ctx nonce t)) _ (m, ctx) h in
      let (c2, calculated, last) =
        bind-gives (calculate_signature plat client default_signer m1 c1) _ (m, ctx) signing in
      let same = gives-injective (m1, c2) (m, ctx) last in
      let again =
        build_default-again plat config dry d ds val r m1 (new_ctx nonce t) c1 settled apart
          built in
      let same_m = ap (λ p. p.0) same in
      let (m', rebuilt, method) = again in
      let built' =
        ap
          (λ x.
            build_default plat server (set_header plat x config.signature_header_key val)
              (new_ctx nonce t))
          (sym same_m)
        ∙ rebuilt in
      let calculated' = calculate_signature-method config dry d ds m1 m' c1 method ∙ calculated in
      let attached =
        get_signed_request_signature-attached (as_request plat signed) config.signature_header_key
          config.auth_scheme d ds (default_fields client ctx) ctx.signature
          (header_values-set_header plat m config.signature_header_key val) fields lacks nonempty in
      (
        signed,
        m',
        sign-attached random config d ds r m nonce t ctx h fresh,
        verify-gives plat other (signature_of config dry d ds) signed m' nonce t c2 ctx.signature
            attached
            (calculate-gives plat other (signature_of config dry d ds) signed m' (new_ctx nonce t)
              c1 c2 built' calculated')
            (ap (λ p. (p.1).signature) same),
      )
