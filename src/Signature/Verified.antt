-- ===== src/Signature/Verified.antt =====
-- A request that `Sign` of pkg/httpx/signature.go signs passes `Verify`.
pub mod Rerun
pub mod Default
use woocoo.Base.{
  ℕ, ◌≡◌, ◌⊎◌, ◌∙◌, refl, sym, ap, Bool, true, false, not, ◌&&◌, List, [], ◌∷◌, ◌++◌, inl, inr,
  if◌then◌else◌, same_text, same_text_refl, Bool-cases,
}
use woocoo.Web.{Text, Result, ok}
use woocoo.Httpx.{get_signed_request_signature}
use woocoo.Signature.{
  SignError, SignOutcome, gives, fails, ◌>>=◌, Platform, HttpRequest, SigningCtx, SignerConfig,
  header_values, set_header, as_request,
}
use woocoo.Signature.Config.{Signature}
use woocoo.Signature.Canonical.{build_canonical_request}
use woocoo.Signature.Sign.{new_ctx, calculate, verify, compared}
use woocoo.Signature.Scheme.{attach_header, calculate_signature}

-- A chain of outcomes that gives something has given each of its steps.
pub bind-gives :
    {S T : Type 0} (m : SignOutcome S) (next : S → SignOutcome T) (y : T)
    → (m >>= next) ≡ gives y
    → (x : S) × (m ≡ gives x) × (next x ≡ gives y)
bind-gives (fails e) next y h = absurd cc
bind-gives (gives x) next y h = (x, refl, h)

pub gives-injective : {S : Type 0} (x y : S) → gives x ≡ gives y → x ≡ y
gives-injective x y h = cc

pub SignOutcome-cases :
    {S : Type 0} (m : SignOutcome S) → ((e : SignError) × (m ≡ fails e)) ⊎ ((x : S) × (m ≡ gives x))
SignOutcome-cases (fails e) = inl (e, refl)
SignOutcome-cases (gives x) = inr (x, refl)

-- A header that is not there yet is set.
pub attach_header-set_header :
    (plat : Platform) (r : HttpRequest) (name val : Text)
    → header_values plat r name ≡ []
    → attach_header plat r name val ≡ set_header plat r name val
unfolding attach_header
attach_header-set_header plat r name val h = rw (attach_header, h)

pub header_values-set_header :
    (plat : Platform) (r : HttpRequest) (name val : Text)
    → header_values plat (set_header plat r name val) name ≡ val ∷ []
header_values-set_header plat r name val = rw (same_text_refl (plat.canonical name))

pub header_values-other :
    (plat : Platform) (r : HttpRequest) (name val other : Text)
    → same_text (plat.canonical name) (plat.canonical other) ≡ false
    → header_values plat (set_header plat r name val) other ≡ header_values plat r other
header_values-other plat r name val other h = rw h

pub calculate-gives :
    (plat : Platform) (random : Text) (s : Signature) (r m : HttpRequest) (ctx c c' : SigningCtx)
    → build_canonical_request plat random s.config s.signer r ctx ≡ gives (m, c)
    → calculate_signature plat s.config s.signer m c ≡ gives c'
    → calculate plat random s r ctx ≡ gives (m, c')
unfolding calculate
calculate-gives plat random s r m ctx c c' h k = rw (calculate, h, k)

-- A signature that is found in the header, and calculated again, is accepted.
pub verify-gives :
    (plat : Platform) (random : Text) (s : Signature) (r m : HttpRequest) (nonce : Text) (t : ℕ)
    (c : SigningCtx) (sig : Text)
    → get_signed_request_signature
        (as_request plat r)
        s.config.signature_header_key
        s.config.auth_scheme
        s.config.auth_header_delimiter
      ≡ ok sig
    → calculate plat random s r (new_ctx nonce t) ≡ gives (m, c)
    → c.signature ≡ sig
    → verify plat random s r nonce t ≡ gives m
unfolding verify
verify-gives plat random s r m nonce t c sig h k e = rw (verify, h, k, e, same_text_refl sig)
