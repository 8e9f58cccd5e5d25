-- ===== src/Signature/Middleware.antt =====
-- The middleware of web/handler/signer/sign.go, behind the reading of its configuration.
pub mod Accepted
pub mod Replay
pub mod Stored
use woocoo.Base.{
  ℕ, ◌+◌, ◌-◌, Bool, true, false, not, ◌&&◌, ◌||◌, List, [], ◌∷◌, ◌++◌, Option, none, some, ltb,
  leb, ◌==◌, if◌then◌else◌, codes, same_text,
}
use woocoo.Web.{Text, Request, Result, WebError, ok, err}
use woocoo.Web.Extractor.{Extractor, extract, create_extractors}
use woocoo.Web.Skip.{path_skipper}
use woocoo.Httpx.{first_value, values_from_canonical}
use woocoo.Signature.{
  SignError, bad_header, invalid_signature, no_extractor, bad_time, expired_time, replayed,
  SignOutcome, gives, fails, ◌>>=◌, Platform, HttpRequest, Entries, SignerConfig, is_empty,
  parse_sign_time,
}
use woocoo.Signature.Config.{
  SignerKind, default_kind, token_kind, hmac_kind, Signature, build_signer,
}
use woocoo.Signature.Sign.{verify}

-- `Config`, of which the signer's part is dry.
pub record MiddlewareConfig : Type 0 where
  pub exclude : List Text
  pub signer_config : SignerConfig
  pub interval : ℕ
  pub ttl : ℕ

pub record Middleware : Type 0 where
  pub config : MiddlewareConfig
  pub signature : Signature
  pub nonce_extractor : Option Extractor
  pub timestamp_extractor : Option Extractor
  pub signature_extractor : Extractor

abbrev pub kind_of : (name : Text) → SignerKind
kind_of name =
    if same_text name (codes "tokenSign")
    then token_kind
    else if same_text name (codes "hmacSign")
    then hmac_kind
    else default_kind

abbrev pub first_extractor : Result (List Extractor) → Option Extractor
first_extractor (err e) = none
first_extractor (ok []) = none
first_extractor (ok (e ∷ es)) = some e

abbrev pub in_list : List Text → Text → Bool
in_list [] key = false
in_list (name ∷ names) key = same_text name key || in_list names key

abbrev pub signature_extractor_of : Result (List Extractor) → SignOutcome Extractor
signature_extractor_of (err e) = fails (bad_header e)
signature_extractor_of (ok []) = fails no_extractor
signature_extractor_of (ok (e ∷ es)) = gives e

-- A look-up in the map of `ValuesFromCanonical`, where a later field replaces an earlier one.
abbrev pub last_value : Text → Entries → Text → Text
last_value key [] val = val
last_value key ((k, v) ∷ entries) val = last_value key entries (if same_text k key then v else val)

abbrev pub parsed : Option ℕ → SignOutcome ℕ
parsed none = fails bad_time
parsed (some t) = gives t

-- `signatureValidate`, of what the cache gives.
abbrev pub signature_validate : {Store : Type 0} → Option Store → SignOutcome Store
signature_validate none = fails replayed
signature_validate (some store) = gives store

-- The store behind a request: an aborted one leaves it as it is.
abbrev pub kept : {Store : Type 0} → Store → SignOutcome Store → Store
kept store (fails e) = store
kept store (gives store') = store'

module _ (plat : Platform) where
  -- The extractor of a key in the lookups, unless the auth headers name it.
  abbrev pub lookup_extractor : Entries → (key : Text) → Option Extractor
  lookup_extractor [] key = none
  lookup_extractor ((k, loc) ∷ lookups) key =
      if same_text k key
      then first_extractor (create_extractors plat.canonical loc [])
      else lookup_extractor lookups key

  abbrev pub unless_in_auth : SignerConfig → (key : Text) → Option Extractor
  unless_in_auth s key =
      if in_list s.auth_headers key then none else lookup_extractor s.signed_lookups key

  -- `build`; the signer changes the configuration that it is built with. A key of the nonce that is
  -- the one of the timestamp too has no extractor of its own.
  unfoldable pub build : (name : Text) → MiddlewareConfig → SignOutcome Middleware
  unfolding build_signer create_extractors
  build name config = do
    signature ← build_signer (kind_of name) (record config.signer_config { dry = true })
    let s = signature.config
    signature_extractor ←
        signature_extractor_of (create_extractors plat.canonical s.auth_lookup s.auth_scheme)
    gives (record {
      config = record config { signer_config = s };
      signature = signature;
      nonce_extractor =
          if same_text s.nonce_key s.timestamp_key then none else unless_in_auth s s.nonce_key;
      timestamp_extractor = unless_in_auth s s.timestamp_key;
      signature_extractor = signature_extractor;
    })

  -- `view` is what gin reads of a request, and `random` what `gds.RandomString` gives.
  module _ (view : HttpRequest → Request) where
    abbrev pub extracted : Extractor → HttpRequest → SignOutcome Text
    extracted extractor r = elim (extract extractor (view r)) [
      | err e ↦ fails (bad_header e)
      | ok vs ↦ gives (first_value vs)
    ]

    -- A parameter from its extractor, or from the fields of the signature.
    abbrev pub parameter :
        Option Extractor → Entries → (key : Text) → HttpRequest → SignOutcome Text
    parameter none fields key r = gives (last_value key fields [])
    parameter (some extractor) fields key r = extracted extractor r

    -- `extractorVerifyParam`, at the time `now`.
    unfoldable pub extractor_verify_param :
        Middleware → (now : ℕ) → Entries → HttpRequest → SignOutcome (Text × ℕ)
    unfolding extract
    extractor_verify_param mw now fields r =
        let s = mw.config.signer_config in
        parameter mw.nonce_extractor fields s.nonce_key r >>= λ nonce.
        parameter mw.timestamp_extractor fields s.timestamp_key r >>= λ text.
        parsed (parse_sign_time plat s.date_format text) >>= λ t.
        if ltb now t || ltb mw.config.interval (now - t)
        then fails expired_time
        else gives (nonce, t)

    -- The fields of the signature's header, and the signature that is one of them.
    unfoldable pub signature_fields : Middleware → HttpRequest → SignOutcome (Text × Entries)
    unfolding extract values_from_canonical
    signature_fields mw r = extracted mw.signature_extractor r >>= λ text.
        let fields =
          values_from_canonical text mw.config.signer_config.auth_header_delimiter (b'=' ∷ []) in
        let signature = last_value (codes "Signature") fields [] in
        if is_empty signature then fails invalid_signature else gives (signature, fields)

    -- What the handler does before the signature is stored.
    unfoldable pub accept_request :
        Middleware → (random : Text) → (now : ℕ) → HttpRequest → SignOutcome Text
    unfolding signature_fields extractor_verify_param verify
    accept_request mw random now r = signature_fields mw r >>= λ (signature, fields).
        extractor_verify_param mw now fields r >>= λ (nonce, t).
        verify plat random mw.signature r nonce t >>= λ r'. gives signature

    -- The handler of `ApplyFunc`: the store if the request goes on, and an error if it is aborted.
    -- `set_nx` is the cache's `Set` with `WithTTL` and `WithSetNX`, called at the time `now` as the
    -- store is then, and gives nothing where that is an error.
    module _ {Store : Type 0} (set_nx : (now ttl : ℕ) → Store → Text → Option Store) where
      unfoldable pub apply_func :
          Middleware → (random : Text) → (now : ℕ) → Store → HttpRequest → SignOutcome Store
      unfolding path_skipper accept_request
      apply_func mw random now store r =
          if path_skipper mw.config.exclude r.path
          then gives store
          else (accept_request mw random now r >>= λ signature.
              signature_validate (set_nx now mw.config.ttl store signature))

      -- Requests one after the other, each with its random text and its time.
      unfoldable pub apply_all : Middleware → Store → List (Text × ℕ × HttpRequest) → Store
      unfolding apply_func
      apply_all mw store [] = store
      apply_all mw store ((random, now, r) ∷ rest) =
          apply_all mw (kept store (apply_func mw random now store r)) rest
