-- ===== src/Signature/Middleware/Replay.antt =====
-- What passes the middleware of web/handler/signer/sign.go, and that it does not pass again. The
-- store of signatures is the cache that `StoreKey` names, of which only `IsStore` is used.
use mathlib.Core.Path.{subst}
use woocoo.Base.{
  ℕ, ◌+◌, ◌≤◌, ◌<◌, ◌≡◌, ◌∙◌, sym, ap, false, List, [], ◌∷◌, Option, none, some, inl, inr, arith,
  Bool-cases, Option-cases,
}
use woocoo.Web.{Text, Request}
use woocoo.Web.Skip.{path_skipper}
use woocoo.Signature.{
  SignError, replayed, SignOutcome, gives, fails, ◌>>=◌, Platform, HttpRequest, Entries,
}
use woocoo.Signature.Sign.{verify}
use woocoo.Signature.Verified.{SignOutcome-cases, bind-gives, gives-injective}
use woocoo.Signature.Middleware.{
  Middleware, signature_fields, accept_request, signature_validate, apply_func, kept, apply_all,
}
use woocoo.Signature.Middleware.Accepted.{
  InWindow, IsNamed, accept_request-verified, accept_request-same,
}

module _ (plat : Platform) (view : HttpRequest → Request) where
  module _ {Store : Type 0} (set_nx : (now ttl : ℕ) → Store → Text → Option Store) where
    -- A request that passes a middleware which does not exclude its path holds a signature, a nonce
    -- and a time. The nonce and the time are those that the request's parameters or the fields of its
    -- signature name, the time lies in the window of the interval before now, and `Verify` accepts
    -- the request with this nonce and this time.
    pub apply_func-verified :
        (mw : Middleware) (random : Text) (now : ℕ) (store store' : Store) (r : HttpRequest)
        → path_skipper mw.config.exclude r.path ≡ false
        → apply_func plat view set_nx mw random now store r ≡ gives store'
        → (signature : Text) × (fields : Entries) × (nonce : Text) × (t : ℕ) × (r' : HttpRequest)
          × (signature_fields plat view mw r ≡ gives (signature, fields))
          × IsNamed plat view mw fields r nonce t
          × InWindow plat view mw.config.interval now t
          × (verify plat random mw.signature r nonce t ≡ gives r')
    unfolding apply_func
    apply_func-verified mw random now store store' r checked h =
        let (k, got, set) =
          bind-gives (accept_request plat view mw random now r)
            (λ sig. signature_validate (set_nx now mw.config.ttl store sig)) store'
            (rw (apply_func, checked) at h) in
        let (fields, nonce, t, r', held, named, window, verified) =
          accept_request-verified plat view mw random now r k got in
        (k, fields, nonce, t, r', held, named, window, verified)

  -- Requests that come by a time.
  abbrev pub ComeBy : ℕ → List (Text × ℕ × HttpRequest) → Type 0
  ComeBy until [] = Unit
  ComeBy until ((random, now, r) ∷ rest) = (now ≤ until) × ComeBy until rest

  module _ {Store : Type 0} (set_nx : (now ttl : ℕ) → Store → Text → Option Store)
      (Holds : Store → Text → (until : ℕ) → Type 0) where
    -- A store of signatures: what is set is held until its time to live is over, and what is held is
    -- refused and stays held before that, whatever else is set.
    pub record IsStore : Type 0 where
      pub stores :
          (now ttl : ℕ) (s s' : Store) (k : Text)
          → 0 < ttl
          → set_nx now ttl s k ≡ some s'
          → Holds s' k (now + ttl)
      pub refuses :
          (now ttl until : ℕ) (s : Store) (k : Text)
          → Holds s k until
          → now < until
          → set_nx now ttl s k ≡ none
      pub keeps :
          (now ttl until : ℕ) (s s' : Store) (j k : Text)
          → Holds s k until
          → now < until
          → set_nx now ttl s j ≡ some s'
          → Holds s' k until

    validated-Holds :
        (law : IsStore) (now ttl until : ℕ) (store : Store) (k : Text) (m : SignOutcome Text)
        → now < until
        → Holds store k until
        → Holds (kept store (m >>= λ sig. signature_validate (set_nx now ttl store sig))) k until
    validated-Holds law now ttl until store k (fails e) soon h = h
    validated-Holds law now ttl until store k (gives sig) soon h =
        elim (Option-cases (set_nx now ttl store sig)) [
          | inl refused ↦ rw refused h
          | inr (store', set) ↦ rw set (law.keeps now ttl until store store' sig k h soon set)
        ]

    kept-Holds :
        (law : IsStore) (mw : Middleware) (random : Text) (now until : ℕ) (store : Store)
        (r : HttpRequest) (k : Text)
        → now < until
        → Holds store k until
        → Holds (kept store (apply_func plat view set_nx mw random now store r)) k until
    unfolding apply_func
    kept-Holds law mw random now until store r k soon h =
        elim (Bool-cases (path_skipper mw.config.exclude r.path)) [
          | inl excluded ↦ rw (apply_func, excluded) h
          | inr checked ↦
              rw (apply_func, checked)
                (validated-Holds law now mw.config.ttl until store k
                  (accept_request plat view mw random now r) soon h)
        ]

    apply_all-Holds :
        (law : IsStore) (mw : Middleware) (now' until : ℕ) (store : Store)
        (rs : List (Text × ℕ × HttpRequest)) (k : Text)
        → ComeBy now' rs
        → now' < until
        → Holds store k until
        → Holds (apply_all plat view set_nx mw store rs) k until
    unfolding apply_all
    apply_all-Holds law mw now' until store [] k come soon h = h
    apply_all-Holds law mw now' until store ((random, now, r) ∷ rs) k (first, come) soon h =
        let before : now < until = omega arith in
        apply_all-Holds law mw now' until
          (kept store (apply_func plat view set_nx mw random now store r)) rs k come soon
          (kept-Holds law mw random now until store r k before h)

    -- A request that passes a middleware which does not exclude it has a signature that is stored.
    apply_func-stored :
        (law : IsStore) (mw : Middleware) (random : Text) (now : ℕ) (store store' : Store)
        (r : HttpRequest)
        → path_skipper mw.config.exclude r.path ≡ false
        → 0 < mw.config.ttl
        → apply_func plat view set_nx mw random now store r ≡ gives store'
        → (k : Text) × (accept_request plat view mw random now r ≡ gives k)
          × Holds store' k (now + mw.config.ttl)
    unfolding apply_func
    apply_func-stored law mw random now store store' r checked lasts h =
        let ttl = mw.config.ttl in
        let (k, got, set) =
          bind-gives (accept_request plat view mw random now r)
            (λ sig. signature_validate (set_nx now ttl store sig)) store'
            (rw (apply_func, checked) at h) in
        elim (Option-cases (set_nx now ttl store k)) [
          | inl refused ↦ absurd (let g = rw refused at set in cc)
          | inr (store1, e) ↦
              let same = gives-injective store1 store' (rw e at set) in
              (
                k,
                got,
                subst (λ x. Holds x k (now + ttl)) same (law.stores now ttl store store1 k lasts e),
              )
        ]

    -- A request that was accepted does not pass while its signature is held, and not when the interval
    -- is over either.
    apply_func-again :
        (law : IsStore) (mw : Middleware) (random random' : Text) (now now' : ℕ) (store : Store)
        (r : HttpRequest) (k : Text)
        → path_skipper mw.config.exclude r.path ≡ false
        → mw.config.interval < mw.config.ttl
        → accept_request plat view mw random now r ≡ gives k
        → (now' < now + mw.config.ttl → Holds store k (now + mw.config.ttl))
        → (e : SignError) × (apply_func plat view set_nx mw random' now' store r ≡ fails e)
    unfolding apply_func
    apply_func-again law mw random random' now now' store r k checked longer h held =
        elim (SignOutcome-cases (accept_request plat view mw random' now' r)) [
          | inl (e, refused) ↦ (e, rw (apply_func, checked, refused))
          | inr (k', again) ↦
              let ttl = mw.config.ttl in
              let (same, t, (past, window), (past', window')) =
                accept_request-same plat view mw random random' now now' r k k' h again in
              let soon : now' < now + ttl = omega arith in
              let refused : set_nx now' ttl store k' ≡ none =
                ap (λ x. set_nx now' ttl store x) (sym same)
                ∙ law.refuses now' ttl (now + ttl) store k (held soon) soon in
              (replayed, rw (apply_func, checked, again, refused))
        ]

    -- A request that passed the middleware is refused when it comes again, at any time and after any
    -- sequence of other requests that came by then. The path is not excluded, the time to live is
    -- greater than the interval, as the comment of `TTL` asks for, and the store holds a signature that
    -- was set until its time to live is over, through the setting of others, and refuses it until then.
    pub apply_func-replay :
        (law : IsStore) (mw : Middleware) (random random' : Text) (now now' : ℕ)
        (store store' : Store) (r : HttpRequest) (rs : List (Text × ℕ × HttpRequest))
        → path_skipper mw.config.exclude r.path ≡ false
        → mw.config.interval < mw.config.ttl
        → ComeBy now' rs
        → apply_func plat view set_nx mw random now store r ≡ gives store'
        → (e : SignError) × (apply_func plat view set_nx mw random' now'
              (apply_all plat view set_nx mw store' rs)
              r
            ≡ fails e)
    apply_func-replay law mw random random' now now' store store' r rs checked longer come h =
        let (k, got, held) =
          apply_func-stored law mw random now store store' r checked (omega arith) h in
        apply_func-again law mw random random' now now' (apply_all plat view set_nx mw store' rs) r
          k checked longer got
          (λ soon. apply_all-Holds law mw now' (now + mw.config.ttl) store' rs k come soon held)
