-- ===== src/Web/KeyAuth.antt =====
-- web/handler/keyauth.go: the middleware behind its configuration. A middleware that returns without
-- an abort passes the request on to the next one.
pub mod Decision
use woocoo.Base.{ℕ, Bool, true, false, List, [], ◌∷◌, Option, none, some, if◌then◌else◌}
use woocoo.Web.{Text, Request, WebError, Result, ok, err}

-- `KeyAuthValidator` and `KeyAuthErrorHandler`; a nil error is `none`.
abbrev pub Validator : Type 0
Validator = Text → Bool × Option WebError

abbrev pub ErrorHandler : Type 0
ErrorHandler = Option WebError → Option WebError

-- What the middleware reads of `KeyAuthConfig`; `extractors` are the functions of `KeyLookupFuncs`,
-- then those of `KeyLookup`.
pub record KeyAuthConfig : Type 0 where
  pub skipper : Request → Bool
  pub extractors : List (Request → Result (List Text))
  pub validator : Validator
  pub error_handler : Option ErrorHandler

pub data Outcome : Type 0 where
  passed : Outcome
  unauthorized : WebError → Outcome

-- The loop over the keys of an extractor: whether a key was accepted, and `lastAuthErr`.
pub try_keys : Validator → List Text → Option WebError → Bool × Option WebError
try_keys v [] last = (false, last)
try_keys v (key ∷ keys) last =
    let (valid, failure) = v key in
    elim failure [
      | some e ↦ try_keys v keys (some e)
      | none ↦ elim valid [ true ↦ (true, last) | false ↦ try_keys v keys last ]
    ]

-- The two errors that the loop over the extractors keeps.
pub record LastErrors : Type 0 where
  pub extractor_err : Option WebError
  pub auth_err : Option WebError

pub try_extractors :
    Validator → Request → List (Request → Result (List Text)) → LastErrors → Bool × LastErrors
unfolding try_keys
try_extractors v r [] last = (false, last)
try_extractors v r (extractor ∷ extractors) last = elim (extractor r) [
  | err e ↦ try_extractors v r extractors (record last { extractor_err = some e })
  | ok keys ↦
      let (accepted, a) = try_keys v keys last.auth_err in
      let now = record last { auth_err = a } in
      elim accepted [ true ↦ (true, now) | false ↦ try_extractors v r extractors now ]
]

abbrev pub first_err : Option WebError → Option WebError → Option WebError
first_err none e = e
first_err (some a) e = some a

abbrev pub handled : Option ErrorHandler → Option WebError → Option WebError
handled none e = e
handled (some h) e = h e

abbrev pub outcome_of : Option WebError → Outcome
outcome_of none = passed
outcome_of (some e) = unauthorized e

unfoldable pub key_auth : KeyAuthConfig → Request → Outcome
unfolding try_extractors
key_auth c r =
    if c.skipper r
    then passed
    else (let (accepted, last) =
          try_extractors c.validator r c.extractors
            (record { extractor_err = none; auth_err = none }) in
        if accepted
        then passed
        else outcome_of (handled c.error_handler (first_err last.auth_err last.extractor_err)))
