-- ===== src/Grpc/Recovery.antt =====
-- rpc/grpcx/interceptor/recovery.go: a panic of a handler becomes an error.
use woocoo.Base.{List, [], ◌∷◌, ◌++◌, Option, none, some}

-- How a handler ends: with a response and an error, with a panic, or without returning and without a
-- value to recover, as after `runtime.Goexit`.
pub data Ended (Response Error Value : Type 0) : Type 0 where
  returned : Option Response → Option Error → Ended Response Error Value
  panicked_with : Value → Ended Response Error Value
  left_off : Ended Response Error Value

module _ (Response Error Value : Type 0) where
  -- The dynamic type of a value that is recovered: an error, or none; and `status.Errorf` with the
  -- code Internal, of a value or of nil.
  pub record Platform : Type 0 where
    pub as_error : Value → Option Error
    pub internal : Option Value → Error

  abbrev recovered_error : Platform → Option Value → Error
  recovered_error plat none = plat.internal none
  recovered_error plat (some v) = elim (plat.as_error v) [
    | some e ↦ e
    | none ↦ plat.internal (some v)
  ]

  -- What the logs get: a field of the carrier of the context, or a line of the logger.
  pub data Logged : Type 0 where
    in_carrier : (fields : List Error) → Logged
    on_logger : Error → Logged

  abbrev logged_at : Option (List Error) → Error → Logged
  logged_at none e = on_logger e
  logged_at (some fields) e = in_carrier (fields ++ e ∷ [])

  -- `handleRecoverError`, with the fields of the carrier if the context has one.
  unfoldable pub handle_recover_error :
      Platform → (carrier : Option (List Error)) → Option Value → Error × Logged
  handle_recover_error plat carrier p =
      (recovered_error plat p, logged_at carrier (recovered_error plat p))

  abbrev recovered :
      Platform → Option (List Error) → Option Value → Option Response × Option Error × Option Logged
  recovered plat carrier p =
      let (e, log) = handle_recover_error plat carrier p in (none, some e, some log)

  -- The function that `UnaryServerInterceptor` returns: the response and the error, and what is logged.
  -- A response is nil unless the handler has returned.
  unfoldable pub recovery_interceptor :
      Platform
      → Option (List Error)
      → Ended Response Error Value
      → Option Response × Option Error × Option Logged
  unfolding handle_recover_error
  recovery_interceptor plat carrier (returned resp err) = (resp, err, none)
  recovery_interceptor plat carrier (panicked_with v) = recovered plat carrier (some v)
  recovery_interceptor plat carrier left_off = recovered plat carrier none

  -- The function that `StreamServerInterceptor` returns, whose handler has no response.
  unfoldable pub recovery_stream :
      Platform → Option (List Error) → Ended Response Error Value → Option Error × Option Logged
  unfolding recovery_interceptor
  recovery_stream plat carrier ended =
      let (resp, err, log) = recovery_interceptor plat carrier ended in (err, log)
