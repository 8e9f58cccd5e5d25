-- ===== src/Log/Encoder/Entry.antt =====
-- `EncodeEntry` of pkg/log/text.go.
use woocoo.Base.{
  ℕ, zero, suc, Bool, true, false, not, ◌&&◌, ◌||◌, [], ◌∷◌, ◌++◌, Option, none, some, ◌==◌,
  if◌then◌else◌, codes, length, same_text,
}
use woocoo.Log.Text.{Bytes, within}
use woocoo.Log.Encoder.{
  ◌>>=◌, Encoder, LogTime, Field, error_field, Fields, end, field, append, append_string,
  append_time, add_key, add_field, begin_quote_filed, end_quote_filed, cloned, decimal,
}

-- `zapcore.EntryCaller`; `path` is what its method `String` gives.
pub record Caller : Type 0 where
  pub defined : Bool
  pub file : Bytes
  pub line : ℕ
  pub path : Bytes

-- `zapcore.Entry`. A level has two names, of which the encoder writes the one in capitals.
pub record LogEntry : Type 0 where
  pub time : LogTime
  pub capital_level : Bytes
  pub level : Bytes
  pub logger_name : Bytes
  pub caller : Caller
  pub message : Bytes
  pub stack : Bytes

abbrev pub is_empty : Bytes → Bool
is_empty [] = true
is_empty (b ∷ s) = false

-- What follows the last slash, after the piece read so far.
abbrev pub base_name : Bytes → Bytes → Bytes
base_name piece [] = piece
base_name piece (b ∷ s) = base_name (if b == b'/' then [] else piece ++ b ∷ []) s

abbrev pub is_name_byte : ℕ → Bool
is_name_byte b =
    within b'A' b'Z' b
    || within b'a' b'z' b
    || within b'0' b'9' b
    || b == b'.'
    || b == b'-'
    || b == b'_'

abbrev pub name_bytes : Bytes → Bytes
name_bytes [] = []
name_bytes (b ∷ s) = let rest = name_bytes s in if is_name_byte b then b ∷ rest else rest

unfoldable pub get_caller_string : Caller → Bytes
get_caller_string ec =
    if ec.defined
    then name_bytes (base_name [] ec.file) ++ b':' ∷ decimal ec.line
    else codes "<unknown>"

-- An encoder of the configuration, and the text that is written if it wrote nothing.
abbrev pub or_text : Encoder → Encoder → Bytes → Encoder
or_text enc enc' text = if length enc'.buf == length enc.buf then append_string enc' text else enc'

-- A part of the line between brackets, written by a configured encoder.
abbrev pub bracketed : Encoder → (val text : Bytes) → Encoder
bracketed enc val text =
    let open_enc = begin_quote_filed enc in
    end_quote_filed (or_text open_enc (append_string open_enc val) text)

abbrev pub add_time : Encoder → LogTime → Option Encoder
add_time enc t =
    if is_empty enc.time_key
    then some enc
    else (append_time (begin_quote_filed enc) t >>= λ enc'. some (end_quote_filed enc'))

abbrev pub add_level : Encoder → LogEntry → Encoder
add_level enc ent =
    if is_empty enc.level_key then enc else bracketed enc ent.capital_level ent.level

abbrev pub add_name : Encoder → LogEntry → Encoder
add_name enc ent =
    if not (is_empty ent.logger_name) && not (is_empty enc.name_key)
    then bracketed enc ent.logger_name ent.logger_name
    else enc

abbrev pub add_caller : Encoder → LogEntry → Encoder
add_caller enc ent =
    if ent.caller.defined && not (is_empty enc.caller_key)
    then bracketed enc (get_caller_string ent.caller) ent.caller.path
    else enc

abbrev pub add_message : Encoder → LogEntry → Encoder
add_message enc ent =
    if is_empty ent.message
    then enc
    else end_quote_filed (append_string (begin_quote_filed enc) ent.message)

-- The context that `With` has collected in the encoder.
abbrev pub add_context : Encoder → Bytes → Encoder
add_context enc context = if is_empty context then enc else append enc (b' ' ∷ context)

-- A field with a text, between brackets.
abbrev pub bracketed_string : Encoder → (key val : Bytes) → Encoder
bracketed_string enc key val =
    end_quote_filed (append_string (add_key (begin_quote_filed enc) key) val)

unfoldable pub encode_error : Encoder → (key basic : Bytes) → Option Bytes → Encoder
encode_error enc key basic none = bracketed_string enc key basic
encode_error enc key basic (some verbose) =
    let enc' = bracketed_string enc key basic in
    if enc.disable_error_verbose
    then enc'
    else if same_text verbose basic
    then enc'
    else bracketed_string enc' (key ++ codes "Verbose") verbose

unfoldable pub close_open_namespaces : ℕ → Encoder → Encoder
close_open_namespaces zero enc = enc
close_open_namespaces (suc n) enc = close_open_namespaces n (append enc (b'}' ∷ []))

abbrev pub add_stack : Encoder → LogEntry → Encoder
add_stack enc ent =
    if not (is_empty ent.stack) && not (is_empty enc.stacktrace_key)
    then bracketed_string enc enc.stacktrace_key ent.stack
    else enc

-- `f.Type == zapcore.ErrorType`.
abbrev pub error_of : Field → Option (Bytes × Bytes × Option Bytes)
error_of (error_field key basic verbose) = some (key, basic, verbose)
error_of f = none

module _ (show_float : ℕ → Bytes) (base64 : Bytes → Bytes) where
  -- A round of `addFields`.
  unfoldable pub add_one : Encoder → Field → Option Encoder
  unfolding encode_error
  add_one enc f = elim (error_of f) [
    | some (key, basic, verbose) ↦ some (encode_error enc key basic verbose)
    | none ↦ add_field show_float base64 (begin_quote_filed enc) f >>= λ enc'.
        some (end_quote_filed enc')
  ]

  unfoldable pub add_fields : Encoder → Fields → Option Encoder
  unfolding add_one
  add_fields enc end = some enc
  add_fields enc (field f fs) = add_one enc f >>= λ enc'. add_fields enc' fs

  unfoldable pub encode_entry : Encoder → LogEntry → Fields → Option Bytes
  unfolding add_fields close_open_namespaces
  encode_entry enc ent fields = do
    timed ← add_time (cloned enc) ent.time
    let headed = add_message (add_caller (add_name (add_level timed ent) ent) ent) ent
    filled ← add_fields (add_context headed enc.buf) fields
    let final = add_stack (close_open_namespaces filled.open_namespaces filled) ent
    some (final.buf ++ b'\n' ∷ [])
