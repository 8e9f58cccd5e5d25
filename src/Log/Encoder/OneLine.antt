-- ===== src/Log/Encoder/OneLine.antt =====
-- An entry that pkg/log/text.go encodes is one line, whatever texts it is made of.
use woocoo.Base.{
  ℕ, zero, suc, ◌≡◌, refl, Bool, true, false, [], ◌∷◌, ◌++◌, Option, none, some, inl, inr, ltb,
  ◌==◌, if◌then◌else◌, arith, length, codes, same_text, Bool-cases, Option-cases,
}
use woocoo.Log.Text.{Bytes}
use woocoo.Log.Text.Control.{Holds, IsPrintable}
use woocoo.Log.Encoder.{
  Encoder, LogTime, Field, Fields, end, field, append, append_string, add_key, begin_quote_filed,
  end_quote_filed, cloned,
}
use woocoo.Log.Encoder.Clean.{
  Holds-bind, IsClean, append-IsClean, append_string-IsClean, add_key-IsClean, append_time-IsClean,
}
use woocoo.Log.Encoder.Clean.Value.{add_field-IsClean}
use woocoo.Log.Encoder.Entry.{
  LogEntry, is_empty, get_caller_string, or_text, bracketed, add_time, add_level, add_name,
  add_caller, add_message, add_context, bracketed_string, error_of, encode_error,
  close_open_namespaces, add_stack, add_one, add_fields, encode_entry,
}

begin_quote_filed-IsClean : (enc : Encoder) → IsClean enc → IsClean (begin_quote_filed enc)
begin_quote_filed-IsClean enc p = elim (Bool-cases (ltb 0 (length enc.buf))) [
  | inl later ↦ rw later (append-IsClean enc (b' ' ∷ b'[' ∷ []) p (omega arith))
  | inr first ↦ rw first (append-IsClean enc (b'[' ∷ []) p (omega arith))
]

end_quote_filed-IsClean : (enc : Encoder) → IsClean enc → IsClean (end_quote_filed enc)
end_quote_filed-IsClean enc p = append-IsClean enc (b']' ∷ []) p (omega arith)

bracketed_string-IsClean :
    (enc : Encoder) (key val : Bytes) → IsClean enc → IsClean (bracketed_string enc key val)
bracketed_string-IsClean enc key val p =
    end_quote_filed-IsClean (append_string (add_key (begin_quote_filed enc) key) val) (
      append_string-IsClean (add_key (begin_quote_filed enc) key) val
        (add_key-IsClean (begin_quote_filed enc) key (begin_quote_filed-IsClean enc p)))

bracketed-IsClean :
    (enc : Encoder) (val text : Bytes) → IsClean enc → IsClean (bracketed enc val text)
bracketed-IsClean enc val text p =
    let written =
      append_string-IsClean (begin_quote_filed enc) val (begin_quote_filed-IsClean enc p) in
    let enc' = append_string (begin_quote_filed enc) val in
    end_quote_filed-IsClean (or_text (begin_quote_filed enc) enc' text)
      (elim (Bool-cases (length enc'.buf == length (begin_quote_filed enc).buf)) [
        | inl nothing ↦ rw nothing (append_string-IsClean enc' text written)
        | inr something ↦ rw something written
      ])

-- A part that is written under a condition.
if-IsClean : (b : Bool) (x y : Encoder) → IsClean x → IsClean y → IsClean (if b then x else y)
if-IsClean true x y p q = p
if-IsClean false x y p q = q

encode_error-IsClean :
    (enc : Encoder) (key basic : Bytes) (verbose : Option Bytes)
    → IsClean enc
    → IsClean (encode_error enc key basic verbose)
unfolding encode_error
encode_error-IsClean enc key basic none p = bracketed_string-IsClean enc key basic p
encode_error-IsClean enc key basic (some verbose) p =
    let first = bracketed_string-IsClean enc key basic p in
    let enc' = bracketed_string enc key basic in
    let long = bracketed_string enc' (key ++ codes "Verbose") verbose in
    if-IsClean enc.disable_error_verbose enc' (if same_text verbose basic then enc' else long) first
      (if-IsClean (same_text verbose basic) enc' long first
        (bracketed_string-IsClean enc' (key ++ codes "Verbose") verbose first))

close_open_namespaces-IsClean :
    (n : ℕ) (enc : Encoder) → IsClean enc → IsClean (close_open_namespaces n enc)
unfolding close_open_namespaces
close_open_namespaces-IsClean zero enc p = p
close_open_namespaces-IsClean (suc n) enc p =
    close_open_namespaces-IsClean n _ (append-IsClean enc (b'}' ∷ []) p (omega arith))

headed-IsClean :
    (enc : Encoder) (ent : LogEntry)
    → IsClean enc
    → IsClean (add_message (add_caller (add_name (add_level enc ent) ent) ent) ent)
headed-IsClean enc ent p =
    let level = add_level enc ent in
    let level-IsClean : IsClean level =
      if-IsClean _ enc _ p (bracketed-IsClean enc ent.capital_level ent.level p) in
    let name = add_name level ent in
    let name-IsClean : IsClean name =
      if-IsClean _ _ level (bracketed-IsClean level ent.logger_name ent.logger_name level-IsClean)
        level-IsClean in
    let caller = add_caller name ent in
    let caller-IsClean : IsClean caller =
      if-IsClean _ _ name
        (bracketed-IsClean name (get_caller_string ent.caller) ent.caller.path name-IsClean)
        name-IsClean in
    if-IsClean _ caller _ caller-IsClean (
      end_quote_filed-IsClean (append_string (begin_quote_filed caller) ent.message) (
        append_string-IsClean (begin_quote_filed caller) ent.message
          (begin_quote_filed-IsClean caller caller-IsClean)))

add_stack-IsClean : (enc : Encoder) (ent : LogEntry) → IsClean enc → IsClean (add_stack enc ent)
add_stack-IsClean enc ent p =
    if-IsClean _ _ enc (bracketed_string-IsClean enc enc.stacktrace_key ent.stack p) p

module _ (show_float : ℕ → Bytes) (base64 : Bytes → Bytes)
    (shown : (x : ℕ) → IsPrintable (show_float x)) where
  add_one-IsClean :
      (enc : Encoder) (f : Field) → IsClean enc → Holds IsClean (add_one show_float base64 enc f)
  unfolding add_one
  add_one-IsClean enc f p = elim (Option-cases (error_of f)) [
    | inr ((key, basic, verbose), e) ↦
        rw (add_one, e) (encode_error-IsClean enc key basic verbose p)
    | inl e ↦
        rw (add_one, e)
          (Holds-bind IsClean IsClean _ _
            (add_field-IsClean show_float base64 shown (begin_quote_filed enc) f
              (begin_quote_filed-IsClean enc p))
            (λ enc' q. end_quote_filed-IsClean enc' q))
  ]

  add_fields-IsClean :
      (enc : Encoder) (fs : Fields)
      → IsClean enc
      → Holds IsClean (add_fields show_float base64 enc fs)
  unfolding add_fields
  add_fields-IsClean enc end p = p
  add_fields-IsClean enc (field f fs) p =
      Holds-bind IsClean IsClean _ _ (add_one-IsClean enc f p)
        (λ enc' q. add_fields-IsClean enc' fs q)

  add_time-IsClean : (enc : Encoder) (t : LogTime) → IsClean enc → Holds IsClean (add_time enc t)
  add_time-IsClean enc t p = elim (Bool-cases (is_empty enc.time_key)) [
    | inl off ↦ rw off p
    | inr on ↦ rw on (
        Holds-bind IsClean IsClean _ _
          (append_time-IsClean (begin_quote_filed enc) t (begin_quote_filed-IsClean enc p))
          (λ enc' q. end_quote_filed-IsClean enc' q))
  ]

  -- One line: control characters nowhere but for the newline at the end.
  abbrev pub IsLine : Bytes → Type 0
  IsLine out = (line : Bytes) × IsPrintable line × (out ≡ line ++ b'\n' ∷ [])

  encode_entry-Holds :
      (enc : Encoder) (ent : LogEntry) (fields : Fields)
      → IsClean enc
      → Holds IsLine (encode_entry show_float base64 enc ent fields)
  unfolding encode_entry
  encode_entry-Holds enc ent fields p =
      Holds-bind IsClean IsLine _ _ (add_time-IsClean (cloned enc) ent.time tt) (λ timed q.
        let headed = add_message (add_caller (add_name (add_level timed ent) ent) ent) ent in
        let r : IsClean headed = headed-IsClean timed ent q in
        Holds-bind IsClean IsLine _ _
          (add_fields-IsClean (add_context headed enc.buf) fields (
            if-IsClean (is_empty enc.buf) headed (append headed (b' ' ∷ enc.buf)) r
              (append-IsClean headed (b' ' ∷ enc.buf) r (omega arith, p))))
          (λ filled f.
            let closed = close_open_namespaces filled.open_namespaces filled in
            let final = add_stack closed ent in
            (
              final.buf,
              add_stack-IsClean closed ent
                  (close_open_namespaces-IsClean filled.open_namespaces filled f),
              refl,
            )))

  -- Whatever the message, the names, the keys and the values hold, an entry is encoded as one line:
  -- no byte below 32 stands in it but for the newline at its end. The texts of floating-point numbers
  -- and the context that the encoder already holds have no such byte.
  pub encode_entry-IsLine :
      (enc : Encoder) (ent : LogEntry) (fields : Fields) (out : Bytes)
      → IsPrintable enc.buf
      → encode_entry show_float base64 enc ent fields ≡ some out
      → (line : Bytes) × IsPrintable line × (out ≡ line ++ b'\n' ∷ [])
  encode_entry-IsLine enc ent fields out p h = rw h at (encode_entry-Holds enc ent fields p)
