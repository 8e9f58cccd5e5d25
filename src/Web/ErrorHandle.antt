-- ===== src/Web/ErrorHandle.antt =====
-- web/handler/errorhandle.go: how the errors of a request become its response. What gin keeps of the
-- request is the record Response, and a code is a number below 2 ^ 64.
pub mod Masking
use woocoo.Base.{
  ℕ, Bool, true, false, not, ◌&&◌, List, [], ◌∷◌, Option, none, some, ltb, ◌==◌, if◌then◌else◌,
  same_text, split, codes,
}
use woocoo.Web.{Text}

-- `gin.ErrorType`: the types are bits of 64, of which two have a case of their own.
pub data ErrorType : Type 0 where
  public_error private_error : ErrorType
  other_error : (bits : ℕ) → ErrorType

-- `gin.Error`, with the text of its error.
pub record GinError : Type 0 where
  pub type : ErrorType
  pub text : Text
  pub meta : Option Text

-- The maps that `SetErrorMap` sets. `useErrorCodeMap` and `useErrorMap` say that they are not empty.
pub record ErrorMaps : Type 0 where
  pub code_map : List (ℕ × Text)
  pub error_map : List (Text × Text)

abbrev pub set_code_map : Option (List (ℕ × Text)) → ErrorMaps → ErrorMaps
set_code_map none maps = maps
set_code_map (some cm) maps = record maps { code_map = cm }

abbrev pub set_text_map : Option (List (Text × Text)) → ErrorMaps → ErrorMaps
set_text_map none maps = maps
set_text_map (some em) maps = record maps { error_map = em }

abbrev pub set_error_map :
    Option (List (ℕ × Text)) → Option (List (Text × Text)) → ErrorMaps → ErrorMaps
set_error_map cm em maps = set_text_map em (set_code_map cm maps)

unfoldable pub code_text : List (ℕ × Text) → ℕ → Option Text
code_text [] code = none
code_text ((c, txt) ∷ entries) code =
    let rest = code_text entries code in if c == code then some txt else rest

unfoldable pub error_text : List (Text × Text) → Text → Option Text
error_text [] text = none
error_text ((t, txt) ∷ entries) text =
    let rest = error_text entries text in if same_text t text then some txt else rest

-- `LookupErrorCode`; `none` is the code -1.
abbrev pub or_error_text : Option Text → Option Text → Option Text
or_error_text (some txt) by_text = some txt
or_error_text none by_text = by_text

abbrev pub with_code : ℕ → Option Text → Option (ℕ × Text)
with_code code none = none
with_code code (some txt) = some (code, txt)

unfoldable pub lookup_error_code : ErrorMaps → (code : ℕ) → (text : Text) → Option (ℕ × Text)
unfolding code_text error_text
lookup_error_code maps code text =
    with_code code (or_error_text (code_text maps.code_map code) (error_text maps.error_map text))

-- An element of the answer's list.
pub record ErrorEntry : Type 0 where
  pub code : Option ℕ
  pub message : Text
  pub meta : Option Text

abbrev pub with_meta : ErrorEntry → Option Text → ErrorEntry
with_meta entry meta = record entry { meta = meta }

-- A code that is positive as an `int`.
abbrev pub is_positive : ℕ → Bool
is_positive code = ltb 0 code && ltb code 9223372036854775808

abbrev pub unmapped : (text : Text) → (public : Option Text) → ErrorEntry
unmapped text (some message) = record { code = none; message = message; meta = none }
unmapped text none = record { code = none; message = text; meta = none }

abbrev pub mapped : (text : Text) → (public : Option Text) → Option (ℕ × Text) → ErrorEntry
mapped text public none = unmapped text public
mapped text public (some (code, txt)) =
    if is_positive code
    then record { code = some code; message = txt; meta = none }
    else unmapped text public

-- `FormatResponseError`.
unfoldable pub format_response_error :
    ErrorMaps → (code : ℕ) → (text : Text) → (public : Option Text) → ErrorEntry
unfolding lookup_error_code
format_response_error maps code text public = mapped text public (lookup_error_code maps code text)

-- A round of the loop of `DefaultErrorParser`.
abbrev pub format_typed :
    ErrorMaps → (code : ℕ) → (public : Option Text) → ErrorType → (text : Text) → ErrorEntry
format_typed maps code public public_error text = format_response_error maps code text none
format_typed maps code public private_error text = format_response_error maps code text public
format_typed maps code public (other_error bits) text = format_response_error maps bits text public

abbrev pub parse_error : ErrorMaps → (code : ℕ) → (public : Option Text) → GinError → ErrorEntry
parse_error maps code public e = with_meta (format_typed maps code public e.type e.text) e.meta

unfoldable pub parse_errors :
    ErrorMaps → (code : ℕ) → (public : Option Text) → List GinError → List ErrorEntry
unfolding format_response_error
parse_errors maps code public [] = []
parse_errors maps code public (e ∷ es) =
    parse_error maps code public e ∷ parse_errors maps code public es

abbrev pub error_status : (status : ℕ) → ℕ
error_status status = if status == 200 then 500 else status

unfoldable pub default_error_parser :
    ErrorMaps → (status : ℕ) → (public : Option Text) → List GinError → ℕ × List ErrorEntry
unfolding parse_errors
default_error_parser maps status public errors =
    let code = error_status status in (code, parse_errors maps code public errors)

-- What `c.NegotiateFormat` gives of the offered formats, and what the response's writer has done.
pub data Format : Type 0 where
  json xml no_format : Format

pub record Response : Type 0 where
  pub written : Bool
  pub status : ℕ

pub data Answer : Type 0 where
  as_json as_xml : (code : ℕ) → List ErrorEntry → Answer
  -- `AbortWithError` of the code 406, and `Error` behind a response that was written.
  not_acceptable only_error unanswered : Answer

abbrev pub final_code : Response → ℕ → ℕ
final_code w code = if w.written then w.status else if not (w.status == 200) then w.status else code

unfoldable pub negotiate_response : Response → (code : ℕ) → List ErrorEntry → Format → Answer
negotiate_response w code entries json = as_json (final_code w code) entries
negotiate_response w code entries xml = as_xml (final_code w code) entries
negotiate_response w code entries no_format = if w.written then only_error else not_acceptable

abbrev pub formats_of : (accepts : Text) → List Text → List Text
formats_of [] [] = codes "application/json" ∷ []
formats_of [] (f ∷ formats) = f ∷ formats
formats_of (c ∷ accepts) formats = split b',' (c ∷ accepts)

abbrev pub message_error : Text → Option Text
message_error [] = none
message_error (c ∷ message) = some (c ∷ message)

pub record ErrorHandleConfig : Type 0 where
  pub accepts : Text
  pub negotiate_format : List Text
  pub message : Text

-- The handler of `ApplyFunc` behind `c.Next()`, with the default parser.
unfoldable pub handle_errors :
    (negotiate : List Text → Format)
    → ErrorMaps
    → ErrorHandleConfig
    → Response
    → List GinError
    → Answer
unfolding default_error_parser negotiate_response
handle_errors negotiate maps config w [] = unanswered
handle_errors negotiate maps config w (e ∷ es) =
    let (code, entries) =
      default_error_parser maps w.status (message_error config.message) (e ∷ es) in
    negotiate_response w code entries
      (negotiate (formats_of config.accepts config.negotiate_format))
