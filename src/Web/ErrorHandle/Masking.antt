-- ===== src/Web/ErrorHandle/Masking.antt =====
-- What a client learns of the errors that web/handler/errorhandle.go answers with.
use woocoo.Base.{
  ℕ, ◌≡◌, ◌≢◌, ◌∙◌, refl, ap, Bool, true, false, not, List, [], ◌∷◌, none, some, inl, inr, ◌==◌,
  if◌then◌else◌, arith, Option-cases, sym,
}
use woocoo.Web.{Text}
use woocoo.Web.ErrorHandle.{
  ErrorType, public_error, private_error, other_error, GinError, ErrorMaps, code_text, error_text,
  lookup_error_code, ErrorEntry, format_response_error, format_typed, with_meta, parse_error,
  parse_errors, default_error_parser, error_status, Format, json, xml, no_format, Response, Answer,
  as_json, as_xml, not_acceptable, only_error, unanswered, message_error, ErrorHandleConfig,
  formats_of, negotiate_response, handle_errors,
}

-- An error that is not public.
abbrev pub IsHidden : ErrorType → Type 0
IsHidden public_error = ⊥
IsHidden private_error = Unit
IsHidden (other_error bits) = Unit

-- Errors that differ in their texts alone, and only where they are hidden and not in the map of texts.
abbrev pub Alike : ErrorMaps → GinError → GinError → Type 0
Alike maps e e' =
    IsHidden e.type
    × (e.type ≡ e'.type)
    × (e.meta ≡ e'.meta)
    × (error_text maps.error_map e.text ≡ none)
    × (error_text maps.error_map e'.text ≡ none)

abbrev pub AllAlike : ErrorMaps → List GinError → List GinError → Type 0
AllAlike maps [] [] = Unit
AllAlike maps [] (e' ∷ es') = ⊥
AllAlike maps (e ∷ es) [] = ⊥
AllAlike maps (e ∷ es) (e' ∷ es') = Alike maps e e' × AllAlike maps es es'

format_response_error-masks :
    (maps : ErrorMaps) (code : ℕ) (text text' message : Text)
    → error_text maps.error_map text ≡ none
    → error_text maps.error_map text' ≡ none
    → format_response_error maps code text (some message)
      ≡ format_response_error maps code text' (some message)
unfolding format_response_error lookup_error_code
format_response_error-masks maps code text text' message h h' =
    elim (Option-cases (code_text maps.code_map code)) [
      | inl none_there ↦ rw (format_response_error, lookup_error_code, none_there, h, h')
      | inr (txt, there) ↦ rw (format_response_error, lookup_error_code, there)
    ]

format_typed-masks :
    (maps : ErrorMaps) (code : ℕ) (message : Text) (type : ErrorType) (text text' : Text)
    → IsHidden type
    → error_text maps.error_map text ≡ none
    → error_text maps.error_map text' ≡ none
    → format_typed maps code (some message) type text
      ≡ format_typed maps code (some message) type text'
format_typed-masks maps code message public_error text text' hidden h h' = absurd hidden
format_typed-masks maps code message private_error text text' hidden h h' =
    format_response_error-masks maps code text text' message h h'
format_typed-masks maps code message (other_error bits) text text' hidden h h' =
    format_response_error-masks maps bits text text' message h h'

parse_error-masks :
    (maps : ErrorMaps) (code : ℕ) (message : Text) (e e' : GinError)
    → Alike maps e e'
    → parse_error maps code (some message) e ≡ parse_error maps code (some message) e'
parse_error-masks maps code message e e' (hidden, type, meta, h, h') =
    ap (λ f. with_meta f e.meta)
      (format_typed-masks maps code message e.type e.text e'.text hidden h h')
    ∙ ap (λ t. with_meta (format_typed maps code (some message) t e'.text) e.meta) type
    ∙ ap (with_meta (format_typed maps code (some message) e'.type e'.text)) meta

parse_errors-masks :
    (maps : ErrorMaps) (code : ℕ) (message : Text) (es es' : List GinError)
    → AllAlike maps es es'
    → parse_errors maps code (some message) es ≡ parse_errors maps code (some message) es'
unfolding parse_errors
parse_errors-masks maps code message [] [] a = refl
parse_errors-masks maps code message [] (e' ∷ es') a = absurd a
parse_errors-masks maps code message (e ∷ es) [] a = absurd a
parse_errors-masks maps code message (e ∷ es) (e' ∷ es') (h, a) = rw (
  parse_errors,
  parse_error-masks maps code message e e' h,
  parse_errors-masks maps code message es es' a,
)

-- With a message for private errors, the answer tells nothing of a hidden error's text: two lists of
-- errors that are not public, and differ in texts alone, get the same answer. Texts that the map of
-- texts replaces are left out.
pub handle_errors-masks :
    (negotiate : List Text → Format) (maps : ErrorMaps) (config : ErrorHandleConfig) (w : Response)
    (es es' : List GinError) (message : Text)
    → message_error config.message ≡ some message
    → AllAlike maps es es'
    → handle_errors negotiate maps config w es ≡ handle_errors negotiate maps config w es'
unfolding handle_errors default_error_parser
handle_errors-masks negotiate maps config w [] [] message m a = refl
handle_errors-masks negotiate maps config w [] (e' ∷ es') message m a = absurd a
handle_errors-masks negotiate maps config w (e ∷ es) [] message m a = absurd a
handle_errors-masks negotiate maps config w (e ∷ es) (e' ∷ es') message m a =
    let code = error_status w.status in
    let answer = λ (entries : List ErrorEntry).
      negotiate_response w code entries
        (negotiate (formats_of config.accepts config.negotiate_format)) in
    ap (λ public. answer (parse_errors maps code public (e ∷ es))) m
    ∙ ap answer (parse_errors-masks maps code message (e ∷ es) (e' ∷ es') a)
    ∙ ap (λ public. answer (parse_errors maps code public (e' ∷ es'))) (sym m)

-- The status that an answer sends; the one of a response that was written is sent already.
abbrev pub Sends : Answer → (ℕ → Type 0) → Type 0
Sends (as_json code entries) P = P code
Sends (as_xml code entries) P = P code
Sends not_acceptable P = P 406
Sends only_error P = Unit
Sends unanswered P = ⊥

final_code-fails :
    (written : Bool) (status : ℕ)
    → written ≡ false
    → (if written
        then status
        else if not (status == 200)
        then status
        else if status == 200
        then 500
        else status)
      ≢ 200
final_code-fails written status h = ground arith

negotiate_response-fails :
    (w : Response) (entries : List ErrorEntry) (format : Format)
    → w.written ≡ false
    → Sends (negotiate_response w (error_status w.status) entries format) (λ code. code ≢ 200)
unfolding negotiate_response
negotiate_response-fails w entries json h = final_code-fails w.written w.status h
negotiate_response-fails w entries xml h = final_code-fails w.written w.status h
negotiate_response-fails w entries no_format h = refused w.written h
  where
    refused :
        (written : Bool)
        → written ≡ false
        → Sends (if written then only_error else not_acceptable) (λ code. code ≢ 200)
    refused true e = tt
    refused false e = omega arith

-- A request with an error, whose response was not written, is answered, and never with the status 200.
pub handle_errors-fails :
    (negotiate : List Text → Format) (maps : ErrorMaps) (config : ErrorHandleConfig) (w : Response)
    (e : GinError) (es : List GinError)
    → w.written ≡ false
    → Sends (handle_errors negotiate maps config w (e ∷ es)) (λ code. code ≢ 200)
unfolding handle_errors default_error_parser negotiate_response
handle_errors-fails negotiate maps config w e es h =
    negotiate_response-fails w
      (parse_errors maps (error_status w.status) (message_error config.message) (e ∷ es))
      (negotiate (formats_of config.accepts config.negotiate_format)) h
