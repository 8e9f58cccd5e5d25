-- ===== src/Web/ErrorTests.antt =====
-- Errors of a request, and the theorems about their answer.
use woocoo.Base.{◌≡◌, ◌≢◌, refl, false, List, [], ◌∷◌, none, some, codes}
use woocoo.Web.{Text}
use woocoo.Web.ErrorHandle.{
  private_error, other_error, GinError, ErrorMaps, Format, json, Response, ErrorHandleConfig,
  as_json, handle_errors, error_text,
}
use woocoo.Web.ErrorHandle.Masking.{Sends, handle_errors-masks, handle_errors-fails}

abbrev maps : ErrorMaps
maps = record {
  code_map = (1001, codes "quota") ∷ [];
  error_map = (codes "gone", codes "not there") ∷ [];
}

abbrev masking : ErrorHandleConfig
masking = record {
  accepts = codes "application/json";
  negotiate_format = [];
  message = codes "internal";
}

abbrev fresh : Response
fresh = record { written = false; status = 200 }

abbrev to_json : List Text → Format
to_json offered = json

abbrev hidden_error : Text → GinError
hidden_error text = record { type = private_error; text = text; meta = none }

answers :
    handle_errors to_json maps masking fresh (
      hidden_error (codes "gone")
      ∷ hidden_error (codes "pq: password")
      ∷ (record { type = other_error 1001; text = codes "x"; meta = none })
      ∷ [])
    ≡ as_json 500 (
        (record { code = some 500; message = codes "not there"; meta = none })
        ∷ (record { code = none; message = codes "internal"; meta = none })
        ∷ (record { code = some 1001; message = codes "quota"; meta = none })
        ∷ [])
unfolding handle_errors
answers = refl

handle_errors-masks_example :
    handle_errors to_json maps masking fresh (hidden_error (codes "secret") ∷ [])
    ≡ handle_errors to_json maps masking fresh (hidden_error (codes "other") ∷ [])
unfolding error_text
handle_errors-masks_example =
    handle_errors-masks to_json maps masking fresh (hidden_error (codes "secret") ∷ [])
      (hidden_error (codes "other") ∷ []) (codes "internal") refl ((tt, refl, refl, refl, refl), tt)

handle_errors-fails_example :
    Sends
      (handle_errors to_json maps masking fresh (hidden_error (codes "secret") ∷ []))
      (λ code. code ≢ 200)
handle_errors-fails_example =
    handle_errors-fails to_json maps masking fresh (hidden_error (codes "secret")) [] refl
