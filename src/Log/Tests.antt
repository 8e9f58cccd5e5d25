-- ===== src/Log/Tests.antt =====
-- Runs of the encoder, and the theorems about it at concrete inputs.
use woocoo.Base.{
  ℕ, ◌≡◌, ◌⊎◌, refl, true, false, List, [], ◌∷◌, ◌++◌, none, some, ◌≤◌, ◌<◌, codes, arith, length,
}
use woocoo.Base.Int.{pos, negsuc}
use woocoo.Log.Text.{Bytes, safe_add_string_with_quote, write_padding}
use woocoo.Log.Text.Control.{IsPrintable}
use woocoo.Log.Text.Padding.{Pads, write_padding-Pads}
use woocoo.Log.Encoder.{
  Encoder, new_text_encoder, LogTime, Fields, end, field, int_field, string_field, array_field,
  namespace_field, done, element, time_element, add_field, append, append_time,
}
use woocoo.Log.Encoder.Entry.{LogEntry, add_fields, encode_entry, get_caller_string}
use woocoo.Log.Encoder.OneLine.{encode_entry-IsLine}
use woocoo.Log.Encoder.Reader.{read_parts}
use woocoo.Log.Encoder.ReadBack.{string_fields, repaired_parts, add_fields-read_parts}

abbrev noon : LogTime
noon = record {
  year = 2022;
  month = 5;
  day = 6;
  hour = 12;
  minute = 0;
  second = 3;
  nanosecond = 45000000;
  offset = pos 28800;
}

abbrev encoder : Encoder
encoder =
    new_text_encoder
      (record {
        time_key = codes "ts";
        level_key = codes "level";
        name_key = codes "name";
        caller_key = codes "caller";
        stacktrace_key = codes "stacktrace";
      })
      true false true

abbrev entry : LogEntry
entry = record {
  time = noon;
  capital_level = codes "INFO";
  level = codes "info";
  logger_name = codes "";
  caller = record { defined = true; file = codes "/a/b c.go"; line = 7; path = codes "b c.go:7" };
  message = codes "two\nlines";
  stack = [];
}

abbrev show_zero : ℕ → Bytes
show_zero x = codes "0"

abbrev unencoded : Bytes → Bytes
unencoded s = s

abbrev one_field : Fields
one_field = field (string_field (codes "k") (codes "a=b")) end

abbrev entry_line : Bytes
entry_line =
    codes "[2022/05/06 12:00:03.045 +08:00] [INFO] [bc.go:7] [\"two\\nlines\"] [k=\"a=b\"]\n"

encodes_entry : encode_entry show_zero unencoded encoder entry one_field ≡ some entry_line
unfolding encode_entry append_time write_padding add_field safe_add_string_with_quote
    get_caller_string
encodes_entry = refl

-- Two times of an array have nothing between them.
joins_times :
    add_field show_zero unencoded encoder
      (array_field (codes "at") (element (time_element noon) (element (time_element noon) done)))
    ≡ some (
        append encoder
          (codes "at=\"[2022/05/06 12:00:03.045 +08:002022/05/06 12:00:03.045 +08:00]\""))
unfolding add_field write_padding safe_add_string_with_quote
joins_times = refl

-- A namespace is opened between brackets and closed behind the others.
crosses_namespace :
    encode_entry show_zero unencoded
      (record encoder { time_key = []; level_key = []; caller_key = [] })
      (record entry { message = [] })
      (field (namespace_field (codes "ns")) (field (int_field (codes "a") (negsuc 0)) end))
    ≡ some (codes "[ns={] [a=-1]}\n")
unfolding encode_entry add_field safe_add_string_with_quote
crosses_namespace = refl

show_zero-IsPrintable : (x : ℕ) → IsPrintable (show_zero x)
show_zero-IsPrintable x = omega arith

encode_entry-IsLine_example : (line : Bytes) × IsPrintable line × (entry_line ≡ line ++ b'\n' ∷ [])
encode_entry-IsLine_example =
    encode_entry-IsLine show_zero unencoded show_zero-IsPrintable encoder entry one_field entry_line
      tt encodes_entry

abbrev texts : List (Bytes × Bytes)
texts = (codes "k", codes "a=b") ∷ (codes "l", 255 ∷ []) ∷ []

add_fields-read_parts_example :
    (text : Bytes) × (add_fields show_zero unencoded encoder (string_fields texts)
      ≡ some (append encoder text))
    × (read_parts (length texts) text ≡ some (repaired_parts texts))
add_fields-read_parts_example = add_fields-read_parts show_zero unencoded encoder texts refl

write_padding-Pads_example :
    ((45 < 100000000) × (s : Bytes) × (write_padding 45 3 ≡ some s) × Pads 45 3 s)
    ⊎ ((100000000 ≤ 45) × (write_padding 45 3 ≡ none))
write_padding-Pads_example = write_padding-Pads 45 3 (omega arith)
