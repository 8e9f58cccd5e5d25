-- ===== src/Log/Encoder.antt =====
-- The encoder of pkg/log/text.go. The pools of buffers and encoders are not modelled: a clone is a new
-- value, and an encoder that is put back is not used again.
--
-- What zap calls on the encoder is a list of fields, one for each method; the methods for the other
-- sizes of numbers call those for 64 bits. `show_float` and `base64` are the texts that strconv and
-- encoding/base64 give. A panic is `none`.
pub mod Clean
pub mod OneLine
pub mod Entry
pub mod Reader
pub mod ReadBack
use woocoo.Base.{
  ℕ, zero, suc, ◌+◌, ◌-◌, ◌*◌, ◌/◌, ◌%◌, Bool, true, false, not, ◌&&◌, ◌||◌, List, [], ◌∷◌, ◌++◌,
  Option, none, some, leb, ltb, ◌==◌, if◌then◌else◌, codes, length,
}
use woocoo.Base.Int.{ℤ, pos, negsuc}
use woocoo.Log.Text.{Bytes, within, safe_add_string_with_quote, write_padding}

infixl 5 ◌>>=◌
abbrev pub ◌>>=◌ : {S T : Type 0} → Option S → (S → Option T) → Option T
none >>= next = none
some s >>= next = next s

-- `TextEncoder`, with the keys of its configuration that are read. `NewTextEncoder` fixes the
-- others: the encoders of levels, durations, callers and times, and "\n" as the line's end.
pub record Encoder : Type 0 where
  pub time_key : Bytes
  pub level_key : Bytes
  pub name_key : Bytes
  pub caller_key : Bytes
  pub stacktrace_key : Bytes
  pub buf : Bytes
  pub open_namespaces : ℕ
  pub disable_error_verbose : Bool
  pub need_quotes : Bool

-- What `NewTextEncoder` reads of `zapcore.EncoderConfig`.
pub record EncoderConfig : Type 0 where
  pub time_key : Bytes
  pub level_key : Bytes
  pub name_key : Bytes
  pub caller_key : Bytes
  pub stacktrace_key : Bytes

abbrev pub new_text_encoder :
    EncoderConfig → (disable_error_verbose disable_timestamp need_quotes : Bool) → Encoder
new_text_encoder config disable_error_verbose disable_timestamp need_quotes = record {
  time_key = if disable_timestamp then [] else config.time_key;
  level_key = config.level_key;
  name_key = config.name_key;
  caller_key = config.caller_key;
  stacktrace_key = config.stacktrace_key;
  buf = [];
  open_namespaces = 0;
  disable_error_verbose = disable_error_verbose;
  need_quotes = need_quotes;
}

-- `Truncate`; `Clone` gives the encoder itself, as a value.
abbrev pub truncate : Encoder → Encoder
truncate enc = record enc { buf = [] }

-- What the source reads of a `time.Time`; the year is not negative.
pub record LogTime : Type 0 where
  pub year : ℕ
  pub month : ℕ
  pub day : ℕ
  pub hour : ℕ
  pub minute : ℕ
  pub second : ℕ
  pub nanosecond : ℕ
  pub offset : ℤ

pub data Float : Type 0 where
  nan inf neg_inf : Float
  finite : ℕ → Float

mutual
  -- A call of an `Add` method, or an error.
  pub data Field : Type 0 where
    string_field byte_string_field binary_field duration_field : (key val : Bytes) → Field
    bool_field : Bytes → Bool → Field
    int_field : Bytes → ℤ → Field
    uint_field : Bytes → ℕ → Field
    float_field : Bytes → Float → Field
    complex_field : Bytes → (re im : ℕ) → Field
    time_field : Bytes → LogTime → Field
    -- A value as JSON, or the error of its encoding, which zap adds under another key.
    reflected_field : (key json : Bytes) → Field
    reflected_error : (key message : Bytes) → Field
    namespace_field : Bytes → Field
    object_field : Bytes → Fields → Field
    array_field : Bytes → Elements → Field
    error_field : (key basic : Bytes) → (verbose : Option Bytes) → Field

  pub data Fields : Type 0 where
    end : Fields
    field : Field → Fields → Fields

  -- A call of an `Append` method.
  pub data Element : Type 0 where
    string_element byte_string_element duration_element reflected_element : Bytes → Element
    bool_element : Bool → Element
    int_element : ℤ → Element
    uint_element : ℕ → Element
    float_element : Float → Element
    complex_element : (re im : ℕ) → Element
    time_element : LogTime → Element
    object_element : Fields → Element
    array_element : Elements → Element

  pub data Elements : Type 0 where
    done : Elements
    element : Element → Elements → Elements

abbrev pub append : Encoder → Bytes → Encoder
append enc s = record enc { buf = enc.buf ++ s }

-- The last byte before which no comma is written.
abbrev pub is_separator : ℕ → Bool
is_separator b = b == b'{' || b == b'[' || b == b':' || b == b',' || b == b' ' || b == b'='

abbrev pub ends_open : Bytes → Bool
ends_open [] = true
ends_open (b ∷ []) = is_separator b
ends_open (b ∷ c ∷ s) = ends_open (c ∷ s)

unfoldable pub add_element_separator : Encoder → Encoder
add_element_separator enc = if ends_open enc.buf then enc else append enc (b',' ∷ [])

unfoldable pub append_string : Encoder → Bytes → Encoder
unfolding add_element_separator
append_string enc val =
    append (add_element_separator enc) (safe_add_string_with_quote enc.need_quotes val)

unfoldable pub add_key : Encoder → Bytes → Encoder
unfolding append_string
add_key enc key = append (append_string enc key) (b'=' ∷ [])

-- Decimal digits; 20 are enough for 64 bits.
abbrev pub digits_of : (fuel n : ℕ) → Bytes → Bytes
digits_of zero n out = out
digits_of (suc fuel) n out =
    let more = digits_of fuel (n / 10) ((n % 10 + b'0') ∷ out) in
    if leb 10 n then more else (n % 10 + b'0') ∷ out

abbrev pub decimal : ℕ → Bytes
decimal n = digits_of 20 n []

abbrev pub show_int : ℤ → Bytes
show_int (pos n) = decimal n
show_int (negsuc n) = b'-' ∷ decimal (n + 1)

abbrev pub show_bool : Bool → Bytes
show_bool true = codes "true"
show_bool false = codes "false"

-- An appended value that is written as it is.
unfoldable pub append_raw : Encoder → Bytes → Encoder
unfolding add_element_separator
append_raw enc text = append (add_element_separator enc) text

-- `encodeTimeDirect`, the sign of the offset apart.
abbrev pub sign_of : ℤ → ℕ
sign_of (pos n) = b'+'
sign_of (negsuc n) = b'-'

abbrev pub magnitude : ℤ → ℕ
magnitude (pos n) = n
magnitude (negsuc n) = n + 1

unfoldable pub encode_time_direct : LogTime → Option Bytes
encode_time_direct t = do
  y ← write_padding t.year 4
  m ← write_padding t.month 2
  d ← write_padding t.day 2
  h ← write_padding t.hour 2
  min ← write_padding t.minute 2
  s ← write_padding t.second 2
  ms ← write_padding (t.nanosecond / 1000000) 3
  zh ← write_padding (magnitude t.offset / 3600) 2
  zm ← write_padding (magnitude t.offset % 3600 / 60) 2
  some (
      y
      ++ (b'/' ∷ m
          ++ (b'/' ∷ d
              ++ (b' ' ∷ h
                  ++ (b':' ∷ min
                      ++ (b':' ∷ s
                          ++ (b'.' ∷ ms ++ (b' ' ∷ sign_of t.offset ∷ zh ++ (b':' ∷ zm)))))))))

-- `AppendTime`: `DefaultTimeEncoder` always writes something, and no separator.
unfoldable pub append_time : Encoder → LogTime → Option Encoder
unfolding encode_time_direct
append_time enc t = encode_time_direct t >>= λ s. some (append enc s)

-- `beginQuoteFiled` and `endQuoteFiled`.
abbrev pub begin_quote_filed : Encoder → Encoder
begin_quote_filed enc = append enc (if ltb 0 (length enc.buf) then b' ' ∷ b'[' ∷ [] else b'[' ∷ [])

abbrev pub end_quote_filed : Encoder → Encoder
end_quote_filed enc = append enc (b']' ∷ [])

-- `cloned`.
abbrev pub cloned : Encoder → Encoder
cloned enc = record enc { buf = [] }

-- `AppendArray` and `AppendObject`, around what the nested encoder has written.
unfoldable pub append_nested : Encoder → ℕ → Encoder → Encoder
unfolding append_string add_element_separator
append_nested enc close ne = append_string (add_element_separator enc) (ne.buf ++ close ∷ [])

module _ (show_float : ℕ → Bytes) (base64 : Bytes → Bytes) where
  abbrev pub float_text : Float → Bytes
  float_text nan = codes "NaN"
  float_text inf = codes "+Inf"
  float_text neg_inf = codes "-Inf"
  float_text (finite x) = show_float x

  abbrev pub complex_text : ℕ → ℕ → Bytes
  complex_text re im = show_float re ++ (b'+' ∷ show_float im ++ b'i' ∷ [])

  unfoldable mutual
    unfolding add_key append_string append_raw append_time append_nested

    -- `AddTo` of a field.
    pub add_field : Encoder → Field → Option Encoder
    add_field enc (string_field key val) = some (append_string (add_key enc key) val)
    add_field enc (byte_string_field key val) = some (append_string (add_key enc key) val)
    add_field enc (binary_field key val) = some (append_string (add_key enc key) (base64 val))
    add_field enc (duration_field key val) = some (append_string (add_key enc key) val)
    add_field enc (bool_field key val) = some (append_raw (add_key enc key) (show_bool val))
    add_field enc (int_field key val) = some (append_raw (add_key enc key) (show_int val))
    add_field enc (uint_field key val) = some (append_raw (add_key enc key) (decimal val))
    add_field enc (float_field key val) = some (append_raw (add_key enc key) (float_text val))
    add_field enc (complex_field key re im) =
        some (append_raw (add_key enc key) (complex_text re im))
    add_field enc (time_field key val) = append_time (add_key enc key) val
    add_field enc (reflected_field key json) = some (append_string (add_key enc key) json)
    add_field enc (reflected_error key message) =
        some (append_string (add_key enc (key ++ codes "Error")) message)
    add_field enc (namespace_field key) = some (record (append (add_key enc key) (b'{' ∷ [])) {
      open_namespaces = enc.open_namespaces + 1;
    })
    add_field enc (object_field key obj) = add_all (append (cloned enc) (b'{' ∷ [])) obj >>= λ ne.
        some (append_nested (add_key enc key) b'}' ne)
    add_field enc (array_field key arr) = append_all (append (cloned enc) (b'[' ∷ [])) arr >>= λ ne.
        some (append_nested (add_key enc key) b']' ne)
    -- Within an object zap adds the text of an error, and its long form where that differs.
    add_field enc (error_field key basic none) = some (append_string (add_key enc key) basic)
    add_field enc (error_field key basic (some verbose)) = some (
        append_string (add_key (append_string (add_key enc key) basic) (key ++ codes "Verbose"))
          verbose)

    pub add_all : Encoder → Fields → Option Encoder
    add_all enc end = some enc
    add_all enc (field f fs) = add_field enc f >>= λ enc'. add_all enc' fs

    pub append_element : Encoder → Element → Option Encoder
    append_element enc (string_element val) = some (append_string enc val)
    append_element enc (byte_string_element val) = some (append_string enc val)
    append_element enc (duration_element val) = some (append_string enc val)
    append_element enc (reflected_element val) = some (append_string enc val)
    append_element enc (bool_element val) = some (append_raw enc (show_bool val))
    append_element enc (int_element val) = some (append_raw enc (show_int val))
    append_element enc (uint_element val) = some (append_raw enc (decimal val))
    append_element enc (float_element val) = some (append_raw enc (float_text val))
    append_element enc (complex_element re im) = some (append_raw enc (complex_text re im))
    append_element enc (time_element val) = append_time enc val
    append_element enc (object_element obj) =
        add_all (append (cloned enc) (b'{' ∷ [])) obj >>= λ ne. some (append_nested enc b'}' ne)
    append_element enc (array_element arr) =
        append_all (append (cloned enc) (b'[' ∷ [])) arr >>= λ ne. some (append_nested enc b']' ne)

    pub append_all : Encoder → Elements → Option Encoder
    append_all enc done = some enc
    append_all enc (element e es) = append_element enc e >>= λ enc'. append_all enc' es
