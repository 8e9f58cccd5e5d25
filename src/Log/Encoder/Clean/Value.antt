-- ===== src/Log/Encoder/Clean/Value.antt =====
-- A field that pkg/log/text.go encodes brings no control character.
use woocoo.Base.{ℕ, [], ◌∷◌, none, some, arith}
use woocoo.Log.Text.{Bytes}
use woocoo.Log.Text.Control.{Holds, IsPrintable, IsPrintable-append}
use woocoo.Log.Encoder.{
  Encoder, Float, nan, inf, neg_inf, finite, Field, string_field, byte_string_field, binary_field,
  duration_field, bool_field, int_field, uint_field, float_field, complex_field, time_field,
  reflected_field, reflected_error, namespace_field, object_field, array_field, error_field, Fields,
  end, field, Element, string_element, byte_string_element, duration_element, reflected_element,
  bool_element, int_element, uint_element, float_element, complex_element, time_element,
  object_element, array_element, Elements, done, element, append, append_string, add_key,
  append_raw, cloned, float_text, complex_text, add_field, add_all, append_element, append_all,
}
use woocoo.Log.Encoder.Clean.{
  Holds-bind, IsClean, append-IsClean, append_string-IsClean, add_key-IsClean, append_raw-IsClean,
  decimal-IsPrintable, show_int-IsPrintable, show_bool-IsPrintable, append_time-IsClean,
  append_nested-IsClean,
}

module _ (show_float : ℕ → Bytes) (base64 : Bytes → Bytes)
    (shown : (x : ℕ) → IsPrintable (show_float x)) where
  float_text-IsPrintable : (x : Float) → IsPrintable (float_text show_float base64 x)
  float_text-IsPrintable nan = omega arith
  float_text-IsPrintable inf = omega arith
  float_text-IsPrintable neg_inf = omega arith
  float_text-IsPrintable (finite x) = shown x

  complex_text-IsPrintable : (re im : ℕ) → IsPrintable (complex_text show_float base64 re im)
  complex_text-IsPrintable re im =
      IsPrintable-append (show_float re) _ (shown re)
        (omega arith, IsPrintable-append (show_float im) (b'i' ∷ []) (shown im) (omega arith))

  raw-IsClean :
      (enc : Encoder) (key text : Bytes)
      → IsClean enc
      → IsPrintable text
      → IsClean (append_raw (add_key enc key) text)
  raw-IsClean enc key text p q =
      append_raw-IsClean (add_key enc key) text (add_key-IsClean enc key p) q

  string-IsClean :
      (enc : Encoder) (key val : Bytes)
      → IsClean enc
      → IsClean (append_string (add_key enc key) val)
  string-IsClean enc key val p =
      append_string-IsClean (add_key enc key) val (add_key-IsClean enc key p)

  mutual
    unfolding add_field add_all append_element append_all

    pub add_field-IsClean :
        (enc : Encoder) (f : Field)
        → IsClean enc
        → Holds IsClean (add_field show_float base64 enc f)
    add_field-IsClean enc (string_field key val) p = string-IsClean enc key val p
    add_field-IsClean enc (byte_string_field key val) p = string-IsClean enc key val p
    add_field-IsClean enc (binary_field key val) p = string-IsClean enc key (base64 val) p
    add_field-IsClean enc (duration_field key val) p = string-IsClean enc key val p
    add_field-IsClean enc (bool_field key val) p =
        raw-IsClean enc key _ p (show_bool-IsPrintable val)
    add_field-IsClean enc (int_field key val) p = raw-IsClean enc key _ p (show_int-IsPrintable val)
    add_field-IsClean enc (uint_field key val) p = raw-IsClean enc key _ p (decimal-IsPrintable val)
    add_field-IsClean enc (float_field key val) p =
        raw-IsClean enc key _ p (float_text-IsPrintable val)
    add_field-IsClean enc (complex_field key re im) p =
        raw-IsClean enc key _ p (complex_text-IsPrintable re im)
    add_field-IsClean enc (time_field key val) p =
        append_time-IsClean (add_key enc key) val (add_key-IsClean enc key p)
    add_field-IsClean enc (reflected_field key json) p = string-IsClean enc key json p
    add_field-IsClean enc (reflected_error key message) p = string-IsClean enc _ message p
    add_field-IsClean enc (namespace_field key) p =
        append-IsClean (add_key enc key) (b'{' ∷ []) (add_key-IsClean enc key p) (omega arith)
    add_field-IsClean enc (object_field key obj) p =
        Holds-bind IsClean IsClean _ _
          (add_all-IsClean (append (cloned enc) (b'{' ∷ [])) obj (omega arith))
          (λ ne q. append_nested-IsClean (add_key enc key) b'}' ne (add_key-IsClean enc key p))
    add_field-IsClean enc (array_field key arr) p =
        Holds-bind IsClean IsClean _ _
          (append_all-IsClean (append (cloned enc) (b'[' ∷ [])) arr (omega arith))
          (λ ne q. append_nested-IsClean (add_key enc key) b']' ne (add_key-IsClean enc key p))
    add_field-IsClean enc (error_field key basic none) p = string-IsClean enc key basic p
    add_field-IsClean enc (error_field key basic (some verbose)) p =
        string-IsClean _ _ verbose (string-IsClean enc key basic p)

    add_all-IsClean :
        (enc : Encoder) (fs : Fields)
        → IsClean enc
        → Holds IsClean (add_all show_float base64 enc fs)
    add_all-IsClean enc end p = p
    add_all-IsClean enc (field f fs) p =
        Holds-bind IsClean IsClean _ _ (add_field-IsClean enc f p)
          (λ enc' q. add_all-IsClean enc' fs q)

    append_element-IsClean :
        (enc : Encoder) (e : Element)
        → IsClean enc
        → Holds IsClean (append_element show_float base64 enc e)
    append_element-IsClean enc (string_element val) p = append_string-IsClean enc val p
    append_element-IsClean enc (byte_string_element val) p = append_string-IsClean enc val p
    append_element-IsClean enc (duration_element val) p = append_string-IsClean enc val p
    append_element-IsClean enc (reflected_element val) p = append_string-IsClean enc val p
    append_element-IsClean enc (bool_element val) p =
        append_raw-IsClean enc _ p (show_bool-IsPrintable val)
    append_element-IsClean enc (int_element val) p =
        append_raw-IsClean enc _ p (show_int-IsPrintable val)
    append_element-IsClean enc (uint_element val) p =
        append_raw-IsClean enc _ p (decimal-IsPrintable val)
    append_element-IsClean enc (float_element val) p =
        append_raw-IsClean enc _ p (float_text-IsPrintable val)
    append_element-IsClean enc (complex_element re im) p =
        append_raw-IsClean enc _ p (complex_text-IsPrintable re im)
    append_element-IsClean enc (time_element val) p = append_time-IsClean enc val p
    append_element-IsClean enc (object_element obj) p =
        Holds-bind IsClean IsClean _ _
          (add_all-IsClean (append (cloned enc) (b'{' ∷ [])) obj (omega arith))
          (λ ne q. append_nested-IsClean enc b'}' ne p)
    append_element-IsClean enc (array_element arr) p =
        Holds-bind IsClean IsClean _ _
          (append_all-IsClean (append (cloned enc) (b'[' ∷ [])) arr (omega arith))
          (λ ne q. append_nested-IsClean enc b']' ne p)

    append_all-IsClean :
        (enc : Encoder) (es : Elements)
        → IsClean enc
        → Holds IsClean (append_all show_float base64 enc es)
    append_all-IsClean enc done p = p
    append_all-IsClean enc (element e es) p =
        Holds-bind IsClean IsClean _ _ (append_element-IsClean enc e p)
          (λ enc' q. append_all-IsClean enc' es q)
