-- ===== src/Log/Encoder/ReadBack.antt =====
-- What a reader of the log format reads of the fields that the encoder of pkg/log/text.go writes.
-- and what it reads of the encoder's fields.
use mathlib.Core.List.{append-nil, append_assoc}
use woocoo.Base.{
  ℕ, suc, ◌≡◌, inl, inr, ◌∙◌, refl, sym, ap, true, List, [], ◌∷◌, ◌++◌, some, ltb, if◌then◌else◌,
  length, Bool-cases,
}
use woocoo.Log.Text.{Bytes, safe_add_string_with_quote}
use woocoo.Log.Text.Reading.{repaired}
use woocoo.Log.Encoder.{
  ◌>>=◌, Encoder, string_field, Fields, end, field, append, is_separator, ends_open,
  add_element_separator, append_string, add_key, begin_quote_filed, end_quote_filed, add_field,
}
use woocoo.Log.Encoder.Entry.{add_one, add_fields}
use woocoo.Log.Encoder.Reader.{read_parts, written, part_of, read_part-written}

ends_open-snoc : (s : Bytes) (c : ℕ) → ends_open (s ++ c ∷ []) ≡ is_separator c
ends_open-snoc [] c = refl
ends_open-snoc (a ∷ []) c = refl
ends_open-snoc (a ∷ b ∷ s) c = ends_open-snoc (b ∷ s) c

-- Behind an opening byte a text needs no comma.
append_string-open :
    (enc : Encoder) (val : Bytes)
    → ends_open enc.buf ≡ true
    → enc.need_quotes ≡ true
    → append_string enc val ≡ append enc (written val)
unfolding append_string add_element_separator
append_string-open enc val h q =
    let none_needed : add_element_separator enc ≡ enc = rw (add_element_separator, h) refl in
    ap (λ e. append e (safe_add_string_with_quote enc.need_quotes val)) none_needed
    ∙ ap (λ b. append enc (safe_add_string_with_quote b val)) q

-- The space in front of every part but the first.
abbrev lead : Bytes → Bytes
lead buf = if ltb 0 (length buf) then b' ' ∷ [] else []

read_parts-lead :
    (buf key val t : Bytes) (n : ℕ) (parts : List (Bytes × Bytes))
    → read_parts n t ≡ some parts
    → read_parts (suc n) (lead buf ++ (part_of key val ++ t))
      ≡ some ((repaired key, repaired val) ∷ parts)
unfolding read_parts
read_parts-lead buf key val t n parts h = elim (Bool-cases (ltb 0 (length buf))) [
  | inl behind ↦ rw (behind, read_parts, read_part-written key val t, h)
  | inr first ↦ rw (first, read_parts, read_part-written key val t, h)
]

begin_quote_filed-lead :
    (enc : Encoder) → begin_quote_filed enc ≡ append enc (lead enc.buf ++ b'[' ∷ [])
begin_quote_filed-lead enc = elim (Bool-cases (ltb 0 (length enc.buf))) [
  | inl later ↦ ap (append enc) (rw later refl)
  | inr first ↦ ap (append enc) (rw first refl)
]

-- A key and a text behind an opening byte.
key_value-written :
    (enc : Encoder) (key val : Bytes)
    → ends_open enc.buf ≡ true
    → enc.need_quotes ≡ true
    → append_string (add_key enc key) val
      ≡ append (append (append enc (written key)) (b'=' ∷ [])) (written val)
unfolding add_key
key_value-written enc key val h q =
    let keyed : add_key enc key ≡ append (append enc (written key)) (b'=' ∷ []) =
      ap (λ e. append e (b'=' ∷ [])) (append_string-open enc key h q) in
    ap (λ e. append_string e val) keyed
    ∙ append_string-open (append (append enc (written key)) (b'=' ∷ [])) val
        (ends_open-snoc (enc.buf ++ written key) b'=') q

-- The fields of a list of keys and texts.
abbrev pub string_fields : List (Bytes × Bytes) → Fields
string_fields [] = end
string_fields ((key, val) ∷ kvs) = field (string_field key val) (string_fields kvs)

abbrev pub repaired_parts : List (Bytes × Bytes) → List (Bytes × Bytes)
repaired_parts [] = []
repaired_parts ((key, val) ∷ kvs) = (repaired key, repaired val) ∷ repaired_parts kvs

-- What is written for the fields.
abbrev pub parts_text : Bytes → List (Bytes × Bytes) → Bytes
parts_text buf [] = []
parts_text buf ((key, val) ∷ kvs) =
    let part = lead buf ++ part_of key val in part ++ parts_text (buf ++ part) kvs

module _ (show_float : ℕ → Bytes) (base64 : Bytes → Bytes) where
  add_one-written :
      (enc : Encoder) (key val : Bytes)
      → enc.need_quotes ≡ true
      → add_one show_float base64 enc (string_field key val)
        ≡ some (append enc (lead enc.buf ++ part_of key val))
  unfolding add_one add_field
  add_one-written enc key val q =
      let begun = append enc (lead enc.buf ++ b'[' ∷ []) in
      let open_end : ends_open begun.buf ≡ true =
        ap ends_open (sym (append_assoc enc.buf (lead enc.buf) (b'[' ∷ [])))
        ∙ ends_open-snoc (enc.buf ++ lead enc.buf) b'[' in
      let assembled : ((((enc.buf ++ (lead enc.buf ++ b'[' ∷ [])) ++ written key) ++ b'=' ∷ [])
              ++ written val)
            ++ b']' ∷ []
          ≡ enc.buf ++ (lead enc.buf ++ part_of key val) =
        simp (append_assoc) in
      ap (λ e. some (end_quote_filed (append_string (add_key e key) val)))
        (begin_quote_filed-lead enc)
      ∙ ap (λ e. some (end_quote_filed e)) (key_value-written begun key val open_end q)
      ∙ ap (λ b. some (record enc { buf = b })) assembled

  add_fields-written :
      (enc : Encoder) (kvs : List (Bytes × Bytes))
      → enc.need_quotes ≡ true
      → add_fields show_float base64 enc (string_fields kvs)
        ≡ some (append enc (parts_text enc.buf kvs))
  unfolding add_fields
  add_fields-written enc [] q = ap (λ b. some (record enc { buf = b })) (sym (append-nil enc.buf))
  add_fields-written enc ((key, val) ∷ kvs) q =
      let part = lead enc.buf ++ part_of key val in
      ap (λ m. m >>= λ enc'. add_fields show_float base64 enc' (string_fields kvs))
        (add_one-written enc key val q)
      ∙ add_fields-written (append enc part) kvs q
      ∙ ap (λ b. some (record enc { buf = b }))
          (append_assoc enc.buf part (parts_text (enc.buf ++ part) kvs))

  read_parts-text :
      (buf : Bytes) (kvs : List (Bytes × Bytes))
      → read_parts (length kvs) (parts_text buf kvs) ≡ some (repaired_parts kvs)
  unfolding read_parts
  read_parts-text buf [] = refl
  read_parts-text buf ((key, val) ∷ kvs) =
      let later = parts_text (buf ++ (lead buf ++ part_of key val)) kvs in
      ap (read_parts (suc (length kvs))) (append_assoc (lead buf) (part_of key val) later)
      ∙ read_parts-lead buf key val later (length kvs) (repaired_parts kvs)
          (read_parts-text (buf ++ (lead buf ++ part_of key val)) kvs)

  -- Fields with texts, of any bytes, that an encoder writes with quotes where they are needed are read
  -- back, by a reader of the log format, as they were, but that a byte that starts no UTF-8 rune is
  -- read as U+FFFD. What the encoder held before stays in front of them.
  pub add_fields-read_parts :
      (enc : Encoder) (kvs : List (Bytes × Bytes))
      → enc.need_quotes ≡ true
      → (text : Bytes) × (add_fields show_float base64 enc (string_fields kvs)
          ≡ some (append enc text))
        × (read_parts (length kvs) text ≡ some (repaired_parts kvs))
  add_fields-read_parts enc kvs q =
      (parts_text enc.buf kvs, add_fields-written enc kvs q, read_parts-text enc.buf kvs)
