-- ===== src/Log/Encoder/Reader.antt =====
-- A reader of the `[key=value]` parts that pkg/log/text.go writes, as the unified log format has them,
-- and what it reads of a part.
-- and what it reads of the encoder's fields.
use mathlib.Core.List.{append_assoc}
use woocoo.Base.{
  ℕ, zero, suc, ◌≡◌, ◌≢◌, inl, inr, ◌∙◌, refl, Bool, true, false, ◌||◌, List, [], ◌∷◌, ◌++◌, Option,
  none, some, ltb, ◌==◌, if◌then◌else◌, arith, Bool-cases, Option-cases,
}
use woocoo.Log.Text.{
  Bytes, try_add_rune_self, rune_size, safe_from, safe_add_string, is_special, has_special,
  need_double_quotes, safe_add_string_with_quote,
}
use woocoo.Log.Text.Reading.{All, Passes, plain, read_token, repaired, read-safe_from}
use woocoo.Log.Encoder.{◌>>=◌}

abbrev pub at_quote : ℕ → Bool
at_quote c = c == b'"'

abbrev pub at_end : ℕ → Bool
at_end c = c == b'=' || c == b']'

-- Goes on behind a byte that must come next.
abbrev pub expect : {T : Type 0} → ℕ → Bytes → (Bytes → Option T) → Option T
expect b [] next = none
expect b (c ∷ s) next = if c == b then next s else none

-- A text between quotes, or a bare one.
unfoldable pub read_text : Bytes → Option (Bytes × Bytes)
read_text [] = none
read_text (c ∷ s) = elim (c == b'"') [
  | true ↦ read_token at_quote [] plain s >>= λ (text, rest).
      expect b'"' rest (λ rest'. some (text, rest'))
  | false ↦ read_token at_end [] plain (c ∷ s)
]

-- One part, and the text behind it.
unfoldable pub read_part : Bytes → Option ((Bytes × Bytes) × Bytes)
unfolding read_text
read_part s = expect b'[' s (λ s1. read_text s1 >>= λ (key, s2).
    expect b'=' s2
      (λ s3. read_text s3 >>= λ (val, s4). expect b']' s4 (λ s5. some ((key, val), s5))))

abbrev pub drop_space : Bytes → Bytes
drop_space [] = []
drop_space (c ∷ s) = if c == b' ' then s else c ∷ s

-- Parts, each behind a space but for the first one, which may have none.
unfoldable pub read_parts : ℕ → Bytes → Option (List (Bytes × Bytes))
unfolding read_part
read_parts fuel [] = some []
read_parts zero (c ∷ s) = none
read_parts (suc fuel) (c ∷ s) = read_part (drop_space (c ∷ s)) >>= λ (part, rest).
    read_parts fuel rest >>= λ parts. some (part ∷ parts)

All-at_quote : (s : Bytes) → All (Passes at_quote) s
All-at_quote [] = tt
All-at_quote (c ∷ s) = (quote_or_not, All-at_quote s)
  where
    quote_or_not : Passes at_quote c
    quote_or_not = elim (Bool-cases (c == b'"')) [ inl e ↦ inl (ground arith) | inr e ↦ inr e ]

usual_lem :
    (c : ℕ)
    → is_special c ≡ false
    → (at_end c ≡ false) × (c ≢ b'"') × (try_add_rune_self c ≡ c ∷ [])
unfolding try_add_rune_self
usual_lem c h = (ground arith, ground arith, ground arith)

-- No byte of a text that needs no quotes is special.
has_special-usual :
    (c : ℕ) (s : Bytes)
    → has_special (c ∷ s) ≡ false
    → (is_special c ≡ false) × (has_special s ≡ false)
unfolding has_special
has_special-usual c s h = elim (Bool-cases (is_special c)) [
  | inl special ↦ absurd (let g = rw (has_special, special) at h in cc)
  | inr usual ↦ (usual, rw (has_special, usual) at h)
]

All-at_end : (s : Bytes) → has_special s ≡ false → All (Passes at_end) s
All-at_end [] h = tt
All-at_end (c ∷ s) h =
    let (usual, others) = has_special-usual c s h in
    let (p, q, r) = usual_lem c usual in (inr p, All-at_end s others)

read_text-unquoted :
    (c : ℕ) (s : Bytes) → c ≢ b'"' → read_text (c ∷ s) ≡ read_token at_end [] plain (c ∷ s)
unfolding read_text
read_text-unquoted c s n = let e : (c == b'"') ≡ false = ground arith in rw (read_text, e)

-- A text that needs no quotes does not begin with one.
read_text-bare :
    (s : Bytes) (c : ℕ) (rest : Bytes)
    → c ≢ b'"'
    → has_special s ≡ false
    → read_text (safe_from zero s ++ c ∷ rest)
      ≡ read_token at_end [] plain (safe_from zero s ++ c ∷ rest)
unfolding safe_from
read_text-bare [] c rest n h = read_text-unquoted c rest n
read_text-bare (b ∷ s) c rest n h =
    let (usual, others) = has_special-usual b s h in
    let (p, q, r) = usual_lem b usual in
    elim (Bool-cases (ltb b 128)) [
      | inl ascii ↦ rw (safe_from, ascii, r) (read_text-unquoted b _ q)
      | inr wide ↦ elim (Option-cases (rune_size b s)) [
        | inl no_rune ↦ rw (safe_from, wide, no_rune) (read_text-unquoted b'\\' _ (omega arith))
        | inr (size, rune) ↦ rw (safe_from, wide, rune) (read_text-unquoted b _ q)
      ]
    ]

read_token-stop :
    (stop : ℕ → Bool) (out : Bytes) (c : ℕ) (rest : Bytes)
    → stop c ≡ true
    → read_token stop out plain (c ∷ rest) ≡ some (out, c ∷ rest)
unfolding read_token
read_token-stop stop out c rest h = rw (read_token, h)

-- A text that is written is read back, up to the byte that ends it.
read_text-written :
    (s : Bytes) (c : ℕ) (rest : Bytes)
    → at_end c ≡ true
    → read_text (safe_add_string_with_quote true s ++ c ∷ rest) ≡ some (repaired s, c ∷ rest)
unfolding read_text safe_add_string_with_quote safe_add_string need_double_quotes
read_text-written s c rest e = elim (Bool-cases (has_special s)) [
  | inl quoted ↦
      let read =
        read-safe_from at_quote zero s [] (b'"' ∷ c ∷ rest) refl (All-at_quote s) tt
        ∙ read_token-stop at_quote (repaired s) b'"' (c ∷ rest) refl in
      rw (
        safe_add_string_with_quote,
        quoted,
        append_assoc (safe_from zero s) (b'"' ∷ []) (c ∷ rest),
        read_text,
        read,
      )
  | inr bare ↦
      let read =
        read-safe_from at_end zero s [] (c ∷ rest) refl (All-at_end s bare) tt
        ∙ read_token-stop at_end (repaired s) c rest e in
      rw (safe_add_string_with_quote, bare) (read_text-bare s c rest (ground arith) bare ∙ read)
]

-- What the encoder writes for a field with a text.
abbrev pub written : Bytes → Bytes
written s = safe_add_string_with_quote true s

abbrev pub part_of : (key val : Bytes) → Bytes
part_of key val = b'[' ∷ (written key ++ b'=' ∷ (written val ++ b']' ∷ []))

pub read_part-written :
    (key val rest : Bytes)
    → read_part (part_of key val ++ rest) ≡ some ((repaired key, repaired val), rest)
unfolding read_part
read_part-written key val rest = rw (
  read_part,
  append_assoc (written key) (b'=' ∷ (written val ++ b']' ∷ [])) rest,
  append_assoc (written val) (b']' ∷ []) rest,
  read_text-written key b'=' (written val ++ b']' ∷ rest) refl,
  read_text-written val b']' rest refl,
)
