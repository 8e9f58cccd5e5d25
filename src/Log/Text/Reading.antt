-- ===== src/Log/Text/Reading.antt =====
-- A reader of the texts that pkg/log/text.go writes, as its format describes them, and what it reads
-- of them. The format is the one of the TiKV unified log format that the source names.
use mathlib.Core.List.{append-nil, append_assoc}
use woocoo.Base.{
  ℕ, zero, suc, ◌+◌, ◌-◌, ◌*◌, ◌/◌, ◌%◌, ◌≤◌, ◌<◌, ◌≡◌, ◌≢◌, ◌⊎◌, inl, inr, ◌∙◌, Bool, true, false,
  ◌&&◌, [], ◌∷◌, ◌++◌, Option, none, some, leb, ltb, ◌==◌, if◌then◌else◌, arith, Bool-cases,
  Option-cases,
}
use woocoo.Log.Text.{
  Bytes, hex, try_add_rune_self, within, rune_tail1, rune_tail2, rune_tail3, rune_size, rune_error,
  safe_from,
}

-- The UTF-8 form of a code point below 65536.
abbrev pub utf8 : ℕ → Bytes
utf8 v =
    if ltb v 128
    then v ∷ []
    else if ltb v 2048
    then (v / 64 + 192) ∷ (v % 64 + 128) ∷ []
    else (v / 4096 + 224) ∷ (v / 64 % 64 + 128) ∷ (v % 64 + 128) ∷ []

abbrev pub hex_value : ℕ → ℕ
hex_value c = if leb c b'9' then c - b'0' else c - 87

-- The byte that a backslash and a character stand for.
abbrev pub escaped : ℕ → ℕ
escaped c = if c == b'n' then b'\n' else if c == b'r' then b'\r' else if c == b't' then b'\t' else c

-- Whether the reader is behind a backslash, or in the digits of `\u`, of which `left` + 1 are to come.
pub data Pending : Type 0 where
  plain backslash : Pending
  digits : (left value : ℕ) → Pending

-- Reads up to a byte at which `stop` says so, outside an escape: what was read, and the text from that
-- byte on.
unfoldable pub read_token : (ℕ → Bool) → Bytes → Pending → Bytes → Option (Bytes × Bytes)
read_token stop out p [] = none
read_token stop out plain (c ∷ s) = elim (stop c) [
  | true ↦ some (out, c ∷ s)
  | false ↦ elim (c == b'\\') [
    | true ↦ read_token stop out backslash s
    | false ↦ read_token stop (out ++ c ∷ []) plain s
  ]
]
read_token stop out backslash (c ∷ s) = elim (c == b'u') [
  | true ↦ read_token stop out (digits 3 0) s
  | false ↦ read_token stop (out ++ escaped c ∷ []) plain s
]
read_token stop out (digits zero value) (c ∷ s) =
    read_token stop (out ++ utf8 (value * 16 + hex_value c)) plain s
read_token stop out (digits (suc left) value) (c ∷ s) =
    read_token stop out (digits left (value * 16 + hex_value c)) s

-- A text with each byte that starts no rune replaced by U+FFFD, as in Go's conversion to runes.
unfoldable pub repaired_from : ℕ → Bytes → Bytes
repaired_from copying [] = []
repaired_from (suc copying) (c ∷ s) = c ∷ repaired_from copying s
repaired_from zero (c ∷ s) = elim (ltb c 128) [
  | true ↦ c ∷ repaired_from zero s
  | false ↦ elim (rune_size c s) [
    | none ↦ 239 ∷ 191 ∷ 189 ∷ repaired_from zero s
    | some size ↦ c ∷ repaired_from (size - 1) s
  ]
]

abbrev pub repaired : Bytes → Bytes
repaired s = repaired_from zero s

abbrev pub All : (ℕ → Type 0) → Bytes → Type 0
All P [] = Unit
All P (c ∷ s) = P c × All P s

-- The first `k` bytes of a text are there, and lie outside ASCII.
abbrev pub Copies : ℕ → Bytes → Type 0
Copies zero s = Unit
Copies (suc k) [] = ⊥
Copies (suc k) (c ∷ s) = (128 ≤ c) × Copies k s

rune_tail1-Copies : (s : Bytes) (n : ℕ) → rune_tail1 s ≡ some n → Copies (n - 1) s
rune_tail1-Copies [] n h = absurd cc
rune_tail1-Copies (b ∷ s) n h = elim (Bool-cases (within 128 191 b)) [
  | inr bad ↦ absurd (let g = rw bad at h in cc)
  | inl good ↦ let g = rw good at h in let e : 2 ≡ n = cc in rw (← e) ((ground arith, tt))
]

rune_tail2-Copies :
    (lo hi : ℕ) (s : Bytes) (n : ℕ) → 128 ≤ lo → rune_tail2 lo hi s ≡ some n → Copies (n - 1) s
rune_tail2-Copies lo hi [] n l h = absurd cc
rune_tail2-Copies lo hi (b ∷ []) n l h = absurd cc
rune_tail2-Copies lo hi (b ∷ c ∷ s) n l h = elim (Bool-cases (within lo hi b && within 128 191 c)) [
  | inr bad ↦ absurd (let g = rw bad at h in cc)
  | inl good ↦
      let g = rw good at h in let e : 3 ≡ n = cc in rw (← e) ((ground arith, (ground arith, tt)))
]

rune_tail3-Copies :
    (lo hi : ℕ) (s : Bytes) (n : ℕ) → 128 ≤ lo → rune_tail3 lo hi s ≡ some n → Copies (n - 1) s
rune_tail3-Copies lo hi [] n l h = absurd cc
rune_tail3-Copies lo hi (b ∷ []) n l h = absurd cc
rune_tail3-Copies lo hi (b ∷ c ∷ []) n l h = absurd cc
rune_tail3-Copies lo hi (b ∷ c ∷ d ∷ s) n l h =
    elim (Bool-cases (within lo hi b && within 128 191 c && within 128 191 d)) [
      | inr bad ↦ absurd (let g = rw bad at h in cc)
      | inl good ↦
          let g = rw good at h in
          let e : 4 ≡ n = cc in rw (← e) ((ground arith, (ground arith, (ground arith, tt))))
    ]

-- A rune that is recognised has its other bytes outside ASCII.
pub rune_size-Copies : (c : ℕ) (s : Bytes) (n : ℕ) → rune_size c s ≡ some n → Copies (n - 1) s
unfolding rune_size
rune_size-Copies c s n h = elim (Bool-cases (ltb c 194)) [
  | inl a ↦ absurd (let g = rw (a, rune_size) at h in cc)
  | inr a ↦ elim (Bool-cases (ltb c 224)) [
    | inl b ↦ rune_tail1-Copies s n (rw (a, b, rune_size) at h)
    | inr b ↦ elim (Bool-cases (ltb c 240)) [
      | inl d ↦
          rune_tail2-Copies (if c == 224 then 160 else 128) (if c == 237 then 159 else 191) s n
            (ground arith) (rw (a, b, d, rune_size) at h)
      | inr d ↦ elim (Bool-cases (ltb c 245)) [
        | inl e ↦
            rune_tail3-Copies (if c == 240 then 144 else 128) (if c == 244 then 143 else 191) s n
              (ground arith) (rw (a, b, d, e, rune_size) at h)
        | inr e ↦ absurd (let g = rw (a, b, d, e, rune_size) at h in cc)
      ]
    ]
  ]
]

module _ (stop : ℕ → Bool) where
  -- A byte at which the reader goes on, or a quote, which the source escapes.
  abbrev pub Passes : ℕ → Type 0
  Passes c = (c ≡ b'"') ⊎ (stop c ≡ false)

  read-plain :
      (out : Bytes) (c : ℕ) (rest : Bytes)
      → stop c ≡ false
      → c ≢ b'\\'
      → read_token stop out plain (c ∷ rest) ≡ read_token stop (out ++ c ∷ []) plain rest
  unfolding read_token
  read-plain out c rest h n = let k : (c == b'\\') ≡ false = ground arith in rw (read_token, h, k)

  read-backslash :
      (out rest : Bytes)
      → stop b'\\' ≡ false
      → read_token stop out plain (b'\\' ∷ rest) ≡ read_token stop out backslash rest
  unfolding read_token
  read-backslash out rest h = rw (read_token, h)

  read-escaped :
      (out : Bytes) (x c : ℕ) (rest : Bytes)
      → stop b'\\' ≡ false
      → x ≢ b'u'
      → escaped x ≡ c
      → read_token stop out plain (b'\\' ∷ x ∷ rest) ≡ read_token stop (out ++ c ∷ []) plain rest
  unfolding read_token
  read-escaped out x c rest h n e =
      let k : (x == b'u') ≡ false = ground arith in rw (read_token, h, k, e)

  hex_value-hex : (d : ℕ) → d < 16 → hex_value (hex d) ≡ d
  hex_value-hex d h = ground arith

  -- The four digits behind `\u`.
  read-digits :
      (out : Bytes) (a b d e : ℕ) (rest : Bytes)
      → stop b'\\' ≡ false
      → read_token stop out plain (b'\\' ∷ b'u' ∷ a ∷ b ∷ d ∷ e ∷ rest)
        ≡ read_token stop
            (out
              ++ utf8 (
                  (((0 * 16 + hex_value a) * 16 + hex_value b) * 16 + hex_value d) * 16
                  + hex_value e))
            plain
            rest
  unfolding read_token
  read-digits out a b d e rest h = rw (read_token, h)

  read-control :
      (out : Bytes) (c : ℕ) (rest : Bytes)
      → stop b'\\' ≡ false
      → c < 128
      → read_token stop out plain (b'\\' ∷ b'u' ∷ b'0' ∷ b'0' ∷ hex (c / 16) ∷ hex (c % 16) ∷ rest)
        ≡ read_token stop (out ++ c ∷ []) plain rest
  read-control out c rest h l =
      let a = hex_value-hex (c / 16) (omega arith) in
      let b = hex_value-hex (c % 16) (omega arith) in
      let v : (((0 * 16 + hex_value b'0') * 16 + hex_value b'0') * 16 + c / 16) * 16 + c % 16 ≡ c =
        omega arith in
      let short : ltb c 128 ≡ true = ground arith in
      read-digits out b'0' b'0' (hex (c / 16)) (hex (c % 16)) rest h ∙ rw (a, b, v, short)

  -- One byte that is escaped, or not, is read back.
  read-try_add_rune_self :
      (out : Bytes) (c : ℕ) (rest : Bytes)
      → stop b'\\' ≡ false
      → Passes c
      → c < 128
      → read_token stop out plain (try_add_rune_self c ++ rest)
        ≡ read_token stop (out ++ c ∷ []) plain rest
  unfolding try_add_rune_self
  read-try_add_rune_self out c rest h p l = ground (
    arith,
    read-plain out c rest,
    read-escaped out c c rest h,
    read-escaped out b'n' c rest h,
    read-escaped out b'r' c rest h,
    read-escaped out b't' c rest h,
    read-control out c rest h,
  )

  read-rune_error :
      (out rest : Bytes)
      → stop b'\\' ≡ false
      → read_token stop out plain (rune_error ++ rest)
        ≡ read_token stop (out ++ 239 ∷ 191 ∷ 189 ∷ []) plain rest
  read-rune_error out rest h = read-digits out b'f' b'f' b'f' b'd' rest h

  pub read-safe_from :
      (copying : ℕ) (s out rest : Bytes)
      → stop b'\\' ≡ false
      → All Passes s
      → Copies copying s
      → read_token stop out plain (safe_from copying s ++ rest)
        ≡ read_token stop (out ++ repaired_from copying s) plain rest
  unfolding safe_from repaired_from
  read-safe_from zero [] out rest h p k = rw (append-nil out)
  read-safe_from (suc copying) [] out rest h p k = absurd k
  read-safe_from (suc copying) (c ∷ s) out rest h (p, ps) (k, ks) =
      read-plain out c (safe_from copying s ++ rest) (ground arith) (omega arith)
      ∙ read-safe_from copying s (out ++ c ∷ []) rest h ps ks
      ∙ rw (append_assoc out (c ∷ []) (repaired_from copying s))
  read-safe_from zero (c ∷ s) out rest h (p, ps) k = elim (Bool-cases (ltb c 128)) [
    | inl ascii ↦
        rw
          (
            safe_from,
            repaired_from,
            ascii,
            append_assoc (try_add_rune_self c) (safe_from zero s) rest,
          )
          (read-try_add_rune_self out c (safe_from zero s ++ rest) h p (ground arith)
            ∙ read-safe_from zero s (out ++ c ∷ []) rest h ps tt
            ∙ rw (append_assoc out (c ∷ []) (repaired_from zero s)))
    | inr wide ↦ elim (Option-cases (rune_size c s)) [
      | inl no_rune ↦
          rw (safe_from, repaired_from, wide, no_rune)
            (read-rune_error out (safe_from zero s ++ rest) h
              ∙ read-safe_from zero s (out ++ 239 ∷ 191 ∷ 189 ∷ []) rest h ps tt
              ∙ rw (append_assoc out (239 ∷ 191 ∷ 189 ∷ []) (repaired_from zero s)))
      | inr (n, rune) ↦
          rw (safe_from, repaired_from, wide, rune)
            (read-plain out c (safe_from (n - 1) s ++ rest) (ground arith) (ground arith)
              ∙ read-safe_from (n - 1) s (out ++ c ∷ []) rest h ps (rune_size-Copies c s n rune)
              ∙ rw (append_assoc out (c ∷ []) (repaired_from (n - 1) s)))
    ]
  ]
