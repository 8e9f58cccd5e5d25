-- ===== src/Cache/Codec/RoundTrip.antt =====
-- What is marshalled by pkg/cache/cache.go is read back.
use woocoo.Base.{ℕ, ◌≡◌, refl, [], ◌∷◌, ◌++◌, some, length, ltb, Bool-cases, Option-cases, inl, inr}
use woocoo.Cache.{
  Bytes, Value, nil_value, bytes, text, flag, int, float, object, pointer, Receiver, nil_receiver,
  not_pointer, to_bytes, to_text, to_flag, to_int, to_float, to_object, ok, wrote,
}
use woocoo.Cache.Codec.{
  Library, split_last, compress, compressed, marshal, decompress, unmarshal, of_option,
}

-- A pointer to a variable of the value's type.
abbrev pub receiver_of : Value → Receiver
receiver_of nil_value = nil_receiver
receiver_of (bytes b) = to_bytes
receiver_of (text s) = to_text
receiver_of (flag b) = to_flag
receiver_of (int n) = to_int
receiver_of (float x) = to_float
receiver_of (object t n) = to_object t
receiver_of (pointer v) = not_pointer

abbrev pub IsPlain : Value → Type 0
IsPlain nil_value = ⊥
IsPlain (pointer v) = ⊥
IsPlain v = Unit

-- What the two packages document: each reads what it wrote.
pub record IsCodec (lib : Library) : Type 0 where
  pub reads :
      (v : Value) (b : Bytes)
      → IsPlain v
      → lib.encode v ≡ some b
      → lib.decode b (receiver_of v) ≡ some v
  pub expands : (b : Bytes) → lib.s2_decode (lib.s2_encode b) ≡ some b

-- The last byte of what has one byte more at its end.
pub ends : (x : ℕ) (front : Bytes) (c : ℕ) → split_last x (front ++ c ∷ []) ≡ (x ∷ front, c)
ends x [] c = refl
ends x (y ∷ front) c = rw (ends y front c)

abbrev pub AtReceiver : Receiver → Type 0
AtReceiver to_bytes = ⊥
AtReceiver to_text = ⊥
AtReceiver nil_receiver = ⊥
AtReceiver r = Unit

pub unmarshal-append :
    (lib : Library) (front : Bytes) (c : ℕ) (r : Receiver)
    → AtReceiver r
    → unmarshal lib (front ++ c ∷ []) r ≡ decompress lib r (front, c)
unfolding unmarshal
unmarshal-append lib front c nil_receiver h = absurd h
unmarshal-append lib front c to_bytes h = absurd h
unmarshal-append lib front c to_text h = absurd h
unmarshal-append lib [] c not_pointer h = refl
unmarshal-append lib [] c to_flag h = refl
unmarshal-append lib [] c to_int h = refl
unmarshal-append lib [] c to_float h = refl
unmarshal-append lib [] c (to_object t) h = refl
unmarshal-append lib (x ∷ f) c not_pointer h = rw (ends x f c)
unmarshal-append lib (x ∷ f) c to_flag h = rw (ends x f c)
unmarshal-append lib (x ∷ f) c to_int h = rw (ends x f c)
unmarshal-append lib (x ∷ f) c to_float h = rw (ends x f c)
unmarshal-append lib (x ∷ f) c (to_object t) h = rw (ends x f c)

-- Whatever is compressed, by s2 or not at all, is read back.
unmarshal-compress :
    (lib : Library) (b : Bytes) (r : Receiver)
    → IsCodec lib
    → AtReceiver r
    → unmarshal lib (compress lib b) r ≡ of_option (lib.decode b r)
unfolding compress decompress
unmarshal-compress lib b r k a = elim (Bool-cases (ltb (length b) 64)) [
  | inl short ↦ rw (short, unmarshal-append lib b 0 r a)
  | inr long ↦ rw (long, unmarshal-append lib (lib.s2_encode b) 1 r a, k.expands b)
]

module _ (lib : Library) (k : IsCodec lib) where
  encoded :
      (v : Value) (b : Bytes)
      → IsPlain v
      → AtReceiver (receiver_of v)
      → marshal lib v ≡ compressed lib (lib.encode v)
      → marshal lib v ≡ ok b
      → unmarshal lib b (receiver_of v) ≡ wrote v
  encoded v b p a m h = elim (Option-cases (lib.encode v)) [
    | inl no_code ↦ absurd (let e = rw no_code at m in cc)
    | inr (e, code) ↦
        let shape : marshal lib v ≡ ok (compress lib e) = rw code at m in
        let same : b ≡ compress lib e = cc in
        rw (same, unmarshal-compress lib e (receiver_of v) k a, k.reads v e p code)
  ]

  -- Under codecs that read what they wrote, a value that is marshalled to at least one byte is read
  -- back into a variable of its type, whether s2 compressed it or not.
  pub unmarshal-marshal :
      (v : Value) (x : ℕ) (b : Bytes)
      → IsPlain v
      → marshal lib v ≡ ok (x ∷ b)
      → unmarshal lib (x ∷ b) (receiver_of v) ≡ wrote v
  unfolding marshal unmarshal
  unmarshal-marshal nil_value x b p h = absurd p
  unmarshal-marshal (pointer v) x b p h = absurd p
  unmarshal-marshal (bytes s) x b p h = let e : s ≡ x ∷ b = cc in rw e
  unmarshal-marshal (text s) x b p h = let e : s ≡ x ∷ b = cc in rw e
  unmarshal-marshal (flag f) x b p h = encoded (flag f) (x ∷ b) tt tt refl h
  unmarshal-marshal (int n) x b p h = encoded (int n) (x ∷ b) tt tt refl h
  unmarshal-marshal (float n) x b p h = encoded (float n) (x ∷ b) tt tt refl h
  unmarshal-marshal (object t n) x b p h = encoded (object t n) (x ∷ b) tt tt refl h
