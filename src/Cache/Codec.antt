-- ===== src/Cache/Codec.antt =====
-- The marshalling of pkg/cache/cache.go. msgpack and s2 are parameters.
pub mod RoundTrip
use woocoo.Base.{
  ℕ, ◌<◌, Bool, List, [], ◌∷◌, ◌++◌, Option, none, some, length, ltb, ◌==◌, if◌then◌else◌,
}
use woocoo.Cache.{
  Bytes, Value, nil_value, bytes, text, Receiver, nil_receiver, to_bytes, to_text, Result, ok, err,
  codec_failed, unknown_compression, Read, unchanged, wrote, failed,
}

-- github.com/vmihailenco/msgpack and github.com/klauspost/compress/s2. `decode` reads bytes into a
-- pointer of the receiver's type.
pub record Library : Type 0 where
  pub encode : Value → Option Bytes
  pub decode : Bytes → Receiver → Option Value
  pub s2_encode : Bytes → Bytes
  pub s2_decode : Bytes → Option Bytes

abbrev pub compression_threshold : ℕ
compression_threshold = 64

abbrev pub no_compression : ℕ
no_compression = 0

abbrev pub s2_compression : ℕ
s2_compression = 1

abbrev pub of_option : Option Value → Read
of_option none = failed codec_failed
of_option (some v) = wrote v

-- The last byte, and the bytes before it; `b[len(b)-1]` and `b[:len(b)-1]`.
abbrev pub split_last : ℕ → Bytes → Bytes × ℕ
split_last x [] = ([], x)
split_last x (y ∷ s) = let (front, last) = split_last y s in (x ∷ front, last)

module _ (lib : Library) where
  unfoldable pub compress : Bytes → Bytes
  compress data_bytes =
      if ltb (length data_bytes) compression_threshold
      then data_bytes ++ no_compression ∷ []
      else lib.s2_encode data_bytes ++ s2_compression ∷ []

  abbrev pub compressed : Option Bytes → Result Bytes
  compressed none = err codec_failed
  compressed (some b) = ok (compress b)

  -- `DefaultMarshalFunc`.
  unfoldable pub marshal : Value → Result Bytes
  unfolding compress
  marshal (bytes b) = ok b
  marshal (text s) = ok s
  marshal nil_value = ok []
  marshal v = compressed (lib.encode v)

  abbrev unpacked : Receiver → Option Bytes → Read
  unpacked r none = failed codec_failed
  unpacked r (some b) = of_option (lib.decode b r)

  unfoldable pub decompress : Receiver → Bytes × ℕ → Read
  decompress r (front, c) =
      if c == no_compression
      then of_option (lib.decode front r)
      else if c == s2_compression
      then unpacked r (lib.s2_decode front)
      else failed unknown_compression

  -- `DefaultUnmarshalFunc`.
  unfoldable pub unmarshal : Bytes → Receiver → Read
  unfolding decompress
  unmarshal [] r = unchanged
  unmarshal (x ∷ b) to_bytes = wrote (bytes (x ∷ b))
  unmarshal (x ∷ b) to_text = wrote (text (x ∷ b))
  unmarshal (x ∷ b) nil_receiver = unchanged
  unmarshal (x ∷ b) r = decompress r (split_last x b)
