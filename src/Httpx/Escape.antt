-- ===== src/Httpx/Escape.antt =====
-- The escaped path of pkg/httpx/util.go reads back as the path.
use woocoo.Base.{
  ℕ, ◌+◌, ◌*◌, ◌/◌, ◌%◌, ◌≤◌, ◌<◌, ◌≡◌, ◌≢◌, ◌⊎◌, inl, inr, refl, Bool, not, ◌&&◌, ◌||◌, List, [],
  ◌∷◌, arith, ltb, ◌==◌, Bool-cases,
}
use woocoo.Httpx.{no_escape, hex, escape_path}

-- A hexadecimal digit in upper case, and its value.
abbrev pub IsHex : ℕ → ℕ → Type 0
IsHex d n =
    ((b'0' ≤ d) × (d ≤ b'9') × (d ≡ n + b'0')) ⊎ ((b'A' ≤ d) × (d ≤ b'F') × (d + 10 ≡ n + b'A'))

-- Percent encoding, as RFC 3986 reads it: a text, and the bytes that it stands for.
pub data Decodes : List ℕ → List ℕ → Type 0 where
  end : Decodes [] []
  plain : {s t : List ℕ} (c : ℕ) → c ≢ b'%' → Decodes s t → Decodes (c ∷ s) (c ∷ t)
  percent :
      {s t : List ℕ} (a b m n c : ℕ)
      → IsHex a m
      → IsHex b n
      → c ≡ m * 16 + n
      → Decodes s t
      → Decodes (b'%' ∷ a ∷ b ∷ s) (c ∷ t)

abbrev pub AreBytes : List ℕ → Type 0
AreBytes [] = Unit
AreBytes (c ∷ s) = (c < 256) × AreBytes s

hex-IsHex : (n : ℕ) → n < 16 → IsHex (hex n) n
hex-IsHex n h = elim (Bool-cases (ltb n 10)) [
  | inl digit ↦ rw digit (inl (ground arith, ground arith, refl))
  | inr above ↦ rw above (inr (ground arith, ground arith, omega arith))
]

-- Whatever bytes a path has, its escaped form stands for them under percent encoding, with the
-- separators encoded or not.
pub escape_path-Decodes :
    (path : List ℕ) (encode_sep : Bool) → AreBytes path → Decodes (escape_path path encode_sep) path
unfolding escape_path
escape_path-Decodes [] encode_sep h = end
escape_path-Decodes (c ∷ path) encode_sep (h, hs) =
    let rest = escape_path-Decodes path encode_sep hs in
    elim (Bool-cases (no_escape c || (c == b'/' && not encode_sep))) [
      | inl kept ↦ rw kept (plain c (ground arith) rest)
      | inr escaped ↦ rw escaped (
          percent (hex (c / 16)) (hex (c % 16)) (c / 16) (c % 16) c
            (hex-IsHex (c / 16) (omega arith)) (hex-IsHex (c % 16) (omega arith)) (omega arith)
            rest)
    ]
