-- ===== src/Base/Maps.antt =====
-- Go maps from texts, as lists of entries in the order in which a loop walks over them.
use Prim.Native.Nat.{ℕ}
use mathlib.Core.Path.{◌≡◌}
use mathlib.Core.Option.{Option, none, some}
use mathlib.Core.List.{List, [], ◌∷◌}
use woocoo.Base.Tests.{if◌then◌else◌, Bool-cases}
use mathlib.Core.Logic.{inl, inr}
use woocoo.Base.Text.{same_text, same_text_refl}

abbrev pub Dict {ℓ} : Type ℓ → Type ℓ
Dict A = List (List ℕ × A)

module _ {ℓ} {A : Type ℓ} where
  abbrev pub entry : Dict A → List ℕ → Option A
  entry [] key = none
  entry ((k, v) ∷ d) key = if same_text k key then some v else entry d key

  -- `d[key] = v`.
  abbrev pub with_entry : Dict A → List ℕ → A → Dict A
  with_entry [] key val = (key, val) ∷ []
  with_entry ((k, v) ∷ d) key val =
      let rest = with_entry d key val in if same_text k key then (k, val) ∷ d else (k, v) ∷ rest

  -- `delete(d, key)`.
  abbrev pub without_entry : Dict A → List ℕ → Dict A
  without_entry [] key = []
  without_entry ((k, v) ∷ d) key =
      let rest = without_entry d key in if same_text k key then rest else (k, v) ∷ rest

  -- What was written is read back.
  pub entry-with_entry :
      (d : Dict A) (key : List ℕ) (val : A) → entry (with_entry d key val) key ≡ some val
  entry-with_entry [] key val = rw (same_text_refl key)
  entry-with_entry ((k, v) ∷ d) key val = elim (Bool-cases (same_text k key)) [
    | inl same ↦ rw (same, same)
    | inr other ↦ rw (other, other, entry-with_entry d key val)
  ]
