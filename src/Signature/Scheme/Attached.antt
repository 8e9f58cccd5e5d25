-- ===== src/Signature/Scheme/Attached.antt =====
-- The signature that `AttachRequest` of pkg/httpx/signature.go writes into a header is the one that
-- `GetSignedRequestSignature` finds there.
use mathlib.Core.List.{append-nil, append_assoc}
use woocoo.Base.{
  ℕ, suc, ◌-◌, ◌≡◌, ◌≢◌, ◌∙◌, refl, sym, ap, true, false, List, [], ◌∷◌, ◌++◌, none, ltb, ◌==◌,
  arith, codes, same_text_refl, to_lower, length, drop, take, take-append, drop-append,
}
use woocoo.Web.{Text, Request, ok}
use woocoo.Web.Extractor.{values_from_header}
use woocoo.Httpx.{
  has_prefix, split_text_from, split_text, cut_at, signature_elem, signature_in,
  get_signed_request_signature,
}
use woocoo.Signature.Scheme.{delimited, signature_field}

-- The byte at which a delimiter may start stands nowhere in a text.
abbrev pub Lacks : ℕ → Text → Type 0
Lacks d [] = Unit
Lacks d (c ∷ s) = (c ≢ d) × Lacks d s

has_prefix-append : (p t : Text) → has_prefix p (p ++ t) ≡ true
has_prefix-append [] t = refl
has_prefix-append (c ∷ p) t =
    let e : (c == c) ≡ true = ground arith in rw (e, has_prefix-append p t)

split_text_from-skips :
    (sep skipped t : Text)
    → split_text_from sep (length skipped) [] (skipped ++ t) ≡ split_text_from sep 0 [] t
split_text_from-skips sep [] t = refl
split_text_from-skips sep (c ∷ skipped) t = split_text_from-skips sep skipped t

module _ (d : ℕ) (ds : Text) where
  split_text_from-cuts :
      (p piece t : Text)
      → Lacks d p
      → split_text_from (d ∷ ds) 0 piece (p ++ (d ∷ ds ++ t)) ≡ (piece ++ p) ∷ split_text (d ∷ ds) t
  split_text_from-cuts [] piece t h =
      let e : (d == d) ≡ true = ground arith in
      let l : suc (length ds) - 1 ≡ length ds = omega arith in
      rw (e, has_prefix-append ds t, l, split_text_from-skips (d ∷ ds) ds t, append-nil piece)
  split_text_from-cuts (c ∷ p) piece t (n, h) =
      let e : (d == c) ≡ false = ground arith in
      rw (e, split_text_from-cuts p (piece ++ c ∷ []) t h, append_assoc piece (c ∷ []) p)

  split_text_from-whole :
      (p piece : Text) → Lacks d p → split_text_from (d ∷ ds) 0 piece p ≡ (piece ++ p) ∷ []
  split_text_from-whole [] piece h = rw (append-nil piece)
  split_text_from-whole (c ∷ p) piece (n, h) =
      let e : (d == c) ≡ false = ground arith in
      rw (e, split_text_from-whole p (piece ++ c ∷ []) h, append_assoc piece (c ∷ []) p)

  -- Fields that hold no byte of a delimiter's start and no "Signature=".
  abbrev pub AreFields : List Text → Type 0
  AreFields [] = Unit
  AreFields (p ∷ ps) = Lacks d p × (cut_at signature_elem [] p ≡ none) × AreFields ps

  signature_in-fields :
      (fields : List Text) (sig : Text)
      → AreFields fields
      → Lacks d (signature_field sig)
      → sig ≢ []
      → signature_in (split_text (d ∷ ds) (delimited (d ∷ ds) fields ++ signature_field sig))
        ≡ ok sig
  unfolding signature_in
  signature_in-fields [] [] h l n = absurd (n refl)
  signature_in-fields [] (c ∷ sig) h l n =
      rw (split_text_from-whole (signature_field (c ∷ sig)) [] l)
  signature_in-fields (p ∷ ps) sig (f, g, h) l n =
      ap (λ text. signature_in (split_text (d ∷ ds) text))
        (append_assoc p (d ∷ ds ++ delimited (d ∷ ds) ps) (signature_field sig)
          ∙ ap (λ t. p ++ (d ∷ t)) (append_assoc ds (delimited (d ∷ ds) ps) (signature_field sig)))
      ∙ ap signature_in (split_text_from-cuts p [] (delimited (d ∷ ds) ps ++ signature_field sig) f)
      ∙ rw (signature_in, g, signature_in-fields ps sig h l n)

-- The scheme in front of a value is taken off.
length-append_more : (s t : Text) (c : ℕ) → ltb (length s) (length (s ++ c ∷ t)) ≡ true
length-append_more [] t c = ground arith
length-append_more (b ∷ s) t c = ground (arith, length-append_more s t c)

values_from_header-prefix :
    (r : Request) (header prefix value t : Text) (len : ℕ)
    → r.header_values header ≡ value ∷ []
    → (len == 0) ≡ false
    → ltb len (length value) ≡ true
    → take len value ≡ prefix
    → drop len value ≡ t
    → values_from_header r header prefix len ≡ ok (t ∷ [])
unfolding values_from_header
values_from_header-prefix r header prefix value t len h z l p q =
    rw (values_from_header, h, z, l, p, q, same_text_refl (to_lower prefix))

-- A header with one value, which begins with the scheme, gives what stands behind it.
values_from_header-scheme :
    (r : Request) (header scheme t : Text) (c : ℕ)
    → r.header_values header ≡ (scheme ++ c ∷ t) ∷ []
    → values_from_header r header scheme (length scheme) ≡ ok ((c ∷ t) ∷ [])
unfolding values_from_header
values_from_header-scheme r header [] t c h = rw (values_from_header, h)
values_from_header-scheme r header (b ∷ s) t c h =
    values_from_header-prefix r header (b ∷ s) ((b ∷ s) ++ c ∷ t) (c ∷ t) (length (b ∷ s)) h
      (ground arith) (length-append_more (b ∷ s) t c) (take-append (b ∷ s) (c ∷ t))
      (drop-append (b ∷ s) (c ∷ t))

delimited-nonempty :
    (deli : Text) (fields : List Text) (sig : Text)
    → (c : ℕ) × (t : Text) × (delimited deli fields ++ signature_field sig ≡ c ∷ t)
delimited-nonempty deli [] sig = (b'S', codes "ignature=" ++ sig, refl)
delimited-nonempty [] ([] ∷ fields) sig = delimited-nonempty [] fields sig
delimited-nonempty (d ∷ ds) ([] ∷ fields) sig = (d, _, refl)
delimited-nonempty deli ((c ∷ f) ∷ fields) sig = (c, _, refl)

-- The signature behind its scheme and its fields is found.
pub get_signed_request_signature-attached :
    (r : Request) (header scheme : Text) (d : ℕ) (ds : Text) (fields : List Text) (sig : Text)
    → r.header_values header ≡ (scheme ++ (delimited (d ∷ ds) fields ++ signature_field sig)) ∷ []
    → AreFields d ds fields
    → Lacks d (signature_field sig)
    → sig ≢ []
    → get_signed_request_signature r header scheme (d ∷ ds) ≡ ok sig
unfolding get_signed_request_signature
get_signed_request_signature-attached r header scheme d ds fields sig h f l n =
    let (c, t, e) = delimited-nonempty (d ∷ ds) fields sig in
    let one = values_from_header-scheme r header scheme t c (h ∙ ap (λ v. (scheme ++ v) ∷ []) e) in
    rw (get_signed_request_signature, one)
      (ap (λ v. signature_in (split_text (d ∷ ds) v)) (sym e)
        ∙ signature_in-fields d ds fields sig f l n)
