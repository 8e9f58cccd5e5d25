-- ===== src/Grpc/Prefix.antt =====
-- What rpc/grpcx/interceptor/jwt.go takes of a metadata value behind the scheme.
use woocoo.Base.{
  ℕ, ◌+◌, ◌<◌, ◌≡◌, ◌≢◌, ◌⊎◌, ◌∙◌, refl, sym, ap, inl, inr, true, [], ◌∷◌, ◌++◌, some, length, take,
  drop, take-append, drop-append, take_drop, length-append, length-take, arith,
}
use woocoo.Web.{Text}
use woocoo.Web.Extractor.{equal_fold}
use woocoo.Grpc.Interceptor.{strip_by, strip}

-- A value is the prefix, in any case of its letters, and then the text, which is not empty; without a
-- prefix it is the text.
abbrev pub Carries : (prefix v a : Text) → Type 0
Carries prefix v a =
    ((prefix ≡ []) × (a ≡ v))
    ⊎ ((prefix ≢ [])
        × (a ≢ [])
        × ((front : Text) × (v ≡ front ++ a)
            × (length front ≡ length prefix)
            × (equal_fold front prefix ≡ true)))

strip_by-cut :
    (len : ℕ) (prefix v a : Text)
    → len ≢ 0
    → strip_by len prefix v ≡ some a
    → (len < length v) × (equal_fold (take len v) prefix ≡ true) × (drop len v ≡ a)
strip_by-cut len prefix v a ne h = ground arith

strip_by-has :
    (len : ℕ) (prefix v : Text)
    → len ≢ 0
    → len < length v
    → equal_fold (take len v) prefix ≡ true
    → strip_by len prefix v ≡ some (drop len v)
strip_by-has len prefix v ne lt h = ground arith

full_length : (xs : Text) → xs ≢ [] → length xs ≢ 0
full_length [] h = absurd (h refl)
full_length (x ∷ xs) h = λ e. omega arith

drop-nonempty : (n : ℕ) (xs : Text) → n < length xs → drop n xs ≢ []
drop-nonempty n xs lt e =
    let whole = take_drop n xs in
    let long : length (take n xs) + length (drop n xs) ≡ length xs =
      sym (length-append (take n xs) (drop n xs)) ∙ ap length whole in
    let same = length-take n xs (omega arith) in
    let none_left = ap length e in omega (arith, long, same, none_left)

pub strip-Carries : (prefix v a : Text) → strip prefix v ≡ some a → Carries prefix v a
strip-Carries [] v a h = inl (refl, cc)
strip-Carries (c ∷ prefix) v a h =
    let (lt, same, rest) =
      strip_by-cut (length (c ∷ prefix)) (c ∷ prefix) v a (full_length (c ∷ prefix) (λ e. cc)) h in
    inr (
      λ e. cc,
      λ e. drop-nonempty (length (c ∷ prefix)) v lt (rest ∙ e),
      (
        take (length (c ∷ prefix)) v,
        sym (take_drop (length (c ∷ prefix)) v) ∙ ap (λ s. take (length (c ∷ prefix)) v ++ s) rest,
        length-take (length (c ∷ prefix)) v (omega arith),
        same,
      ),
    )

strip_by-front :
    (front prefix a : Text)
    → front ≢ []
    → a ≢ []
    → equal_fold front prefix ≡ true
    → strip_by (length front) prefix (front ++ a) ≡ some a
strip_by-front front prefix a ne full same =
    let sum = length-append front a in
    let some_left = full_length a full in
    let has =
      strip_by-has (length front) prefix (front ++ a) (full_length front ne)
        (omega (arith, sum, some_left))
        (ap (λ s. equal_fold s prefix) (take-append front a) ∙ same) in
    has ∙ ap some (drop-append front a)

pub Carries-strip : (prefix v a : Text) → Carries prefix v a → strip prefix v ≡ some a
Carries-strip [] v a (inl (p, e)) = ap some (sym e)
Carries-strip [] v a (inr (ne, full, more)) = absurd (ne refl)
Carries-strip (c ∷ prefix) v a (inl (p, e)) = absurd cc
Carries-strip (c ∷ prefix) v a (inr (ne, full, (front, e, len, same))) =
    ap (λ s. strip (c ∷ prefix) s) e
    ∙ ap (λ n. strip_by n (c ∷ prefix) (front ++ a)) (sym len)
    ∙ strip_by-front front (c ∷ prefix) a
        (λ none_there. full_length (c ∷ prefix) (λ q. cc) (sym len ∙ ap length none_there)) full
        same
