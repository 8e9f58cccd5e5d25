-- ===== src/TimeWheel/Invariant.antt =====
-- The invariant of the time wheel of pkg/gds/timewheel.go, and that every handler keeps it.
use native.Mathlib.Nat.{mod-lt}
use woocoo.Base.{
  ℕ, ◌+◌, ◌%◌, ◌<◌, ◌≡◌, ◌∙◌, true, false, List, [], ◌∷◌, arith, ltb, ◌==◌, if◌then◌else◌, mem,
  NoRepeat, NoRepeat-append_one, Bool-cases, inl, inr,
}
use woocoo.TimeWheel.{TimeWheel, visit, scan, advance, tick_handler, push_back}
use woocoo.TimeWheel.Scan.{
  SameWheel, visit-other, scan-SameWheel, settle, goes, scan-other, scan-item, scan-place,
}

-- Every list position is a slot of the wheel; an element stands in one slot at most, once, and has
-- been allocated; and a postponement never goes a full turn, so that the scan of a slot puts no
-- element back into the list that it walks.
pub record IsValid (w : TimeWheel) : Type 0 where
  pub ticks : 0 < w.interval
  pub has_slot : 0 < w.slot_num
  pub in_range : w.current_pos < w.slot_num
  pub once : (p : ℕ) → NoRepeat (w.slots p)
  pub apart : (p q r : ℕ) → mem r (w.slots p) ≡ true → mem r (w.slots q) ≡ true → p ≡ q
  pub a_slot : (p r : ℕ) → mem r (w.slots p) ≡ true → p < w.slot_num
  pub fresh : (p r : ℕ) → mem r (w.slots p) ≡ true → r < w.next
  pub bounded : (r : ℕ) → (w.heap r).diff_pos < w.slot_num

abbrev pub Absent : TimeWheel → ℕ → Type 0
Absent w r = (p : ℕ) → mem r (w.slots p) ≡ false

==-refl : (a : ℕ) → (a == a) ≡ true
==-refl a = ground arith

push_back-once :
    (w : TimeWheel) (p r : ℕ)
    → ((q : ℕ) → NoRepeat (w.slots q))
    → mem r (w.slots p) ≡ false
    → (q : ℕ) → NoRepeat ((push_back w p r).slots q)
push_back-once w p r o a q = elim (Bool-cases (q == p)) [
  | inl same ↦ rw same (NoRepeat-append_one r (w.slots p) (o p) a)
  | inr other ↦ rw other (o q)
]

visit-once :
    (w : TimeWheel) (r : ℕ)
    → ((q : ℕ) → NoRepeat (w.slots q))
    → Absent w r
    → (q : ℕ) → NoRepeat ((visit w r).0.slots q)
unfolding visit
visit-once w r o a q = elim (Bool-cases (w.heap r).removed) [
  | inl gone ↦ rw gone (o q)
  | inr kept ↦ elim (Bool-cases (ltb 0 (w.heap r).circle)) [
    | inl turns ↦ rw (kept, turns) (push_back-once w w.current_pos r o (a _) q)
    | inr last ↦ elim (Bool-cases (ltb 0 (w.heap r).diff_pos)) [
      | inl moved ↦ rw (kept, last, moved) (push_back-once w _ r o (a _) q)
      | inr due ↦ rw (kept, last, due) (o q)
    ]
  ]
]

scan-once :
    (w : TimeWheel) (rs : List ℕ)
    → ((q : ℕ) → NoRepeat (w.slots q))
    → NoRepeat rs
    → ((r : ℕ) → mem r rs ≡ true → Absent w r)
    → (q : ℕ) → NoRepeat ((scan w rs).0.slots q)
unfolding scan
scan-once w [] o d a q = o q
scan-once w (r ∷ rs) o d a q =
    scan-once (visit w r).0 rs (visit-once w r o (a r (ground arith))) d.1
      (λ x m p. (visit-other w r x (ground arith)).place p ∙ a x (ground arith) p) q

-- The slot that the wheel moves on to.
abbrev pub upcoming : TimeWheel → ℕ
upcoming w = (w.current_pos + 1) % w.slot_num

-- Once its list is taken out, an element of the upcoming slot stands nowhere.
pub advance-Absent :
    (w : TimeWheel)
    → IsValid w
    → (r : ℕ) → mem r (w.slots (upcoming w)) ≡ true
    → Absent (advance w) r
advance-Absent w v r h p = elim (Bool-cases (p == upcoming w)) [
  | inl same ↦ rw same
  | inr other ↦ elim (Bool-cases (mem r (w.slots p))) [
    | inl there ↦ absurd (let e = v.apart p (upcoming w) r there h in ground arith)
    | inr none_there ↦ rw other none_there
  ]
]

advance-place :
    (w : TimeWheel) (r p : ℕ)
    → mem r (w.slots (upcoming w)) ≡ false
    → mem r ((advance w).slots p) ≡ mem r (w.slots p)
advance-place w r p h = elim (Bool-cases (p == upcoming w)) [
  | inl same ↦ let e : p ≡ upcoming w = ground arith in rw e (rw (h, ==-refl (upcoming w)))
  | inr other ↦ rw other
]

-- Where an element stands after a tick.
pub tick-place :
    (w : TimeWheel)
    → IsValid w
    → (r p : ℕ)
    → mem r ((tick_handler w).0.slots p) ≡ (
        if mem r (w.slots (upcoming w))
        then goes w.slot_num (upcoming w) (w.heap r) p
        else mem r (w.slots p))
unfolding tick_handler
tick-place w v r p = elim (Bool-cases (mem r (w.slots (upcoming w)))) [
  | inl here ↦ rw (
    here,
    scan-place (advance w) (w.slots (upcoming w)) r p (v.once (upcoming w)) here,
    advance-Absent w v r here p,
  )
  | inr elsewhere ↦
      rw (elsewhere, (scan-other (advance w) (w.slots (upcoming w)) r elsewhere).place p)
        (advance-place w r p elsewhere)
]

pub tick-item :
    (w : TimeWheel)
    → IsValid w
    → (r : ℕ)
    → (tick_handler w).0.heap r
      ≡ (if mem r (w.slots (upcoming w)) then settle (w.heap r) else w.heap r)
unfolding tick_handler
tick-item w v r = elim (Bool-cases (mem r (w.slots (upcoming w)))) [
  | inl here ↦ rw (here, scan-item (advance w) (w.slots (upcoming w)) r (v.once (upcoming w)) here)
  | inr elsewhere ↦ rw (elsewhere, (scan-other (advance w) (w.slots (upcoming w)) r elsewhere).item)
]

pub tick-SameWheel : (w : TimeWheel) → SameWheel (advance w) (tick_handler w).0
unfolding tick_handler
tick-SameWheel w = scan-SameWheel (advance w) (w.slots (upcoming w))

tick-once : (w : TimeWheel) → IsValid w → (p : ℕ) → NoRepeat ((tick_handler w).0.slots p)
unfolding tick_handler
tick-once w v p =
    scan-once (advance w) (w.slots (upcoming w)) emptied (v.once (upcoming w)) (advance-Absent w v)
      p
  where
    emptied : (q : ℕ) → NoRepeat ((advance w).slots q)
    emptied q = elim (Bool-cases (q == upcoming w)) [
      | inl same ↦ rw same tt
      | inr other ↦ rw other (v.once q)
    ]

-- A tick keeps the invariant.
pub tick-IsValid : (w : TimeWheel) → IsValid w → IsValid (tick_handler w).0
tick-IsValid w v = record {
  ticks = omega (arith, v.ticks, same.interval);
  has_slot = omega (arith, v.has_slot, same.slot_num);
  in_range = rw (same.current_pos, same.slot_num) (mod-lt (w.current_pos + 1) v.has_slot);
  once = tick-once w v;
  apart = λ p q r h k. ground (arith, v.apart p q r, tick-place w v r p, tick-place w v r q);
  a_slot = λ p r h. ground (
    arith,
    v.a_slot p r,
    tick-place w v r p,
    same.slot_num,
    mod-lt (w.current_pos + 1) v.has_slot,
    mod-lt (upcoming w + (w.heap r).diff_pos) v.has_slot,
  );
  fresh =
      λ p r h. ground (arith, v.fresh p r, v.fresh (upcoming w) r, tick-place w v r p, same.next);
  bounded = λ r. ground (arith, v.bounded r, tick-item w v r, same.slot_num, v.has_slot);
}
  where
    same : SameWheel (advance w) (tick_handler w).0
    same = tick-SameWheel w
