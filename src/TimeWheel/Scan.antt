-- ===== src/TimeWheel/Scan.antt =====
-- `scanAndRunTask` of pkg/gds/timewheel.go, element by element: what a scan does to an element of
-- the list, and that it leaves every other element alone.
use woocoo.Base.{
  ℕ, ◌+◌, ◌-◌, ◌%◌, ◌≡◌, refl, ◌∙◌, Bool, true, false, ◌||◌, ◌&&◌, not, List, [], ◌∷◌, ◌++◌, arith,
  ltb, ◌==◌, if◌then◌else◌, mem, mem-append_one, NoRepeat, ap, Bool-cases, inl, inr,
}
use woocoo.TimeWheel.{TimeWheel, WheelSlot, Task, visit, scan}

-- Both states have the same dimensions and stand at the same slot.
pub record SameWheel (w w' : TimeWheel) : Type 0 where
  pub interval : w'.interval ≡ w.interval
  pub slot_num : w'.slot_num ≡ w.slot_num
  pub current_pos : w'.current_pos ≡ w.current_pos
  pub next : w'.next ≡ w.next

-- Both states agree on one element: its contents, and the slots that it stands in.
pub record Agree (r : ℕ) (w w' : TimeWheel) : Type 0 where
  pub item : w'.heap r ≡ w.heap r
  pub place : (p : ℕ) → mem r (w'.slots p) ≡ mem r (w.slots p)

pub visit-SameWheel : (w : TimeWheel) (r : ℕ) → SameWheel w (visit w r).0
unfolding visit
visit-SameWheel w r = ground arith

pub scan-SameWheel : (w : TimeWheel) (rs : List ℕ) → SameWheel w (scan w rs).0
unfolding scan
scan-SameWheel w [] = ground arith
scan-SameWheel w (r ∷ rs) = ground (arith, visit-SameWheel w r, scan-SameWheel (visit w r).0 rs)

-- What the scan makes of an element's contents.
abbrev pub settle : WheelSlot → WheelSlot
settle i =
    if i.removed
    then i
    else if ltb 0 i.circle
    then record i { circle = i.circle - 1 }
    else if ltb 0 i.diff_pos
    then record i { diff_pos = 0 }
    else i

-- Whether the scan of the slot `cur` of `n` puts the element into slot `p`.
abbrev pub goes : ℕ → ℕ → WheelSlot → ℕ → Bool
goes n cur i p =
    if i.removed
    then false
    else if ltb 0 i.circle
    then p == cur
    else if ltb 0 i.diff_pos
    then p == (cur + i.diff_pos) % n
    else false

-- Whether the scan runs the element's task.
abbrev pub is_due : WheelSlot → Bool
is_due i = not i.removed && not (ltb 0 i.circle) && not (ltb 0 i.diff_pos)

pub visit-other : (w : TimeWheel) (r q : ℕ) → (q == r) ≡ false → Agree q w (visit w r).0
unfolding visit
visit-other w r q h = record {
  item = ground arith;
  place = λ p. ground (
    arith,
    mem-append_one q r (w.slots w.current_pos),
    mem-append_one q r (w.slots ((w.current_pos + (w.heap r).diff_pos) % w.slot_num)),
  );
}

visit-item : (w : TimeWheel) (r : ℕ) → (visit w r).0.heap r ≡ settle (w.heap r)
unfolding visit
visit-item w r = ground arith

visit-place :
    (w : TimeWheel) (r p : ℕ)
    → mem r ((visit w r).0.slots p)
      ≡ (mem r (w.slots p) || goes w.slot_num w.current_pos (w.heap r) p)
unfolding visit
visit-place w r p = ground (
  arith,
  mem-append_one r r (w.slots w.current_pos),
  mem-append_one r r (w.slots ((w.current_pos + (w.heap r).diff_pos) % w.slot_num)),
)

-- A scan leaves alone what is not in its list.
pub scan-other : (w : TimeWheel) (rs : List ℕ) (q : ℕ) → mem q rs ≡ false → Agree q w (scan w rs).0
unfolding scan
scan-other w [] q h = record { item = refl; place = λ p. refl }
scan-other w (r ∷ rs) q h =
    let first = visit-other w r q (ground arith) in
    let rest = scan-other (visit w r).0 rs q (ground arith) in
    record { item = rest.item ∙ first.item; place = λ p. rest.place p ∙ first.place p }

pub scan-item :
    (w : TimeWheel) (rs : List ℕ) (r : ℕ)
    → NoRepeat rs
    → mem r rs ≡ true
    → (scan w rs).0.heap r ≡ settle (w.heap r)
unfolding scan
scan-item w [] r d h = cc
scan-item w (x ∷ xs) r d h = elim (Bool-cases (r == x)) [
  | inl same ↦
      let e : r ≡ x = ground arith in
      let rest = scan-other (visit w x).0 xs x d.0 in rw e (rest.item ∙ visit-item w x)
  | inr other ↦
      scan-item (visit w x).0 xs r d.1 (ground arith) ∙ ap settle (visit-other w x r other).item
]

pub scan-place :
    (w : TimeWheel) (rs : List ℕ) (r p : ℕ)
    → NoRepeat rs
    → mem r rs ≡ true
    → mem r ((scan w rs).0.slots p)
      ≡ (mem r (w.slots p) || goes w.slot_num w.current_pos (w.heap r) p)
unfolding scan
scan-place w [] r p d h = cc
scan-place w (x ∷ xs) r p d h = elim (Bool-cases (r == x)) [
  | inl same ↦
      let e : r ≡ x = ground arith in
      let rest = scan-other (visit w x).0 xs x d.0 in rw e (rest.place p ∙ visit-place w x p)
  | inr other ↦
      let other' = visit-other w x r other in
      let same' = visit-SameWheel w x in
      rw (
        scan-place (visit w x).0 xs r p d.1 (ground arith),
        other'.item,
        other'.place p,
        same'.slot_num,
        same'.current_pos,
      )
]

-- The tasks of the elements that are due, in the order of the list.
unfoldable pub due_tasks : (ℕ → WheelSlot) → List ℕ → List Task
due_tasks heap [] = []
due_tasks heap (r ∷ rs) =
    let rest = due_tasks heap rs in if is_due (heap r) then (heap r).task ∷ rest else rest

due_tasks-congr :
    (f g : ℕ → WheelSlot) (rs : List ℕ)
    → ((q : ℕ) → mem q rs ≡ true → g q ≡ f q)
    → due_tasks g rs ≡ due_tasks f rs
unfolding due_tasks
due_tasks-congr f g [] h = refl
due_tasks-congr f g (r ∷ rs) h =
    rw (h r (ground arith), due_tasks-congr f g rs (λ q m. h q (ground arith)))

visit-tasks :
    (w : TimeWheel) (r : ℕ) (ts : List Task)
    → (visit w r).1 ++ ts ≡ (if is_due (w.heap r) then (w.heap r).task ∷ ts else ts)
unfolding visit
visit-tasks w r ts = ground arith

-- A scan runs exactly the tasks that are due, in the order of the list.
pub scan-tasks : (w : TimeWheel) (rs : List ℕ) → NoRepeat rs → (scan w rs).1 ≡ due_tasks w.heap rs
unfolding scan due_tasks
scan-tasks w [] d = refl
scan-tasks w (r ∷ rs) d =
    let later : (scan (visit w r).0 rs).1 ≡ due_tasks w.heap rs =
      scan-tasks (visit w r).0 rs d.1
      ∙ due_tasks-congr w.heap (visit w r).0.heap rs
          (λ q m. (visit-other w r q (ground arith)).item) in
    rw later (visit-tasks w r (due_tasks w.heap rs))
