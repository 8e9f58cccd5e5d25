-- ===== src/TimeWheel/Schedule.antt =====
-- When the tasks of the wheel of pkg/gds/timewheel.go run.
use Prim.Native.Nat.add
use woocoo.Base.{
  ℕ, zero, suc, ◌+◌, ◌-◌, ◌*◌, ◌/◌, ◌%◌, ◌≤◌, ◌<◌, ◌≡◌, ◌⊎◌, inl, inr, refl, ◌∙◌, true, false, List,
  [], ◌∷◌, Option, update, arith, ◌==◌, mem, Bool-cases,
}
use woocoo.TimeWheel.{
  TimeWheel, WheelSlot, Task, tick_handler, advance, add_fresh, same_id, set_timer, TaskId,
  WheelPos,
}
use woocoo.TimeWheel.Position.{distance, distance_steps}
use woocoo.TimeWheel.Scan.{is_due, due_tasks, scan-tasks}
use woocoo.TimeWheel.Invariant.{IsValid, Absent, upcoming, tick-place, tick-item, tick-IsValid}
use woocoo.TimeWheel.Handlers.{store, store-place}
use woocoo.TimeWheel.Due.{Waits, place_after, tick-Waits, upcoming_wrap}

-- A task stands among those that run.
abbrev pub Runs : Task → List Task → Type 0
Runs t [] = ⊥
Runs t (x ∷ xs) = (t ≡ x) ⊎ Runs t xs

due_tasks-Runs :
    (heap : ℕ → WheelSlot) (rs : List ℕ) (r : ℕ)
    → mem r rs ≡ true
    → is_due (heap r) ≡ true
    → Runs (heap r).task (due_tasks heap rs)
unfolding due_tasks
due_tasks-Runs heap [] r m h = cc
due_tasks-Runs heap (x ∷ xs) r m h = elim (Bool-cases (r == x)) [
  | inl same ↦ let e : r ≡ x = ground arith in rw e (rw (rw e at h, due_tasks) (inl refl))
  | inr other ↦
      let rest = due_tasks-Runs heap xs r (ground arith) h in
      elim (Bool-cases (is_due (heap x))) [
        | inl first ↦ rw (first, due_tasks) (inr rest)
        | inr skip ↦ rw (skip, due_tasks) rest
      ]
]

abbrev DueIn : (ℕ → WheelSlot) → List ℕ → Task → Type 0
DueIn heap rs t = (r : ℕ) × (mem r rs ≡ true) × (is_due (heap r) ≡ true) × (t ≡ (heap r).task)

Runs-due_tasks :
    (heap : ℕ → WheelSlot) (rs : List ℕ) (t : Task) → Runs t (due_tasks heap rs) → DueIn heap rs t
unfolding due_tasks
Runs-due_tasks heap [] t h = absurd h
Runs-due_tasks heap (x ∷ xs) t h = elim (Bool-cases (is_due (heap x))) [
  | inl first ↦ found first (Runs-due_tasks heap xs t) (rw (first, due_tasks) at h)
  | inr skip ↦ later (Runs-due_tasks heap xs t (rw (skip, due_tasks) at h))
]
  where
    later : DueIn heap xs t → DueIn heap (x ∷ xs) t
    later (r, m, d, e) = (r, ground arith, d, e)

    found :
        is_due (heap x) ≡ true
        → (Runs t (due_tasks heap xs) → DueIn heap xs t)
        → (t ≡ (heap x).task) ⊎ Runs t (due_tasks heap xs)
        → DueIn heap (x ∷ xs) t
    found d ih (inl e) = (x, ground arith, d, e)
    found d ih (inr k) = later (ih k)

-- A tick runs exactly the tasks of its slot that are due, in the order of the list.
pub tick-tasks :
    (w : TimeWheel) → IsValid w → (tick_handler w).1 ≡ due_tasks w.heap (w.slots (upcoming w))
unfolding tick_handler
tick-tasks w v = scan-tasks (advance w) (w.slots (upcoming w)) (v.once (upcoming w))

no_product : (c n : ℕ) → 0 < n → c * n ≡ 0 → c ≡ 0
no_product zero n h e = refl
no_product (suc c) n h e = absurd (omega arith)

module _ (w : TimeWheel) (v : IsValid w) (r : ℕ) where
  at_turn : (p : ℕ) → Waits w r p 1 → (p ≡ upcoming w) × (is_due (w.heap r) ≡ true)
  at_turn p h =
      let near : distance w.slot_num w.current_pos p ≡ 1 =
        ground (arith, h.left, v.in_range, v.a_slot p r h.place) in
      let none_left : (w.heap r).circle * w.slot_num ≡ 0 = omega (arith, h.left, near) in
      let no_turn = no_product (w.heap r).circle w.slot_num v.has_slot none_left in
      let no_move : (w.heap r).diff_pos ≡ 0 = omega (arith, h.left, near) in
      (
        ground (arith, near, upcoming_wrap w v, v.in_range, v.a_slot p r h.place),
        ground (arith, h.live, no_turn, no_move),
      )

  turn_of_due :
      mem r (w.slots (upcoming w)) ≡ true → is_due (w.heap r) ≡ true → Waits w r (upcoming w) 1
  turn_of_due m d =
      let no_turn : (w.heap r).circle ≡ 0 = ground arith in
      let no_move : (w.heap r).diff_pos ≡ 0 = ground arith in
      let near : distance w.slot_num w.current_pos (upcoming w) ≡ 1 =
        ground (arith, upcoming_wrap w v, v.in_range) in
      record { place = m; live = ground arith; left = rw (no_turn, no_move, near) (omega arith) }

  -- The element whose turn it is: the next tick runs its task and drops it from every list.
  pub tick-run :
      (p : ℕ)
      → Waits w r p 1
      → Runs (w.heap r).task (tick_handler w).1 × Absent (tick_handler w).0 r
  tick-run p h =
      let (at, ready) = at_turn p h in
      let here : mem r (w.slots (upcoming w)) ≡ true = rw at at h.place in
      (
        rw (tick-tasks w v) (due_tasks-Runs w.heap (w.slots (upcoming w)) r here ready),
        λ q. ground (arith, tick-place w v r q, here, ready),
      )

-- Only a task whose turn it is runs.
pub tick_sound :
    (w : TimeWheel) (t : Task)
    → IsValid w
    → Runs t (tick_handler w).1
    → (r : ℕ) × Waits w r (upcoming w) 1 × (t ≡ (w.heap r).task)
tick_sound w t v h =
    let (r, m, d, e) = Runs-due_tasks w.heap (w.slots (upcoming w)) t (rw (tick-tasks w v) at h) in
    (r, turn_of_due w v r m d, e)

-- The wheel after some ticks.
unfoldable pub after_ticks : ℕ → TimeWheel → TimeWheel
after_ticks zero w = w
after_ticks (suc n) w = after_ticks n (tick_handler w).0

pub after_ticks-IsValid : (n : ℕ) (w : TimeWheel) → IsValid w → IsValid (after_ticks n w)
unfolding after_ticks
after_ticks-IsValid zero w v = v
after_ticks-IsValid (suc n) w v = after_ticks-IsValid n (tick_handler w).0 (tick-IsValid w v)

-- An element that waits for `n + k + 1` ticks waits for `k + 1` after `n`, with the same task.
pub after_ticks-Waits :
    (n k r p : ℕ) (w : TimeWheel)
    → IsValid w
    → Waits w r p (n + suc k)
    → (q : ℕ) × Waits (after_ticks n w) r q (suc k)
      × ((after_ticks n w).heap r).task ≡ (w.heap r).task
unfolding after_ticks
after_ticks-Waits zero k r p w v h = (p, rw (add.zero (suc k)) at h, refl)
after_ticks-Waits (suc n) k r p w v h =
    let less : suc n + suc k ≡ suc (suc (n + k)) = omega arith in
    let more : suc (n + k) ≡ n + suc k = omega arith in
    let next : Waits (tick_handler w).0 r (place_after w r p) (suc (n + k)) =
      tick-Waits w v r p (n + k) (rw less at h) in
    let (q, wait, task) =
      after_ticks-Waits n k r (place_after w r p) (tick_handler w).0 (tick-IsValid w v)
        (rw more at next) in
    (q, wait, task ∙ ground (arith, tick-item w v r))

-- The ticks before the last one, for a delay that is not below the interval.
abbrev pub rounds : TimeWheel → ℕ → ℕ
rounds w delay = delay / w.interval - 1

pub div_pos : (a b : ℕ) → 0 < b → b ≤ a → 0 < a / b
div_pos a b h k = grind arith

pub update_self {ℓ} : {A : Type ℓ} (f : ℕ → A) (k : ℕ) (v : A) → update f k v k ≡ v
update_self f k v = ground arith

pub set_timer-Waits :
    (w : TimeWheel) (id : TaskId) (t : Option WheelPos) (r p k : ℕ)
    → Waits w r p k
    → Waits (set_timer w id t) r p k
set_timer-Waits w id t r p k h = record { place = h.place; live = h.live; left = h.left }

-- A new element at the slot and with the circle of a delay of `steps` intervals.
pub store-Waits :
    (w : TimeWheel) (i : WheelSlot) (steps : ℕ)
    → IsValid w
    → 0 < steps
    → i.circle ≡ (steps - 1) / w.slot_num
    → i.diff_pos ≡ 0
    → i.removed ≡ false
    → Waits
        (store w ((w.current_pos + steps) % w.slot_num) i)
        w.next
        ((w.current_pos + steps) % w.slot_num)
        steps
store-Waits w i steps v s c z l =
    let p = (w.current_pos + steps) % w.slot_num in
    let new : (store w p i).heap w.next ≡ i = update_self w.heap w.next i in
    record {
      place = rw (store-place w p i v w.next p) (ground arith);
      live = rw new l;
      left =
          rw (new, c, z)
            (omega (arith, distance_steps w.slot_num w.current_pos steps v.in_range s));
    }

-- `addTask` puts a new task where it runs in as many ticks as its delay has intervals.
pub add_fresh-Waits :
    (w : TimeWheel) (slot : WheelSlot) (delay : ℕ)
    → IsValid w
    → slot.diff_pos ≡ 0
    → slot.removed ≡ false
    → w.interval ≤ delay
    → Waits
        (add_fresh w slot delay)
        w.next
        ((w.current_pos + delay / w.interval) % w.slot_num)
        (delay / w.interval)
unfolding add_fresh
add_fresh-Waits w slot delay v z l b = elim (Bool-cases (same_id slot.base.task_id TaskId.no_id)) [
  | inl anonymous ↦ rw (anonymous, add_fresh) stored
  | inr named ↦ rw (named, add_fresh) (set_timer-Waits _ _ _ w.next _ _ stored)
]
  where
    item : WheelSlot
    item = record slot {
      base = record { delay = delay; task_id = slot.base.task_id };
      circle = (delay / w.interval - 1) / w.slot_num;
    }

    stored :
        Waits
          (store w ((w.current_pos + delay / w.interval) % w.slot_num) item)
          w.next
          ((w.current_pos + delay / w.interval) % w.slot_num)
          (delay / w.interval)
    stored = store-Waits w item (delay / w.interval) v (div_pos delay w.interval v.ticks b) refl z l

pub add_fresh-task :
    (w : TimeWheel) (slot : WheelSlot) (delay : ℕ)
    → ((add_fresh w slot delay).heap w.next).task ≡ slot.task
unfolding add_fresh
add_fresh-task w slot delay = ground arith
