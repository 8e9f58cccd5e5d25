-- ===== src/TimeWheel/Handlers.antt =====
-- The handlers of the messages of pkg/gds/timewheel.go keep the invariant.
use native.Mathlib.Nat.{mod-lt}
use mathlib.Core.Path.{subst}
use woocoo.Base.{
  ℕ, zero, suc, ◌+◌, ◌-◌, ◌/◌, ◌%◌, ◌<◌, ◌≡◌, false, Option, none, arith, ltb, leb, ◌==◌,
  if◌then◌else◌, mem, mem-append_one, update, NoRepeat-append_one, Bool-cases, Option-cases, inl,
  inr,
}
use woocoo.Base.Int.{ℤ, pos, negsuc}
use woocoo.TimeWheel.{
  TimeWheel, WheelSlot, BaseSlot, WheelPos, TaskId, ok, empty_wheel, new_time_wheel, move_item,
  move_task, add_fresh, add_task, raised_delay, remove_task, set_item, push_back, same_id,
  set_timer,
}
use woocoo.TimeWheel.Invariant.{IsValid}

-- A new wheel is valid.
pub new_time_wheel-IsValid :
    (interval slot_num : ℤ) {w : TimeWheel} → new_time_wheel interval slot_num ≡ ok w → IsValid w
unfolding new_time_wheel
new_time_wheel-IsValid (pos zero) (pos n) e = absurd (ground arith)
new_time_wheel-IsValid (pos zero) (negsuc n) e = cc
new_time_wheel-IsValid (pos (suc a)) (pos zero) e = absurd (ground arith)
new_time_wheel-IsValid (pos (suc a)) (pos (suc n)) {w} e =
    let same : empty_wheel (suc a) (suc n) ≡ w = ground arith in
    subst IsValid same (record {
      ticks = omega arith;
      has_slot = omega arith;
      in_range = omega arith;
      once = λ p. tt;
      apart = λ p q r h k. cc;
      a_slot = λ p r h. cc;
      fresh = λ p r h. cc;
      bounded = λ r. omega arith;
    })
new_time_wheel-IsValid (pos (suc a)) (negsuc n) e = cc
new_time_wheel-IsValid (negsuc a) n e = cc

set_timer-IsValid :
    (w : TimeWheel) (k : TaskId) (t : Option WheelPos) → IsValid w → IsValid (set_timer w k t)
set_timer-IsValid w k t v = record {
  ticks = v.ticks;
  has_slot = v.has_slot;
  in_range = v.in_range;
  once = v.once;
  apart = v.apart;
  a_slot = v.a_slot;
  fresh = v.fresh;
  bounded = v.bounded;
}

pub set_item-IsValid :
    (w : TimeWheel) (r : ℕ) (i : WheelSlot)
    → IsValid w
    → i.diff_pos < w.slot_num
    → IsValid (set_item w r i)
set_item-IsValid w r i v b = record {
  ticks = v.ticks;
  has_slot = v.has_slot;
  in_range = v.in_range;
  once = v.once;
  apart = v.apart;
  a_slot = v.a_slot;
  fresh = v.fresh;
  bounded = λ q. ground (arith, v.bounded q);
}

-- A new element, at the end of a slot's list.
abbrev pub store : TimeWheel → ℕ → WheelSlot → TimeWheel
store w p i = push_back (record w { heap = update w.heap w.next i; next = suc w.next }) p w.next

pub unallocated : (w : TimeWheel) → IsValid w → (q : ℕ) → mem w.next (w.slots q) ≡ false
unallocated w v q = ground (arith, v.fresh q w.next)

pub store-place :
    (w : TimeWheel) (p : ℕ) (i : WheelSlot)
    → IsValid w
    → (r q : ℕ)
    → mem r ((store w p i).slots q) ≡ (if r == w.next then q == p else mem r (w.slots q))
store-place w p i v r q = ground (arith, mem-append_one r w.next (w.slots p), unallocated w v q)

pub store-IsValid :
    (w : TimeWheel) (p : ℕ) (i : WheelSlot)
    → IsValid w
    → p < w.slot_num
    → i.diff_pos < w.slot_num
    → IsValid (store w p i)
store-IsValid w p i v h b = record {
  ticks = v.ticks;
  has_slot = v.has_slot;
  in_range = v.in_range;
  once = λ q. elim (Bool-cases (q == p)) [
    | inl same ↦ rw same (NoRepeat-append_one w.next (w.slots p) (v.once p) (unallocated w v p))
    | inr other ↦ rw other (v.once q)
  ];
  apart = λ q q' r k k'.
      ground (arith, v.apart q q' r, store-place w p i v r q, store-place w p i v r q');
  a_slot = λ q r k. ground (arith, v.a_slot q r, store-place w p i v r q);
  fresh = λ q r k. ground (arith, v.fresh q r, store-place w p i v r q);
  bounded = λ r. ground (arith, v.bounded r);
}

move_item-IsValid :
    (w : TimeWheel) (task : BaseSlot) (entry : WheelPos)
    → IsValid w
    → IsValid (move_item w task entry)
unfolding move_item
move_item-IsValid w task entry v = elim (Bool-cases (leb entry.position p)) [
  | inl ahead ↦ rw (ahead, move_item) (set_item-IsValid w entry.item _ v (omega (arith, in_wheel)))
  | inr behind ↦ elim (Bool-cases (ltb 0 circle)) [
    | inl turns ↦
        rw (behind, turns, move_item) (set_item-IsValid w entry.item _ v (ground (arith, in_wheel)))
    | inr now ↦
        rw (behind, now)
          (set_timer-IsValid _ _ _ (
            store-IsValid _ p _ (set_item-IsValid w entry.item _ v (v.bounded entry.item)) in_wheel
              v.has_slot))
  ]
]
  where
    p : ℕ
    p = (w.current_pos + task.delay / w.interval) % w.slot_num

    circle : ℕ
    circle = (task.delay / w.interval - 1) / w.slot_num

    in_wheel : p < w.slot_num
    in_wheel = mod-lt (w.current_pos + task.delay / w.interval) v.has_slot

-- `moveTask` keeps the invariant.
pub move_task-IsValid : (w : TimeWheel) (task : BaseSlot) → IsValid w → IsValid (move_task w task)
unfolding move_task
move_task-IsValid w task v = elim (Option-cases (w.timers task.task_id)) [
  | inl unknown ↦ rw (unknown, move_task) v
  | inr (entry, known) ↦ rw (known, move_task) (move_item-IsValid w task entry v)
]

add_fresh-IsValid :
    (w : TimeWheel) (slot : WheelSlot) (delay : ℕ)
    → IsValid w
    → slot.diff_pos ≡ 0
    → IsValid (add_fresh w slot delay)
unfolding add_fresh
add_fresh-IsValid w slot delay v z = elim (Bool-cases (same_id slot.base.task_id TaskId.no_id)) [
  | inl anonymous ↦ rw anonymous stored
  | inr named ↦ rw named (set_timer-IsValid _ _ _ stored)
]
  where
    stored : IsValid (
        store w ((w.current_pos + delay / w.interval) % w.slot_num) (record slot {
          base = record { delay = delay; task_id = slot.base.task_id };
          circle = (delay / w.interval - 1) / w.slot_num;
        }))
    stored =
        store-IsValid w _ _ v (mod-lt (w.current_pos + delay / w.interval) v.has_slot)
          (omega (arith, v.has_slot, z))

-- `addTask` keeps the invariant.
pub add_task-IsValid :
    (w : TimeWheel) (slot : WheelSlot) → IsValid w → slot.diff_pos ≡ 0 → IsValid (add_task w slot)
unfolding add_task
add_task-IsValid w slot v z = elim (Option-cases (w.timers slot.base.task_id)) [
  | inl unknown ↦ rw (unknown, add_task) (add_fresh-IsValid w slot (raised_delay w slot) v z)
  | inr (entry, known) ↦
      rw (known, add_task)
        (move_task-IsValid _ _ (set_item-IsValid w entry.item _ v (v.bounded entry.item)))
]

-- `removeTask` keeps the invariant.
pub remove_task-IsValid : (w : TimeWheel) (id : TaskId) → IsValid w → IsValid (remove_task w id)
unfolding remove_task
remove_task-IsValid w id v = elim (Option-cases (w.timers id)) [
  | inl unknown ↦ rw (unknown, remove_task) v
  | inr (entry, known) ↦
      rw (known, remove_task)
        (set_timer-IsValid _ id none (set_item-IsValid w entry.item _ v (v.bounded entry.item)))
]
