-- ===== src/TimeWheel/Move.antt =====
-- `moveTask` of pkg/gds/timewheel.go: when a task runs after its timer is reset.
use woocoo.Base.{
  ℕ, ◌+◌, ◌-◌, ◌/◌, ◌%◌, ◌≤◌, ◌<◌, ◌≡◌, ◌∙◌, refl, true, false, some, arith, ltb, leb, ◌==◌,
  if◌then◌else◌, mem,
}
use native.Mathlib.Nat.{div-eq_of_lt}
use woocoo.TimeWheel.{
  TimeWheel, WheelSlot, WheelPos, BaseSlot, TaskId, same_id, set_item, move_item, move_task,
  remove_task,
}
use woocoo.TimeWheel.Invariant.{IsValid}
use woocoo.TimeWheel.Handlers.{set_item-IsValid}
use woocoo.TimeWheel.Due.{Waits}
use woocoo.TimeWheel.Schedule.{store-Waits, set_timer-Waits, div_pos}

-- The table's entry for the key is right: the element stands in the slot that it names, alive.
pub record IsEntry (w : TimeWheel) (id : TaskId) (entry : WheelPos) : Type 0 where
  pub found : w.timers id ≡ some entry
  pub place : mem entry.item (w.slots entry.position) ≡ true
  pub live : (w.heap entry.item).removed ≡ false
  pub key : (w.heap entry.item).base.task_id ≡ id

-- The slot that a delay of `steps` ticks falls on.
abbrev pub target : TimeWheel → ℕ → ℕ
target w steps = (w.current_pos + steps) % w.slot_num

move_task_known :
    (w : TimeWheel) (task : BaseSlot) (entry : WheelPos)
    → w.timers task.task_id ≡ some entry
    → move_task w task ≡ move_item w task entry
unfolding move_task
move_task_known w task entry e = rw (e, move_task)

-- The turns that a task runs late: the wheel has passed the element's slot in this turn, and not yet
-- the slot of the new delay.
abbrev pub late : TimeWheel → ℕ → ℕ → ℕ
late w old new =
    if ltb w.current_pos old then 0 else if ltb w.current_pos new then w.slot_num else 0

-- The turns that it runs early: the other way round, for a delay of more than a turn.
abbrev pub early : TimeWheel → ℕ → ℕ → ℕ → ℕ
early w steps old new =
    if ltb 0 ((steps - 1) / w.slot_num)
    then if ltb w.current_pos new then 0 else if ltb w.current_pos old then w.slot_num else 0
    else 0

==_self : (a : ℕ) → (a == a) ≡ true
==_self a = ground arith

same_id_self : (id : TaskId) → same_id id id ≡ true
same_id_self TaskId.no_id = refl
same_id_self (TaskId.assigned a) = ==_self a
same_id_self (TaskId.chosen a) = ==_self a

module _ (w : TimeWheel) (task : BaseSlot) (entry : WheelPos) (v : IsValid w)
    (known : IsEntry w task.task_id entry) (whole : w.interval ≤ task.delay) where
  abbrev steps : ℕ
  steps = task.delay / w.interval

  abbrev circle : ℕ
  circle = (steps - 1) / w.slot_num

  abbrev item : WheelSlot
  item = w.heap entry.item

  some_steps : 0 < steps
  some_steps = div_pos task.delay w.interval v.ticks whole

  -- What `moveTask` leaves waits for the ticks of the new delay, but for a turn too many or too few.
  abbrev Moved : TimeWheel → Type 0
  Moved w' =
      (r : ℕ) × (q : ℕ) × (k : ℕ) × Waits w' r q k
      × ((w'.heap r).task ≡ item.task)
      × (k + early w steps entry.position (target w steps)
          ≡ steps + late w entry.position (target w steps))

  module _ (b : leb entry.position (target w steps) ≡ false) (t : ltb 0 circle ≡ false) where
    unlike : (entry.item == w.next) ≡ false
    unlike = ground (arith, v.fresh entry.position entry.item known.place)

    now-Waits :
        Waits (move_item w task entry) w.next (target w steps) steps
        × (((move_item w task entry).heap w.next).task ≡ item.task)
    unfolding move_item
    now-Waits =
        let marked : TimeWheel = set_item w entry.item (record item { removed = true }) in
        let valid : IsValid marked = set_item-IsValid w entry.item _ v (v.bounded entry.item) in
        rw (b, t, move_item)
          (
            set_timer-Waits _ _ _ w.next _ _
                (store-Waits marked _ steps valid some_steps (ground arith) refl refl),
            ground arith,
          )

    -- The table names the element that was removed, not the new one.
    now-timers :
        (move_item w task entry).timers task.task_id
        ≡ some (record { position = target w steps; item = entry.item })
    unfolding move_item
    now-timers =
        rw (b, t, move_item) (rw (unlike, ==_self entry.item, known.key, same_id_self task.task_id))

remove_task-other :
    (w : TimeWheel) (id : TaskId) (entry : WheelPos) (r q k : ℕ)
    → w.timers id ≡ some entry
    → (r == entry.item) ≡ false
    → Waits w r q k
    → Waits (remove_task w id) r q k × (((remove_task w id).heap r).task ≡ (w.heap r).task)
unfolding remove_task
remove_task-other w id entry r q k e d h =
    rw (e, remove_task) (record { place = h.place; live = rw d h.live; left = rw d h.left }, rw d)

-- `RemoveTask` does not reach a task that a reset has put into a new element: after a reset by a
-- delay of at most a turn whose slot lies before the old one, the removed key's task still waits for
-- the ticks of the reset.
pub remove_task-after_move :
    (w : TimeWheel) (task : BaseSlot) (entry : WheelPos)
    → IsValid w
    → IsEntry w task.task_id entry
    → w.interval ≤ task.delay
    → target w (task.delay / w.interval) < entry.position
    → task.delay / w.interval ≤ w.slot_num
    → Waits
        (remove_task (move_task w task) task.task_id)
        w.next
        (target w (task.delay / w.interval))
        (task.delay / w.interval)
      × (((remove_task (move_task w task) task.task_id).heap w.next).task
          ≡ (w.heap entry.item).task)
remove_task-after_move w task entry v known whole b t =
    let steps = task.delay / w.interval in
    let none_over : (steps - 1) / w.slot_num ≡ 0 = div-eq_of_lt (omega (arith, v.has_slot)) in
    let behind : leb entry.position (target w steps) ≡ false = ground arith in
    let last : ltb 0 ((steps - 1) / w.slot_num) ≡ false = rw none_over (ground arith) in
    let (wait, same) = now-Waits w task entry v known whole behind last in
    let (wait', same') =
      remove_task-other (move_item w task entry) task.task_id _ w.next (target w steps) steps
        (now-timers w task entry v known whole behind last)
        (ground (arith, v.fresh entry.position entry.item known.place)) wait in
    rw (move_task_known w task entry known.found) (wait', same' ∙ same)
