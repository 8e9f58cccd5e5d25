-- ===== src/TimeWheel/OnTime.antt =====
-- `AddTimer` of pkg/gds/timewheel.go, from the call to the callback.
use woocoo.Base.{ℕ, suc, ◌+◌, ◌/◌, ◌%◌, ◌≤◌, ◌≡◌, refl, false, none, arith, ltb, if◌then◌else◌}
use woocoo.Base.Int.{pos}
use woocoo.TimeWheel.{
  TimeWheel, WheelSlot, TaskId, ok, tick_handler, add_fresh, add_task, raised_delay, add_timer,
}
use woocoo.TimeWheel.Invariant.{IsValid, Absent}
use woocoo.TimeWheel.Handlers.{add_task-IsValid}
use woocoo.TimeWheel.Due.{Waits}
use woocoo.TimeWheel.Schedule.{
  Runs, tick-run, after_ticks, after_ticks-IsValid, after_ticks-Waits, add_fresh-Waits,
  add_fresh-task,
}

-- An element that waits for `i + j + 1` ticks still waits after `i` of them, and runs in the last.
pub Waits-run :
    (w : TimeWheel) (r p i j : ℕ)
    → IsValid w
    → Waits w r p (suc (i + j))
    → (q : ℕ) × Waits (after_ticks i w) r q (suc j)
      × Runs (w.heap r).task (tick_handler (after_ticks (i + j) w)).1
      × Absent (tick_handler (after_ticks (i + j) w)).0 r
Waits-run w r p i j v h =
    let now : suc (i + j) ≡ i + suc j = omega arith in
    let end : suc (i + j) ≡ i + j + suc 0 = omega arith in
    let (q, wait, same) = after_ticks-Waits i j r p w v (rw now at h) in
    let (q', last, task) = after_ticks-Waits (i + j) 0 r p w v (rw end at h) in
    let (run, gone) =
      tick-run (after_ticks (i + j) w) (after_ticks-IsValid (i + j) w v) r q' last in
    (q, wait, rw task at run, gone)

abbrev pub new_slot : TaskId → ℕ → ℕ → ℕ → WheelSlot
new_slot id payload delay callback = record {
  base = record { delay = delay; task_id = id };
  circle = 0;
  diff_pos = 0;
  task = record { task_id = id; payload = payload; callback = callback };
  removed = false;
}

raised-le : (w : TimeWheel) (slot : WheelSlot) → w.interval ≤ raised_delay w slot
raised-le w slot = ground arith

add_task_unknown :
    (w : TimeWheel) (slot : WheelSlot)
    → w.timers slot.base.task_id ≡ none
    → add_task w slot ≡ add_fresh w slot (raised_delay w slot)
unfolding add_task
add_task_unknown w slot e = rw (e, add_task)

-- On a valid wheel that is not stopped, `AddTimer` with a new key and a positive delay succeeds, and
-- its task runs in exactly the tick whose number is the delay in intervals, rounded down, and 1 for
-- a delay below the interval: after `i` ticks of the `i + j + 1` the element still waits for `j + 1`,
-- the last tick runs the task, and no list holds the element from then on.
pub add_timer-on_time :
    (w : TimeWheel) (id : TaskId) (payload d callback i j : ℕ)
    → IsValid w
    → w.stopped ≡ false
    → w.timers id ≡ none
    → suc (i + j) ≡ (if ltb (suc d) w.interval then w.interval else suc d) / w.interval
    → (w' : TimeWheel) × (q : ℕ) × (add_timer w id payload (pos (suc d)) callback ≡ ok w')
      × Waits (after_ticks i w') w.next q (suc j)
      × Runs
          (record { task_id = id; payload = payload; callback = callback })
          (tick_handler (after_ticks (i + j) w')).1
      × Absent (tick_handler (after_ticks (i + j) w')).0 w.next
unfolding add_timer
add_timer-on_time w id payload d callback i j v run new e =
    let slot = new_slot id payload (suc d) callback in
    let w' = add_task w slot in
    let unknown = add_task_unknown w slot new in
    let p : ℕ = (w.current_pos + raised_delay w slot / w.interval) % w.slot_num in
    let waits : Waits w' w.next p (suc (i + j)) =
      rw (unknown, e)
        (add_fresh-Waits w slot (raised_delay w slot) v refl refl (raised-le w slot)) in
    let (q, wait, last, gone) = Waits-run w' w.next p i j (add_task-IsValid w slot v refl) waits in
    let task : (w'.heap w.next).task ≡ slot.task =
      rw unknown (add_fresh-task w slot (raised_delay w slot)) in
    (w', q, rw run, wait, rw task at last, gone)
