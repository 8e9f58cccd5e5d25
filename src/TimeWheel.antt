-- ===== src/TimeWheel.antt =====
-- pkg/gds/timewheel.go: the time wheel, as a state machine over an explicit heap.
--
-- A `*timeWheelSlot` is shared by a slot's list and by `timers`, so it is a reference (`ℕ`) into
-- `heap`; a new object takes the reference `next`. `slots` holds the references of each list in
-- order, and `timers` the `*timeWheelPos` values, which nothing else points to. A task's data and
-- callback are opaque numbers. Durations and positions are never negative where they are stored.
-- The goroutine of `start` handles one message at a time: each handler is a function from a state
-- to a state.
pub mod Position
pub mod Scan
pub mod Invariant
pub mod Handlers
pub mod Due
pub mod Schedule
pub mod OnTime
pub mod Removal
pub mod Loop
pub mod Move
pub mod Known
mod Tests
use woocoo.Base.{
  ℕ, suc, ◌+◌, ◌-◌, ◌/◌, ◌%◌, Bool, true, false, List, [], ◌∷◌, ◌++◌, Option, none, some, ltb, leb,
  ◌==◌, if◌then◌else◌, update,
}
use woocoo.Base.Int.{ℤ, pos, negsuc}

-- The key of a task: `nil`, a number that `AddTask` hands out, or a value that the caller chose.
pub data TaskId : Type 0 where
  no_id : TaskId
  assigned chosen : ℕ → TaskId

abbrev pub same_id : TaskId → TaskId → Bool
same_id no_id no_id = true
same_id (assigned a) (assigned b) = a == b
same_id (chosen a) (chosen b) = a == b
same_id _ _ = false

pub record Task : Type 0 where
  pub task_id : TaskId
  pub payload : ℕ
  pub callback : ℕ

pub record BaseSlot : Type 0 where
  pub delay : ℕ
  pub task_id : TaskId

pub record WheelSlot : Type 0 where
  pub base : BaseSlot
  pub circle : ℕ
  pub diff_pos : ℕ
  pub task : Task
  pub removed : Bool

pub record WheelPos : Type 0 where
  pub position : ℕ
  pub item : ℕ

pub record TimeWheel : Type 0 where
  pub interval : ℕ
  pub slot_num : ℕ
  pub current_pos : ℕ
  pub slots : ℕ → List ℕ
  pub timers : TaskId → Option WheelPos
  pub heap : ℕ → WheelSlot
  pub next : ℕ
  pub current_task_id : ℕ
  pub stopped : Bool

pub data WheelError : Type 0 where
  argument argument_delay invalid_parameter wheel_stop : WheelError

pub data Result {ℓ} (A : Type ℓ) : Type ℓ where
  ok : A → Result A
  err : WheelError → Result A

abbrev pub blank : WheelSlot
blank = record {
  base = record { delay = 0; task_id = no_id };
  circle = 0;
  diff_pos = 0;
  task = record { task_id = no_id; payload = 0; callback = 0 };
  removed = false;
}

-- `initSlots` leaves every slot with an empty list.
abbrev pub empty_wheel : ℕ → ℕ → TimeWheel
empty_wheel interval slot_num = record {
  interval = interval;
  slot_num = slot_num;
  current_pos = slot_num - 1;
  slots = λ _. [];
  timers = λ _. none;
  heap = λ _. blank;
  next = 0;
  current_task_id = 0;
  stopped = false;
}

pub new_time_wheel : ℤ → ℤ → Result TimeWheel
new_time_wheel (pos interval) (pos slot_num) =
    if leb interval 0
    then err invalid_parameter
    else if leb slot_num 0
    then err invalid_parameter
    else ok (empty_wheel interval slot_num)
new_time_wheel _ _ = err invalid_parameter

-- `slots[pos].PushBack(item)`.
abbrev pub push_back : TimeWheel → ℕ → ℕ → TimeWheel
push_back w p r = record w { slots = update w.slots p (w.slots p ++ r ∷ []) }

abbrev pub set_timer : TimeWheel → TaskId → Option WheelPos → TimeWheel
set_timer w k v = record w { timers = λ j. if same_id j k then v else w.timers j }

abbrev pub set_item : TimeWheel → ℕ → WheelSlot → TimeWheel
set_item w r i = record w { heap = update w.heap r i }

-- `steps` is at least 1 where the delay was raised to the interval. For a shorter delay Go computes
-- `(0 - 1) / slotNum`, which is 0, or -1 on a wheel of one slot; the code only asks whether a
-- circle is above 0, and 0 stands for both.
pub get_position_and_circle : TimeWheel → ℕ → ℕ × ℕ
get_position_and_circle w d =
    let steps = d / w.interval in ((w.current_pos + steps) % w.slot_num, (steps - 1) / w.slot_num)

-- Both branches of the source leave the same entry: the map holds the only `timeWheelPos`.
pub update_position : TimeWheel → ℕ → ℕ → TimeWheel
update_position w r p =
    set_timer w (w.heap r).base.task_id (some (record { position = p; item = r }))

-- The body of `moveTask`, for the entry that was found.
pub move_item : TimeWheel → BaseSlot → WheelPos → TimeWheel
unfolding get_position_and_circle update_position
move_item w task entry =
    let (p, circle) = get_position_and_circle w task.delay in
    let item = w.heap entry.item in
    if leb entry.position p
    then set_item w entry.item (record item { circle = circle; diff_pos = p - entry.position })
    else if ltb 0 circle
    then set_item w entry.item
        (record item { circle = circle - 1; diff_pos = w.slot_num - entry.position + p })
    else (let marked = set_item w entry.item (record item { removed = true }) in
        let fresh : WheelSlot = record {
          base = task;
          circle = 0;
          diff_pos = 0;
          task = item.task;
          removed = false;
        } in
        let stored = record marked { heap = update marked.heap w.next fresh; next = suc w.next } in
        update_position (push_back stored p w.next) entry.item p)

pub move_task : TimeWheel → BaseSlot → TimeWheel
unfolding move_item
move_task w task = elim (w.timers task.task_id) [ none ↦ w | some entry ↦ move_item w task entry ]

-- `addTask` on an id that the wheel knows: the new task, and a move by the delay that is stored.
pub reset_existing : TimeWheel → WheelSlot → WheelPos → TimeWheel
unfolding move_task
reset_existing w slot entry =
    let item = w.heap entry.item in
    move_task (set_item w entry.item (record item { task = slot.task })) item.base

-- `addTask` on an id that the wheel does not know; `delay` is the raised delay.
pub add_fresh : TimeWheel → WheelSlot → ℕ → TimeWheel
unfolding get_position_and_circle
add_fresh w slot delay =
    let (p, circle) = get_position_and_circle w delay in
    let item : WheelSlot = record slot {
      base = record { delay = delay; task_id = slot.base.task_id };
      circle = circle;
    } in
    let stored = record w { heap = update w.heap w.next item; next = suc w.next } in
    let pushed = push_back stored p w.next in
    if same_id slot.base.task_id no_id
    then pushed
    else set_timer pushed slot.base.task_id (some (record { position = p; item = w.next }))

abbrev pub raised_delay : TimeWheel → WheelSlot → ℕ
raised_delay w slot = if ltb slot.base.delay w.interval then w.interval else slot.base.delay

pub add_task : TimeWheel → WheelSlot → TimeWheel
unfolding reset_existing add_fresh
add_task w slot = elim (w.timers slot.base.task_id) [
  | none ↦ add_fresh w slot (raised_delay w slot)
  | some entry ↦ reset_existing w slot entry
]

pub remove_task : TimeWheel → TaskId → TimeWheel
remove_task w id = elim (w.timers id) [
  | none ↦ w
  | some entry ↦
      set_timer (set_item w entry.item (record (w.heap entry.item) { removed = true })) id none
]

-- One round of the loop of `scanAndRunTask`. The list under the scan is taken out of its slot
-- first, and an element that stays is put back at the end: the elements keep their order.
pub visit : TimeWheel → ℕ → TimeWheel × List Task
unfolding update_position
visit w r =
    let item = w.heap r in
    if item.removed
    then (w, [])
    else if ltb 0 item.circle
    then (push_back (set_item w r (record item { circle = item.circle - 1 })) w.current_pos r, [])
    else if ltb 0 item.diff_pos
    then (let p = (w.current_pos + item.diff_pos) % w.slot_num in
        (set_item (update_position (push_back w p r) r p) r (record item { diff_pos = 0 }), []))
    else (set_timer w item.base.task_id none, item.task ∷ [])

-- The rest of the list, and the tasks that are handed to `doTasks`, in order.
pub scan : TimeWheel → List ℕ → TimeWheel × List Task
scan w [] = (w, [])
scan w (r ∷ rs) =
    let (w', here) = visit w r in let (w'', later) = scan w' rs in (w'', here ++ later)

-- The wheel moved on by one slot, with that slot's list taken out.
abbrev pub advance : TimeWheel → TimeWheel
advance w =
    let p = (w.current_pos + 1) % w.slot_num in
    record w { current_pos = p; slots = update w.slots p [] }

-- The tasks are those whose callbacks `doTasks` runs.
pub tick_handler : TimeWheel → TimeWheel × List Task
unfolding scan visit
tick_handler w = scan (advance w) (w.slots ((w.current_pos + 1) % w.slot_num))

-- The calls of the interface, up to the message that they send. Once the loop has seen `stopChan`
-- closed, nobody receives, and the `select` of a call takes the branch of the stop channel.
pub add_timer : TimeWheel → TaskId → ℕ → ℤ → ℕ → Result TimeWheel
unfolding add_task
add_timer w id payload (pos (suc n)) callback =
    if w.stopped
    then err wheel_stop
    else ok (
        add_task w (record {
          base = record { delay = suc n; task_id = id };
          circle = 0;
          diff_pos = 0;
          task = record { task_id = id; payload = payload; callback = callback };
          removed = false;
        }))
add_timer w id payload _ callback = err argument_delay

-- The result of `AddTask` is the id with the error of `AddTimer`; the counter moves on in any case.
pub call_add_task : TimeWheel → ℕ → ℤ → ℕ → TimeWheel × Result (TaskId × TimeWheel)
unfolding add_timer
call_add_task w payload (pos (suc n)) callback =
    let id = assigned w.current_task_id in
    let counted = record w { current_task_id = w.current_task_id + 1 } in
    (
      counted,
      elim (add_timer counted id payload (pos (suc n)) callback) [
        | ok w' ↦ ok (id, w')
        | err e ↦ err e
      ],
    )
call_add_task w payload _ callback = (w, err argument_delay)

abbrev unless_stopped : TimeWheel → TimeWheel → Result TimeWheel
unless_stopped w w' = if w.stopped then err wheel_stop else ok w'

pub reset_task : TimeWheel → TaskId → ℤ → Result TimeWheel
unfolding move_task
reset_task w no_id _ = err argument
reset_task w id (pos (suc n)) =
    unless_stopped w (move_task w (record { delay = suc n; task_id = id }))
reset_task w _ _ = err argument

pub call_remove_task : TimeWheel → TaskId → Result TimeWheel
unfolding remove_task
call_remove_task w no_id = err argument
call_remove_task w id = unless_stopped w (remove_task w id)

-- `Stop`; `none` is the panic of a second `close`.
pub stop : TimeWheel → Option TimeWheel
stop w = if w.stopped then none else some (record w { stopped = true })
