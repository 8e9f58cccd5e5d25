-- ===== src/TimeWheel/Loop.antt =====
-- The loop of `start` in pkg/gds/timewheel.go: one message at a time, in any order.
use woocoo.Base.{ℕ, ◌≡◌, refl, List, [], ◌∷◌}
use woocoo.Base.Int.{ℤ}
use woocoo.TimeWheel.{
  TimeWheel, BaseSlot, TaskId, ok, new_time_wheel, tick_handler, add_task, move_task, remove_task,
}
use woocoo.TimeWheel.Invariant.{IsValid, tick-IsValid}
use woocoo.TimeWheel.Handlers.{
  new_time_wheel-IsValid, add_task-IsValid, move_task-IsValid, remove_task-IsValid,
}
use woocoo.TimeWheel.OnTime.{new_slot}

-- What arrives on the ticker and the three channels.
pub data Message : Type 0 where
  tick : Message
  add : (id : TaskId) (payload delay callback : ℕ) → Message
  move : BaseSlot → Message
  remove : TaskId → Message

pub handle : TimeWheel → Message → TimeWheel
handle w tick = (tick_handler w).0
handle w (add id payload delay callback) = add_task w (new_slot id payload delay callback)
handle w (move task) = move_task w task
handle w (remove id) = remove_task w id

unfoldable pub serve : TimeWheel → List Message → TimeWheel
unfolding handle
serve w [] = w
serve w (m ∷ ms) = serve (handle w m) ms

handle-IsValid : (w : TimeWheel) (m : Message) → IsValid w → IsValid (handle w m)
unfolding handle
handle-IsValid w tick v = tick-IsValid w v
handle-IsValid w (add id payload delay callback) v =
    add_task-IsValid w (new_slot id payload delay callback) v refl
handle-IsValid w (move task) v = move_task-IsValid w task v
handle-IsValid w (remove id) v = remove_task-IsValid w id v

serve-keeps : (w : TimeWheel) (ms : List Message) → IsValid w → IsValid (serve w ms)
unfolding serve
serve-keeps w [] v = v
serve-keeps w (m ∷ ms) v = serve-keeps (handle w m) ms (handle-IsValid w m v)

-- Whatever messages a new wheel handles, in whatever order, it stays valid.
pub serve-IsValid :
    (interval slot_num : ℤ) (w : TimeWheel) (ms : List Message)
    → new_time_wheel interval slot_num ≡ ok w
    → IsValid (serve w ms)
serve-IsValid interval slot_num w ms e =
    serve-keeps w ms (new_time_wheel-IsValid interval slot_num e)
