-- ===== src/TimeWheel/Tests.antt =====
-- A wheel of four slots with an interval of ten, and the theorems at it.
use woocoo.Base.{ℕ, ◌≡◌, refl, List, [], ◌∷◌, inl, arith}
use woocoo.Base.Int.{pos, negsuc}
use woocoo.TimeWheel.{
  TimeWheel, chosen, WheelPos, BaseSlot, ok, err, invalid_parameter, empty_wheel, new_time_wheel,
  tick_handler, add_task, add_timer, move_task, remove_task,
}
use woocoo.TimeWheel.Scan.{due_tasks}
use woocoo.TimeWheel.Invariant.{IsValid, Absent, upcoming}
use woocoo.TimeWheel.Handlers.{new_time_wheel-IsValid}
use woocoo.TimeWheel.Due.{Waits, place_after, tick-Waits}
use woocoo.TimeWheel.Schedule.{Runs, after_ticks, after_ticks-IsValid, tick_sound}
use woocoo.TimeWheel.OnTime.{new_slot, add_timer-on_time}
use woocoo.TimeWheel.Removal.{without, remove_task-never}
use woocoo.TimeWheel.Loop.{Message, serve, serve-IsValid}
use woocoo.TimeWheel.Move.{IsEntry, target, remove_task-after_move}

program : Unit {0}
unfolding new_time_wheel tick_handler add_task add_timer move_task remove_task after_ticks serve
program = tt

abbrev start : TimeWheel
start = empty_wheel 10 4

-- Two ticks, so that the wheel stands at slot 1; a task with 25 to go; its slot is 3.
abbrev messages : List Message
messages = Message.tick ∷ Message.tick ∷ Message.add (chosen 7) 70 25 700 ∷ []

abbrev busy : TimeWheel
busy = serve start messages

start_is_new : new_time_wheel (pos 10) (pos 4) ≡ ok start
unfolding program
start_is_new = refl

refuses_negative : new_time_wheel (negsuc 0) (pos 4) ≡ err invalid_parameter
unfolding program
refuses_negative = refl

busy_slot : busy.slots 3 ≡ 0 ∷ []
unfolding program
busy_slot = refl

serve-IsValid_example : IsValid busy
serve-IsValid_example = serve-IsValid (pos 10) (pos 4) start messages start_is_new

start-IsValid : IsValid start
start-IsValid = new_time_wheel-IsValid (pos 10) (pos 4) start_is_new

busy-IsValid : IsValid busy
busy-IsValid = serve-IsValid_example

-- A delay of 25 takes two ticks.
add_timer-on_time_example :
    (w' : TimeWheel) × (q : ℕ) × (add_timer start (chosen 7) 70 (pos 25) 700 ≡ ok w')
    × Waits (after_ticks 1 w') 0 q 1
    × Runs
        (record { task_id = chosen 7; payload = 70; callback = 700 })
        (tick_handler (after_ticks 1 w')).1
    × Absent (tick_handler (after_ticks 1 w')).0 0
add_timer-on_time_example =
    add_timer-on_time start (chosen 7) 70 24 700 1 0 start-IsValid refl refl refl

waiting : Waits busy 0 3 2
unfolding program
waiting = record { place = refl; live = refl; left = refl }

tick-Waits_example : Waits (tick_handler busy).0 0 (place_after busy 0 3) 1
tick-Waits_example = tick-Waits busy busy-IsValid 0 3 0 waiting

last_tick : Runs (new_slot (chosen 7) 70 25 700).task (tick_handler (after_ticks 1 busy)).1
unfolding program
last_tick = inl refl

tick_sound_example :
    (r : ℕ) × Waits (after_ticks 1 busy) r (upcoming (after_ticks 1 busy)) 1
    × ((new_slot (chosen 7) 70 25 700).task ≡ ((after_ticks 1 busy).heap r).task)
tick_sound_example =
    tick_sound (after_ticks 1 busy) (new_slot (chosen 7) 70 25 700).task
      (after_ticks-IsValid 1 busy busy-IsValid) last_tick

abbrev entry : WheelPos
entry = record { position = 3; item = 0 }

known : IsEntry busy (chosen 7) entry
unfolding program
known = record { found = refl; place = refl; live = refl; key = refl }

remove_task-never_example :
    (tick_handler (after_ticks 1 (remove_task busy (chosen 7)))).1
    ≡ due_tasks (after_ticks 1 (remove_task busy (chosen 7))).heap (
        without 0 (
          (after_ticks 1 (remove_task busy (chosen 7))).slots
            (upcoming (after_ticks 1 (remove_task busy (chosen 7))))))
remove_task-never_example = remove_task-never busy (chosen 7) entry 1 busy-IsValid known.found

-- A reset to 10 falls on slot 2, before slot 3.
abbrev sooner : BaseSlot
sooner = record { delay = 10; task_id = chosen 7 }

remove_task-after_move_example :
    Waits (remove_task (move_task busy sooner) (chosen 7)) busy.next (target busy 1) 1
    × (((remove_task (move_task busy sooner) (chosen 7)).heap busy.next).task ≡ (busy.heap 0).task)
unfolding program
remove_task-after_move_example =
    remove_task-after_move busy sooner entry busy-IsValid known (omega arith) (omega arith)
      (omega arith)
