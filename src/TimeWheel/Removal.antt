-- ===== src/TimeWheel/Removal.antt =====
-- `RemoveTask` of pkg/gds/timewheel.go: a task that the table reaches does not run after it.
use woocoo.Base.{
  ℕ, zero, suc, ◌≡◌, ◌∙◌, ap, refl, true, false, some, List, [], ◌∷◌, ◌==◌, if◌then◌else◌, arith,
  Bool-cases, inl, inr,
}
use woocoo.TimeWheel.{TimeWheel, WheelSlot, TaskId, WheelPos, tick_handler, remove_task}
use woocoo.TimeWheel.Invariant.{IsValid, upcoming, tick-item, tick-IsValid}
use woocoo.TimeWheel.Handlers.{remove_task-IsValid}
use woocoo.TimeWheel.Scan.{is_due, due_tasks}
use woocoo.TimeWheel.Schedule.{tick-tasks, after_ticks, after_ticks-IsValid}

after_ticks-removed :
    (n : ℕ) (w : TimeWheel) (r : ℕ)
    → IsValid w
    → (w.heap r).removed ≡ true
    → ((after_ticks n w).heap r).removed ≡ true
unfolding after_ticks
after_ticks-removed zero w r v h = h
after_ticks-removed (suc n) w r v h =
    after_ticks-removed n (tick_handler w).0 r (tick-IsValid w v) (ground (arith, tick-item w v r))

remove_task-removed :
    (w : TimeWheel) (id : TaskId) (entry : WheelPos)
    → w.timers id ≡ some entry
    → ((remove_task w id).heap entry.item).removed ≡ true
unfolding remove_task
remove_task-removed w id entry e = rw (e, remove_task) (ground arith)

-- A list without an element.
abbrev pub without : ℕ → List ℕ → List ℕ
without r [] = []
without r (x ∷ xs) = let rest = without r xs in if x == r then rest else x ∷ rest

due_tasks-without :
    (heap : ℕ → WheelSlot) (r : ℕ) (rs : List ℕ)
    → is_due (heap r) ≡ false
    → due_tasks heap rs ≡ due_tasks heap (without r rs)
unfolding due_tasks
due_tasks-without heap r [] h = refl
due_tasks-without heap r (x ∷ xs) h =
    let rest = due_tasks-without heap r xs h in
    elim (Bool-cases (x == r)) [
      | inl same ↦
          let e : x ≡ r = ground arith in
          let skip : is_due (heap x) ≡ false = ap (λ y. is_due (heap y)) e ∙ h in
          rw (same, due_tasks) (rw (skip, due_tasks) rest)
      | inr other ↦ rw (other, due_tasks) (rw rest refl)
    ]

-- On a valid wheel, once `RemoveTask` has been handled for a key that the table knows, every later
-- tick runs exactly the tasks that are due of the elements of its slot other than the one that the
-- table named, in their order.
pub remove_task-never :
    (w : TimeWheel) (id : TaskId) (entry : WheelPos) (n : ℕ)
    → IsValid w
    → w.timers id ≡ some entry
    → let later = after_ticks n (remove_task w id) in
      (tick_handler later).1
      ≡ due_tasks later.heap (without entry.item (later.slots (upcoming later)))
remove_task-never w id entry n v e =
    let later = after_ticks n (remove_task w id) in
    let gone : (later.heap entry.item).removed ≡ true =
      after_ticks-removed n (remove_task w id) entry.item (remove_task-IsValid w id v)
        (remove_task-removed w id entry e) in
    tick-tasks later (after_ticks-IsValid n (remove_task w id) (remove_task-IsValid w id v))
    ∙ due_tasks-without later.heap entry.item (later.slots (upcoming later)) (ground arith)
