-- ===== src/App/Tests.antt =====
-- Runs of an application with one server, and the theorems about them.
use woocoo.Base.{
  ℕ, zero, suc, ◌<◌, ◌≤◌, ◌≡◌, refl, ap, true, false, Option, none, some, update, length, arith,
}
use woocoo.App.{
  AppError, other, RunOptions, ErrGroup, Routine, unborn, waiting, calling, ended, is_waiting,
  returned_with, new_app, mini_app, register_server, is_done, Running, spawn_stop, spawn_start,
  all_spawned, joined, start_called, start_returns, stop_called, stop_returns, quit_signal, finish,
  Reach, begin, later,
}
use woocoo.App.Returns.{first_error, IsOver, IsResult, Reach-IsOver}
use woocoo.App.Rank.{rank}
use woocoo.App.Progress.{Steps, Reach-ends}

-- A group that keeps its first error.
abbrev first_of_two : Option AppError → Option AppError → Option AppError
first_of_two none r = r
first_of_two (some e) r = some e

first_of_two-none : (g : Option AppError) → first_of_two g none ≡ g
first_of_two-none none = refl
first_of_two-none (some e) = refl

abbrev first_group : ErrGroup
first_group = record {
  Group = Option AppError;
  empty = none;
  returned = first_of_two;
  error = λ g. g;
  error-empty = refl;
  error-nil = first_of_two-none;
  error-first = λ g e h. ap (λ x. first_of_two x (some e)) h;
  error-kept = λ g e r h. ap (λ x. first_of_two x r) h;
}

abbrev one : RunOptions
one = register_server new_app 1

not_waiting :
    (f : ℕ → Routine) (i : ℕ) → i < 1 → is_waiting (f 0) ≡ false → is_waiting (f i) ≡ false
not_waiting f zero lt h = h
not_waiting f (suc i) lt h = absurd (omega arith)

-- A signal comes after the server's start has been called.
abbrev signaled : (s : Running first_group one) × Reach first_group one s
signaled = (
  _,
  later
      (later
        (later
          (later
            (later (later begin (spawn_stop 0 (omega arith) refl))
              (spawn_start 0 (omega arith) refl))
            (all_spawned refl))
          (start_called 0 (omega arith) refl))
        (joined refl
          (λ i lt. not_waiting (update (update (λ j. unborn) 0 waiting) 0 calling) i lt refl)))
      (quit_signal refl refl),
)

abbrev one_ended : ℕ → Routine
one_ended = update (update (update (λ j. unborn) 0 waiting) 0 calling) 0 ended

both_ended : (i : ℕ) → i < 1 → (one_ended i ≡ ended) × (one_ended i ≡ ended)
both_ended zero lt = (refl, refl)
both_ended (suc i) lt = absurd (omega arith)

-- The server's stop fails, its start returns, and so does the application.
abbrev failing :
    (s : Running first_group one) × Reach first_group one s
    × (s.main ≡ returned_with (some (other 7)))
failing = (
  _,
  later
      (later
        (later (later signaled.1 (stop_called 0 (omega arith) refl refl))
          (stop_returns 0 (some (other 7)) (omega arith) refl))
        (start_returns 0 none (omega arith) refl))
      (finish refl both_ended refl),
  refl,
)

Reach-IsOver_example :
    IsOver first_group one failing.0
    × (length failing.0.results ≡ 3)
    × (is_done failing.0.ctx ≡ true)
    × IsResult (first_error failing.0.results) (some (other 7))
Reach-IsOver_example = Reach-IsOver first_group one failing.0 (some (other 7)) failing.1 failing.2

Reach-ends_example :
    ((k : ℕ) × (t : Running first_group one) × (r : Option AppError) × Steps first_group one k
        signaled.0 t
      × (t.main ≡ returned_with r))
    × ((k : ℕ) (t : Running first_group one)
        → Steps first_group one k signaled.0 t
        → k ≤ rank first_group one signaled.0)
Reach-ends_example = Reach-ends first_group one signaled.0 signaled.1 refl

-- A stop of `MiniApp` is given no time.
no_time : (register_server mini_app 3).stop_timeout ≡ 0
no_time = refl
