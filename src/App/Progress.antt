-- ===== src/App/Progress.antt =====
-- That `Run` of app.go comes to its end once the context is done.
use woocoo.Base.{
  ℕ, zero, suc, ◌<◌, ◌≤◌, ◌≡◌, ◌≢◌, ◌⊎◌, ◌∙◌, inl, inr, refl, ap, subst, Bool, true, false, not,
  Option, none, Bool-cases, ltb, ltb→lt, arith,
}
use woocoo.App.Born.{all_or_one, InLoop, HasQuit, Born, stops_before, starts_before, Reach-Born}
use woocoo.App.Returns.{is_done-cancel_with, is_done-cancel_after}
use woocoo.App.{
  AppError, canceled, quit_result, RunOptions, ErrGroup, Routine, unborn, waiting, calling, ended,
  Main, spawning, spawning_start, joining, waiting_all, returned_with, is_waiting, is_done, Running,
  Step, spawn_stop, spawn_start, all_spawned, joined, start_called, start_returns, stop_called,
  stop_returns, quit_done, quit_signal, finish, Reach, later,
}
use woocoo.App.Rank.{rank, Step-rank}

abbrev is_ended : Routine → Bool
is_ended ended = true
is_ended _ = false

is_ended-eq : (r : Routine) → is_ended r ≡ true → r ≡ ended
is_ended-eq r h = ground arith

is_waiting-eq : (r : Routine) → not (is_waiting r) ≡ false → r ≡ waiting
is_waiting-eq r h = ground arith

-- A goroutine that was born and has not ended.
Routine-cases : (r : Routine) → r ≢ unborn → is_ended r ≡ false → (r ≡ waiting) ⊎ (r ≡ calling)
Routine-cases unborn b h = absurd (b refl)
Routine-cases waiting b h = inl refl
Routine-cases calling b h = inr refl
Routine-cases ended b h = absurd cc

module _ (eg : ErrGroup) (options : RunOptions) where
  -- Whether some goroutine can go on.
  abbrev CanStep : Running eg options → Type 0
  CanStep s = (t : Running eg options) × Step eg options s t

  stop_called-CanStep :
      (s : Running eg options)
      → is_done s.ctx ≡ true
      → (i : ℕ) → i < options.servers
      → (s.stops i ≡ waiting) ⊎ (s.stops i ≡ calling)
      → CanStep s
  stop_called-CanStep s d i lt (inl e) = (_, stop_called i lt e d)
  stop_called-CanStep s d i lt (inr e) = (_, stop_returns i none lt e)

  start_called-CanStep :
      (s : Running eg options) (i : ℕ)
      → i < options.servers
      → (s.starts i ≡ waiting) ⊎ (s.starts i ≡ calling)
      → CanStep s
  start_called-CanStep s i lt (inl e) = (_, start_called i lt e)
  start_called-CanStep s i lt (inr e) = (_, start_returns i none lt e)

  joining-CanStep : (s : Running eg options) → s.main ≡ joining → CanStep s
  joining-CanStep s m = elim (all_or_one (λ i. not (is_waiting (s.starts i))) options.servers) [
    | inr (i, lt, e) ↦ (_, start_called i lt (is_waiting-eq (s.starts i) e))
    | inl all ↦ (_, joined m (λ i lt. ground (arith, all i lt)))
  ]

  -- While `Run` waits for the group and the context is done.
  waiting_all-CanStep :
      (s : Running eg options)
      → ((i : ℕ) → i < options.servers → (s.stops i ≢ unborn) × (s.starts i ≢ unborn))
      → (s.quit ≡ waiting) ⊎ (s.quit ≡ ended)
      → is_done s.ctx ≡ true
      → s.main ≡ waiting_all
      → CanStep s
  waiting_all-CanStep s born (inl q) d m = (_, quit_done q d)
  waiting_all-CanStep s born (inr q) d m =
      elim (all_or_one (λ i. is_ended (s.stops i)) options.servers) [
        | inr (i, lt, e) ↦ stop_called-CanStep s d i lt (Routine-cases (s.stops i) (born i lt).0 e)
        | inl stops ↦ elim (all_or_one (λ i. is_ended (s.starts i)) options.servers) [
          | inr (i, lt, e) ↦
              start_called-CanStep s i lt (Routine-cases (s.starts i) (born i lt).1 e)
          | inl starts ↦ (
            _,
            finish m
                (λ i lt.
                  (is_ended-eq (s.stops i) (stops i lt), is_ended-eq (s.starts i) (starts i lt)))
                q,
          )
        ]
      ]

  spawning-CanStep :
      (s : Running eg options) (k : ℕ) → k ≤ options.servers → s.main ≡ spawning k → CanStep s
  spawning-CanStep s k le m = elim (Bool-cases (ltb k options.servers)) [
    | inl more ↦ (_, spawn_stop k (ltb→lt k options.servers more) m)
    | inr last ↦
        let same : k ≡ options.servers = ground arith in (_, all_spawned (m ∙ ap spawning same))
  ]

  can_step :
      (s : Running eg options)
      → Born eg options s
      → is_done s.ctx ≡ true
      → (m : Main) → s.main ≡ m
      → ((r : Option AppError) × (s.main ≡ returned_with r)) ⊎ CanStep s
  can_step s b d (spawning k) m =
      inr (spawning-CanStep s k (subst (InLoop options.servers) m b.in_loop) m)
  can_step s b d (spawning_start k) m =
      inr (_, spawn_start k (subst (InLoop options.servers) m b.in_loop) m)
  can_step s b d joining m = inr (joining-CanStep s m)
  can_step s b d waiting_all m = inr (
      waiting_all-CanStep s
        (λ i lt. (stops_before eg options b m i lt, starts_before eg options b m i lt))
        (subst (λ (x : Main). HasQuit x s.quit) m b.quit_born) d m)
  can_step s b d (returned_with r) m = inl (r, m)

  Step-is_done :
      {s t : Running eg options} → Step eg options s t → is_done s.ctx ≡ true → is_done t.ctx ≡ true
  Step-is_done (spawn_stop k lt m) d = d
  Step-is_done (spawn_start k lt m) d = d
  Step-is_done (all_spawned m) d = d
  Step-is_done (joined m all) d = d
  Step-is_done (start_called i lt e) d = d
  Step-is_done {s} (start_returns i r lt e) d = is_done-cancel_after r s.ctx d
  Step-is_done (stop_called i lt e done) d = d
  Step-is_done {s} (stop_returns i r lt e) d = is_done-cancel_after r s.ctx d
  Step-is_done {s} (quit_done e done) d =
      is_done-cancel_after (quit_result options.signals s.ctx) s.ctx d
  Step-is_done {s} (quit_signal sig e) d = is_done-cancel_with canceled s.ctx
  Step-is_done (finish m all q) d = d

  -- So many steps of the goroutines, one after another.
  pub data Steps : ℕ → Running eg options → Running eg options → Type 0 where
    here : {s : Running eg options} → Steps 0 s s
    then :
        {s t u : Running eg options} {k : ℕ} → Step eg options s t → Steps k t u → Steps (suc k) s u

  Steps-bounded : {s t : Running eg options} {k : ℕ} → Steps k s t → k ≤ rank eg options s
  Steps-bounded here = omega arith
  Steps-bounded (then step steps) = omega (arith, Step-rank eg options step, Steps-bounded steps)

  -- With enough fuel the goroutines go on until `Run` has returned.
  run_out :
      (fuel : ℕ) (s : Running eg options)
      → rank eg options s ≤ fuel
      → Reach eg options s
      → is_done s.ctx ≡ true
      → (k : ℕ) × (t : Running eg options) × (r : Option AppError) × Steps k s t
        × (t.main ≡ returned_with r)
  run_out zero s le reached d = elim (can_step s (Reach-Born eg options reached) d s.main refl) [
    | inl (r, m) ↦ (0, s, r, here, m)
    | inr (t, step) ↦ (let less = Step-rank eg options step in absurd (omega (arith, le, less)))
  ]
  run_out (suc fuel) s le reached d =
      elim (can_step s (Reach-Born eg options reached) d s.main refl) [
        | inl (r, m) ↦ (0, s, r, here, m)
        | inr (t, step) ↦
            let less = Step-rank eg options step in
            let (k, u, r, steps, m) =
              run_out fuel t (omega (arith, le, less)) (later reached step) (Step-is_done step d) in
            (suc k, u, r, then step steps, m)
      ]

-- Once the context of the group is done, in any reachable state of any interleaving: the goroutines can
-- bring `Run` to its return, given that a server's `Start` and `Stop` return, and whatever they do, they
-- take at most as many steps as the rank says, so that `Run` does not go on for ever.
pub Reach-ends :
    (eg : ErrGroup) (options : RunOptions) (s : Running eg options)
    → Reach eg options s
    → is_done s.ctx ≡ true
    → ((k : ℕ) × (t : Running eg options) × (r : Option AppError) × Steps eg options k s t
        × (t.main ≡ returned_with r))
      × ((k : ℕ) (t : Running eg options) → Steps eg options k s t → k ≤ rank eg options s)
Reach-ends eg options s reached d = (
  run_out eg options (rank eg options s) s (omega arith) reached d,
  λ k t steps. Steps-bounded eg options steps,
)
