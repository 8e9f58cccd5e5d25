-- ===== src/App/Rank.antt =====
-- How many steps the goroutines of `Run` of app.go have left.
use woocoo.Base.{
  ℕ, zero, suc, ◌+◌, ◌-◌, ◌*◌, ◌<◌, ◌≤◌, ◌≡◌, ◌≢◌, inl, inr, refl, ap, update, Bool-cases, ◌==◌,
  arith,
}
use woocoo.App.{
  RunOptions, ErrGroup, Routine, unborn, waiting, calling, ended, Main, spawning, spawning_start,
  joining, waiting_all, returned_with, Running, Step, spawn_stop, spawn_start, all_spawned, joined,
  start_called, start_returns, stop_called, stop_returns, quit_done, quit_signal, finish,
}

-- The steps that a goroutine has left.
abbrev pub left : Routine → ℕ
left unborn = 0
left waiting = 2
left calling = 1
left ended = 0

-- The steps that the goroutine of `Run` has left among n servers, weighted so that a spawned goroutine
-- counts less.
abbrev pub main_left : (n : ℕ) → Main → ℕ
main_left n (spawning k) = (n - k) * 8 + 20
main_left n (spawning_start k) = (n - k) * 8 + 16
main_left n joining = 18
main_left n waiting_all = 10
main_left n (returned_with r) = 0

-- The weights of the first n routines.
abbrev pub total : (weight : Routine → ℕ) → (ℕ → Routine) → ℕ → ℕ
total weight f zero = 0
total weight f (suc n) = weight (f n) + total weight f n

-- Another routine beyond the first n does not count.
total-update_beyond :
    (weight : Routine → ℕ) (f : ℕ → Routine) (i n : ℕ) (r : Routine)
    → n ≤ i
    → total weight (update f i r) n ≡ total weight f n
total-update_beyond weight f i zero r h = refl
total-update_beyond weight f i (suc n) r h =
    let rest = total-update_beyond weight f i n r (omega arith) in ground (arith, rest)

pub total-update :
    (weight : Routine → ℕ) (f : ℕ → Routine) (i n : ℕ) (r : Routine)
    → i < n
    → total weight (update f i r) n + weight (f i) ≡ total weight f n + weight r
total-update weight f i zero r h = absurd (omega arith)
total-update weight f i (suc n) r h = elim (Bool-cases (n == i)) [
  | inl same ↦
      let eq : n ≡ i = ground arith in
      let rest = total-update_beyond weight f i n r (omega arith) in
      let this = ap (λ j. weight (f j)) eq in rw same (omega (arith, rest, this))
  | inr other ↦
      let ne : n ≢ i = λ e. ground arith in
      let rest = total-update weight f i n r (omega arith) in rw other (omega (arith, rest))
]

module _ (eg : ErrGroup) (options : RunOptions) where
  -- A bound on the steps that are left.
  abbrev pub rank : Running eg options → ℕ
  rank s =
      main_left options.servers s.main
      + total left s.stops options.servers
      + total left s.starts options.servers
      + left s.quit

  pub Step-rank : {s t : Running eg options} → Step eg options s t → rank t < rank s
  Step-rank {s} (spawn_stop k lt m) =
      let before = ap (main_left options.servers) m in
      let more = total-update left s.stops k options.servers waiting lt in
      omega (arith, before, more)
  Step-rank {s} (spawn_start k lt m) =
      let before = ap (main_left options.servers) m in
      let more = total-update left s.starts k options.servers waiting lt in
      omega (arith, before, more)
  Step-rank {s} (all_spawned m) =
      let before = ap (main_left options.servers) m in omega (arith, before)
  Step-rank {s} (joined m all) =
      let before = ap (main_left options.servers) m in omega (arith, before)
  Step-rank {s} (start_called i lt e) =
      let here = ap left e in
      let less = total-update left s.starts i options.servers calling lt in
      omega (arith, here, less)
  Step-rank {s} (start_returns i r lt e) =
      let here = ap left e in
      let less = total-update left s.starts i options.servers ended lt in omega (arith, here, less)
  Step-rank {s} (stop_called i lt e d) =
      let here = ap left e in
      let less = total-update left s.stops i options.servers calling lt in omega (arith, here, less)
  Step-rank {s} (stop_returns i r lt e) =
      let here = ap left e in
      let less = total-update left s.stops i options.servers ended lt in omega (arith, here, less)
  Step-rank {s} (quit_done e d) = let here = ap left e in omega (arith, here)
  Step-rank {s} (quit_signal sig e) = let here = ap left e in omega (arith, here)
  Step-rank {s} (finish m all q) =
      let before = ap (main_left options.servers) m in omega (arith, before)
