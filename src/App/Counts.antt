-- ===== src/App/Counts.antt =====
-- How many goroutines of `Run` of app.go have returned.
use woocoo.Base.{
  ℕ, zero, suc, ◌+◌, ◌<◌, ◌≤◌, ◌≡◌, ◌≢◌, ◌∙◌, inl, inr, refl, sym, ap, Bool, true, false, List, [],
  ◌∷◌, ◌++◌, none, update, Bool-cases, ◌==◌, length, length-append, arith,
}
use woocoo.App.{
  RunOptions, ErrGroup, Routine, unborn, waiting, calling, ended, Main, waiting_all, returned_with,
  quit_result, Running, Step, spawn_stop, spawn_start, all_spawned, joined, start_called,
  start_returns, stop_called, stop_returns, quit_done, quit_signal, finish, Reach, begin, later,
  app_canceled,
}
use woocoo.App.Rank.{total, total-update}
use woocoo.App.Born.{stops_spawned, starts_spawned}

abbrev over : Routine → ℕ
over ended = 1
over _ = 0

-- `Run` has not started its last goroutine.
abbrev is_early : Main → Bool
is_early waiting_all = false
is_early (returned_with r) = false
is_early _ = true

total-none : (n : ℕ) → total over (λ i. unborn) n ≡ 0
total-none zero = refl
total-none (suc n) = omega (arith, total-none n)

total-all : (f : ℕ → Routine) (n : ℕ) → ((i : ℕ) → i < n → f i ≡ ended) → total over f n ≡ n
total-all f zero h = refl
total-all f (suc n) h =
    let last = ap over (h n (omega arith)) in
    let rest = total-all f n (λ i lt. h i (omega arith)) in omega (arith, last, rest)

-- A routine that is there is not one that is not spawned yet.
unborn-update :
    (f : ℕ → Routine) (i j : ℕ) (r old : Routine)
    → f i ≡ old
    → old ≢ unborn
    → f j ≡ unborn
    → update f i r j ≡ unborn
unborn-update f i j r old e ne u = elim (Bool-cases (j == i)) [
  | inl same ↦ (let eq : j ≡ i = ground arith in absurd (ne (sym e ∙ ap f (sym eq) ∙ u)))
  | inr other ↦ rw other u
]

unborn-later :
    (f : ℕ → Routine) (k j : ℕ) (r : Routine) → suc k ≤ j → f j ≡ unborn → update f k r j ≡ unborn
unborn-later f k j r h u = ground arith

length-push : {A : Type 0} (xs : List A) (x : A) → length (xs ++ x ∷ []) ≡ suc (length xs)
length-push xs x = length-append xs (x ∷ []) ∙ omega arith

module _ (eg : ErrGroup) (options : RunOptions) where
  -- The routines that are not spawned have not begun, and each that has returned has one result.
  pub record Counted (s : Running eg options) : Type 0 where
    pub stops_left : (i : ℕ) → stops_spawned options.servers s.main ≤ i → s.stops i ≡ unborn
    pub starts_left : (i : ℕ) → starts_spawned options.servers s.main ≤ i → s.starts i ≡ unborn
    pub quit_left : is_early s.main ≡ true → s.quit ≡ unborn
    pub counted :
        length s.results
        ≡ total over s.stops options.servers + total over s.starts options.servers + over s.quit

  Step-Counted : {s t : Running eg options} → Counted s → Step eg options s t → Counted t
  Step-Counted {s} v (spawn_stop k lt m) =
      let n = options.servers in
      let at = ap (stops_spawned n) m in
      let at' = ap (starts_spawned n) m in
      let fresh = ap over (v.stops_left k (omega (arith, at))) in
      let more = total-update over s.stops k n waiting lt in
      record {
        stops_left = λ i h. unborn-later s.stops k i waiting h (v.stops_left i (omega (arith, at)));
        starts_left = λ i h. v.starts_left i (omega (arith, at'));
        quit_left = λ h. v.quit_left (ap is_early m);
        counted = omega (arith, v.counted, fresh, more);
      }
  Step-Counted {s} v (spawn_start k lt m) =
      let n = options.servers in
      let at = ap (stops_spawned n) m in
      let at' = ap (starts_spawned n) m in
      let fresh = ap over (v.starts_left k (omega (arith, at'))) in
      let more = total-update over s.starts k n waiting lt in
      record {
        stops_left = λ i h. v.stops_left i (omega (arith, at));
        starts_left =
            λ i h. unborn-later s.starts k i waiting h (v.starts_left i (omega (arith, at')));
        quit_left = λ h. v.quit_left (ap is_early m);
        counted = omega (arith, v.counted, fresh, more);
      }
  Step-Counted {s} v (all_spawned m) =
      let at = ap (stops_spawned options.servers) m in
      let at' = ap (starts_spawned options.servers) m in
      record {
        stops_left = λ i h. v.stops_left i (omega (arith, at));
        starts_left = λ i h. v.starts_left i (omega (arith, at'));
        quit_left = λ h. v.quit_left (ap is_early m);
        counted = v.counted;
      }
  Step-Counted {s} v (joined m all) =
      let at = ap (stops_spawned options.servers) m in
      let at' = ap (starts_spawned options.servers) m in
      let fresh = ap over (v.quit_left (ap is_early m)) in
      record {
        stops_left = λ i h. v.stops_left i (omega (arith, at));
        starts_left = λ i h. v.starts_left i (omega (arith, at'));
        quit_left = λ h. absurd cc;
        counted = omega (arith, v.counted, fresh);
      }
  Step-Counted {s} v (start_called i lt e) =
      let here = ap over e in
      let same = total-update over s.starts i options.servers calling lt in
      record {
        stops_left = v.stops_left;
        starts_left =
            λ j h. unborn-update s.starts i j calling waiting e (λ x. cc) (v.starts_left j h);
        quit_left = v.quit_left;
        counted = omega (arith, v.counted, here, same);
      }
  Step-Counted {s} v (start_returns i r lt e) =
      let here = ap over e in
      let more = total-update over s.starts i options.servers ended lt in
      record {
        stops_left = v.stops_left;
        starts_left =
            λ j h. unborn-update s.starts i j ended calling e (λ x. cc) (v.starts_left j h);
        quit_left = v.quit_left;
        counted = omega (arith, v.counted, here, more, length-push s.results r);
      }
  Step-Counted {s} v (stop_called i lt e d) =
      let here = ap over e in
      let same = total-update over s.stops i options.servers calling lt in
      record {
        stops_left =
            λ j h. unborn-update s.stops i j calling waiting e (λ x. cc) (v.stops_left j h);
        starts_left = v.starts_left;
        quit_left = v.quit_left;
        counted = omega (arith, v.counted, here, same);
      }
  Step-Counted {s} v (stop_returns i r lt e) =
      let here = ap over e in
      let more = total-update over s.stops i options.servers ended lt in
      record {
        stops_left = λ j h. unborn-update s.stops i j ended calling e (λ x. cc) (v.stops_left j h);
        starts_left = v.starts_left;
        quit_left = v.quit_left;
        counted = omega (arith, v.counted, here, more, length-push s.results r);
      }
  Step-Counted {s} v (quit_done e d) =
      let here = ap over e in
      record {
        stops_left = v.stops_left;
        starts_left = v.starts_left;
        quit_left = λ h. (let u = v.quit_left h in absurd cc);
        counted =
            omega
              (arith, v.counted, here, length-push s.results (quit_result options.signals s.ctx));
      }
  Step-Counted {s} v (quit_signal sig e) =
      let here = ap over e in
      record {
        stops_left = v.stops_left;
        starts_left = v.starts_left;
        quit_left = λ h. (let u = v.quit_left h in absurd cc);
        counted = omega (arith, v.counted, here, length-push s.results none);
      }
  Step-Counted {s} v (finish m all q) =
      let at = ap (stops_spawned options.servers) m in
      let at' = ap (starts_spawned options.servers) m in
      record {
        stops_left = λ i h. v.stops_left i (omega (arith, at));
        starts_left = λ i h. v.starts_left i (omega (arith, at'));
        quit_left = λ h. absurd cc;
        counted = v.counted;
      }

  pub Reach-Counted : {s : Running eg options} → Reach eg options s → Counted s
  Reach-Counted begin = record {
    stops_left = λ i h. refl;
    starts_left = λ i h. refl;
    quit_left = λ h. refl;
    counted = omega (arith, total-none options.servers);
  }
  Reach-Counted (later reached step) = Step-Counted (Reach-Counted reached) step
  Reach-Counted (app_canceled {s} e reached) =
      let v = Reach-Counted reached in
      record {
        stops_left = v.stops_left;
        starts_left = v.starts_left;
        quit_left = v.quit_left;
        counted = v.counted;
      }

  -- Once all have returned there are two results of each server and that of the last goroutine.
  pub all_returned :
      {s : Running eg options}
      → Reach eg options s
      → ((i : ℕ) → i < options.servers → s.stops i ≡ ended)
      → ((i : ℕ) → i < options.servers → s.starts i ≡ ended)
      → s.quit ≡ ended
      → length s.results ≡ options.servers + options.servers + 1
  all_returned {s} reached stops starts q =
      let v = Reach-Counted reached in
      let last = ap over q in
      omega (
        arith,
        v.counted,
        last,
        total-all s.stops options.servers stops,
        total-all s.starts options.servers starts,
      )
