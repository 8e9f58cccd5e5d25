-- ===== src/App/Born.antt =====
-- Which goroutines of `Run` of app.go have been started, and that one of them can go on.
use woocoo.Base.{
  ℕ, zero, suc, ◌<◌, ◌≤◌, ◌≡◌, ◌≢◌, ◌⊎◌, ◌∙◌, inl, inr, refl, sym, ap, subst, Bool, true, false,
  update, Bool-cases, ◌==◌, arith,
}
use woocoo.App.{
  RunOptions, ErrGroup, Routine, unborn, waiting, calling, ended, Main, spawning, spawning_start,
  joining, waiting_all, returned_with, Running, Step, spawn_stop, spawn_start, all_spawned, joined,
  start_called, start_returns, stop_called, stop_returns, quit_done, quit_signal, finish, Reach,
  begin, later, app_canceled,
}

-- How many stops and starts the loop has spawned among n servers.
abbrev pub stops_spawned : (n : ℕ) → Main → ℕ
stops_spawned n (spawning k) = k
stops_spawned n (spawning_start k) = suc k
stops_spawned n _ = n

abbrev pub starts_spawned : (n : ℕ) → Main → ℕ
starts_spawned n (spawning k) = k
starts_spawned n (spawning_start k) = k
starts_spawned n _ = n

abbrev pub InLoop : (n : ℕ) → Main → Type 0
InLoop n (spawning k) = k ≤ n
InLoop n (spawning_start k) = k < n
InLoop n _ = Unit

-- The last goroutine is there while `Run` waits.
abbrev pub HasQuit : Main → Routine → Type 0
HasQuit waiting_all r = (r ≡ waiting) ⊎ (r ≡ ended)
HasQuit _ r = Unit

born_there : (f : ℕ → Routine) (k : ℕ) (r : Routine) → r ≢ unborn → update f k r k ≢ unborn
born_there f k r h e = ground arith

born_update :
    (f : ℕ → Routine) (k i : ℕ) (r : Routine)
    → r ≢ unborn
    → (i ≡ k) ⊎ (f i ≢ unborn)
    → update f k r i ≢ unborn
born_update f k i r h (inl e) u = ground arith
born_update f k i r h (inr b) u = ground arith

-- Either a test holds of all numbers below n, or it fails of one.
pub all_or_one :
    (test : ℕ → Bool) (n : ℕ)
    → ((i : ℕ) → i < n → test i ≡ true) ⊎ ((i : ℕ) × (i < n) × (test i ≡ false))
all_or_one test zero = inl (λ i lt. absurd (omega arith))
all_or_one test (suc n) = elim (Bool-cases (test n)) [
  | inr fails ↦ inr (n, omega arith, fails)
  | inl holds ↦ elim (all_or_one test n) [
    | inr (i, lt, fails) ↦ inr (i, omega arith, fails)
    | inl all ↦ inl (λ i lt. elim (Bool-cases (i == n)) [
      | inl e ↦ (let same : i ≡ n = ground arith in ap test same ∙ holds)
      | inr e ↦ (let other : i ≢ n = λ q. ground arith in all i (omega arith))
    ])
  ]
]

module _ (eg : ErrGroup) (options : RunOptions) where
  pub record Born (s : Running eg options) : Type 0 where
    pub in_loop : InLoop options.servers s.main
    pub stops_born : (i : ℕ) → i < stops_spawned options.servers s.main → s.stops i ≢ unborn
    pub starts_born : (i : ℕ) → i < starts_spawned options.servers s.main → s.starts i ≢ unborn
    pub quit_born : HasQuit s.main s.quit

  -- What was born before a step of `Run` itself, by where it stood.
  pub stops_before :
      {s : Running eg options} {at : Main}
      → Born s
      → s.main ≡ at
      → (i : ℕ) → i < stops_spawned options.servers at
      → s.stops i ≢ unborn
  stops_before b m i lt =
      b.stops_born i (subst (λ (x : Main). i < stops_spawned options.servers x) (sym m) lt)

  pub starts_before :
      {s : Running eg options} {at : Main}
      → Born s
      → s.main ≡ at
      → (i : ℕ) → i < starts_spawned options.servers at
      → s.starts i ≢ unborn
  starts_before b m i lt =
      b.starts_born i (subst (λ (x : Main). i < starts_spawned options.servers x) (sym m) lt)

  same_or_before : (i k : ℕ) → i < suc k → (i ≡ k) ⊎ (i < k)
  same_or_before i k lt = elim (Bool-cases (i == k)) [
    | inl e ↦ inl (ground arith)
    | inr e ↦ (let other : i ≢ k = λ q. ground arith in inr (omega arith))
  ]

  stop_called-Born :
      {s : Running eg options}
      → Born s
      → (i : ℕ) (r : Routine) → r ≢ unborn
      → (j : ℕ) → j < stops_spawned options.servers s.main
      → update s.stops i r j ≢ unborn
  stop_called-Born {s} b i r ne j lt = born_update s.stops i j r ne (inr (b.stops_born j lt))

  start_called-Born :
      {s : Running eg options}
      → Born s
      → (i : ℕ) (r : Routine) → r ≢ unborn
      → (j : ℕ) → j < starts_spawned options.servers s.main
      → update s.starts i r j ≢ unborn
  start_called-Born {s} b i r ne j lt = born_update s.starts i j r ne (inr (b.starts_born j lt))

  HasQuit-ended : (m : Main) → HasQuit m ended
  HasQuit-ended (spawning k) = tt
  HasQuit-ended (spawning_start k) = tt
  HasQuit-ended joining = tt
  HasQuit-ended waiting_all = inr refl
  HasQuit-ended (returned_with x) = tt

  Step-Born : {s t : Running eg options} → Born s → Step eg options s t → Born t
  Step-Born {s} b (spawn_stop k lt m) = record {
    in_loop = lt;
    stops_born = λ i h.
        born_update s.stops k i waiting (λ e. cc)
          (elim (same_or_before i k h) [
            | inl e ↦ inl e
            | inr before ↦ inr (stops_before b m i before)
          ]);
    starts_born = starts_before b m;
    quit_born = tt;
  }
  Step-Born {s} b (spawn_start k lt m) = record {
    in_loop = omega arith;
    stops_born = stops_before b m;
    starts_born = λ i h.
        born_update s.starts k i waiting (λ e. cc)
          (elim (same_or_before i k h) [
            | inl e ↦ inl e
            | inr before ↦ inr (starts_before b m i before)
          ]);
    quit_born = tt;
  }
  Step-Born {s} b (all_spawned m) = record {
    in_loop = tt;
    stops_born = stops_before b m;
    starts_born = starts_before b m;
    quit_born = tt;
  }
  Step-Born {s} b (joined m all) = record {
    in_loop = tt;
    stops_born = stops_before b m;
    starts_born = starts_before b m;
    quit_born = inl refl;
  }
  Step-Born {s} b (start_called i lt e) = record {
    in_loop = b.in_loop;
    stops_born = b.stops_born;
    starts_born = start_called-Born b i calling (λ q. cc);
    quit_born = b.quit_born;
  }
  Step-Born {s} b (start_returns i r lt e) = record {
    in_loop = b.in_loop;
    stops_born = b.stops_born;
    starts_born = start_called-Born b i ended (λ q. cc);
    quit_born = b.quit_born;
  }
  Step-Born {s} b (stop_called i lt e d) = record {
    in_loop = b.in_loop;
    stops_born = stop_called-Born b i calling (λ q. cc);
    starts_born = b.starts_born;
    quit_born = b.quit_born;
  }
  Step-Born {s} b (stop_returns i r lt e) = record {
    in_loop = b.in_loop;
    stops_born = stop_called-Born b i ended (λ q. cc);
    starts_born = b.starts_born;
    quit_born = b.quit_born;
  }
  Step-Born {s} b (quit_done e d) = record {
    in_loop = b.in_loop;
    stops_born = b.stops_born;
    starts_born = b.starts_born;
    quit_born = HasQuit-ended s.main;
  }
  Step-Born {s} b (quit_signal sig e) = record {
    in_loop = b.in_loop;
    stops_born = b.stops_born;
    starts_born = b.starts_born;
    quit_born = HasQuit-ended s.main;
  }
  Step-Born {s} b (finish m all q) = record {
    in_loop = tt;
    stops_born = stops_before b m;
    starts_born = starts_before b m;
    quit_born = tt;
  }

  pub Reach-Born : {s : Running eg options} → Reach eg options s → Born s
  Reach-Born begin = record {
    in_loop = omega arith;
    stops_born = λ i lt. absurd (omega arith);
    starts_born = λ i lt. absurd (omega arith);
    quit_born = tt;
  }
  Reach-Born (later reached step) = Step-Born (Reach-Born reached) step
  Reach-Born (app_canceled e reached) =
      let b = Reach-Born reached in
      record {
        in_loop = b.in_loop;
        stops_born = b.stops_born;
        starts_born = b.starts_born;
        quit_born = b.quit_born;
      }
