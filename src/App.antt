-- ===== src/App.antt =====
-- The application of app.go: its options, and `Run` as goroutines that interleave in any order.
--
-- What golang.org/x/sync/errgroup does is a parameter with the laws that it documents. Time is not
-- counted: the interval between two servers is some steps of the others.
pub mod Returns
pub mod Progress
mod Born
mod Counts
pub mod Rank
mod Tests
use woocoo.Base.{
  ℕ, suc, ◌+◌, ◌<◌, ◌≡◌, ◌≢◌, Bool, true, false, List, [], ◌∷◌, ◌++◌, Option, none, some, update,
}

-- An error: one that is `context.Canceled`, `context.DeadlineExceeded`, or another.
pub data AppError : Type 0 where
  canceled deadline : AppError
  other : ℕ → AppError

-- What is read of the options: the number of servers, whether `quitCh` has signals, and the timeout of
-- a stop in seconds.
pub record RunOptions : Type 0 where
  pub servers : ℕ
  pub signals : Bool
  pub stop_timeout : ℕ

-- The options of `New` and of `MiniApp`, before servers are registered.
abbrev pub new_app : RunOptions
new_app = record { servers = 0; signals = true; stop_timeout = 5 }

abbrev pub mini_app : RunOptions
mini_app = record { servers = 0; signals = false; stop_timeout = 0 }

abbrev pub register_server : RunOptions → (more : ℕ) → RunOptions
register_server options more = record options { servers = options.servers + more }

-- A group: its functions return in some order, and its error is that of the first one that has one.
pub record ErrGroup : Type 1 where
  pub Group : Type 0
  pub empty : Group
  pub returned : Group → Option AppError → Group
  pub error : Group → Option AppError
  pub error-empty : error empty ≡ none
  pub error-nil : (g : Group) → error (returned g none) ≡ error g
  pub error-first :
      (g : Group) (e : AppError) → error g ≡ none → error (returned g (some e)) ≡ some e
  pub error-kept :
      (g : Group) (e : AppError) (r : Option AppError)
      → error g ≡ some e
      → error (returned g r) ≡ some e

-- Where a goroutine stands: one of `Stop` waits for the context, one of `Start` has not called
-- `wg.Done` yet; then the server's function runs, and at last the goroutine has returned.
pub data Routine : Type 0 where
  unborn waiting calling ended : Routine

-- Where `Run` itself stands: in the loop before either `eg.Go` of a server, in `wg.Wait`, in `eg.Wait`,
-- or returned.
pub data Main : Type 0 where
  spawning spawning_start : (k : ℕ) → Main
  joining waiting_all : Main
  returned_with : Option AppError → Main

abbrev pub is_waiting : Routine → Bool
is_waiting waiting = true
is_waiting _ = false

-- Whether a context is done, by its error.
abbrev pub is_done : Option AppError → Bool
is_done none = false
is_done (some e) = true

-- A context keeps the error that it was first canceled with.
abbrev pub cancel_with : AppError → Option AppError → Option AppError
cancel_with e none = some e
cancel_with e (some first) = some first

-- The first result that is an error cancels the context of the group.
abbrev pub cancel_after : Option AppError → Option AppError → Option AppError
cancel_after none ctx = ctx
cancel_after (some e) ctx = cancel_with canceled ctx

-- The end of `Run`: `context.Canceled` is no error.
abbrev pub reported : Option AppError → Option AppError
reported none = none
reported (some canceled) = none
reported (some e) = some e

-- Without signals the last goroutine returns the error of the context.
abbrev pub quit_result : Bool → Option AppError → Option AppError
quit_result true ctx = none
quit_result false ctx = ctx

module _ (eg : ErrGroup) (options : RunOptions) where
  -- `ctx` is the context of the group, which descends from that of the application. `results` are those
  -- of the goroutines in the order in which they return, which the program does not keep.
  pub record Running : Type 0 where
    pub err_group : eg.Group
    pub ctx : Option AppError
    pub main : Main
    pub stops : ℕ → Routine
    pub starts : ℕ → Routine
    pub quit : Routine
    pub results : List (Option AppError)

  abbrev pub initial : Running
  initial = record {
    err_group = eg.empty;
    ctx = none;
    main = spawning 0;
    stops = λ i. unborn;
    starts = λ i. unborn;
    quit = unborn;
    results = [];
  }

  -- A function of the group returns.
  abbrev pub after : Option AppError → Running → Running
  after r s = record s {
    err_group = eg.returned s.err_group r;
    ctx = cancel_after r s.ctx;
    results = s.results ++ r ∷ [];
  }

  -- The end of the application's context, by `Stop` or by the deadline of `MiniApp`.
  abbrev pub cancel_app : AppError → Running → Running
  cancel_app e s = record s { ctx = cancel_with e s.ctx }

  -- One step of a goroutine of `Run`.
  pub data Step (s : Running) : Running → Type 0 where
    spawn_stop :
        (k : ℕ)
        → k < options.servers
        → s.main ≡ spawning k
        → Step s (record s { main = spawning_start k; stops = update s.stops k waiting })
    spawn_start :
        (k : ℕ)
        → k < options.servers
        → s.main ≡ spawning_start k
        → Step s (record s { main = spawning (suc k); starts = update s.starts k waiting })
    all_spawned : s.main ≡ spawning options.servers → Step s (record s { main = joining })
    joined :
        s.main ≡ joining
        → ((i : ℕ) → i < options.servers → is_waiting (s.starts i) ≡ false)
        → Step s (record s { main = waiting_all; quit = waiting })
    start_called :
        (i : ℕ)
        → i < options.servers
        → s.starts i ≡ waiting
        → Step s (record s { starts = update s.starts i calling })
    start_returns :
        (i : ℕ) (r : Option AppError)
        → i < options.servers
        → s.starts i ≡ calling
        → Step s (after r (record s { starts = update s.starts i ended }))
    stop_called :
        (i : ℕ)
        → i < options.servers
        → s.stops i ≡ waiting
        → is_done s.ctx ≡ true
        → Step s (record s { stops = update s.stops i calling })
    stop_returns :
        (i : ℕ) (r : Option AppError)
        → i < options.servers
        → s.stops i ≡ calling
        → Step s (after r (record s { stops = update s.stops i ended }))
    quit_done :
        s.quit ≡ waiting
        → is_done s.ctx ≡ true
        → Step s (after (quit_result options.signals s.ctx) (record s { quit = ended }))
    quit_signal :
        options.signals ≡ true
        → s.quit ≡ waiting
        → Step s (after none (cancel_app canceled (record s { quit = ended })))
    finish :
        s.main ≡ waiting_all
        → ((i : ℕ) → i < options.servers → (s.stops i ≡ ended) × (s.starts i ≡ ended))
        → s.quit ≡ ended
        → Step s (record s { main = returned_with (reported (eg.error s.err_group)) })

  -- The states that `Run` may come to, while the application may be stopped at any time.
  pub data Reach : Running → Type 0 where
    begin : Reach initial
    later : {s t : Running} → Reach s → Step s t → Reach t
    app_canceled : {s : Running} (e : AppError) → Reach s → Reach (cancel_app e s)
