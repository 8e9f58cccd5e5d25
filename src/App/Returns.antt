-- ===== src/App/Returns.antt =====
-- When `Run` of app.go returns, and with what.
use woocoo.Base.{
  ℕ, ◌+◌, ◌<◌, ◌≡◌, ◌≢◌, ◌⊎◌, inl, inr, length, ◌∙◌, refl, sym, ap, true, List, [], ◌∷◌, ◌++◌,
  Option, none, some,
}
use woocoo.App.{
  AppError, canceled, deadline, other, RunOptions, ErrGroup, Routine, ended, returned_with, is_done,
  cancel_with, cancel_after, reported, quit_result, Running, Step, spawn_stop, spawn_start,
  all_spawned, joined, start_called, start_returns, stop_called, stop_returns, quit_done,
  quit_signal, finish, Reach, begin, later, app_canceled,
}
use woocoo.App.Counts.{all_returned}

-- The first error among results.
abbrev pub first_error : List (Option AppError) → Option AppError
first_error [] = none
first_error (none ∷ rs) = first_error rs
first_error (some e ∷ rs) = some e

first_error-append_none :
    (rs : List (Option AppError)) → first_error (rs ++ none ∷ []) ≡ first_error rs
first_error-append_none [] = refl
first_error-append_none (none ∷ rs) = first_error-append_none rs
first_error-append_none (some e ∷ rs) = refl

first_error-append_first :
    (rs : List (Option AppError)) (e : AppError)
    → first_error rs ≡ none
    → first_error (rs ++ some e ∷ []) ≡ some e
first_error-append_first [] e h = refl
first_error-append_first (none ∷ rs) e h = first_error-append_first rs e h
first_error-append_first (some f ∷ rs) e h = absurd cc

first_error-append_kept :
    (rs : List (Option AppError)) (e : AppError) (r : Option AppError)
    → first_error rs ≡ some e
    → first_error (rs ++ r ∷ []) ≡ some e
first_error-append_kept [] e r h = absurd cc
first_error-append_kept (none ∷ rs) e r h = first_error-append_kept rs e r h
first_error-append_kept (some f ∷ rs) e r h = h

pub is_done-cancel_with :
    (e : AppError) (ctx : Option AppError) → is_done (cancel_with e ctx) ≡ true
is_done-cancel_with e none = refl
is_done-cancel_with e (some f) = refl

pub is_done-cancel_after :
    (r ctx : Option AppError) → is_done ctx ≡ true → is_done (cancel_after r ctx) ≡ true
is_done-cancel_after none ctx h = h
is_done-cancel_after (some e) ctx h = is_done-cancel_with canceled ctx

returned_with-eq : {r x : Option AppError} → returned_with r ≡ returned_with x → r ≡ x
returned_with-eq h = cc

module _ (eg : ErrGroup) (options : RunOptions) where
  -- Every goroutine has returned.
  pub record IsOver (s : Running eg options) : Type 0 where
    pub stopped : (i : ℕ) → i < options.servers → s.stops i ≡ ended
    pub started : (i : ℕ) → i < options.servers → s.starts i ≡ ended
    pub quitted : s.quit ≡ ended

  record Inv (s : Running eg options) : Type 0 where
    errors : eg.error s.err_group ≡ first_error s.results
    awake : s.quit ≡ ended → is_done s.ctx ≡ true
    over :
        (r : Option AppError)
        → s.main ≡ returned_with r
        → IsOver s × (r ≡ reported (first_error s.results))

  error-after :
      (g : eg.Group) (rs : List (Option AppError)) (r : Option AppError)
      → eg.error g ≡ first_error rs
      → eg.error (eg.returned g r) ≡ first_error (rs ++ r ∷ [])
  error-after g rs none h = eg.error-nil g ∙ h ∙ sym (first_error-append_none rs)
  error-after g rs (some e) h = go (first_error rs) refl
    where
      go :
          (first : Option AppError)
          → first_error rs ≡ first
          → eg.error (eg.returned g (some e)) ≡ first_error (rs ++ some e ∷ [])
      go none f = eg.error-first g e (h ∙ f) ∙ sym (first_error-append_first rs e f)
      go (some x) f =
          eg.error-kept g x (some e) (h ∙ f) ∙ sym (first_error-append_kept rs x (some e) f)

  -- No goroutine of a server is left once `Run` has returned.
  over-stops :
      {s : Running eg options}
      → Inv s
      → (i : ℕ) → i < options.servers
      → {r : Routine} → s.stops i ≡ r
      → r ≢ ended
      → (x : Option AppError) → s.main ≢ returned_with x
  over-stops v i lt e ne x m = ne (sym e ∙ (v.over x m).0.stopped i lt)

  over-starts :
      {s : Running eg options}
      → Inv s
      → (i : ℕ) → i < options.servers
      → {r : Routine} → s.starts i ≡ r
      → r ≢ ended
      → (x : Option AppError) → s.main ≢ returned_with x
  over-starts v i lt e ne x m = ne (sym e ∙ (v.over x m).0.started i lt)

  over-quit :
      {s : Running eg options}
      → Inv s
      → {r : Routine} → s.quit ≡ r
      → r ≢ ended
      → (x : Option AppError) → s.main ≢ returned_with x
  over-quit v e ne x m = ne (sym e ∙ (v.over x m).0.quitted)

  Step-Inv : {s t : Running eg options} → Inv s → Step eg options s t → Inv t
  Step-Inv {s} v (spawn_stop k lt m) = record {
    errors = v.errors;
    awake = v.awake;
    over = λ r h. absurd cc;
  }
  Step-Inv {s} v (spawn_start k lt m) = record {
    errors = v.errors;
    awake = v.awake;
    over = λ r h. absurd cc;
  }
  Step-Inv {s} v (all_spawned m) = record {
    errors = v.errors;
    awake = v.awake;
    over = λ r h. absurd cc;
  }
  Step-Inv {s} v (joined m all) = record {
    errors = v.errors;
    awake = λ h. absurd cc;
    over = λ r h. absurd cc;
  }
  Step-Inv {s} v (start_called i lt e) = record {
    errors = v.errors;
    awake = v.awake;
    over = λ r h. absurd (over-starts v i lt e (λ x. cc) r h);
  }
  Step-Inv {s} v (start_returns i r lt e) = record {
    errors = error-after s.err_group s.results r v.errors;
    awake = λ q. is_done-cancel_after r s.ctx (v.awake q);
    over = λ x h. absurd (over-starts v i lt e (λ y. cc) x h);
  }
  Step-Inv {s} v (stop_called i lt e d) = record {
    errors = v.errors;
    awake = v.awake;
    over = λ r h. absurd (over-stops v i lt e (λ x. cc) r h);
  }
  Step-Inv {s} v (stop_returns i r lt e) = record {
    errors = error-after s.err_group s.results r v.errors;
    awake = λ q. is_done-cancel_after r s.ctx (v.awake q);
    over = λ x h. absurd (over-stops v i lt e (λ y. cc) x h);
  }
  Step-Inv {s} v (quit_done e d) = record {
    errors = error-after s.err_group s.results (quit_result options.signals s.ctx) v.errors;
    awake = λ q. is_done-cancel_after (quit_result options.signals s.ctx) s.ctx d;
    over = λ x h. absurd (over-quit v e (λ y. cc) x h);
  }
  Step-Inv {s} v (quit_signal sig e) = record {
    errors = error-after s.err_group s.results none v.errors;
    awake = λ q. is_done-cancel_with canceled s.ctx;
    over = λ x h. absurd (over-quit v e (λ y. cc) x h);
  }
  Step-Inv {s} v (finish m all q) = record {
    errors = v.errors;
    awake = v.awake;
    over = λ r h. (
      record { stopped = λ i lt. (all i lt).0; started = λ i lt. (all i lt).1; quitted = q },
      sym (returned_with-eq h) ∙ ap reported v.errors,
    );
  }

  Reach-Inv : {s : Running eg options} → Reach eg options s → Inv s
  Reach-Inv begin = record {
    errors = eg.error-empty;
    awake = λ h. absurd cc;
    over = λ r h. absurd cc;
  }
  Reach-Inv (later reached step) = Step-Inv (Reach-Inv reached) step
  Reach-Inv (app_canceled {s} e reached) =
      let v = Reach-Inv reached in
      record {
        errors = v.errors;
        awake = λ q. is_done-cancel_with e s.ctx;
        over = λ r h.
            let (o, result) = v.over r h in
            (record { stopped = o.stopped; started = o.started; quitted = o.quitted }, result);
      }

-- What `Run` returns when this is the first error: `context.Canceled` is not one that it reports.
abbrev pub IsResult : (first : Option AppError) → (result : Option AppError) → Type 0
IsResult none r = r ≡ none
IsResult (some e) r = ((e ≡ canceled) × (r ≡ none)) ⊎ ((e ≢ canceled) × (r ≡ some e))

reported-IsResult : (first : Option AppError) → IsResult first (reported first)
reported-IsResult none = refl
reported-IsResult (some canceled) = inl (refl, refl)
reported-IsResult (some deadline) = inr (λ e. cc, refl)
reported-IsResult (some (other n)) = inr (λ e. cc, refl)

-- In every interleaving, once `Run` has returned, the `Start` and the `Stop` of every server and the
-- last goroutine have returned, each of them once, and the context of the group is done. `Run` returns
-- nil if none of them returned an error, or if the first error was `context.Canceled`, and else the
-- first error.
pub Reach-IsOver :
    (eg : ErrGroup) (options : RunOptions) (s : Running eg options) (r : Option AppError)
    → Reach eg options s
    → s.main ≡ returned_with r
    → IsOver eg options s
      × (length s.results ≡ options.servers + options.servers + 1)
      × (is_done s.ctx ≡ true)
      × IsResult (first_error s.results) r
Reach-IsOver eg options s r reached m =
    let v = Reach-Inv eg options reached in
    let (over, result) = v.over r m in
    (
      over,
      all_returned eg options reached over.stopped over.started over.quitted,
      v.awake over.quitted,
      rw result (reported-IsResult (first_error s.results)),
    )
