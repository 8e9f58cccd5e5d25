-- ===== src/TimeWheel/Due.antt =====
-- How long an element of the wheel of pkg/gds/timewheel.go still waits, in ticks, and what one tick
-- makes of that number: the wheel refines a table of countdowns.
use native.Mathlib.Nat.{mod-lt}
use woocoo.Base.{
  ℕ, zero, suc, ◌+◌, ◌-◌, ◌*◌, ◌%◌, ◌<◌, ◌≡◌, true, false, arith, ltb, ◌==◌, if◌then◌else◌, mem,
  Bool-cases, inl, inr,
}
use woocoo.TimeWheel.{TimeWheel, tick_handler, advance}
use woocoo.TimeWheel.Position.{distance, mod_wrap}
use woocoo.TimeWheel.Scan.{SameWheel}
use woocoo.TimeWheel.Invariant.{IsValid, upcoming, tick-place, tick-item, tick-SameWheel}

-- The ticks until the task of a live element in slot `p` runs.
abbrev pub due : TimeWheel → ℕ → ℕ → ℕ
due w p r =
    distance w.slot_num w.current_pos p + (w.heap r).circle * w.slot_num + (w.heap r).diff_pos

-- An element that waits: it stands in slot `p`, is not removed, and runs in `k` ticks.
pub record Waits (w : TimeWheel) (r p k : ℕ) : Type 0 where
  pub place : mem r (w.slots p) ≡ true
  pub live : (w.heap r).removed ≡ false
  pub left : due w p r ≡ k

pub upcoming_wrap :
    (w : TimeWheel)
    → IsValid w
    → upcoming w ≡ (if ltb (w.current_pos + 1) w.slot_num then w.current_pos + 1 else 0)
upcoming_wrap w v = ground (arith, mod_wrap w.slot_num (w.current_pos + 1) v.has_slot, v.in_range)

-- An element of another slot comes nearer by one.
distance_other :
    (n cur up p : ℕ)
    → cur < n
    → p < n
    → up ≡ (if ltb (cur + 1) n then cur + 1 else 0)
    → (p == up) ≡ false
    → distance n cur p ≡ suc (distance n up p)
distance_other n cur up p h k e d = ground arith

distance_here :
    (n cur up : ℕ) → cur < n → up ≡ (if ltb (cur + 1) n then cur + 1 else 0) → distance n cur up ≡ 1
distance_here n cur up h e = ground arith

distance_turn : (n up : ℕ) → distance n up up ≡ n
distance_turn n up = ground arith

distance_moved : (n up d : ℕ) → up < n → 0 < d → d < n → distance n up ((up + d) % n) ≡ d
distance_moved n up d h p k = ground (arith, mod_wrap n (up + d))

pub turn_count : (n c : ℕ) → ltb 0 c ≡ true → n + (c - 1) * n ≡ c * n
turn_count n zero h = absurd (ground arith)
turn_count n (suc c) h = grind arith

no_turns : (n c : ℕ) → ltb 0 c ≡ false → c * n ≡ 0
no_turns n zero h = omega arith
no_turns n (suc c) h = absurd (ground arith)

-- The slot of a waiting element after a tick.
pub place_after : TimeWheel → ℕ → ℕ → ℕ
place_after w r p =
    if p == upcoming w
    then if ltb 0 (w.heap r).circle
      then upcoming w
      else (upcoming w + (w.heap r).diff_pos) % w.slot_num
    else p

module _ (w : TimeWheel) (v : IsValid w) (r p k : ℕ) (h : Waits w r p (suc (suc k))) where
  same : SameWheel (advance w) (tick_handler w).0
  same = tick-SameWheel w

  up-lt : upcoming w < w.slot_num
  up-lt = mod-lt (w.current_pos + 1) v.has_slot

  tick-Waits_other : (p == upcoming w) ≡ false → Waits (tick_handler w).0 r p (suc k)
  tick-Waits_other d =
      let away : mem r (w.slots (upcoming w)) ≡ false =
        ground (arith, v.apart p (upcoming w) r h.place) in
      let step : distance w.slot_num w.current_pos p ≡ suc (distance w.slot_num (upcoming w) p) =
        distance_other w.slot_num w.current_pos (upcoming w) p v.in_range (v.a_slot p r h.place)
          (upcoming_wrap w v) d in
      let item : (tick_handler w).0.heap r ≡ w.heap r = rw (tick-item w v r, away) in
      record {
        place = rw (tick-place w v r p, away) h.place;
        live = rw item h.live;
        left = rw (item, same.slot_num, same.current_pos) (omega (arith, h.left));
      }

  module _ (here : mem r (w.slots (upcoming w)) ≡ true) where
    first : distance w.slot_num w.current_pos (upcoming w) ≡ 1
    first = distance_here w.slot_num w.current_pos (upcoming w) v.in_range (upcoming_wrap w v)

    at : p ≡ upcoming w
    at = v.apart p (upcoming w) r h.place here

    left_here : (w.heap r).circle * w.slot_num + (w.heap r).diff_pos ≡ suc k
    left_here = omega (arith, rw at at h.left, first)

    tick-Waits_turn :
        ltb 0 (w.heap r).circle ≡ true → Waits (tick_handler w).0 r (upcoming w) (suc k)
    tick-Waits_turn turns =
        let i = w.heap r in
        let item : (tick_handler w).0.heap r ≡ record i { circle = i.circle - 1 } =
          rw (tick-item w v r, here, h.live, turns) in
        record {
          place = rw (tick-place w v r (upcoming w), here, h.live, turns) (ground arith);
          live = rw item h.live;
          left =
              rw (item, same.slot_num, same.current_pos, distance_turn w.slot_num (upcoming w))
                (omega (arith, turn_count w.slot_num i.circle turns, left_here));
        }

    tick-Waits_moved :
        ltb 0 (w.heap r).circle ≡ false
        → Waits (tick_handler w).0 r ((upcoming w + (w.heap r).diff_pos) % w.slot_num) (suc k)
    tick-Waits_moved last =
        let i = w.heap r in
        let z : i.circle * w.slot_num ≡ 0 = no_turns w.slot_num i.circle last in
        let d : i.diff_pos ≡ suc k = omega (arith, left_here, z) in
        let moved : ltb 0 i.diff_pos ≡ true = rw d (ground arith) in
        let item : (tick_handler w).0.heap r ≡ record i { diff_pos = 0 } =
          rw (tick-item w v r, here, h.live, last, moved) in
        record {
          place = rw (tick-place w v r _, here, h.live, last, moved) (ground arith);
          live = rw item h.live;
          left =
              rw (item, same.slot_num, same.current_pos)
                (omega (
                  arith,
                  z,
                  d,
                  distance_moved w.slot_num (upcoming w) i.diff_pos up-lt (omega arith)
                      (v.bounded r),
                ));
        }

    tick-Waits_here : Waits (tick_handler w).0 r (place_after w r p) (suc k)
    unfolding place_after
    tick-Waits_here = elim (Bool-cases (ltb 0 (w.heap r).circle)) [
      | inl turns ↦
          let e : place_after w r p ≡ upcoming w = ground (arith, at) in
          rw e (tick-Waits_turn turns)
      | inr last ↦
          let e : place_after w r p ≡ (upcoming w + (w.heap r).diff_pos) % w.slot_num =
            ground (arith, at) in
          rw e (tick-Waits_moved last)
    ]

  -- A tick brings every waiting element one tick nearer, wherever it puts it.
  pub tick-Waits : Waits (tick_handler w).0 r (place_after w r p) (suc k)
  unfolding place_after
  tick-Waits = elim (Bool-cases (p == upcoming w)) [
    | inl same_slot ↦ tick-Waits_here (let e : p ≡ upcoming w = ground arith in rw e at h.place)
    | inr other ↦ let e : place_after w r p ≡ p = ground arith in rw e (tick-Waits_other other)
  ]
