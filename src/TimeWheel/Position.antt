-- ===== src/TimeWheel/Position.antt =====
-- Where `getPositionAndCircle` of pkg/gds/timewheel.go puts a delay, in ticks from now.
use woocoo.Base.{
  ℕ, suc, ◌+◌, ◌-◌, ◌*◌, ◌/◌, ◌%◌, ◌<◌, ◌≡◌, arith, ltb, if◌then◌else◌, Bool-cases, ltb→lt, inl,
  inr, ap, ◌∙◌,
}
use native.Mathlib.Nat.{div-add-mod', mod-lt, mod-eq_of_lt, mod-eq-sub-mod, add-mul-mod_self_right}
use woocoo.TimeWheel.{TimeWheel}

-- Ticks until the wheel, at slot `cur` of `n`, comes to slot `p`: from 1 to `n`.
abbrev pub distance : ℕ → ℕ → ℕ → ℕ
distance n cur p = if ltb cur p then p - cur else p + n - cur

-- The wheel has a slot, and stands at one of its slots.
pub record IsWheel (w : TimeWheel) : Type 0 where
  pub has_slot : 0 < w.slot_num
  pub in_range : w.current_pos < w.slot_num

-- A sum below twice the modulus.
pub mod_wrap : (n s : ℕ) → 0 < n → s < n + n → s % n ≡ (if ltb s n then s else s - n)
mod_wrap n s h k = elim (Bool-cases (ltb s n)) [
  | inl below ↦ rw below (mod-eq_of_lt (ltb→lt s n below))
  | inr above ↦
      rw (above, mod-eq-sub-mod {n = s} {m = n} (ground arith)) (mod-eq_of_lt (ground arith))
]

distance_ahead : (n cur m : ℕ) → cur < n → m < n → distance n cur ((cur + suc m) % n) ≡ suc m
distance_ahead n cur m h k =
    rw (mod_wrap n (cur + suc m) (omega arith) (omega arith)) (ground arith)

turn_steps : (n cur q m steps : ℕ) → steps ≡ suc m + q * n → (cur + steps) % n ≡ (cur + suc m) % n
turn_steps n cur q m steps e =
    let sum : cur + steps ≡ cur + suc m + q * n = omega arith in
    ap (λ x. x % n) sum ∙ add-mul-mod_self_right (cur + suc m) q n

-- The slot and the circle of a delay of `steps` ticks: that slot is reached, after as many full
-- turns as the circle says, in exactly `steps` ticks.
pub distance_steps :
    (n cur steps : ℕ)
    → cur < n
    → 0 < steps
    → distance n cur ((cur + steps) % n) + (steps - 1) / n * n ≡ steps
distance_steps n cur steps h k =
    let q : ℕ = (steps - 1) / n in
    let m : ℕ = (steps - 1) % n in
    let split : steps ≡ suc m + q * n = omega (arith, div-add-mod' (steps - 1) n) in
    let ahead : distance n cur ((cur + suc m) % n) ≡ suc m =
      distance_ahead n cur m h (mod-lt (steps - 1) (omega arith)) in
    rw (turn_steps n cur q m steps split) (omega arith)
