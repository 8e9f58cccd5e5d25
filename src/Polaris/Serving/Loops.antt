-- ===== src/Polaris/Serving/Loops.antt =====
-- The loops of the resolver and the balancer of contrib/polarismesh over instances and connections.
use mathlib.Core.List.{Memᴰ}
use mathlib.Core.List.Memᴰ.{append_cases, eq_of_singleton}
use woocoo.Base.{
  ℕ, ◌+◌, ◌≡◌, ◌⊎◌, ◌∙◌, sym, ap, inl, inr, true, false, List, [], ◌∷◌, ◌++◌, some, Dict, entry,
  with_entry, same_text, same_text→eq, Bool-cases, arith,
}
use woocoo.Web.{Text}
use woocoo.Polaris.{Instance, address}
use woocoo.Polaris.Resolver.{is_skipped, use_instances}
use woocoo.Polaris.Balancer.{by_address, is_ready, ready_instances}

abbrev pub total_weight_of : List Instance → ℕ
total_weight_of [] = 0
total_weight_of (i ∷ is) = i.weight + total_weight_of is

pub use_instances-usable :
    (is used : List Instance) (total : ℕ) (i : Instance)
    → Memᴰ i (use_instances is used total).0
    → Memᴰ i used ⊎ (Memᴰ i is × (is_skipped i ≡ false))
unfolding use_instances
use_instances-usable [] used total i h = inl h
use_instances-usable (x ∷ is) used total i h = elim (Bool-cases (is_skipped x)) [
  | inl skipped ↦ elim (use_instances-usable is used total i (rw (use_instances, skipped) at h)) [
    | inl before ↦ inl before
    | inr (there, fine) ↦ inr (Memᴰ.tail there, fine)
  ]
  | inr kept ↦
      elim (use_instances-usable is (used ++ x ∷ []) (total + x.weight) i
        (rw (use_instances, kept) at h)) [
          | inl before ↦ elim (append_cases used before) [
            | inl early ↦ inl early
            | inr this ↦
                let same = eq_of_singleton this in inr (Memᴰ.head same, ap is_skipped same ∙ kept)
          ]
          | inr (there, fine) ↦ inr (Memᴰ.tail there, fine)
        ]
]

pub ready_instances-ready :
    (scs : Dict ℕ) (is ready : List Instance) (total : ℕ) (i : Instance)
    → Memᴰ i (ready_instances scs is ready total).0
    → Memᴰ i ready ⊎ (Memᴰ i is × (is_ready (entry scs (address i)) ≡ true))
unfolding ready_instances
ready_instances-ready scs [] ready total i h = inl h
ready_instances-ready scs (x ∷ is) ready total i h =
    elim (Bool-cases (is_ready (entry scs (address x)))) [
      | inr out ↦
          elim (ready_instances-ready scs is ready total i (rw (ready_instances, out) at h)) [
            | inl before ↦ inl before
            | inr (there, fine) ↦ inr (Memᴰ.tail there, fine)
          ]
      | inl in_scs ↦
          elim (ready_instances-ready scs is (ready ++ x ∷ []) (total + x.weight) i
            (rw (ready_instances, in_scs) at h)) [
              | inl before ↦ elim (append_cases ready before) [
                | inl early ↦ inl early
                | inr this ↦
                    let same = eq_of_singleton this in
                    inr (Memᴰ.head same, ap (λ j. is_ready (entry scs (address j))) same ∙ in_scs)
              ]
              | inr (there, fine) ↦ inr (Memᴰ.tail there, fine)
            ]
    ]

pub total_weight_of-append :
    (is : List Instance) (i : Instance)
    → total_weight_of (is ++ i ∷ []) ≡ total_weight_of is + i.weight
total_weight_of-append [] i = omega arith
total_weight_of-append (x ∷ is) i = omega (arith, total_weight_of-append is i)

pub ready_instances-weight :
    (scs : Dict ℕ) (is ready : List Instance) (total : ℕ)
    → total_weight_of (ready_instances scs is ready total).0 + total
      ≡ (ready_instances scs is ready total).1 + total_weight_of ready
unfolding ready_instances
ready_instances-weight scs [] ready total = omega arith
ready_instances-weight scs (x ∷ is) ready total =
    elim (Bool-cases (is_ready (entry scs (address x)))) [
      | inr out ↦ rw (ready_instances, out, ready_instances-weight scs is ready total)
      | inl in_scs ↦
          let sum = total_weight_of-append ready x in
          let rest = ready_instances-weight scs is (ready ++ x ∷ []) (total + x.weight) in
          rw (ready_instances, in_scs) (omega (arith, sum, rest))
    ]

pub with_entry-entry :
    (d : Dict ℕ) (key a : Text) (val sc : ℕ)
    → entry (with_entry d key val) a ≡ some sc
    → ((key ≡ a) × (val ≡ sc)) ⊎ (entry d a ≡ some sc)
with_entry-entry [] key a val sc h = elim (Bool-cases (same_text key a)) [
  | inl same ↦ (let g = rw same at h in inl (same_text→eq key a same, cc))
  | inr other ↦ (let g = rw other at h in absurd cc)
]
with_entry-entry ((k, v) ∷ d) key a val sc h = elim (Bool-cases (same_text k key)) [
  | inl same ↦ elim (Bool-cases (same_text k a)) [
    | inl this ↦
        let g = rw (same, this) at h in
        inl (sym (same_text→eq k key same) ∙ same_text→eq k a this, cc)
    | inr other ↦ (let g = rw (same, other) at h in inr (rw other g))
  ]
  | inr apart ↦ elim (Bool-cases (same_text k a)) [
    | inl this ↦ (let g = rw (apart, this) at h in inr (rw this g))
    | inr other ↦ elim (with_entry-entry d key a val sc (rw (apart, other) at h)) [
      | inl new ↦ inl new
      | inr old ↦ inr (rw (other, old))
    ]
  ]
]

pub by_address-entry :
    (ready : List (ℕ × Text)) (scs : Dict ℕ) (a : Text) (sc : ℕ)
    → entry (by_address ready scs) a ≡ some sc
    → Memᴰ {A = ℕ × Text} (sc, a) ready ⊎ (entry scs a ≡ some sc)
unfolding by_address
by_address-entry [] scs a sc h = inr h
by_address-entry ((c, k) ∷ ready) scs a sc h =
    elim (by_address-entry ready (with_entry scs k c) a sc h) [
      | inl there ↦ inl (Memᴰ.tail there)
      | inr written ↦ elim (with_entry-entry scs k a c sc written) [
        | inl (key, val) ↦ inl (Memᴰ.head (λ i. (sym val i, sym key i)))
        | inr old ↦ inr old
      ]
    ]
