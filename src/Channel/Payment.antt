-- ===== src/Channel/Payment.antt =====
-- impl/aicash/channels.py: the sizes of the tranches, and the least gross amount of a net one.
use ai_cash.Prelude.{
  subst, ℕ, zero, suc, ◌+◌, ◌-◌, ◌≤◌, ◌<◌, ◌≡◌, ◌≢◌, ◌⊎◌, inl, inr, refl, some, List, arith, All,
  sum, min, ltb, ◌==◌, Bool-cases,
}
use ai_cash.Prelude.Int.{pos, pos_part}
use ai_cash.Burn
use ai_cash.Burn.{BurnPolicy, compute_burn}
use ai_cash.Burn.Bounds.{
  IsValidPolicy, burn_of, compute_burn-eq, burn_of_mono_sum, compute_burn-eq-ok,
}
use ai_cash.Channel.{split_loop, split_tranches, gross_loop, gross_for_net}

split_loop_lem :
    (fuel n capacity : ℕ)
    → 0 < capacity
    → n ≤ fuel
    → (sum (split_loop fuel n capacity) ≡ n)
      × All (λ m. (0 < m) × (m ≤ capacity)) (split_loop fuel n capacity)
unfolding split_loop
split_loop_lem zero n capacity p h = (omega (arith, h), tt)
split_loop_lem (suc fuel) n capacity p h = elim (Bool-cases (ltb 0 n)) [
  | inr e ↦ rw e (ground arith, tt)
  | inl e ↦
      let pos_n : 0 < n = ground (arith, e) in
      let (s, a) =
        split_loop_lem fuel (n - min capacity n) capacity p (omega (arith, h, p, pos_n)) in
      rw e (omega (arith, s), ((omega (arith, p, pos_n), omega arith), a))
]

-- The tranches of a split add up to the number of increments, and each holds at least one and at
-- most the capacity.
pub split_tranches_lem :
    (n capacity : ℕ) (sizes : List ℕ)
    → split_tranches n capacity ≡ some sizes
    → (sum sizes ≡ n) × All (λ m. (0 < m) × (m ≤ capacity)) sizes
unfolding split_tranches
split_tranches_lem n capacity sizes h =
    let p : 0 < capacity = ground arith in
    let e : split_loop n n capacity ≡ sizes = ground arith in
    subst (λ s. (sum s ≡ n) × All (λ m. (0 < m) × (m ≤ capacity)) s) e
      (split_loop_lem n n capacity p (omega arith))

burn_of-le_cap : (p : BurnPolicy) (n : ℕ) → burn_of p n ≤ pos_part p.cap_mc
burn_of-le_cap p n = ground arith

gross_loop_lem :
    (fuel g net : ℕ) (p : BurnPolicy) (other : ℕ)
    → IsValidPolicy p
    → g ≤ net + burn_of p g
    → g ≤ net + pos_part p.cap_mc
    → net + pos_part p.cap_mc + 1 < fuel + g
    → (other ≢ net + burn_of p other) ⊎ (g ≤ other)
    → (r : ℕ) × (gross_loop fuel g net p ≡ some (Burn.ok r))
      × (r ≡ net + burn_of p r)
      × ((other ≢ net + burn_of p other) ⊎ (r ≤ other))
unfolding gross_loop
gross_loop_lem zero g net p other v below capped enough least =
    absurd (omega (arith, capped, enough))
gross_loop_lem (suc fuel) g net p other v below capped enough least =
    elim (Bool-cases (net + burn_of p g == g)) [
      | inl e ↦ (g, rw (compute_burn-eq p g v, e, gross_loop) refl, ground (arith, e), least)
      | inr e ↦
          let up : g < net + burn_of p g = ground (arith, e, below) in
          let grows = burn_of_mono_sum p g (net + burn_of p g) below in
          let (r, q, fixed, l) =
            gross_loop_lem fuel (net + burn_of p g) net p other v (omega (arith, grows))
              (omega (arith, burn_of-le_cap p g)) (omega (arith, enough, up))
              (elim least [
                | inl ne ↦ inl ne
                | inr le ↦ elim (Bool-cases (other == net + burn_of p other)) [
                  | inl at ↦ inr (ground (arith, at, burn_of_mono_sum p g other le))
                  | inr off ↦ inl (λ same. ground (arith, off, same))
                ]
              ]) in
          (r, rw (compute_burn-eq p g v, e, gross_loop) q, fixed, l)
    ]

gross_for_net-eq :
    (net other : ℕ) (p : BurnPolicy)
    → IsValidPolicy p
    → (r : ℕ) × (gross_for_net net p ≡ some (Burn.ok r))
      × (r ≡ net + burn_of p r)
      × ((other ≢ net + burn_of p other) ⊎ (r ≤ other))
unfolding gross_for_net
gross_for_net-eq net other p v =
    gross_loop_lem (pos_part p.cap_mc + 2) net net p other v (omega arith) (omega arith)
      (omega arith)
      (elim (Bool-cases (other == net + burn_of p other)) [
        | inl at ↦ inr (ground (arith, at))
        | inr off ↦ inl (λ same. ground (arith, off, same))
      ])

-- On a valid policy the loop ends, with an amount that less its burn is the net one.
pub gross_for_net_total :
    (net : ℕ) (p : BurnPolicy)
    → IsValidPolicy p
    → (r b : ℕ) × (gross_for_net net p ≡ some (Burn.ok r))
      × (compute_burn (pos r) p ≡ Burn.ok b)
      × (r ≡ net + b)
gross_for_net_total net p v =
    let (r, q, fixed, l) = gross_for_net-eq net 0 p v in
    (r, burn_of p r, q, compute_burn-eq p r v, fixed)

-- The amount that the loop finds is the least one that less its burn is the net one.
pub gross_for_net_least :
    (net r other c : ℕ) (p : BurnPolicy)
    → gross_for_net net p ≡ some (Burn.ok r)
    → compute_burn (pos other) p ≡ Burn.ok c
    → other ≡ net + c
    → r ≤ other
gross_for_net_least net r other c p h hc e =
    let (v, q) = compute_burn-eq-ok p other c hc in
    let (s, found, fixed, l) = gross_for_net-eq net other p v in
    let same : s ≡ r = cc (found, h) in
    elim l [ inl ne ↦ absurd (ne (omega (arith, e, q))) | inr le ↦ omega (arith, le, same) ]
