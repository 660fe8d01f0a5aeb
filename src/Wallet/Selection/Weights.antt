-- ===== src/Wallet/Selection/Weights.antt =====
-- impl/aicash/wallet.py, `_select`: the coins that each step takes and leaves.
use ai_cash.Prelude.{
  false, ◌<◌, All, ℕ, ◌+◌, ◌-◌, ◌/◌, ◌≡◌, refl, ap, subst, some, List, [], ◌∷◌, ◌++◌, arith, length,
  leb, ltb, ◌==◌, ◌&&◌, Bool-cases, Option-cases, inl, inr, some_eq, none-some,
}
use ai_cash.Wallet.Selection.{
  sort_denoms, insert_denom, Coin, first_fit, pop_last, pop_coin, count_of, take_of, sweep_count,
  sweep, sum_coins,
}

module _ (w : Coin → ℕ) where
  -- What coins weigh, each as often as it is there.
  unfoldable pub weigh : List Coin → ℕ
  weigh [] = 0
  weigh (c ∷ cs) = w c + weigh cs

  pub weigh-append : (xs ys : List Coin) → weigh (xs ++ ys) ≡ weigh xs + weigh ys
  unfolding weigh
  weigh-append [] ys = omega arith
  weigh-append (x ∷ xs) ys = omega (arith, weigh-append xs ys)

  weigh-pop_last :
      (c : Coin) (pool : List Coin)
      → w (pop_last c pool).0 + weigh (pop_last c pool).1 ≡ w c + weigh pool
  unfolding weigh pop_last
  weigh-pop_last c [] = refl
  weigh-pop_last c (d ∷ pool) = omega (arith, weigh-pop_last d pool)

  weigh-first_fit :
      (deficit : ℕ) (pool : List Coin) (taken : Coin × List Coin)
      → first_fit deficit pool ≡ some taken
      → w taken.0 + weigh taken.1 ≡ weigh pool
  unfolding weigh first_fit
  weigh-first_fit deficit [] taken h = absurd (none-some h)
  weigh-first_fit deficit (c ∷ pool) taken h = elim (Bool-cases (leb c.amount_mc deficit)) [
    | inl e ↦
        let same : (c, pool) ≡ taken = some_eq (rw e at h) in
        subst (λ (x : Coin × List Coin). w x.0 + weigh x.1 ≡ w c + weigh pool) same refl
    | inr e ↦ elim (Option-cases (first_fit deficit pool)) [
      | inl f ↦ absurd (none-some (rw (e, f) at h))
      | inr (rest, f) ↦
          let same : (rest.0, c ∷ rest.1) ≡ taken = some_eq (rw (e, f) at h) in
          subst (λ (x : Coin × List Coin). w x.0 + weigh x.1 ≡ w c + weigh pool) same
            (omega (arith, weigh-first_fit deficit pool rest f))
    ]
  ]

  pub weigh-pop_coin :
      (deficit : ℕ) (c : Coin) (pool : List Coin)
      → w (pop_coin deficit c pool).0 + weigh (pop_coin deficit c pool).1 ≡ w c + weigh pool
  unfolding pop_coin
  weigh-pop_coin deficit c pool = elim (Option-cases (first_fit deficit (c ∷ pool))) [
    | inl e ↦ rw (e, pop_coin) (weigh-pop_last c pool)
    | inr (taken, e) ↦ rw (e, pop_coin) (unfold weigh in weigh-first_fit deficit (c ∷ pool) taken e)
  ]

  weigh-take_of :
      (d n : ℕ) (pool : List Coin)
      → weigh (take_of d n pool).0 + weigh (take_of d n pool).1 ≡ weigh pool
  unfolding weigh take_of
  weigh-take_of d n [] = refl
  weigh-take_of d n (c ∷ pool) =
      let fewer = weigh-take_of d (n - 1) pool in
      let same = weigh-take_of d n pool in
      elim (Bool-cases (c.amount_mc == d && ltb 0 n)) [
        | inl e ↦ rw e (omega (arith, fewer))
        | inr e ↦ rw e (omega (arith, same))
      ]

  -- Over positive denominations the sweep divides by none that is zero; what it takes and what it
  -- leaves are the pool.
  pub sweep_total :
      (ds : List ℕ) (pool : List Coin)
      → All (λ d. 0 < d) ds
      → (swept left : List Coin) × (sweep ds pool ≡ some (swept, left))
        × (weigh swept + weigh left ≡ weigh pool)
  unfolding weigh sweep
  sweep_total [] pool a = ([], pool, refl, omega arith)
  sweep_total (d ∷ []) pool a = ([], pool, refl, omega arith)
  sweep_total (d ∷ above ∷ ds) pool (p, a) =
      let n = sweep_count (above / d) (count_of d pool) in
      let taken = take_of d n pool in
      let (more, left, e, rest) = sweep_total (above ∷ ds) taken.1 a in
      let positive : (d == 0) ≡ false = ground (arith, p) in
      (
        taken.0 ++ more,
        left,
        rw (positive, e, sweep) refl,
        omega (arith, weigh-append taken.0 more, weigh-take_of d n pool, rest),
      )

-- Sorting keeps what holds of every denomination.
insert_denom-All :
    (P : ℕ → Type 0) (d : ℕ) (ds : List ℕ) → P d → All P ds → All P (insert_denom d ds)
unfolding insert_denom
insert_denom-All P d [] p a = (p, tt)
insert_denom-All P d (e ∷ ds) p (q, a) = elim (Bool-cases (leb d e)) [
  | inl h ↦ rw h (p, (q, a))
  | inr h ↦ rw h (q, insert_denom-All P d ds p a)
]

pub sort_denoms-All : (P : ℕ → Type 0) (ds : List ℕ) → All P ds → All P (sort_denoms ds)
unfolding sort_denoms
sort_denoms-All P [] a = tt
sort_denoms-All P (d ∷ ds) (p, a) = insert_denom-All P d (sort_denoms ds) p (sort_denoms-All P ds a)

pub sum_coins-weigh : (cs : List Coin) → sum_coins cs ≡ weigh (λ c. c.amount_mc) cs
unfolding sum_coins weigh
sum_coins-weigh [] = refl
sum_coins-weigh (c ∷ cs) = ap (λ n. c.amount_mc + n) (sum_coins-weigh cs)

pub length-weigh : (cs : List Coin) → length cs ≡ weigh (λ c. 1) cs
unfolding weigh
length-weigh [] = refl
length-weigh (c ∷ cs) = omega (arith, length-weigh cs)
