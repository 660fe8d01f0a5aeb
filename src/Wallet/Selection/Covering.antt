-- ===== src/Wallet/Selection/Covering.antt =====
-- impl/aicash/wallet.py, `_select`: what is picked.
use ai_cash.Prelude.{
  All, ◌∙◌, ℕ, ◌+◌, ◌-◌, ◌≤◌, ◌<◌, ◌≡◌, refl, sym, ap, subst, true, false, List, [], ◌∷◌, ◌++◌,
  arith, length, leb, Bool-cases, inl, inr,
}
use ai_cash.Burn.{BurnPolicy}
use ai_cash.Burn.Bounds.{IsValidPolicy, burn_of, compute_burn-eq}
use ai_cash.Wallet.Selection.{
  with_sweep, prepend_coin, Coin, pop_coin, Selection, selected, insufficient_funds, burn_error,
  zero_division, sort_denoms, out_of_fuel, round, greedy, sum_coins, select,
}
use ai_cash.Wallet.Selection.Weights.{
  weigh, weigh-append, weigh-pop_coin, sweep_total, sort_denoms-All, sum_coins-weigh, length-weigh,
}

-- What the loop answers over a pool and a sum: the coins that it picks are coins of the pool, and
-- they cover the target and the burn of the sum; if it finds too little, all coins are too little.
abbrev Covers : (Coin → ℕ) → BurnPolicy → ℕ → List Coin → ℕ → Selection → Type 0
Covers w policy target pool start (selected picked total left) =
    (weigh w picked + weigh w left ≡ weigh w pool)
    × (total ≡ start + sum_coins picked)
    × (target + burn_of policy total ≤ total)
Covers w policy target pool start insufficient_funds =
    start + sum_coins pool < target + burn_of policy (start + sum_coins pool)
Covers w policy target pool start _ = ⊥

prepend-Covers :
    (w : Coin → ℕ) (policy : BurnPolicy) (target start : ℕ) (c : Coin) (pool rest : List Coin)
    (s : Selection)
    → w c + weigh w rest ≡ weigh w pool
    → c.amount_mc + sum_coins rest ≡ sum_coins pool
    → Covers w policy target rest (start + c.amount_mc) s
    → Covers w policy target pool start (prepend_coin c s)
unfolding weigh sum_coins
prepend-Covers w policy target start c pool rest (selected picked total left) e v (a, b, k) =
    (omega (arith, e, a), omega (arith, b), k)
prepend-Covers w policy target start c pool rest insufficient_funds e v h =
    let same : start + c.amount_mc + sum_coins rest ≡ start + sum_coins pool = omega (arith, v) in
    subst (λ n. n < target + burn_of policy n) same h
prepend-Covers w policy target start c pool rest burn_error e v h = absurd h
prepend-Covers w policy target start c pool rest zero_division e v h = absurd h
prepend-Covers w policy target start c pool rest out_of_fuel e v h = absurd h

start_zero : (n : ℕ) → 0 + n ≡ n
start_zero n = omega arith

start_is : (n : ℕ) → n ≡ n + 0
start_is n = omega arith

sum_coins_pop :
    (deficit : ℕ) (c : Coin) (others : List Coin)
    → (pop_coin deficit c others).0.amount_mc + sum_coins (pop_coin deficit c others).1
      ≡ sum_coins (c ∷ others)
sum_coins_pop deficit c others =
    ap (λ n. (pop_coin deficit c others).0.amount_mc + n)
      (sum_coins-weigh (pop_coin deficit c others).1)
    ∙ weigh-pop_coin (λ x. x.amount_mc) deficit c others
    ∙ unfold weigh in sym (sum_coins-weigh (c ∷ others))

length_pop :
    (deficit : ℕ) (c : Coin) (others : List Coin)
    → 1 + length (pop_coin deficit c others).1 ≡ length (c ∷ others)
length_pop deficit c others =
    ap (λ n. 1 + n) (length-weigh (pop_coin deficit c others).1)
    ∙ weigh-pop_coin (λ x. 1) deficit c others
    ∙ unfold weigh in sym (length-weigh (c ∷ others))

module _ (policy : BurnPolicy) (target start : ℕ) (step : Coin → List Coin → Selection)
    (v : IsValidPolicy policy) where
  round_enough :
      (pool : List Coin)
      → leb (target + burn_of policy start) start ≡ true
      → round policy target pool start step ≡ selected [] start pool
  unfolding round
  round_enough pool e = rw (round, compute_burn-eq policy start v, e) refl

  round_empty :
      leb (target + burn_of policy start) start ≡ false
      → round policy target [] start step ≡ insufficient_funds
  unfolding round
  round_empty e = rw (round, compute_burn-eq policy start v, e) refl

  round_short :
      (c : Coin) (others : List Coin)
      → leb (target + burn_of policy start) start ≡ false
      → round policy target (c ∷ others) start step
        ≡ step
            (pop_coin (target + burn_of policy start - start) c others).0
            (pop_coin (target + burn_of policy start - start) c others).1
  unfolding round pop_coin
  round_short c others e = rw (round, compute_burn-eq policy start v, e) refl

  round_taking :
      (w : Coin → ℕ) (pool : List Coin)
      → ((c : Coin) (rest : List Coin)
          → w c + weigh w rest ≡ weigh w pool
          → c.amount_mc + sum_coins rest ≡ sum_coins pool
          → 1 + length rest ≡ length pool
          → Covers w policy target pool start (step c rest))
      → leb (target + burn_of policy start) start ≡ false
      → Covers w policy target pool start (round policy target pool start step)
  unfolding weigh sum_coins
  round_taking w [] next e =
      subst (Covers w policy target [] start) (sym (round_empty e))
        (subst (λ n. n < target + burn_of policy n) (start_is start) (ground (arith, e)))
  round_taking w (c ∷ others) next e =
      let deficit = target + burn_of policy start - start in
      let amount = λ (x : Coin). x.amount_mc in
      subst (Covers w policy target (c ∷ others) start) (sym (round_short c others e)) (
        next (pop_coin deficit c others).0 (pop_coin deficit c others).1
          (weigh-pop_coin w deficit c others) (sum_coins_pop deficit c others)
          (length_pop deficit c others))

  -- A round that takes no coin decides, and one that takes a coin leaves the rest to the next.
  round-Covers :
      (w : Coin → ℕ) (pool : List Coin)
      → ((c : Coin) (rest : List Coin)
          → w c + weigh w rest ≡ weigh w pool
          → c.amount_mc + sum_coins rest ≡ sum_coins pool
          → 1 + length rest ≡ length pool
          → Covers w policy target pool start (step c rest))
      → Covers w policy target pool start (round policy target pool start step)
  unfolding weigh sum_coins
  round-Covers w pool next = elim (Bool-cases (leb (target + burn_of policy start) start)) [
    | inl e ↦
        subst (Covers w policy target pool start) (sym (round_enough pool e))
          (omega arith, omega arith, ground (arith, e))
    | inr e ↦ round_taking w pool next e
  ]

greedy-Covers :
    (w : Coin → ℕ) (fuel : ℕ) (policy : BurnPolicy) (target : ℕ) (pool : List Coin) (start : ℕ)
    → IsValidPolicy policy
    → length pool ≤ fuel
    → Covers w policy target pool start (greedy fuel policy target pool start)
unfolding greedy
greedy-Covers w ℕ.zero policy target pool start v h =
    round-Covers policy target start (λ c rest. out_of_fuel) v w pool
      (λ c rest e a l. absurd (omega (arith, h, l)))
greedy-Covers w (ℕ.suc n) policy target pool start v h =
    let again = λ (rest : List Coin) (at : ℕ). greedy-Covers w n policy target rest at v in
    round-Covers policy target start
      (λ c rest. prepend_coin c (greedy n policy target rest (start + c.amount_mc))) v w pool
      (λ c rest e a l.
        prepend-Covers w policy target start c pool rest
          (greedy n policy target rest (start + c.amount_mc)) e a
          (again rest (start + c.amount_mc) (omega (arith, h, l))))

-- What `_select` answers. The coins that are picked first cover the target and their own burn; the
-- sweep adds to them.
abbrev pub Pays : (Coin → ℕ) → BurnPolicy → ℕ → List Coin → Selection → Type 0
Pays w policy target coins (selected picked total left) =
    (weigh w picked + weigh w left ≡ weigh w coins)
    × (total ≡ sum_coins picked)
    × (first swept : List Coin) × (picked ≡ first ++ swept)
    × (target + burn_of policy (sum_coins first) ≤ sum_coins first)
Pays w policy target coins insufficient_funds =
    sum_coins coins < target + burn_of policy (sum_coins coins)
Pays w policy target coins _ = ⊥

sum_coins-append : (xs ys : List Coin) → sum_coins (xs ++ ys) ≡ sum_coins xs + sum_coins ys
unfolding sum_coins
sum_coins-append [] ys = omega arith
sum_coins-append (x ∷ xs) ys = omega (arith, sum_coins-append xs ys)

with_sweep-Pays :
    (w : Coin → ℕ) (policy : BurnPolicy) (target : ℕ) (coins : List Coin) (denoms_asc : List ℕ)
    (s : Selection)
    → All (λ d. 0 < d) denoms_asc
    → Covers w policy target coins 0 s
    → Pays w policy target coins (with_sweep denoms_asc s)
with_sweep-Pays w policy target coins ds (selected picked total pool) p (a, b, k) =
    let (swept, left, e, kept) = sweep_total w ds pool p in
    let sum_is : total ≡ sum_coins picked = omega (arith, b) in
    rw e (
      omega (arith, a, weigh-append w picked swept, kept),
      omega (arith, b, sum_coins-append picked swept),
      picked,
      swept,
      refl,
      subst (λ n. target + burn_of policy n ≤ n) sum_is k,
    )
with_sweep-Pays w policy target coins ds insufficient_funds p h =
    subst (λ n. n < target + burn_of policy n) (start_zero (sum_coins coins)) h
with_sweep-Pays w policy target coins ds burn_error p h = absurd h
with_sweep-Pays w policy target coins ds zero_division p h = absurd h
with_sweep-Pays w policy target coins ds out_of_fuel p h = absurd h

-- Under a valid policy and with positive denominations a selection always ends, and with no
-- exception but that for too little money. If it picks coins, they and those that it leaves are the
-- held ones, each as often, whatever a coin is counted as; the sum is theirs, and the coins picked
-- before the sweep cover the target and the burn of their own sum. If it reports too little money,
-- all the held coins do not cover the target and the burn of their sum.
pub select-Pays :
    (w : Coin → ℕ) (coins : List Coin) (target : ℕ) (policy : BurnPolicy) (denoms_desc : List ℕ)
    → IsValidPolicy policy
    → All (λ d. 0 < d) denoms_desc
    → Pays w policy target coins (select coins target policy denoms_desc)
unfolding select
select-Pays w coins target policy denoms_desc v p =
    with_sweep-Pays w policy target coins (sort_denoms denoms_desc)
      (greedy (length coins) policy target coins 0) (sort_denoms-All (λ d. 0 < d) denoms_desc p)
      (greedy-Covers w (length coins) policy target coins 0 v (omega arith))
