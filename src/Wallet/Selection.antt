-- ===== src/Wallet/Selection.antt =====
-- impl/aicash/wallet.py, `_select`: the coins that pay.
pub mod Weights
pub mod Covering
use ai_cash.Prelude.{
  ℕ, ◌+◌, ◌-◌, ◌*◌, ◌/◌, Option, none, some, List, [], ◌∷◌, ◌++◌, length, leb, ltb, ◌==◌,
  if◌then◌else◌, ◌&&◌, min,
}
use ai_cash.Prelude.Int.{pos}
use ai_cash.Prelude.Text.{Text}
use ai_cash.Burn
use ai_cash.Burn.{BurnPolicy, compute_burn}

-- A row of `_held_coins`.
pub record Coin : Type 0 where
  pub key : Text
  pub secret_b64u : Text
  pub amount_mc : ℕ

-- The first coin that is not above the deficit, and the others.
unfoldable pub first_fit : ℕ → List Coin → Option (Coin × List Coin)
first_fit deficit [] = none
first_fit deficit (c ∷ pool) =
    let rest = first_fit deficit pool in
    if leb c.amount_mc deficit
    then some (c, pool)
    else elim rest [ none ↦ none | some (d, others) ↦ some (d, c ∷ others) ]

-- `pool.pop(len(pool) - 1)`
unfoldable pub pop_last : Coin → List Coin → Coin × List Coin
pop_last c [] = (c, [])
pop_last c (d ∷ pool) = let (last, others) = pop_last d pool in (last, c ∷ others)

unfoldable pub pop_coin : ℕ → Coin → List Coin → Coin × List Coin
pop_coin deficit c pool = elim (first_fit deficit (c ∷ pool)) [
  | some taken ↦ taken
  | none ↦ pop_last c pool
]

-- What was picked, its sum, and what is left; the exceptions, of the burn and of a division too; the
-- fuel's end.
pub data Selection : Type 0 where
  selected : (picked : List Coin) (total : ℕ) (pool : List Coin) → Selection
  insufficient_funds : Selection
  burn_error : Selection
  zero_division : Selection
  out_of_fuel : Selection

abbrev pub prepend_coin : Coin → Selection → Selection
prepend_coin c (selected picked total pool) = selected (c ∷ picked) total pool
prepend_coin c s = s

-- One round of the loop; `step` takes a coin.
unfoldable pub round : BurnPolicy → ℕ → List Coin → ℕ → (Coin → List Coin → Selection) → Selection
round policy target pool total step = elim (compute_burn (pos total) policy) [
  | Burn.raised e ↦ burn_error
  | Burn.ok burn ↦ if leb (target + burn) total then selected [] total pool else elim pool [
    | [] ↦ insufficient_funds
    | c ∷ others ↦
        step (pop_coin (target + burn - total) c others).0
          (pop_coin (target + burn - total) c others).1
  ]
]

unfoldable pub greedy : ℕ → BurnPolicy → ℕ → List Coin → ℕ → Selection
greedy ℕ.zero policy target pool total = round policy target pool total (λ c rest. out_of_fuel)
greedy (ℕ.suc n) policy target pool total =
    round policy target pool total
      (λ c rest. prepend_coin c (greedy n policy target rest (total + c.amount_mc)))

unfoldable pub count_of : ℕ → List Coin → ℕ
count_of d [] = 0
count_of d (c ∷ pool) = (if c.amount_mc == d then 1 else 0) + count_of d pool

-- The first coins of an amount, and the others.
unfoldable pub take_of : ℕ → ℕ → List Coin → List Coin × List Coin
take_of d n [] = ([], [])
take_of d n (c ∷ pool) =
    let fewer = take_of d (n - 1) pool in
    let same = take_of d n pool in
    if c.amount_mc == d && ltb 0 n then (c ∷ fewer.0, fewer.1) else (same.0, c ∷ same.1)

-- How many coins of a rung are swept, of so many that are left.
abbrev pub sweep_count : ℕ → ℕ → ℕ
sweep_count base left =
    if ltb (base - 1) left then min ((left - (base - 1) + (base - 1)) / base * base) left else 0

abbrev pub swept_first : List Coin → Option (List Coin × List Coin) → Option (List Coin × List Coin)
swept_first taken none = none
swept_first taken (some (more, left)) = some (taken ++ more, left)

-- The rungs below the top, smallest first: what is swept, and what is left. `none` is a division by
-- zero.
unfoldable pub sweep : List ℕ → List Coin → Option (List Coin × List Coin)
sweep [] pool = some ([], pool)
sweep (d ∷ []) pool = some ([], pool)
sweep (d ∷ above ∷ ds) pool =
    let taken = take_of d (sweep_count (above / d) (count_of d pool)) pool in
    let more = sweep (above ∷ ds) taken.1 in if d == 0 then none else swept_first taken.0 more

unfoldable pub sum_coins : List Coin → ℕ
sum_coins [] = 0
sum_coins (c ∷ cs) = c.amount_mc + sum_coins cs

abbrev pub with_swept : List Coin → ℕ → Option (List Coin × List Coin) → Selection
with_swept picked total none = zero_division
with_swept picked total (some (swept, left)) =
    selected (picked ++ swept) (total + sum_coins swept) left

abbrev pub with_sweep : List ℕ → Selection → Selection
with_sweep denoms_asc (selected picked total pool) = with_swept picked total (sweep denoms_asc pool)
with_sweep denoms_asc s = s

unfoldable pub insert_denom : ℕ → List ℕ → List ℕ
insert_denom d [] = d ∷ []
insert_denom d (e ∷ ds) = let rest = insert_denom d ds in if leb d e then d ∷ e ∷ ds else e ∷ rest

-- `sorted(denoms_desc)`
unfoldable pub sort_denoms : List ℕ → List ℕ
sort_denoms [] = []
sort_denoms (d ∷ ds) = insert_denom d (sort_denoms ds)

-- `_select`: every round takes a coin, so that their number is fuel enough.
unfoldable pub select : List Coin → ℕ → BurnPolicy → List ℕ → Selection
select coins target policy denoms_desc =
    with_sweep (sort_denoms denoms_desc) (greedy (length coins) policy target coins 0)
