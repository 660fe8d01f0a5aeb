-- ===== src/Wallet.antt =====
-- impl/aicash/wallet.py, `_decompose`: the coins of an amount.
pub mod Selection
use ai_cash.Prelude.{
  ℕ, ◌+◌, ◌*◌, ◌/◌, ◌-◌, ◌≡◌, ◌<◌, refl, Option, none, some, List, [], ◌∷◌, ◌++◌, arith, replicate,
  sum, sum-append, All, ◌==◌, if◌then◌else◌, Bool-cases, inl, inr,
}
use native.Mathlib.Nat.{div-add-mod, mul_comm, mul-add}

abbrev prepend : List ℕ → Option (List ℕ) → Option (List ℕ)
prepend xs none = none
prepend xs (some ys) = some (xs ++ ys)

-- Largest first; `none` is `ZeroDivisionError`.
unfoldable pub decompose : ℕ → List ℕ → Option (List ℕ)
decompose remaining [] = some []
decompose remaining (d ∷ ds) =
    let rest = decompose (remaining - remaining / d * d) ds in
    if d == 0 then none else prepend (replicate (remaining / d) d) rest

sum-replicate : (c d : ℕ) → sum (replicate c d) ≡ c * d
sum-replicate ℕ.zero d = omega arith
sum-replicate (ℕ.suc c) d =
    omega (arith, sum-replicate c d, mul_comm (c + 1) d, mul_comm c d, mul-add d c 1)

-- Over positive denominations that end with 1, the coins of an amount add up to it.
pub decompose_exact :
    (amount_mc : ℕ) (larger : List ℕ)
    → All (λ d. 0 < d) larger
    → (coins : List ℕ) × (decompose amount_mc (larger ++ 1 ∷ []) ≡ some coins)
      × (sum coins ≡ amount_mc)
unfolding decompose
decompose_exact n [] h = (
  replicate (n / 1) 1 ++ [],
  refl,
  omega (arith, sum-append (replicate (n / 1) 1) [], sum-replicate (n / 1) 1),
)
decompose_exact n (d ∷ ds) (p, ps) =
    let (coins, e, s) = decompose_exact (n - n / d * d) ds ps in
    elim (Bool-cases (d == 0)) [
      | inl z ↦ absurd (ground arith)
      | inr z ↦ (
        replicate (n / d) d ++ coins,
        rw (z, e, decompose) refl,
        omega (
          arith,
          sum-append (replicate (n / d) d) coins,
          sum-replicate (n / d) d,
          s,
          div-add-mod n d,
          mul_comm d (n / d),
        ),
      )
    ]
