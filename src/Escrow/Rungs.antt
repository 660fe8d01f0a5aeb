-- ===== src/Escrow/Rungs.antt =====
-- impl/aicash/escrow.py, `rung_composition`: the value of the coins.
use ai_cash.Prelude.{
  ◌<◌, sym, ap, ==_iff, ℕ, suc, zero, ◌+◌, ◌-◌, ◌*◌, ◌/◌, ◌%◌, ◌≡◌, refl, List, [], ◌∷◌, arith,
  replicate, sum, sum-append, ltb, ◌==◌, Bool-cases, inl, inr,
}
use native.Mathlib.Nat.{div-add-mod, mul-add}
use ai_cash.Escrow.{
  Checked, ok, raised, ◌>>=◌, divide_rungs, break_rungs, break_all, coins_of, rung_composition,
  any_zero, sorted_rungs,
}

value : List (ℕ × ℕ) → ℕ
value [] = 0
value ((d, c) ∷ counts) = d * c + value counts

divide-value : (n : ℕ) (ds : List ℕ) → value (divide_rungs n ds).0 + (divide_rungs n ds).1 ≡ n
unfolding divide_rungs value
divide-value n [] = omega arith
divide-value n (d ∷ ds) = omega (arith, divide-value (n % d) ds, div-add-mod n d)

ok_eq {ℓ} : {A : Type ℓ} {a b : A} → Checked.ok a ≡ ok b → a ≡ b
ok_eq h = cc

-- One coin that becomes `d / e` of the next denomination is worth as much.
broken_value : (d c e k : ℕ) → d % e ≡ 0 → 0 < c → d * (c - 1) + e * (k + d / e) ≡ d * c + e * k
broken_value d c e k h p =
    let q : c ≡ c - 1 + 1 = omega arith in
    omega (arith, div-add-mod d e, h, ap (λ n. d * n) q, mul-add d (c - 1) 1, mul-add e k (d / e))

bind_ok {ℓ κ} :
    {A : Type ℓ} {B : Type κ} (m : Checked A) (f : A → Checked B) {b : B}
    → (m >>= f) ≡ ok b
    → (a : A) × (m ≡ ok a) × (f a ≡ ok b)
bind_ok (ok a) f h = (a, refl, h)
bind_ok (raised e) f h = cc

break-value :
    (d c : ℕ) (counts out : List (ℕ × ℕ))
    → break_rungs d c counts ≡ ok out
    → value out ≡ d * c + value counts
unfolding break_rungs value
break-value d c [] out h = sym (ap value (ok_eq h))
break-value d c ((e, k) ∷ counts) out h = elim (Bool-cases (d % e == 0)) [
  | inr z ↦ absurd (ground arith)
  | inl z ↦ elim (Bool-cases (ltb 0 c)) [
    | inl p ↦
        let (rest, q, r) = bind_ok (break_rungs e (k + d / e) counts) _ (rw (z, p) at h) in
        omega (
          arith,
          ap value (ok_eq r),
          break-value e (k + d / e) counts rest q,
          broken_value d c e k ((==_iff (d % e) 0).0 z) (ground arith),
        )
    | inr p ↦
        let (rest, q, r) = bind_ok (break_rungs e k counts) _ (rw (z, p) at h) in
        omega (arith, ap value (ok_eq r), break-value e k counts rest q)
  ]
]

sum-replicate : (c d : ℕ) → sum (replicate c d) ≡ d * c
sum-replicate zero d = omega arith
sum-replicate (suc c) d = omega (arith, sum-replicate c d, mul-add d c 1)

sum-coins_of : (counts : List (ℕ × ℕ)) → sum (coins_of counts) ≡ value counts
unfolding coins_of value
sum-coins_of [] = refl
sum-coins_of ((d, c) ∷ counts) =
    omega
      (arith, sum-append (replicate c d) (coins_of counts), sum-replicate c d, sum-coins_of counts)

break_all-value :
    (counts : List (ℕ × ℕ)) (remaining : ℕ) (out : List (ℕ × ℕ))
    → break_all (counts, remaining) ≡ ok out
    → value out ≡ value counts + remaining
unfolding value
break_all-value [] remaining out h = cc
break_all-value ((d, c) ∷ counts) remaining out h = elim (Bool-cases (remaining == 0)) [
  | inr z ↦ absurd (ground arith)
  | inl z ↦ omega (arith, break-value d c counts out (rw z at h), (==_iff remaining 0).0 z)
]

-- The coins of a composition add up to the total.
pub rung_composition_total :
    (total_mc : ℕ) (denoms_desc coins : List ℕ)
    → rung_composition total_mc denoms_desc ≡ ok coins
    → sum coins ≡ total_mc
unfolding rung_composition
rung_composition_total n ds coins h = elim (Bool-cases (any_zero (sorted_rungs ds))) [
  | inl z ↦ absurd (ground arith)
  | inr z ↦
      let divided = divide_rungs n (sorted_rungs ds) in
      let (counts, q, r) = bind_ok (break_all divided) _ (rw z at h) in
      omega (
        arith,
        ap sum (ok_eq r),
        sum-coins_of counts,
        break_all-value divided.0 divided.1 counts q,
        divide-value n (sorted_rungs ds),
      )
]
