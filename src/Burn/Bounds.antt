-- ===== src/Burn/Bounds.antt =====
-- impl/aicash/burncalc.py, `validate_policy` and `compute_burn`: when they answer, and how much.
use ai_cash.Prelude.{
  ℕ, ◌*◌, ◌/◌, ◌≤◌, ◌<◌, min, ◌≡◌, ◌⊎◌, inl, inr, true, false, arith, Bool-cases, if◌then◌else◌,
}
use ai_cash.Prelude.Int.{ℤ, pos, pos_part, ◌≤ℤ◌, ◌<ℤ◌, leb_ℤ}
use native.Mathlib.Nat.{mul-le-mul_left, mul-le-mul_right}
use ai_cash.Burn.{
  BurnPolicy, ok, raised, policy_error, validate_policy, compute_burn, max_rate_ppm,
  min_exempt_below_mc, is_increase,
}

-- The rule of §7.3 for a policy, written as bounds.
pub record IsValidPolicy (p : BurnPolicy) : Type 0 where
  pub rate_low : pos 0 ≤ℤ p.rate_ppm
  pub rate_high : p.rate_ppm ≤ℤ pos max_rate_ppm
  pub cap_low : pos 0 ≤ℤ p.cap_mc
  pub exempt_low : pos min_exempt_below_mc ≤ℤ p.exempt_below_mc

pub validate_policy_sound : (p : BurnPolicy) → validate_policy p ≡ ok tt → IsValidPolicy p
unfolding validate_policy
validate_policy_sound p h = ground arith

pub validate_policy_complete : (p : BurnPolicy) → IsValidPolicy p → validate_policy p ≡ ok tt
unfolding validate_policy
validate_policy_complete p v = ground arith

pub compute_burn_refuses :
    (p : BurnPolicy) (n : ℤ)
    → validate_policy p ≡ raised policy_error
    → compute_burn n p ≡ raised policy_error
unfolding compute_burn
compute_burn_refuses p n e = rw e

-- The burn of a valid policy on a sum that is not negative.
abbrev pub burn_of : BurnPolicy → ℕ → ℕ
burn_of p n =
    if leb_ℤ (pos n) p.exempt_below_mc
    then 0
    else min (pos_part p.cap_mc) (n * pos_part p.rate_ppm / 1_000_000)

pub compute_burn-eq :
    (p : BurnPolicy) (n : ℕ) → IsValidPolicy p → compute_burn (pos n) p ≡ ok (burn_of p n)
unfolding compute_burn
compute_burn-eq p n v = rw (validate_policy_complete p v) (ground arith)

scaled_le : (n r : ℕ) → r ≤ 10_000 → n * r / 1_000_000 * 100 ≤ n
scaled_le n r h = omega (arith, mul-le-mul_left n h)

rate_le : (p : BurnPolicy) → IsValidPolicy p → pos_part p.rate_ppm ≤ 10_000
rate_le p v = ground (arith, v.rate_high)

-- On a valid policy and a sum that is not negative a burn is computed. It is at most the cap, at
-- most one hundredth of the sum, and zero up to the exemption.
pub compute_burn_bounds :
    (p : BurnPolicy) (n : ℕ)
    → IsValidPolicy p
    → (b : ℕ) × (compute_burn (pos n) p ≡ ok b)
      × (b ≤ pos_part p.cap_mc)
      × (b * 100 ≤ n)
      × ((p.exempt_below_mc <ℤ pos n) ⊎ (b ≡ 0))
compute_burn_bounds p n v = (
  burn_of p n,
  compute_burn-eq p n v,
  ground arith,
  ground (arith, scaled_le n (pos_part p.rate_ppm) (rate_le p v)),
  ground arith,
)

pub burn_of-le : (p : BurnPolicy) (n : ℕ) → IsValidPolicy p → burn_of p n ≤ n
burn_of-le p n v = ground (arith, scaled_le n (pos_part p.rate_ppm) (rate_le p v))

pub burn_of_mono_sum : (p : BurnPolicy) (n m : ℕ) → n ≤ m → burn_of p n ≤ burn_of p m
burn_of_mono_sum p n m h = ground (arith, mul-le-mul_right (pos_part p.rate_ppm) h)

validate_policy-cases :
    (p : BurnPolicy) → (validate_policy p ≡ ok tt) ⊎ (validate_policy p ≡ raised policy_error)
unfolding validate_policy
validate_policy-cases p = ground arith

-- What a burn that was computed says of the policy, and its value.
pub compute_burn-eq-ok :
    (p : BurnPolicy) (n b : ℕ) → compute_burn (pos n) p ≡ ok b → IsValidPolicy p × (b ≡ burn_of p n)
compute_burn-eq-ok p n b h = elim (validate_policy-cases p) [
  | inl e ↦ let v = validate_policy_sound p e in (v, ground (arith, h, compute_burn-eq p n v))
  | inr e ↦ ground (arith, compute_burn_refuses p (pos n) e)
]

-- A larger sum never burns less.
pub compute_burn_mono :
    (p : BurnPolicy) (n m b c : ℕ)
    → n ≤ m
    → compute_burn (pos n) p ≡ ok b
    → compute_burn (pos m) p ≡ ok c
    → b ≤ c
compute_burn_mono p n m b c h hn hm = omega (
  arith,
  (compute_burn-eq-ok p n b hn).1,
  (compute_burn-eq-ok p m c hm).1,
  burn_of_mono_sum p n m h,
)

no_increase_bounds :
    (p q : BurnPolicy)
    → IsValidPolicy p
    → IsValidPolicy q
    → is_increase p q ≡ false
    → (pos_part q.rate_ppm ≤ pos_part p.rate_ppm)
      × (pos_part q.cap_mc ≤ pos_part p.cap_mc)
      × (p.exempt_below_mc ≤ℤ q.exempt_below_mc)
unfolding is_increase
no_increase_bounds p q v w e = ground (arith, v.rate_low, w.rate_low)

burn_of_mono_policy :
    (p q : BurnPolicy) (n : ℕ)
    → IsValidPolicy p
    → IsValidPolicy q
    → is_increase p q ≡ false
    → burn_of q n ≤ burn_of p n
burn_of_mono_policy p q n v w e =
    let (r, c, x) = no_increase_bounds p q v w e in ground (arith, mul-le-mul_left n r)

-- What `is_increase` calls no increase raises no burn.
pub is_increase_complete :
    (current next : BurnPolicy) (n b c : ℕ)
    → compute_burn (pos n) current ≡ ok b
    → compute_burn (pos n) next ≡ ok c
    → b < c
    → is_increase current next ≡ true
is_increase_complete current next n b c hb hc h =
    let (v, eb) = compute_burn-eq-ok current n b hb in
    let (w, ec) = compute_burn-eq-ok next n c hc in
    elim (Bool-cases (is_increase current next)) [
      | inl e ↦ e
      | inr e ↦ absurd (omega (arith, eb, ec, burn_of_mono_policy current next n v w e))
    ]
