-- ===== src/Burn/Notice.antt =====
-- impl/aicash/burncalc.py, `effective_policy` and `validate_notice`: announced policy changes.
use ai_cash.Prelude.{◌⊎◌, ◌≡◌, ◌↔◌, inl, inr, false, Option, none, some, arith, Bool-cases}
use ai_cash.Prelude.Int.{ℤ, pos, ◌≤ℤ◌, leb_ℤ, ◌+ℤ◌, -ℤ_parts, +ℤ_parts}
use ai_cash.Burn.{BurnPolicy, ok, Announced, effective_policy, is_increase, validate_notice}
use ai_cash.Burn.Bounds.{IsValidPolicy, validate_policy_complete}

abbrev pub IsValidAnnounced : Announced → Type 0
IsValidAnnounced none = Unit
IsValidAnnounced (some (p, at)) = IsValidPolicy p

-- With valid policies one is in force at every instant, and it is valid.
pub effective_policy_total :
    (current : BurnPolicy) (next : Announced) (now : ℤ)
    → IsValidPolicy current
    → IsValidAnnounced next
    → (p : BurnPolicy) × (effective_policy current next now ≡ ok p) × IsValidPolicy p
unfolding effective_policy
effective_policy_total p none now v w = (p, rw (validate_policy_complete p v), v)
effective_policy_total p (some (q, at)) now v w = elim (Bool-cases (leb_ℤ at now)) [
  | inl e ↦ (q, rw (validate_policy_complete p v, validate_policy_complete q w, e), w)
  | inr e ↦ (p, rw (validate_policy_complete p v, validate_policy_complete q w, e), v)
]

abbrev HorizonIsNonneg : Option ℤ → Type 0
HorizonIsNonneg none = Unit
HorizonIsNonneg (some m) = pos 0 ≤ℤ m

-- No parameter of the burn goes up.
abbrev pub NoHigher : BurnPolicy → BurnPolicy → Type 0
NoHigher current next =
    (next.rate_ppm ≤ℤ current.rate_ppm)
    × (next.cap_mc ≤ℤ current.cap_mc)
    × (current.exempt_below_mc ≤ℤ next.exempt_below_mc)

-- The notice is as long as the horizon of locks, where there is one.
abbrev pub OutlastsLocks : ℤ → ℤ → Option ℤ → Type 0
OutlastsLocks announced_at effective_at none = Unit
OutlastsLocks announced_at effective_at (some m) = announced_at +ℤ m ≤ℤ effective_at

is_increase-NoHigher :
    (current next : BurnPolicy) → (is_increase current next ≡ false) ↔ NoHigher current next
unfolding is_increase
is_increase-NoHigher p q = ground arith

-- Between valid policies and with a horizon that is not negative, a notice is accepted exactly when
-- neither the rate nor the cap goes up nor the exemption down, or it is as long as seven days, of
-- 604,800,000 milliseconds, and as the horizon of locks, where there is one.
pub validate_notice_iff :
    (current next : BurnPolicy) (announced_at effective_at : ℤ) (horizon : Option ℤ)
    → IsValidPolicy current
    → IsValidPolicy next
    → HorizonIsNonneg horizon
    → (validate_notice current next announced_at effective_at horizon ≡ ok tt) ↔ (
        NoHigher current next
        ⊎ ((announced_at +ℤ pos 604_800_000 ≤ℤ effective_at)
            × OutlastsLocks announced_at effective_at horizon))
unfolding validate_notice
validate_notice_iff p q t e none v w h =
    rw (validate_policy_complete p v, validate_policy_complete q w)
      (ground (arith, is_increase-NoHigher p q, -ℤ_parts e t, +ℤ_parts t (pos 604_800_000)))
validate_notice_iff p q t e (some m) v w h =
    rw (validate_policy_complete p v, validate_policy_complete q w)
      (ground
        (arith, is_increase-NoHigher p q, -ℤ_parts e t, +ℤ_parts t (pos 604_800_000), +ℤ_parts t m))
