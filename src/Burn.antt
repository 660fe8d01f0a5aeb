-- ===== src/Burn.antt =====
-- impl/aicash/burncalc.py: the anti-spam burn of one exchange call, and burn-policy change notices.
-- The annotated argument types are taken at their word, so `_require_int` has nothing to refuse.
pub mod Bounds
pub mod Notice
use ai_cash.Prelude.{
  ℕ, ◌-◌, ◌*◌, ◌/◌, max, min, Bool, true, false, ◌||◌, Option, none, some, ltb, leb, if◌then◌else◌,
}
use ai_cash.Prelude.Int.{ℤ, pos, pos_part, ◌-ℤ◌, ltb_ℤ, leb_ℤ}

-- `PolicyError` and `ValueError`.
pub data BurnError : Type 0 where
  policy_error value_error : BurnError

pub data Checked (A : Type 0) : Type 0 where
  ok : A → Checked A
  raised : BurnError → Checked A

infixl 5 ◌>>=◌ ◌>>◌
abbrev pub ◌>>=◌ : {A B : Type 0} → Checked A → (A → Checked B) → Checked B
ok a >>= f = f a
raised e >>= f = raised e

abbrev pub ◌>>◌ : {B : Type 0} → Checked (Unit {0}) → Checked B → Checked B
m >> k = m >>= λ _. k

abbrev pub raise_if : Bool → BurnError → Checked (Unit {0})
raise_if true e = raised e
raise_if false e = ok tt

pub record BurnPolicy : Type 0 where
  pub rate_ppm : ℤ
  pub cap_mc : ℤ
  pub exempt_below_mc : ℤ

abbrev pub seven_days_ms : ℕ
seven_days_ms = 7 * 24 * 60 * 60 * 1000

abbrev pub max_rate_ppm : ℕ
max_rate_ppm = 10_000

abbrev pub min_exempt_below_mc : ℕ
min_exempt_below_mc = 10

unfoldable pub validate_policy : BurnPolicy → Checked (Unit {0})
validate_policy p = do
  raise_if (ltb_ℤ p.rate_ppm (pos 0) || ltb_ℤ (pos max_rate_ppm) p.rate_ppm) policy_error
  raise_if (ltb_ℤ p.cap_mc (pos 0)) policy_error
  raise_if (ltb_ℤ p.exempt_below_mc (pos min_exempt_below_mc)) policy_error
  ok tt

-- Past the guards no number is negative, so its `pos_part` is the number itself.
unfoldable pub compute_burn : ℤ → BurnPolicy → Checked ℕ
compute_burn sum_inputs_mc p = do
  validate_policy p
  raise_if (ltb_ℤ sum_inputs_mc (pos 0)) value_error
  if leb_ℤ sum_inputs_mc p.exempt_below_mc
      then ok 0
      else ok (min (pos_part p.cap_mc) (pos_part sum_inputs_mc * pos_part p.rate_ppm / 1_000_000))

-- `burn_policy_next`: a policy and the instant from which it is in force.
abbrev pub Announced : Type 0
Announced = Option (BurnPolicy × ℤ)

unfoldable pub effective_policy : BurnPolicy → Announced → ℤ → Checked BurnPolicy
effective_policy current none now_ms = do validate_policy current; ok current
effective_policy current (some (next_policy, effective_at)) now_ms = do
  validate_policy current
  validate_policy next_policy
  if leb_ℤ effective_at now_ms then ok next_policy else ok current

unfoldable pub is_increase : BurnPolicy → BurnPolicy → Bool
is_increase current next =
    ltb_ℤ current.rate_ppm next.rate_ppm
    || (ltb_ℤ current.cap_mc next.cap_mc || ltb_ℤ next.exempt_below_mc current.exempt_below_mc)

-- `max(SEVEN_DAYS_MS, max_lock_expiry_ms or 0)`, past the guard that the horizon is not negative.
abbrev pub required_ms : Option ℤ → ℕ
required_ms none = seven_days_ms
required_ms (some m) = max seven_days_ms (pos_part m)

abbrev pub horizon_is_negative : Option ℤ → Bool
horizon_is_negative none = false
horizon_is_negative (some m) = ltb_ℤ m (pos 0)

unfoldable pub validate_notice : BurnPolicy → BurnPolicy → ℤ → ℤ → Option ℤ → Checked (Unit {0})
validate_notice current next announced_at effective_at max_lock_expiry_ms = do
  validate_policy current
  validate_policy next
  raise_if (horizon_is_negative max_lock_expiry_ms) policy_error
  if is_increase current next
      then raise_if (ltb_ℤ (effective_at -ℤ announced_at) (pos (required_ms max_lock_expiry_ms)))
          policy_error
      else ok tt
