-- ===== src/Escrow/Deadlines.antt =====
-- impl/aicash/escrow.py, `compute_deadlines`: what the order of the deadlines protects.
use ai_cash.Prelude.{ℕ, ◌≡◌, ◌≢◌, some, arith}
use ai_cash.Prelude.Int.{ℤ, pos, ◌≤ℤ◌, ◌<ℤ◌, ◌+ℤ◌, +ℤ_parts}
use ai_cash.Codec.Key.{Hash}
use ai_cash.Escrow.{ok, require_ms, compute_deadlines}
use ai_cash.Lock.{Lock, InputForm, refund, accepted, evaluate}
use ai_cash.Lock.Paths.{evaluate_iff}

-- An expiry that is computed comes after the decision by the grace and the margin, of which the
-- margin is not zero, and the decision after the evidence.
pub compute_deadlines_order :
    (evidence decision grace margin expiry : ℤ)
    → compute_deadlines evidence decision grace margin ≡ ok expiry
    → (pos 0 ≤ℤ evidence)
      × (evidence <ℤ decision)
      × (decision <ℤ expiry)
      × (decision +ℤ grace <ℤ expiry)
unfolding compute_deadlines require_ms
compute_deadlines_order ev de gr ma ex h = ground (arith, h, +ℤ_parts de gr, +ℤ_parts (de +ℤ gr) ma)

module _ ⦃hash : Hash⦄ where
  -- No refund of a lock with such an expiry, or a later one, is accepted at an instant up to the
  -- decision and the grace after it.
  pub no_early_refund :
      (evidence decision grace margin expiry : ℤ) (l : Lock) (form : InputForm) (now : ℕ)
      → compute_deadlines evidence decision grace margin ≡ ok expiry
      → expiry ≤ℤ l.expiry
      → pos now ≤ℤ decision +ℤ grace
      → form.kind ≡ refund
      → evaluate (some l) form now ≢ accepted
  no_early_refund ev de gr ma ex l form now h late early k a =
      let (_, _, _, o) = compute_deadlines_order ev de gr ma ex h in
      let allowed = (evaluate_iff (some l) form now).0 a in ground (arith, o, allowed, k)
