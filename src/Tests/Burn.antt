-- ===== src/Tests/Burn.antt =====
-- Runs of the burn arithmetic and of the codec, and the theorems about them.
use ai_cash.Prelude.{◌⊎◌, ℕ, ◌*◌, ◌≤◌, ◌≡◌, ◌↔◌, refl, true, none, some, [], ◌∷◌, arith}
use ai_cash.Prelude.Int.{pos, ◌≤ℤ◌, ◌<ℤ◌, ◌+ℤ◌}
use ai_cash.Prelude.Text.{codes, IsBytes}
use ai_cash.Burn.{ok, compute_burn, validate_policy, is_increase, validate_notice}
use ai_cash.Burn.Bounds.{compute_burn_bounds, is_increase_complete}
use ai_cash.Burn.Notice.{validate_notice_iff, NoHigher, OutlastsLocks}
use ai_cash.Codec.Base64.{b64u_encode, b64u_decode, length_accepted}
use ai_cash.Codec.Base64.RoundTrip.{b64u_decode_iff}
use ai_cash.Tests.Sample.{policy, lower_policy, policy-IsValidPolicy, lower-IsValidPolicy}

compute_burn_bounds_example :
    (b : ℕ) × (compute_burn (pos 5000) policy ≡ ok b)
    × (b ≤ 1000)
    × (b * 100 ≤ 5000)
    × ((pos 10 <ℤ pos 5000) ⊎ (b ≡ 0))
compute_burn_bounds_example = compute_burn_bounds policy 5000 policy-IsValidPolicy

burn_9000 : compute_burn (pos 9000) policy ≡ ok 9
unfolding compute_burn validate_policy
burn_9000 = refl

lower_burn_9000 : compute_burn (pos 9000) lower_policy ≡ ok 4
unfolding compute_burn validate_policy
lower_burn_9000 = refl

is_increase_complete_example : is_increase lower_policy policy ≡ true
is_increase_complete_example =
    is_increase_complete lower_policy policy 9000 4 9 lower_burn_9000 burn_9000 (omega arith)

validate_notice_iff_example :
    (validate_notice lower_policy policy (pos 0) (pos 604_800_000) (some (pos 1000)) ≡ ok tt) ↔ (
      NoHigher lower_policy policy
      ⊎ ((pos 0 +ℤ pos 604_800_000 ≤ℤ pos 604_800_000)
          × OutlastsLocks (pos 0) (pos 604_800_000) (some (pos 1000))))
validate_notice_iff_example =
    validate_notice_iff lower_policy policy (pos 0) (pos 604_800_000) (some (pos 1000))
      lower-IsValidPolicy policy-IsValidPolicy (omega arith)

b64u_decode_iff_example : (b64u_decode (codes "AQI") (some 2) ≡ some (1 ∷ 2 ∷ [])) ↔ (
    IsBytes (1 ∷ 2 ∷ [])
    × (b64u_encode (1 ∷ 2 ∷ []) ≡ codes "AQI")
    × (length_accepted (some 2) (1 ∷ 2 ∷ []) ≡ true))
b64u_decode_iff_example = b64u_decode_iff (codes "AQI") (some 2) (1 ∷ 2 ∷ [])

-- "AQJ" has spare bits that are not zero.
decode_run : b64u_decode (codes "AQI") (some 2) ≡ some (1 ∷ 2 ∷ [])
unfolding b64u_decode
decode_run = refl

decode_not_canonical : b64u_decode (codes "AQJ") none ≡ none
unfolding b64u_decode
decode_not_canonical = refl
