-- ===== src/Channel/Descriptor.antt =====
-- impl/aicash/channels.py, `_policy_from_descriptor`: the burn that a client of a mint reckons with.
use ai_cash.Burn.Notice.{IsValidAnnounced}
use ai_cash.Burn.Bounds.{validate_policy_complete, IsValidPolicy}
use ai_cash.Prelude.{if◌then◌else◌, arith, ap, ◌≡◌, refl, Option, none, some}
use ai_cash.Prelude.Int.{ℤ, leb_ℤ}
use ai_cash.Prelude.Text.{codes}
use ai_cash.Burn
use ai_cash.Burn.{BurnPolicy, Announced, effective_policy}
use ai_cash.Codec.Value.{Value, Fields, get}
use ai_cash.Lock.{as_int}

abbrev pub int_field : Option Value → Option ℤ
int_field none = none
int_field (some v) = as_int v

abbrev pub policy_of : Option ℤ → Option ℤ → Option ℤ → Option BurnPolicy
policy_of (some rate) (some cap) (some exempt) =
    some (record { rate_ppm = rate; cap_mc = cap; exempt_below_mc = exempt })
policy_of _ _ _ = none

-- A policy's three fields; `none` where a key is missing, or a value is no plain int, which
-- `effective_policy` refuses.
unfoldable pub read_policy : Option Value → Option BurnPolicy
read_policy (some (Value.dict fs)) =
    policy_of (int_field (get (codes "rate_ppm") fs)) (int_field (get (codes "cap_mc") fs))
      (int_field (get (codes "exempt_below_mc") fs))
read_policy _ = none

abbrev pub announced_of : Option BurnPolicy → Option ℤ → Option Announced
announced_of (some p) (some at) = some (some (p, at))
announced_of _ _ = none

-- `burn_policy_next`: absent and null are no notice.
unfoldable pub read_announced : Option Value → Option Announced
read_announced none = some none
read_announced (some Value.null) = some none
read_announced (some (Value.dict fs)) =
    announced_of (read_policy (get (codes "policy") fs)) (int_field (get (codes "effective_at") fs))
read_announced _ = none

abbrev pub policy_in_force :
    Option BurnPolicy → Option Announced → Option ℤ → Option (Burn.Checked BurnPolicy)
policy_in_force (some current) (some next) (some mint_time) =
    some (effective_policy current next mint_time)
policy_in_force _ _ _ = none

-- The outer `none` is a `KeyError` or a `TypeError`.
unfoldable pub policy_from_descriptor : Fields → Option (Burn.Checked BurnPolicy)
policy_from_descriptor desc =
    policy_in_force (read_policy (get (codes "burn_policy") desc))
      (read_announced (get (codes "burn_policy_next") desc))
      (int_field (get (codes "mint_time") desc))

-- A value has the three fields of a policy, among any others and in any order.
pub record PublishesPolicy (v : Option Value) (p : BurnPolicy) : Type 0 where
  pub fields : Fields
  pub is_dict : v ≡ some (Value.dict fields)
  pub rate : get (codes "rate_ppm") fields ≡ some (Value.int p.rate_ppm)
  pub cap : get (codes "cap_mc") fields ≡ some (Value.int p.cap_mc)
  pub exempt : get (codes "exempt_below_mc") fields ≡ some (Value.int p.exempt_below_mc)

-- A value is no notice, by its absence or by null, or the notice of a policy and its instant.
pub data PublishesNotice (v : Option Value) : Announced → Type 0 where
  absent : v ≡ none → PublishesNotice v none
  null : v ≡ some Value.null → PublishesNotice v none
  announces :
      (fields : Fields) {q : BurnPolicy} {at : ℤ}
      → v ≡ some (Value.dict fields)
      → PublishesPolicy (get (codes "policy") fields) q
      → get (codes "effective_at") fields ≡ some (Value.int at)
      → PublishesNotice v (some (q, at))

-- The policy of an instant: the next one from its own instant on.
abbrev pub policy_at : BurnPolicy → Announced → ℤ → BurnPolicy
policy_at p none now = p
policy_at p (some (q, at)) now = if leb_ℤ at now then q else p

read_policy-PublishesPolicy :
    (v : Option Value) (p : BurnPolicy) → PublishesPolicy v p → read_policy v ≡ some p
unfolding read_policy as_int
read_policy-PublishesPolicy v p d = rw (d.is_dict, d.rate, d.cap, d.exempt, read_policy) refl

read_announced-PublishesNotice :
    (v : Option Value) (next : Announced) → PublishesNotice v next → read_announced v ≡ some next
unfolding read_announced as_int
read_announced-PublishesNotice v none (absent e) = rw e refl
read_announced-PublishesNotice v none (null e) = rw e refl
read_announced-PublishesNotice v (some (q, at)) (announces fields e d t) =
    rw (e, read_policy-PublishesPolicy (get (codes "policy") fields) q d, t, read_announced) refl

effective_policy-policy_at :
    (p : BurnPolicy) (next : Announced) (now : ℤ)
    → IsValidPolicy p
    → IsValidAnnounced next
    → effective_policy p next now ≡ Burn.ok (policy_at p next now)
unfolding effective_policy
effective_policy-policy_at p none now v w = rw (validate_policy_complete p v) refl
effective_policy-policy_at p (some (q, at)) now v w =
    rw (validate_policy_complete p v, validate_policy_complete q w) (ground arith)

-- From any descriptor that has the fields of a valid policy, of a valid change notice or of none, and
-- of the mint's instant, a client reads the policy of that instant: the announced one from its own
-- instant on, the current one before.
pub policy_from_descriptor_lem :
    (desc : Fields) (p : BurnPolicy) (next : Announced) (now : ℤ)
    → IsValidPolicy p
    → IsValidAnnounced next
    → PublishesPolicy (get (codes "burn_policy") desc) p
    → PublishesNotice (get (codes "burn_policy_next") desc) next
    → get (codes "mint_time") desc ≡ some (Value.int now)
    → policy_from_descriptor desc ≡ some (Burn.ok (policy_at p next now))
unfolding policy_from_descriptor as_int
policy_from_descriptor_lem desc p next now v w current announced at =
    rw
      (
        read_policy-PublishesPolicy (get (codes "burn_policy") desc) p current,
        read_announced-PublishesNotice (get (codes "burn_policy_next") desc) next announced,
        at,
        policy_from_descriptor,
      )
      (ap some (effective_policy-policy_at p next now v w))
