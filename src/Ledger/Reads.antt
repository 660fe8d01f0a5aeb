-- ===== src/Ledger/Reads.antt =====
-- impl/aicash/ledgerstore.py, `status`, `supply` and `prune`, and the boot of a ledger.
pub mod Pruning
use ai_cash.Prelude.{
  ℕ, ◌+◌, ◌-◌, Bool, true, false, ◌&&◌, Option, none, some, List, [], ◌∷◌, length, is_some, ltb,
  if◌then◌else◌, map,
}
use ai_cash.Prelude.Int.{ℤ, pos, ltb_ℤ}
use ai_cash.Prelude.Text.{Text}
use ai_cash.Burn
use ai_cash.Burn.{BurnPolicy, Announced, validate_policy}
use ai_cash.Codec.Base64.{b64u_decode}
use ai_cash.Lock.{Lock}
use ai_cash.Ledger.Rows.{unspent_sum}
use ai_cash.Ledger.State.{Entry, Stored, Db, Config}
use ai_cash.Ledger.Table.{Table, lookup, delete_where, count_where}

-- A result of `status`: a spent flag with the fields of a known entry.
pub data Status : Type 0 where
  unknown : Status
  known : Bool → ℕ → Option Lock → Option ℕ → Option Text → Status

abbrev pub status_of : Option Entry → Status
status_of none = Status.unknown
status_of (some e) = known e.spent e.amount_mc e.lock e.spent_at e.claim_witness

unfoldable pub status_one : Table Entry → Text → Status
status_one t h =
    if is_some (b64u_decode h (some 32)) then status_of (lookup h t) else Status.unknown

-- The results, in the order of the hashes.
unfoldable pub status : Db → List Text → List Status
status db hashes = map (status_one db.entries) hashes

pub record Supply : Type 0 where
  pub outstanding_mc : ℕ
  pub cumulative_issued_mc : ℕ
  pub cumulative_burned_mc : ℕ

unfoldable pub supply : Db → Supply
supply db = record {
  outstanding_mc = unspent_sum db.entries;
  cumulative_issued_mc = db.cumulative_issued_mc;
  cumulative_burned_mc = db.cumulative_burned_mc;
}

-- `spent = 1 AND spent_at < cutoff`; a comparison with NULL does not hold.
abbrev is_before : Option ℕ → ℕ → Bool
is_before none cutoff = false
is_before (some at) cutoff = ltb at cutoff

abbrev pub is_stale : ℕ → Entry → Bool
is_stale cutoff e = e.spent && is_before e.spent_at cutoff

-- The tables, and the number of entries deleted. A cutoff before the epoch deletes nothing, and so
-- does 0, where subtraction stops.
unfoldable pub prune : Config → ℕ → Db → Db × ℕ
prune cfg now db =
    let cutoff = now - cfg.recovery_window_ms in
    (
      record db {
        entries = delete_where (is_stale cutoff) db.entries;
        idempotency = delete_where (λ (s : Stored). ltb s.created_at cutoff) db.idempotency;
      },
      count_where (is_stale cutoff) db.entries,
    )

abbrev valid_policy : BurnPolicy → Bool
valid_policy p = elim (validate_policy p) [ Burn.ok _ ↦ true | Burn.raised _ ↦ false ]

-- `_validate_next`
unfoldable pub validate_next : Announced → Bool
validate_next none = true
validate_next (some (p, effective_at)) =
    if valid_policy p then (if ltb_ℤ effective_at (pos 0) then false else true) else false

abbrev horizon_accepted : Option ℤ → Bool
horizon_accepted none = true
horizon_accepted (some m) = ltb_ℤ (pos 0) m

-- `Ledger.__init__`'s checks of its numbers; `false` is an exception.
unfoldable pub config_accepted : BurnPolicy → Announced → ℤ → Option ℤ → Bool
config_accepted policy next recovery_window_ms max_lock_expiry_ms =
    valid_policy policy
    && (validate_next next
        && ((if ltb_ℤ recovery_window_ms (pos 0) then false else true)
            && horizon_accepted max_lock_expiry_ms))

-- `adopt_burn_policy_next`; `none` is `ValueError`.
unfoldable pub adopt_burn_policy_next : Config → Announced → Option Config
adopt_burn_policy_next cfg none = none
adopt_burn_policy_next cfg (some next) =
    if validate_next (some next)
    then elim cfg.burn_policy_next [
      | none ↦ some (record cfg { burn_policy_next = some next })
      | some _ ↦ none
    ]
    else none
