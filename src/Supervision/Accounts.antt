-- ===== src/Supervision/Accounts.antt =====
-- impl/aicash/supervision.py: the row helpers of `_SupCore`: finding an agent, journal sums, caps.
use ai_cash.Prelude.{
  ℕ, ◌+◌, Bool, false, ◌&&◌, ◌||◌, not, Option, none, some, List, [], ◌∷◌, ltb, if◌then◌else◌,
}
use ai_cash.Prelude.Int.{pos, ◌+ℤ◌, ◌-ℤ◌}
use ai_cash.Prelude.Text.{Text, text_eq}
use ai_cash.Codec.Value.{Value}
use ai_cash.Ledger.Table.{Table, lookup}
use ai_cash.Supervision.{Agent, Line, LineKind, Unicode, plain_text, is_debit, hour_ms, day_ms}
use ai_cash.Supervision.Rows.{update_row}

module _ ⦃unicode : Unicode⦄ where
  -- `_agent`, with the id that the row was found by.
  unfoldable pub find_agent : Option Value → Table Agent → Option (Text × Agent)
  find_agent id agents = elim (plain_text id) [
    | none ↦ none
    | some k ↦ elim (lookup k agents) [ none ↦ none | some a ↦ some (k, a) ]
  ]

  -- `_operator_agent`
  unfoldable pub operator_agent : Text → Option Value → Table Agent → Option (Text × Agent)
  operator_agent operator_id id agents = elim (find_agent id agents) [
    | none ↦ none
    | some (k, a) ↦ if text_eq a.operator_id operator_id then some (k, a) else none
  ]

-- The sum of the lines that a test selects.
unfoldable pub sum_lines : (Line → Bool) → List Line → ℕ
sum_lines test [] = 0
sum_lines test (l ∷ ls) = (if test l then l.amount_mc else 0) + sum_lines test ls

abbrev pub of_agent : Text → Line → Bool
of_agent id l = text_eq id l.agent_id

-- Newer than `now - window`, which is before the epoch for a small `now`.
abbrev pub newer : ℕ → ℕ → ℕ → Bool
newer now window t = ltb now (t + window)

-- `_debits_since(agent_id, now - window)`
unfoldable pub debits_within : Text → ℕ → ℕ → List Line → ℕ
debits_within id now window =
    sum_lines (λ (l : Line). of_agent id l && (newer now window l.t && is_debit l.kind))

unfoldable pub debits_lifetime : Text → List Line → ℕ
debits_lifetime id = sum_lines (λ (l : Line). of_agent id l && is_debit l.kind)

-- `cap is not None and used + gross_mc > cap`
abbrev pub exceeds : Option ℕ → ℕ → Bool
exceeds none total = false
exceeds (some cap) total = ltb cap total

unfoldable pub cap_violation : Text → Agent → ℕ → ℕ → List Line → Bool
cap_violation id agent gross_mc now lines =
    exceeds agent.cap_per_hour_mc (debits_within id now hour_ms lines + gross_mc)
    || (exceeds agent.cap_per_day_mc (debits_within id now day_ms lines + gross_mc)
        || exceeds agent.cap_absolute_mc (debits_lifetime id lines + gross_mc))

unfoldable pub leaves_the_operator : Agent → Agent → Bool
leaves_the_operator sender target =
    sender.no_bearer_withdrawal && not (text_eq sender.operator_id target.operator_id)

-- `UPDATE sup_agents SET balance_mc = balance_mc - ?`, and `+ ?`
unfoldable pub take_from : ℕ → Agent → Agent
take_from amount a = record a { balance_mc = a.balance_mc -ℤ pos amount }

unfoldable pub give_to : ℕ → Agent → Agent
give_to amount a = record a { balance_mc = a.balance_mc +ℤ pos amount }

-- `_add_line`
abbrev pub line : Text → ℕ → LineKind → ℕ → Option Text → Text → Line
line id now kind amount counterparty ref = record {
  agent_id = id;
  t = now;
  kind = kind;
  amount_mc = amount;
  counterparty_account = counterparty;
  ref = ref;
}

-- Value moves from one account to another, and the journal has a line for each.
unfoldable pub move_agents : Text → Text → ℕ → Table Agent → Table Agent
move_agents from to amount agents =
    update_row to (give_to amount) (update_row from (take_from amount) agents)

unfoldable pub move_lines : ℕ → LineKind → LineKind → Text → Text → ℕ → Text → List Line → List Line
move_lines now out in_ from to amount ref lines =
    line to now in_ amount (some from) ref ∷ line from now out amount (some to) ref ∷ lines
