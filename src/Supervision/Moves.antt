-- ===== src/Supervision/Moves.antt =====
-- impl/aicash/supervision.py: transfers, pulls, and the authorizations that pulls stand on. The ids
-- come from `os.urandom`: they are arguments.
pub mod Sound
pub mod Transfer
pub mod Pull
pub mod Guarantees
pub mod Payment
pub mod Bank
use ai_cash.Prelude.{
  ℕ, ◌+◌, Bool, true, false, ◌&&◌, not, Option, none, some, List, [], ◌∷◌, ltb, leb, is_some,
  if◌then◌else◌,
}
use ai_cash.Prelude.Int.{ℤ, pos, ◌+ℤ◌, ◌-ℤ◌, ltb_ℤ}
use ai_cash.Prelude.Text.{Text, text_eq, codes}
use ai_cash.Codec.Value
use ai_cash.Codec.Value.{Value, Fields, get}
use ai_cash.Ledger.Table.{Table, lookup, insert_row}
use ai_cash.Supervision.{
  Agent, Line, LineKind, debit, credit, pull_out, pull_in, PullAuth, PullUse, Books, Unicode,
  Answer, ok, internal, ◌>>=◌, ◌>>◌, reject_if, or_internal, or_reject, Reason, bad_format,
  unknown_account, external_transfer_disabled, account_frozen, agent_cap_exceeded,
  insufficient_balance, authorization_missing, authorization_revoked, authorization_expired,
  pull_cap_exceeded, plain_text, read_ref, positive_int, natural_int, day_ms,
}
use ai_cash.Supervision.Accounts.{
  find_agent, cap_violation, leaves_the_operator, newer, move_agents, move_lines,
}
use ai_cash.Supervision.Rows.{update_row}

-- `to_account == principal[1]`
unfoldable pub is_self : Option Value → Text → Bool
is_self (some (Value.str s)) id = text_eq s id
is_self _ id = false

-- The guards of a transfer, in their order.
unfoldable pub transfer_guards : Text → Agent → Agent → ℕ → ℕ → List Line → Answer (Unit {0})
transfer_guards from sender target amount now lines = do
  reject_if sender.frozen account_frozen
  reject_if (leaves_the_operator sender target) external_transfer_disabled
  reject_if (cap_violation from sender amount now lines) agent_cap_exceeded
  reject_if (ltb_ℤ sender.balance_mc (pos amount)) insufficient_balance

unfoldable pub move : Books → ℕ → LineKind → LineKind → Text → Text → ℕ → Text → Books
move b now out in_ from to amount ref = record b {
  agents = move_agents from to amount b.agents;
  lines = move_lines now out in_ from to amount ref b.lines;
}

module _ ⦃unicode : Unicode⦄ where
  -- The answer has the sender's balance.
  unfoldable pub transfer_between : Books → ℕ → Text → Option Value → ℕ → Text → Answer (ℤ × Books)
  transfer_between b now from to_account amount ref = do
    (to, target) ← or_reject (find_agent to_account b.agents) unknown_account
    (own, sender) ← or_internal (find_agent (some (Value.str from)) b.agents)
    transfer_guards own sender target amount now b.lines
    ok (sender.balance_mc -ℤ pos amount, move b now debit credit own to amount ref)

  unfoldable pub agent_transfer : Text → Fields → ℕ → Books → Answer (ℤ × Books)
  agent_transfer from body now b = do
    amount ← or_reject (positive_int (get (codes "amount_mc") body)) bad_format
    ref ← or_reject (read_ref (get (codes "ref") body)) bad_format
    reject_if (is_self (get (codes "to_account") body) from) bad_format
    transfer_between b now from (get (codes "to_account") body) amount ref

-- The sum of the uses of an authorization that are newer than a day.
unfoldable pub pulled : Text → ℕ → List PullUse → ℕ
pulled id now [] = 0
pulled id now (u ∷ us) =
    (if text_eq id u.auth_id && newer now day_ms u.t then u.amount_mc else 0) + pulled id now us

-- An authorization that is not the caller's answers as a missing one.
unfoldable pub find_auth : Text → Text → Table PullAuth → Option PullAuth
find_auth id payee auths = elim (lookup id auths) [
  | none ↦ none
  | some a ↦ if text_eq a.payee_account payee then some a else none
]

unfoldable pub auth_guards : PullAuth → ℕ → Answer (Unit {0})
auth_guards auth now = do
  reject_if auth.revoked authorization_revoked
  reject_if (leb auth.expires_at now) authorization_expired

unfoldable pub pull_guards :
    Text → PullAuth → Text → Agent → Agent → ℕ → ℕ → Books → Answer (Unit {0})
pull_guards auth_id auth from granter payee amount now b = do
  reject_if granter.frozen account_frozen
  reject_if (leaves_the_operator granter payee) authorization_revoked
  reject_if (ltb auth.cap_mc_per_day (pulled auth_id now b.uses + amount)) pull_cap_exceeded
  reject_if (cap_violation from granter amount now b.lines) agent_cap_exceeded
  reject_if (ltb_ℤ granter.balance_mc (pos amount)) insufficient_balance

unfoldable pub add_use : Text → ℕ → ℕ → Books → Books
add_use auth_id now amount b = record b {
  uses = record { auth_id = auth_id; t = now; amount_mc = amount } ∷ b.uses;
}

module _ ⦃unicode : Unicode⦄ where
  -- The answer has the payee's balance as it was read, and the amount.
  unfoldable pub pull_by : Books → ℕ → Text → Text → PullAuth → ℕ → Text → Answer (ℤ × Books)
  pull_by b now caller auth_id auth amount ref = do
    auth_guards auth now
    (from, granter) ← or_internal (find_agent (some (Value.str auth.granting_agent_id)) b.agents)
    (to, payee) ← or_internal (find_agent (some (Value.str auth.payee_account)) b.agents)
    pull_guards auth_id auth from granter payee amount now b
    ok (
      payee.balance_mc +ℤ pos amount,
      add_use auth_id now amount (move b now pull_out pull_in from to amount ref),
    )

  unfoldable pub agent_pull : Text → Fields → ℕ → Books → Answer (ℤ × Books)
  agent_pull caller body now b = do
    auth_id ← or_reject (plain_text (get (codes "auth_id") body)) bad_format
    amount ← or_reject (positive_int (get (codes "amount_mc") body)) bad_format
    ref ← or_reject (read_ref (get (codes "ref") body)) bad_format
    auth ← or_reject (find_auth auth_id caller b.auths) authorization_missing
    pull_by b now caller auth_id auth amount ref

  -- An id that is taken is `sqlite3.IntegrityError`.
  unfoldable pub agent_authorize_pull : Text → Fields → ℕ → Text → Books → Answer (Text × Books)
  agent_authorize_pull granting body now auth_id b = do
    cap ← or_reject (positive_int (get (codes "cap_mc_per_day") body)) bad_format
    expires_at ← or_reject (natural_int (get (codes "expires_at") body)) bad_format
    (payee_id, payee) ←
        or_reject (find_agent (get (codes "payee_account") body) b.agents) unknown_account
    (own, granter) ← or_internal (find_agent (some (Value.str granting)) b.agents)
    reject_if (leaves_the_operator granter payee) external_transfer_disabled
    auths ← or_internal (
        insert_row auth_id
          (record {
            granting_agent_id = granting;
            payee_account = payee_id;
            cap_mc_per_day = cap;
            expires_at = expires_at;
            revoked = false;
            created_at = now;
          })
          b.auths)
    ok (auth_id, record b { auths = auths })

  unfoldable pub agent_revoke_pull : Text → Fields → Books → Answer (Text × Books)
  agent_revoke_pull granting body b = do
    auth_id ← or_reject (plain_text (get (codes "auth_id") body)) bad_format
    auth ← or_reject (lookup auth_id b.auths) authorization_missing
    reject_if (not (text_eq auth.granting_agent_id granting)) authorization_missing
    ok (
      auth_id,
      record b {
        auths = update_row auth_id (λ (a : PullAuth). record a { revoked = true }) b.auths;
      },
    )
