-- ===== src/Supervision/Withdrawal.antt =====
-- impl/aicash/supervision.py, `agent_withdraw`: a balance becomes bearer tokens by an exchange of the
-- mint's custody. The secret of the change, the key of the exchange and the id of the staged
-- operation come from `os.urandom`: they are arguments.
pub mod Inputs
pub mod Change
pub mod Sound
pub mod Charging
pub mod Planning
pub mod Paying
pub mod Unwinding
use ai_cash.Ledger.Exchange.{exchange, effective_burn_policy}
use ai_cash.Supervision.Rows.{update_row}
use ai_cash.Codec.Key.{ledger_key, Hash}
use ai_cash.Ledger.Table.{insert_row, Table}
use ai_cash.Codec.Base64.{b64u_encode}
use ai_cash.Prelude.{
  ℕ, ◌+◌, ◌-◌, true, Option, none, some, List, [], ◌∷◌, ltb, leb, ◌==◌, if◌then◌else◌,
}
use ai_cash.Prelude.Int.{ℤ, pos, ◌-ℤ◌, ◌+ℤ◌, ltb_ℤ}
use ai_cash.Prelude.Text.{Text, Bytes, codes}
use ai_cash.Burn.{BurnPolicy, compute_burn}
use ai_cash.Codec.Value.{Value, Fields, get}
use ai_cash.Lock.{InputForm}
use ai_cash.Ledger.Outputs.{OutputArg}
use ai_cash.Ledger.State.{Db, Config, ErrorItem, Run, done, fault, Reply, max_amount_mc}
use ai_cash.Supervision.{
  withdrawal, burn, Agent, Line, Answer, ok, rejected, internal, bad_format, account_frozen,
  withdrawal_disabled, agent_cap_exceeded, insufficient_balance, Unicode, ◌>>=◌, ◌>>◌, reject_if,
  or_reject, or_internal,
}
use ai_cash.Supervision.Accounts.{line, take_from, find_agent, cap_violation}
use ai_cash.Supervision.Bridge.{non_empty_list, or_raised, or_faulted}
use ai_cash.Supervision.Custody.{
  Custody, pending, WithdrawDetails, withdraws, Bridge, delete_row, is_pending, activate, reserve,
  release, consume,
}
use ai_cash.Supervision.Selection.{
  read_withdraw_outputs, total_out, withdraw_outputs, unspent_custody, select_custody, hashes_of,
  custody_forms,
}

-- What a withdrawal has read, checked and priced; `agent` is the row as it was read.
pub record Planned : Type 0 where
  pub agent : Agent
  pub inputs : List (Option InputForm)
  pub outputs : List OutputArg
  pub change_mc : ℕ
  pub details : WithdrawDetails

-- The burn that the agent is charged, on the amount asked for; the caps and the balance have to bear
-- the sum.
unfoldable pub charge_withdraw : Text → Agent → BurnPolicy → ℕ → ℕ → List Line → Answer ℕ
charge_withdraw id agent policy total now lines = do
  burn_mc ← or_raised (compute_burn (pos total) policy)
  reject_if (cap_violation id agent (total + burn_mc) now lines) agent_cap_exceeded
  reject_if (ltb_ℤ agent.balance_mc (pos (total + burn_mc))) insufficient_balance
  ok burn_mc

-- The rows that pay, their own burn, and what they leave as change.
unfoldable pub fund_withdraw : BurnPolicy → ℕ → Table Custody → Answer (Table Custody × ℕ × ℕ)
fund_withdraw policy total custody = do
  (selected, in_sum) ← select_custody policy total (unspent_custody custody) 0
  ledger_burn ← or_raised (compute_burn (pos in_sum) policy)
  reject_if (ltb in_sum (total + ledger_burn)) insufficient_balance
  ok (selected, ledger_burn, in_sum - (total + ledger_burn))

module _ ⦃hash : Hash⦄ ⦃unicode : Unicode⦄ where
  -- A change of zero makes no output.
  abbrev pub change_key : ℕ → Bytes → Answer (Option Text)
  change_key change secret =
      if change == 0
      then ok none
      else (or_internal (ledger_key (Value.bytes secret)) >>= λ h. ok (some h))

  unfoldable pub plan_withdraw : Config → Text → Text → Fields → ℕ → Bytes → Bridge → Answer Planned
  plan_withdraw cfg mint_id caller body now change_secret s = do
    values ← or_reject (non_empty_list (get (codes "outputs") body)) bad_format
    wanted ← or_reject (read_withdraw_outputs values) bad_format
    (own, agent) ← or_internal (find_agent (some (Value.str caller)) s.books.agents)
    reject_if agent.frozen account_frozen
    reject_if agent.no_bearer_withdrawal withdrawal_disabled
    policy ← or_faulted (effective_burn_policy cfg now)
    burn_mc ← charge_withdraw own agent policy (total_out wanted) now s.books.lines
    (selected, ledger_burn, change) ← fund_withdraw policy (total_out wanted) s.custody
    change_hash ← change_key change change_secret
    inputs ← or_internal (custody_forms mint_id selected)
    ok (record {
      agent = agent;
      inputs = inputs;
      outputs = withdraw_outputs wanted change change_hash;
      change_mc = change;
      details = record {
        input_hashes = hashes_of selected;
        change_hash = change_hash;
        total_out_mc = total_out wanted;
        burn_mc = burn_mc;
        ledger_burn_mc = ledger_burn;
        absorbed_mc = pos ledger_burn -ℤ pos burn_mc;
        gross_mc = total_out wanted + burn_mc;
        t = now;
      };
    })

-- The `UPDATE` of each input.
unfoldable pub update_inputs : (Custody → Custody) → List Text → Table Custody → Table Custody
update_inputs f [] custody = custody
update_inputs f (h ∷ hs) custody = update_inputs f hs (update_row h f custody)

unfoldable pub add_change : Option Text → Bytes → ℕ → Table Custody → Option (Table Custody)
add_change none secret change custody = some custody
add_change (some h) secret change custody =
    if leb change max_amount_mc
    then insert_row h
        (record { secret_b64u = b64u_encode secret; amount_mc = change; state = pending }) custody
    else none

-- The inputs are reserved and the change is in custody before the exchange.
unfoldable pub stage_withdraw : Text → Text → Bytes → Planned → Bridge → Answer Bridge
stage_withdraw op_id caller change_secret p s = do
  custody ← or_internal (
      add_change p.details.change_hash change_secret p.change_mc
        (update_inputs reserve p.details.input_hashes s.custody))
  ops ←
      or_internal
        (insert_row op_id (record { agent_id = caller; work = withdraws p.details }) s.pending_ops)
  ok (record s { custody = custody; pending_ops = ops })

unfoldable pub drop_change : Option Text → Table Custody → Table Custody
drop_change none custody = custody
drop_change (some h) custody = delete_row h is_pending custody

unfoldable pub activate_change : Option Text → Table Custody → Table Custody
activate_change none custody = custody
activate_change (some h) custody = update_row h activate custody

-- `_unwind_withdraw`
unfoldable pub unwind_withdraw : Text → WithdrawDetails → Bridge → Bridge
unwind_withdraw op_id details s = record s {
  custody = drop_change details.change_hash (update_inputs release details.input_hashes s.custody);
  pending_ops = delete_row op_id (λ _. true) s.pending_ops;
}

-- The journal has the net amount, and the burn where there is one.
unfoldable pub withdraw_lines : Text → WithdrawDetails → List Line → List Line
withdraw_lines agent_id details lines =
    if details.burn_mc == 0
    then line agent_id details.t withdrawal details.total_out_mc none [] ∷ lines
    else line agent_id details.t burn details.burn_mc none []
      ∷ line agent_id details.t withdrawal details.total_out_mc none []
      ∷ lines

-- `_finalize_withdraw`
unfoldable pub finalize_withdraw : Text → Text → WithdrawDetails → Bridge → Bridge
finalize_withdraw op_id agent_id details s = record {
  books = record s.books {
    agents = update_row agent_id (take_from details.gross_mc) s.books.agents;
    lines = withdraw_lines agent_id details s.books.lines;
  };
  custody =
      activate_change details.change_hash (update_inputs consume details.input_hashes s.custody);
  pending_ops = delete_row op_id (λ _. true) s.pending_ops;
  absorbed_mc = s.absorbed_mc +ℤ details.absorbed_mc;
}

-- The answer of 200, and the errors of an exchange that was refused.
pub data WithdrawReply : Type 0 where
  withdrawn : (total_mc burn_mc : ℕ) (balance_mc : ℤ) → WithdrawReply
  refused : List ErrorItem → WithdrawReply

-- What follows the exchange. A fault of the exchange leaves what was staged to the recovery.
unfoldable pub after_withdraw :
    Text → Text → Planned → Bridge → Db → Run (Reply × Db) → Answer WithdrawReply × Bridge × Db
after_withdraw caller op_id p s db (fault e) = (internal, s, db)
after_withdraw caller op_id p s db (done (Reply.rejected errors, db')) =
    (ok (refused errors), unwind_withdraw op_id p.details s, db')
after_withdraw caller op_id p s db (done (Reply.confirmed outputs burned, db')) = (
  ok (
      withdrawn p.details.total_out_mc p.details.burn_mc
        (p.agent.balance_mc -ℤ pos p.details.gross_mc)),
  finalize_withdraw op_id caller p.details s,
  db',
)

module _ ⦃hash : Hash⦄ ⦃unicode : Unicode⦄ where
  -- The exchange reads the clock itself, at `exchange_now`.
  unfoldable pub withdraw_staged :
      Config
      → Text
      → Text
      → Text
      → ℕ
      → Planned
      → Bridge
      → Db
      → Answer Bridge
      → Answer WithdrawReply × Bridge × Db
  withdraw_staged cfg caller idem op_id exchange_now p s db (ok staged) =
      after_withdraw caller op_id p staged db
        (exchange cfg exchange_now idem idem p.inputs p.outputs db)
  withdraw_staged cfg caller idem op_id exchange_now p s db _ = (internal, s, db)

  -- A request that is refused has staged nothing.
  unfoldable pub withdraw_planned :
      Config
      → Text
      → Text
      → Text
      → Bytes
      → ℕ
      → Bridge
      → Db
      → Answer Planned
      → Answer WithdrawReply × Bridge × Db
  withdraw_planned cfg caller idem op_id change_secret exchange_now s db (ok p) =
      withdraw_staged cfg caller idem op_id exchange_now p s db
        (stage_withdraw op_id caller change_secret p s)
  withdraw_planned cfg caller idem op_id change_secret exchange_now s db (rejected r) =
      (rejected r, s, db)
  withdraw_planned cfg caller idem op_id change_secret exchange_now s db _ = (internal, s, db)

  unfoldable pub agent_withdraw :
      Config
      → Text
      → Text
      → Fields
      → ℕ
      → ℕ
      → Bytes
      → Text
      → Text
      → Bridge
      → Db
      → Answer WithdrawReply × Bridge × Db
  agent_withdraw cfg mint_id caller body now exchange_now change_secret idem op_id s db =
      withdraw_planned cfg caller idem op_id change_secret exchange_now s db
        (plan_withdraw cfg mint_id caller body now change_secret s)
