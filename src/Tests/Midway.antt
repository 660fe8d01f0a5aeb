-- ===== src/Tests/Midway.antt =====
-- A crash between the two transactions of a withdrawal, at a concrete ledger.
use ai_cash.Supervision.{ok}
use ai_cash.Supervision.Withdrawal.{Planned}
use ai_cash.Ledger.State.{Entry}
use ai_cash.Lock.{only_keys, as_int, evaluate}
use ai_cash.Codec.Key.{ledger_key}
use ai_cash.Burn.{validate_policy, effective_policy, compute_burn}
use ai_cash.Ledger.Table.{insert_row, lookup}
use ai_cash.Ledger.Outputs.{
  resolve_outputs, resolve_output, resolve_spec, output_key, resolve_lock, output_amount,
}
use ai_cash.Ledger.Inputs.{
  resolve_inputs, resolve_input, resolve_at, check_entry, judge, claim_witness_of, token_agrees,
  form_key,
}
use ai_cash.Ledger.Exchange.{
  commit, mark_spent, update_spent, store_idempotency, insert_entries, insert_entry, conserve,
  effective_burn_policy, duplicate_input, sum_out, sum_in, output_errors, input_errors, out_records,
  in_records, exchange_fresh, exchange_locked, exchange,
}
use ai_cash.Codec.Base64.{symbol, digit, b64_groups, b64u_decode}
use ai_cash.Prelude.Text.{Text, text_mem, text_eq}
use ai_cash.Ledger.State.{storable_int}
use ai_cash.Supervision.Bridge.{non_empty_list}
use ai_cash.Supervision.Rows.{update_row}
use ai_cash.Supervision.Selection.{
  custody_forms, hashes_of, select_custody, unspent_custody, insert_by_amount, withdraw_outputs,
  total_out, read_withdraw_output, read_withdraw_outputs,
}
use ai_cash.Prelude.{◌≢◌, ℕ, true, some, arith, false, ◌≡◌, refl, none, [], ◌∷◌}
use ai_cash.Prelude.Int.{◌+ℤ◌, ◌-ℤ◌, pos}
use ai_cash.Prelude.Text.{codes}
use ai_cash.Codec.Base64.{is_symbol, all_symbols, b64u_encode}
use ai_cash.Codec.Value.{get, Value}
use ai_cash.Ledger.State.{Db}
use ai_cash.Supervision.{all_plain, plain_text, plain_int, positive_int, is_debit}
use ai_cash.Supervision.Accounts.{
  find_agent, take_from, sum_lines, debits_lifetime, debits_within, cap_violation,
}
use ai_cash.Supervision.Custody.{delete_row, Bridge}
use ai_cash.Supervision.Withdrawal.{
  fund_withdraw, charge_withdraw, plan_withdraw, update_inputs, add_change, activate_change,
  withdraw_lines, finalize_withdraw, stage_withdraw, after_withdraw, withdraw_staged,
  withdraw_planned, agent_withdraw,
}
use ai_cash.Tests.Bridge.{new_account}
use ai_cash.Tests.Sample.{sum_hash, secret_two, config, key_of}
use ai_cash.Tests.Supervision.{ascii}
use ai_cash.Tests.Withdrawal.{
  bridge_paid, custody_entry, secret_four, secret_three, withdraw_body, custody-IsUnique,
}
use ai_cash.Supervision.Recovery.{recover_pending, is_known_spent, first_hash}
use ai_cash.Supervision.Recovery.Withdrawals.{IsKeyed, withdrawal_recovered}
use ai_cash.Supervision.Custody.{withdraws, pending, reserved}
use ai_cash.Supervision.Rows.{Rows}
use ai_cash.Supervision.Selection.{by_hash_spec}
use ai_cash.Ledger.State.{confirmed, done}
use ai_cash.Ledger.Reads.{status_one}
use ai_cash.Ledger.Rows.{unspent_sum}
use ai_cash.Ledger.Invariant.{IsValidDb}
use ai_cash.Lock.{plain}
use ai_cash.Tests.Sample.{config-IsValidConfig}

abbrev idem : Text
idem = codes "sup-withdraw-1"

abbrev withdrawal_plan : Planned
withdrawal_plan = record {
  agent = new_account (codes "k1") (pos 9_950);
  inputs =
      some (record {
        kind = plain;
        token = some (record {
          mint_id = codes "demo-mint";
          amount_mc = Value.int (pos 9_990);
          secret = Value.bytes secret_two;
        });
        hash = none;
        witness = none;
      })
      ∷ [];
  outputs = by_hash_spec 5_000 (key_of secret_three) ∷ by_hash_spec 4_981 (key_of secret_four) ∷ [];
  change_mc = 4_981;
  details = record {
    input_hashes = key_of secret_two ∷ [];
    change_hash = some (key_of secret_four);
    total_out_mc = 5_000;
    burn_mc = 5;
    ledger_burn_mc = 9;
    absorbed_mc = pos 4;
    gross_mc = 5_005;
    t = 600;
  };
}

abbrev staged : Bridge
staged = record bridge_paid {
  custody =
      (
        key_of secret_four,
        record { secret_b64u = b64u_encode secret_four; amount_mc = 4_981; state = pending },
      )
      ∷ (
        key_of secret_two,
        record { secret_b64u = b64u_encode secret_two; amount_mc = 9_990; state = reserved },
      )
      ∷ [];
  pending_ops =
      (codes "pend-2", record { agent_id = codes "a"; work = withdraws withdrawal_plan.details })
      ∷ [];
}

planned :
    plan_withdraw config (codes "demo-mint") (codes "a") withdraw_body 600 secret_four bridge_paid
    ≡ ok withdrawal_plan
unfolding agent_withdraw withdraw_planned withdraw_staged after_withdraw stage_withdraw
    finalize_withdraw withdraw_lines activate_change add_change update_inputs plan_withdraw
    charge_withdraw fund_withdraw cap_violation debits_within debits_lifetime sum_lines is_debit
    read_withdraw_outputs read_withdraw_output only_keys positive_int plain_int total_out
    withdraw_outputs insert_by_amount unspent_custody select_custody hashes_of custody_forms
    delete_row update_row take_from ◌-ℤ◌ ◌+ℤ◌ find_agent plain_text all_plain non_empty_list get
    all_symbols is_symbol exchange exchange_locked exchange_fresh in_records out_records
    input_errors output_errors sum_in sum_out duplicate_input effective_burn_policy conserve
    update_spent mark_spent insert_entry insert_entries store_idempotency commit form_key
    token_agrees claim_witness_of judge check_entry resolve_at resolve_input resolve_inputs
    output_amount resolve_lock output_key resolve_spec resolve_output resolve_outputs storable_int
    lookup insert_row text_eq text_mem compute_burn effective_policy validate_policy b64u_encode
    b64u_decode ledger_key evaluate as_int b64_groups digit symbol
planned = refl

stages :
    stage_withdraw (codes "pend-2") (codes "a") secret_four withdrawal_plan bridge_paid ≡ ok staged
unfolding stage_withdraw add_change update_inputs update_row insert_row lookup text_eq b64u_encode
stages = refl

abbrev made : ℕ → Entry
made amount = record {
  amount_mc = amount;
  spent = false;
  lock = none;
  created_at = 601;
  spent_at = none;
  claim_witness = none;
}

abbrev exchanged_db : Db
exchanged_db = record {
  entries =
      (key_of secret_four, made 4_981)
      ∷ (key_of secret_three, made 5_000)
      ∷ (
        key_of secret_two,
        record {
          amount_mc = 9_990;
          spent = true;
          lock = none;
          created_at = 51;
          spent_at = some 601;
          claim_witness = none;
        },
      )
      ∷ [];
  cumulative_issued_mc = 9_990;
  cumulative_burned_mc = 9;
  idempotency =
      (idem, record { body_digest = idem; result = confirmed 2 9; created_at = 601 }) ∷ [];
}

exchanged :
    exchange config 601 idem idem withdrawal_plan.inputs withdrawal_plan.outputs custody_entry
    ≡ done (confirmed 2 9, exchanged_db)
unfolding agent_withdraw withdraw_planned withdraw_staged after_withdraw stage_withdraw
    finalize_withdraw withdraw_lines activate_change add_change update_inputs plan_withdraw
    charge_withdraw fund_withdraw cap_violation debits_within debits_lifetime sum_lines is_debit
    read_withdraw_outputs read_withdraw_output only_keys positive_int plain_int total_out
    withdraw_outputs insert_by_amount unspent_custody select_custody hashes_of custody_forms
    delete_row update_row take_from ◌-ℤ◌ ◌+ℤ◌ find_agent plain_text all_plain non_empty_list get
    all_symbols is_symbol exchange exchange_locked exchange_fresh in_records out_records
    input_errors output_errors sum_in sum_out duplicate_input effective_burn_policy conserve
    update_spent mark_spent insert_entry insert_entries store_idempotency commit form_key
    token_agrees claim_witness_of judge check_entry resolve_at resolve_input resolve_inputs
    output_amount resolve_lock output_key resolve_spec resolve_output resolve_outputs storable_int
    lookup insert_row text_eq text_mem compute_burn effective_policy validate_policy b64u_encode
    b64u_decode ledger_key evaluate as_int b64_groups digit symbol
exchanged = refl

custody_entry-IsValidDb : IsValidDb custody_entry
unfolding unspent_sum lookup
custody_entry-IsValidDb = record {
  unique = (refl, tt);
  rows = (record { positive = omega arith; lock_valid = tt; spent_stamped = refl }, tt);
  balance = refl;
  issued_fits = omega arith;
}

idem_given : idem ≢ []
idem_given h = cc

idem_free : lookup idem custody_entry.idempotency ≡ none
unfolding lookup
idem_free = refl

custody-IsKeyed : Rows IsKeyed bridge_paid.custody
unfolding b64u_decode b64u_encode b64_groups digit symbol all_symbols is_symbol text_eq ledger_key
custody-IsKeyed = ((secret_two, refl, refl), tt)

not_spent :
    is_known_spent
      (status_one custody_entry.entries (first_hash withdrawal_plan.details.input_hashes))
    ≡ false
unfolding status_one lookup b64u_decode b64u_encode b64_groups digit symbol all_symbols is_symbol
    text_eq
not_spent = refl

withdrawal_recovered_example :
    (recover_pending custody_entry staged ≡ bridge_paid)
    × (recover_pending exchanged_db staged
        ≡ (after_withdraw
            (codes "a")
            (codes "pend-2")
            withdrawal_plan
            staged
            custody_entry
            (done (confirmed 2 9, exchanged_db))).1)
withdrawal_recovered_example =
    withdrawal_recovered config (codes "demo-mint") (codes "a") withdraw_body 600 601 secret_four
      idem (codes "pend-2") withdrawal_plan bridge_paid staged custody_entry config-IsValidConfig
      custody_entry-IsValidDb idem_given idem_free custody-IsUnique custody-IsKeyed not_spent refl
      planned stages (confirmed 2 9) exchanged_db exchanged
