-- ===== src/Tests/Withdrawal.antt =====
-- A withdrawal, a history of all kinds of calls, and a crash, at concrete inputs.
use ai_cash.Lock
use ai_cash.Supervision.{ok}
use ai_cash.Supervision.Withdrawal.{withdrawn, refused, Planned}
use ai_cash.Supervision.Withdrawal.Paying.{agent_withdraw-Paid, Answered, Completed}
use ai_cash.Supervision.Withdrawal.Planning.{Paid, Ordered}
use ai_cash.Supervision.Withdrawal.Unwinding.{agent_withdraw_refused}
use ai_cash.Ledger.State.{ErrorItem, input, empty_db}
use ai_cash.Ledger.Table.{IsUnique}
use ai_cash.Lock.{only_keys, as_int, evaluate}
use ai_cash.Codec.Key.{ledger_key}
use ai_cash.Burn.{validate_policy, effective_policy, compute_burn}
use ai_cash.Ledger.Table.{insert_row, lookup}
use ai_cash.Ledger.Outputs.{
  resolve_outputs, resolve_output, resolve_spec, output_key, resolve_lock, output_amount,
}
use ai_cash.Ledger.Inputs.{
  resolve_inputs, resolve_input, resolve_at, check_entry, judge, claim_witness_of, token_agrees,
  form_key,
}
use ai_cash.Ledger.Exchange.{
  reject, commit, mark_spent, update_spent, store_idempotency, insert_entries, insert_entry,
  conserve, effective_burn_policy, duplicate_input, sum_out, sum_in, output_errors, input_errors,
  out_records, in_records, exchange_fresh, exchange_locked, exchange,
}
use ai_cash.Codec.Base64.{symbol, digit, b64_groups, b64u_decode}
use ai_cash.Prelude.Text.{text_mem, text_eq}
use ai_cash.Ledger.State.{storable_int}
use ai_cash.Supervision.Bridge.{non_empty_list}
use ai_cash.Supervision.Rows.{update_row}
use ai_cash.Supervision.Selection.{
  custody_forms, hashes_of, select_custody, unspent_custody, insert_by_amount, withdraw_outputs,
  total_out, read_withdraw_output, read_withdraw_outputs,
}
use ai_cash.Prelude.{List, false, ◌≡◌, refl, none, [], ◌∷◌, replicate}
use ai_cash.Prelude.Int.{◌+ℤ◌, ◌-ℤ◌, pos}
use ai_cash.Prelude.Text.{Bytes, codes}
use ai_cash.Codec.Base64.{is_symbol, all_symbols, b64u_encode}
use ai_cash.Codec.Value.{get, Value, Values, Fields}
use ai_cash.Ledger.State.{Db}
use ai_cash.Supervision.{all_plain, plain_text, plain_int, positive_int, is_debit, withdrawal, burn}
use ai_cash.Supervision.Accounts.{
  find_agent, take_from, sum_lines, debits_lifetime, debits_within, cap_violation, line,
}
use ai_cash.Supervision.Backing.{IsBacked}
use ai_cash.Supervision.Custody.{delete_row, Bridge, spent, unspent}
use ai_cash.Supervision.History.{Reach, Reach-IsBacked, Step, Call}
use ai_cash.Supervision.Withdrawal.{
  fund_withdraw, charge_withdraw, plan_withdraw, update_inputs, add_change, activate_change,
  withdraw_lines, finalize_withdraw, stage_withdraw, after_withdraw, withdraw_staged,
  withdraw_planned, agent_withdraw,
}
use ai_cash.Tests.Bridge.{
  books_registered, books_paid, known_body, name_body, new_account, deposited_custody,
  deposited_9990, operator_registered, agent_a, agent_b, paid_40, a_found,
}
use ai_cash.Tests.Sample.{one_entry, sum_hash, secret_two, config, key_of}
use ai_cash.Tests.Supervision.{transfer_body, ascii}

abbrev pub secret_three : Bytes
secret_three = replicate 32 3

abbrev pub secret_four : Bytes
secret_four = replicate 32 4

abbrev pub withdraw_body : Fields
withdraw_body =
    Fields.field (codes "outputs")
      (Value.arr (
        Values.cons
          (Value.dict (
            Fields.field (codes "amount_mc") (Value.int (pos 5_000))
              (Fields.field (codes "secret_hash") (Value.str (key_of secret_three)) Fields.end)))
          Values.nil))
      Fields.end

-- The ledger that has the mint's custody.
abbrev pub custody_entry : Db
custody_entry = record {
  entries =
      (
        key_of secret_two,
        record {
          amount_mc = 9_990;
          spent = false;
          lock = none;
          created_at = 51;
          spent_at = none;
          claim_witness = none;
        },
      )
      ∷ [];
  cumulative_issued_mc = 9_990;
  cumulative_burned_mc = 0;
  idempotency = [];
}

abbrev pub bridge_paid : Bridge
bridge_paid = record {
  books = books_paid;
  custody = deposited_custody;
  pending_ops = [];
  absorbed_mc = pos 0;
}

-- The mint pays 9,990 for 5,000 and a change of 4,981: its exchange burns 9, of which the account is
-- charged 5.
abbrev bridge_withdrawn : Bridge
bridge_withdrawn = record {
  books = record books_registered {
    agents =
        (codes "b", new_account (codes "k2") (pos 40))
        ∷ (codes "a", new_account (codes "k1") (pos 4_945))
        ∷ [];
    lines =
        line (codes "a") 600 burn 5 none []
        ∷ line (codes "a") 600 withdrawal 5_000 none []
        ∷ books_paid.lines;
  };
  custody =
      (
        key_of secret_four,
        record { secret_b64u = b64u_encode secret_four; amount_mc = 4_981; state = unspent },
      )
      ∷ (
        key_of secret_two,
        record { secret_b64u = b64u_encode secret_two; amount_mc = 9_990; state = spent },
      )
      ∷ [];
  pending_ops = [];
  absorbed_mc = pos 4;
}

withdrawn_5000 :
    (agent_withdraw config
      (codes "demo-mint")
      (codes "a")
      withdraw_body
      600
      601
      secret_four
      (codes "sup-withdraw-1")
      (codes "pend-2")
      bridge_paid
      custody_entry).1
    ≡ bridge_withdrawn
unfolding agent_withdraw withdraw_planned withdraw_staged after_withdraw stage_withdraw
    finalize_withdraw withdraw_lines activate_change add_change update_inputs plan_withdraw
    charge_withdraw fund_withdraw cap_violation debits_within debits_lifetime sum_lines is_debit
    read_withdraw_outputs read_withdraw_output only_keys positive_int plain_int total_out
    withdraw_outputs insert_by_amount unspent_custody select_custody hashes_of custody_forms
    delete_row update_row take_from ◌-ℤ◌ ◌+ℤ◌ find_agent plain_text all_plain non_empty_list get
    all_symbols is_symbol exchange exchange_locked exchange_fresh in_records out_records
    input_errors output_errors sum_in sum_out duplicate_input effective_burn_policy conserve
    update_spent mark_spent insert_entry insert_entries store_idempotency commit form_key
    token_agrees claim_witness_of judge check_entry resolve_at resolve_input resolve_inputs
    output_amount resolve_lock output_key resolve_spec resolve_output resolve_outputs storable_int
    lookup insert_row text_eq text_mem compute_burn effective_policy validate_policy b64u_encode
    b64u_decode ledger_key evaluate as_int b64_groups digit symbol
withdrawn_5000 = refl

-- An account is made, another one, a deposit, a payment and a withdrawal.
history : Reach bridge_withdrawn
history =
    let named = name_body (codes "agent_name") (codes "agent") in
    let operator_made =
      Step.registers (name_body (codes "operator_name") (codes "o")) 7 (codes "op") (codes "key")
        (codes "op", codes "key") operator_registered in
    let a_made =
      Step.creates (codes "op") named 7 (codes "a") (codes "k1") (codes "a", codes "k1") agent_a in
    let b_made =
      Step.creates (codes "op") named 7 (codes "b") (codes "k2") (codes "b", codes "k2") agent_b in
    let accounts =
      Reach.call
        (Reach.call (Reach.call Reach.start (Call.books operator_made refl))
          (Call.books a_made refl))
        (Call.books b_made refl) in
    let deposited = Reach.call accounts (
      Call.deposits config (codes "demo-mint") (codes "a") known_body 50 51 secret_two
        (codes "sup-deposit-1") (codes "pend-1") one_entry (new_account (codes "k1") (pos 0))
        a_found deposited_9990) in
    let paid =
      Reach.call deposited
        (Call.books (Step.transfers (codes "a") transfer_body 500 (pos 9_950) paid_40) refl) in
    Reach.call paid (
      Call.withdraws config (codes "demo-mint") (codes "a") withdraw_body 600 601 secret_four
        (codes "sup-withdraw-1") (codes "pend-2") custody_entry withdrawn_5000)

Reach-IsBacked_example : IsBacked bridge_withdrawn
Reach-IsBacked_example = Reach-IsBacked bridge_withdrawn history

answered_5000 :
    (agent_withdraw config
      (codes "demo-mint")
      (codes "a")
      withdraw_body
      600
      601
      secret_four
      (codes "sup-withdraw-1")
      (codes "pend-2")
      bridge_paid
      custody_entry).0
    ≡ ok (withdrawn 5_000 5 (pos 4_945))
unfolding agent_withdraw withdraw_planned withdraw_staged after_withdraw stage_withdraw
    finalize_withdraw withdraw_lines activate_change add_change update_inputs plan_withdraw
    charge_withdraw fund_withdraw cap_violation debits_within debits_lifetime sum_lines is_debit
    read_withdraw_outputs read_withdraw_output only_keys positive_int plain_int total_out
    withdraw_outputs insert_by_amount unspent_custody select_custody hashes_of custody_forms
    delete_row update_row take_from ◌-ℤ◌ ◌+ℤ◌ find_agent plain_text all_plain non_empty_list get
    all_symbols is_symbol exchange exchange_locked exchange_fresh in_records out_records
    input_errors output_errors sum_in sum_out duplicate_input effective_burn_policy conserve
    update_spent mark_spent insert_entry insert_entries store_idempotency commit form_key
    token_agrees claim_witness_of judge check_entry resolve_at resolve_input resolve_inputs
    output_amount resolve_lock output_key resolve_spec resolve_output resolve_outputs storable_int
    lookup insert_row text_eq text_mem compute_burn effective_policy validate_policy b64u_encode
    b64u_decode ledger_key evaluate as_int b64_groups digit symbol
answered_5000 = refl

pub custody-IsUnique : IsUnique deposited_custody
unfolding lookup
custody-IsUnique = (refl, tt)

agent_withdraw-Paid_example :
    (p : Planned) × (plan_withdraw config
        (codes "demo-mint")
        (codes "a")
        withdraw_body
        600
        secret_four
        bridge_paid
      ≡ ok p)
    × (paid : Paid bridge_paid (codes "a") 600 p) × Ordered config
        (codes "demo-mint")
        (codes "a")
        withdraw_body
        600
        secret_four
        bridge_paid
        p
        paid
    × Answered p 5_000 5 (pos 4_945)
    × Completed config
        (codes "a")
        (codes "sup-withdraw-1")
        (codes "pend-2")
        secret_four
        601
        bridge_paid
        custody_entry
        p
        (agent_withdraw config
          (codes "demo-mint")
          (codes "a")
          withdraw_body
          600
          601
          secret_four
          (codes "sup-withdraw-1")
          (codes "pend-2")
          bridge_paid
          custody_entry).1
        (agent_withdraw config
          (codes "demo-mint")
          (codes "a")
          withdraw_body
          600
          601
          secret_four
          (codes "sup-withdraw-1")
          (codes "pend-2")
          bridge_paid
          custody_entry).2
agent_withdraw-Paid_example =
    agent_withdraw-Paid config (codes "demo-mint") (codes "a") withdraw_body 600 601 secret_four
      (codes "sup-withdraw-1") (codes "pend-2") bridge_paid custody_entry 5_000 5 (pos 4_945)
      custody-IsUnique answered_5000

-- The ledger does not know the custody.
abbrev unknown_input : List ErrorItem
unknown_input = input 0 Lock.unknown ∷ []

refused_5000 :
    (agent_withdraw config
      (codes "demo-mint")
      (codes "a")
      withdraw_body
      600
      601
      secret_four
      (codes "sup-withdraw-1")
      (codes "pend-2")
      bridge_paid
      empty_db).0
    ≡ ok (refused unknown_input)
unfolding agent_withdraw withdraw_planned withdraw_staged after_withdraw stage_withdraw
    finalize_withdraw withdraw_lines activate_change add_change update_inputs plan_withdraw
    charge_withdraw fund_withdraw cap_violation debits_within debits_lifetime sum_lines is_debit
    read_withdraw_outputs read_withdraw_output only_keys positive_int plain_int total_out
    withdraw_outputs insert_by_amount unspent_custody select_custody hashes_of custody_forms
    delete_row update_row take_from ◌-ℤ◌ ◌+ℤ◌ find_agent plain_text all_plain non_empty_list get
    all_symbols is_symbol exchange exchange_locked exchange_fresh in_records out_records
    input_errors output_errors sum_in sum_out duplicate_input effective_burn_policy conserve
    update_spent mark_spent insert_entry insert_entries store_idempotency commit reject form_key
    token_agrees claim_witness_of judge check_entry resolve_at resolve_input resolve_inputs
    output_amount resolve_lock output_key resolve_spec resolve_output resolve_outputs storable_int
    lookup insert_row text_eq text_mem compute_burn effective_policy validate_policy b64u_encode
    b64u_decode ledger_key evaluate as_int b64_groups digit symbol
refused_5000 = refl

agent_withdraw_refused_example :
    (agent_withdraw config
      (codes "demo-mint")
      (codes "a")
      withdraw_body
      600
      601
      secret_four
      (codes "sup-withdraw-1")
      (codes "pend-2")
      bridge_paid
      empty_db).1
    ≡ bridge_paid
agent_withdraw_refused_example =
    agent_withdraw_refused config (codes "demo-mint") (codes "a") withdraw_body 600 601 secret_four
      (codes "sup-withdraw-1") (codes "pend-2") bridge_paid empty_db unknown_input custody-IsUnique
      refused_5000
