-- ===== src/Tests/Recovery.antt =====
-- A crash between the two transactions of a deposit, at a concrete ledger.
use ai_cash.Supervision.Selection.{by_hash_spec}
use ai_cash.Supervision.Rows.{update_row}
use ai_cash.Supervision.Accounts.{find_agent, give_to}
use ai_cash.Prelude.Int.{◌+ℤ◌}
use ai_cash.Lock.{as_int, evaluate}
use ai_cash.Codec.Key.{ledger_key}
use ai_cash.Burn.{validate_policy, effective_policy, compute_burn}
use ai_cash.Ledger.Table.{insert_row, lookup}
use ai_cash.Ledger.Outputs.{
  resolve_outputs, resolve_output, resolve_spec, output_key, resolve_lock, output_amount,
}
use ai_cash.Ledger.Inputs.{
  resolve_inputs, resolve_input, resolve_at, check_entry, judge, claim_witness_of, token_agrees,
  form_key,
}
use ai_cash.Ledger.Exchange.{
  commit, mark_spent, update_spent, store_idempotency, insert_entries, insert_entry, conserve,
  effective_burn_policy, duplicate_input, sum_out, sum_in, output_errors, input_errors, out_records,
  in_records, exchange_fresh, exchange_locked, exchange,
}
use ai_cash.Codec.Base64.{
  symbol, digit, b64_groups, b64u_decode, b64u_encode, is_symbol, all_symbols,
}
use ai_cash.Codec.Decimal.{is_decimal_digit, all_decimal_digits, value_from, is_amount}
use ai_cash.Codec.TokenText.{
  is_mint_char, all_mint_chars, is_mint_id, read_token_fields, split_on, parse_fields, parse_token,
}
use ai_cash.Prelude.{◌≢◌, none, ◌≡◌, refl, [], ◌∷◌}
use ai_cash.Prelude.Text.{Text, text_mem, text_eq, codes}
use ai_cash.Codec.Value.{get}
use ai_cash.Supervision.{all_plain, plain_text, read_ref, ok}
use ai_cash.Supervision.Bridge.{
  finalize_deposit, forms_of, total_of, non_empty_list, read_tokens, add_custody, price_deposit,
  after_exchange, exchange_staged, exchange_priced, agent_deposit,
}
use ai_cash.Supervision.Custody.{delete_row, Bridge}
use ai_cash.Ledger.State.{storable_int}
use ai_cash.Tests.Sample.{key_of, one_entry, sum_hash, secret_two, config}
use ai_cash.Tests.Supervision.{ascii}
use ai_cash.Tests.Bridge.{bridge_with_b}
use ai_cash.Tests.Exchange.{spent_db}
use ai_cash.Tests.Sample.{config-IsValidConfig, one_entry-IsValidDb, secret_one, key_of}
use ai_cash.Supervision.Recovery.{recover_pending}
use ai_cash.Supervision.Recovery.Crash.{crash_recovered}
use ai_cash.Supervision.Bridge.{Priced}
use ai_cash.Supervision.Custody.{pending, deposits}
use ai_cash.Ledger.State.{Db, confirmed, done}

abbrev idem : Text
idem = codes "sup-deposit-1"

abbrev planned : Priced
planned = record {
  tokens = record { mint_id = codes "demo-mint"; amount_mc = 10_000; secret = secret_one } ∷ [];
  burn_mc = 10;
  details = record { custody_hash = key_of secret_two; net_mc = 9_990; t = 50; ref = [] };
}

abbrev staged : Bridge
staged = record bridge_with_b {
  custody =
      (
        key_of secret_two,
        record { secret_b64u = b64u_encode secret_two; amount_mc = 9_990; state = pending },
      )
      ∷ [];
  pending_ops =
      (codes "pend-1", record { agent_id = codes "a"; work = deposits planned.details }) ∷ [];
}

abbrev exchanged_db : Db
exchanged_db = record spent_db {
  idempotency =
      (idem, record { body_digest = idem; result = confirmed 1 10; created_at = 50 }) ∷ [];
}

idem_given : idem ≢ []
idem_given h = cc

idem_free : lookup idem one_entry.idempotency ≡ none
unfolding lookup
idem_free = refl

hash_new : lookup (key_of secret_two) one_entry.entries ≡ none
unfolding lookup text_eq b64u_encode
hash_new = refl

stages :
    add_custody
      (key_of secret_two)
      secret_two
      (codes "pend-1")
      (codes "a")
      planned.details
      bridge_with_b
    ≡ ok staged
unfolding add_custody insert_row lookup
stages = refl

exchanged :
    exchange config 50 idem idem
      (forms_of planned.tokens)
      (by_hash_spec 9_990 (key_of secret_two) ∷ [])
      one_entry
    ≡ done (confirmed 1 10, exchanged_db)
unfolding agent_deposit exchange_priced exchange_staged after_exchange finalize_deposit delete_row
    update_row give_to find_agent plain_text all_plain price_deposit add_custody read_tokens
    non_empty_list total_of forms_of read_ref get parse_token parse_fields split_on
    read_token_fields is_amount value_from is_mint_id all_mint_chars is_mint_char all_decimal_digits
    is_decimal_digit all_symbols is_symbol exchange exchange_locked exchange_fresh in_records
    out_records input_errors output_errors sum_in sum_out duplicate_input effective_burn_policy
    conserve update_spent mark_spent insert_entry insert_entries store_idempotency commit form_key
    token_agrees claim_witness_of judge check_entry resolve_at resolve_input resolve_inputs
    output_amount resolve_lock output_key resolve_spec resolve_output resolve_outputs storable_int
    lookup insert_row text_eq text_mem compute_burn effective_policy validate_policy b64u_encode
    b64u_decode ledger_key evaluate as_int b64_groups digit symbol ◌+ℤ◌
exchanged = refl

crash_recovered_example :
    (recover_pending one_entry staged ≡ bridge_with_b)
    × (recover_pending exchanged_db staged
        ≡ (after_exchange
            (codes "a")
            (codes "pend-1")
            planned.details
            staged
            one_entry
            (done (confirmed 1 10, exchanged_db))).1)
crash_recovered_example =
    crash_recovered config 50 idem (codes "a") (codes "pend-1") secret_two planned bridge_with_b
      staged one_entry config-IsValidConfig one_entry-IsValidDb idem_given idem_free hash_new refl
      stages (confirmed 1 10) exchanged_db exchanged
