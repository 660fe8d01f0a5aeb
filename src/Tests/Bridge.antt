-- ===== src/Tests/Bridge.antt =====
-- Deposits, and a history of all kinds of calls, at concrete inputs.
use ai_cash.Supervision.Moves.{move, transfer_guards, is_self, transfer_between, agent_transfer}
use ai_cash.Supervision.Administration.{
  operator_digest_taken, insert_operator, agent_digest_taken, op_register, op_agents, fresh_agent,
}
use ai_cash.Supervision.Rows.{update_row}
use ai_cash.Supervision.Accounts.{
  take_from, move_lines, move_agents, sum_lines, debits_lifetime, debits_within, cap_violation,
  leaves_the_operator, find_agent, give_to, line,
}
use ai_cash.Supervision.Access.{utf8, hex, key_digest}
use ai_cash.Prelude.Int.{◌-ℤ◌, ◌+ℤ◌, ℤ, pos}
use ai_cash.Lock.{as_int, evaluate}
use ai_cash.Codec.Key.{ledger_key}
use ai_cash.Burn.{validate_policy, effective_policy, compute_burn}
use ai_cash.Ledger.Table.{Table, insert_row, lookup}
use ai_cash.Ledger.Outputs.{
  resolve_outputs, resolve_output, resolve_spec, output_key, resolve_lock, output_amount,
}
use ai_cash.Ledger.Inputs.{
  resolve_inputs, resolve_input, resolve_at, check_entry, judge, claim_witness_of, token_agrees,
  form_key,
}
use ai_cash.Ledger.Exchange.{
  commit, mark_spent, update_spent, reject, store_idempotency, insert_entries, insert_entry,
  conserve, effective_burn_policy, duplicate_input, sum_out, sum_in, output_errors, input_errors,
  out_records, in_records, exchange_fresh, exchange_locked, exchange,
}
use ai_cash.Codec.Base64.{
  symbol, digit, b64_groups, b64u_decode, b64u_encode, is_symbol, all_symbols,
}
use ai_cash.Codec.Decimal.{is_decimal_digit, all_decimal_digits, value_from, is_amount}
use ai_cash.Codec.TokenText.{
  is_mint_char, all_mint_chars, is_mint_id, read_token_fields, split_on, parse_fields, parse_token,
}
use ai_cash.Supervision.Bridge.Deposits.{agent_deposit_refused}
use ai_cash.Prelude.{some, none, ◌≡◌, refl, [], ◌∷◌, List}
use ai_cash.Prelude.Text.{Text, text_mem, text_eq, codes}
use ai_cash.Codec.Value.{get, Value, Values, Fields}
use ai_cash.Lock
use ai_cash.Supervision.{
  is_debit, plain_int, positive_int, debit, credit, all_plain, plain_text, deposit, Agent,
  empty_books, Books, read_ref, ok,
}
use ai_cash.Supervision.Bridge.{
  finalize_deposit, forms_of, total_of, non_empty_list, read_tokens, add_custody, price_deposit,
  after_exchange, exchange_staged, exchange_priced, agent_deposit, refused,
}
use ai_cash.Supervision.Custody.{unspent, Custody, delete_row, Bridge}
use ai_cash.Ledger.State.{storable_int, ErrorItem, input, empty_db}
use ai_cash.Tests.Sample.{key_of, one_entry, sum_hash, secret_two, config}
use ai_cash.Tests.Supervision.{transfer_body, ascii, demo_text, funded}

abbrev deposit_body : Fields
deposit_body =
    Fields.field (codes "tokens") (Value.arr (Values.cons (Value.str demo_text) Values.nil))
      Fields.end

abbrev bridge : Bridge
bridge = record { books = funded; custody = []; pending_ops = []; absorbed_mc = pos 0 }

abbrev unknown_token : List ErrorItem
unknown_token = input 0 Lock.unknown ∷ []

deposit_unknown :
    (agent_deposit config
      (codes "demo-mint")
      (codes "a")
      deposit_body
      50
      51
      secret_two
      (codes "sup-deposit-1")
      (codes "pend-1")
      bridge
      empty_db).0
    ≡ ok (refused unknown_token)
unfolding agent_deposit exchange_priced exchange_staged after_exchange price_deposit add_custody
    read_tokens non_empty_list total_of forms_of read_ref get parse_token parse_fields split_on
    read_token_fields is_amount value_from is_mint_id all_mint_chars is_mint_char all_decimal_digits
    is_decimal_digit all_symbols is_symbol exchange exchange_locked exchange_fresh in_records
    out_records input_errors output_errors sum_in sum_out duplicate_input effective_burn_policy
    conserve insert_entry insert_entries store_idempotency reject form_key token_agrees
    claim_witness_of judge check_entry resolve_at resolve_input resolve_inputs output_amount
    resolve_lock output_key resolve_spec resolve_output resolve_outputs storable_int lookup
    insert_row text_eq text_mem compute_burn effective_policy validate_policy b64u_encode
    b64u_decode ledger_key evaluate as_int b64_groups digit symbol
deposit_unknown = refl

agent_deposit_refused_example :
    (agent_deposit config
      (codes "demo-mint")
      (codes "a")
      deposit_body
      50
      51
      secret_two
      (codes "sup-deposit-1")
      (codes "pend-1")
      bridge
      empty_db).1
    ≡ bridge
agent_deposit_refused_example =
    agent_deposit_refused config (codes "demo-mint") (codes "a") deposit_body 50 51 secret_two
      (codes "sup-deposit-1") (codes "pend-1") bridge empty_db unknown_token deposit_unknown

-- From the empty tables: an operator, two accounts, a deposit to the first and a transfer to the
-- second.
abbrev pub name_body : Text → Text → Fields
name_body k name = Fields.field k (Value.str name) Fields.end

abbrev pub new_account : Text → ℤ → Agent
new_account key held = record (fresh_agent (codes "op") (codes "agent") (key_digest key) 7) {
  balance_mc = held;
}

abbrev pub books_registered : Books
books_registered = record empty_books {
  operators =
      (
        codes "op",
        record { name = codes "o"; key_sha256 = key_digest (codes "key"); created_at = 7 },
      )
      ∷ [];
}

abbrev pub books_with_a : Books
books_with_a = record books_registered {
  agents = (codes "a", new_account (codes "k1") (pos 0)) ∷ [];
}

abbrev pub books_with_b : Books
books_with_b = record books_registered {
  agents =
      (codes "b", new_account (codes "k2") (pos 0))
      ∷ (codes "a", new_account (codes "k1") (pos 0))
      ∷ [];
}

abbrev token_text_10000 : Text
token_text_10000 = codes "aicash:v3:demo-mint:10000:AQEBAQEBAQEBAQEBAQEBAQEBAQEBAQEBAQEBAQEBAQE"

abbrev pub known_body : Fields
known_body =
    Fields.field (codes "tokens") (Value.arr (Values.cons (Value.str token_text_10000) Values.nil))
      Fields.end

abbrev pub bridge_with_b : Bridge
bridge_with_b = record { books = books_with_b; custody = []; pending_ops = []; absorbed_mc = pos 0 }

abbrev pub books_deposited : Books
books_deposited = record books_registered {
  agents =
      (codes "b", new_account (codes "k2") (pos 0))
      ∷ (codes "a", new_account (codes "k1") (pos 9_990))
      ∷ [];
  lines = line (codes "a") 50 deposit 9_990 none [] ∷ [];
}

abbrev pub deposited_custody : Table Custody
deposited_custody =
    (
      key_of secret_two,
      record { secret_b64u = b64u_encode secret_two; amount_mc = 9_990; state = unspent },
    )
    ∷ []

pub deposited_9990 :
    (agent_deposit config
      (codes "demo-mint")
      (codes "a")
      known_body
      50
      51
      secret_two
      (codes "sup-deposit-1")
      (codes "pend-1")
      bridge_with_b
      one_entry).1
    ≡ record {
      books = books_deposited;
      custody = deposited_custody;
      pending_ops = [];
      absorbed_mc = pos 0;
    }
unfolding agent_deposit exchange_priced exchange_staged after_exchange finalize_deposit delete_row
    update_row give_to find_agent plain_text all_plain price_deposit add_custody read_tokens
    non_empty_list total_of forms_of read_ref get parse_token parse_fields split_on
    read_token_fields is_amount value_from is_mint_id all_mint_chars is_mint_char all_decimal_digits
    is_decimal_digit all_symbols is_symbol exchange exchange_locked exchange_fresh in_records
    out_records input_errors output_errors sum_in sum_out duplicate_input effective_burn_policy
    conserve update_spent mark_spent insert_entry insert_entries store_idempotency commit form_key
    token_agrees claim_witness_of judge check_entry resolve_at resolve_input resolve_inputs
    output_amount resolve_lock output_key resolve_spec resolve_output resolve_outputs storable_int
    lookup insert_row text_eq text_mem compute_burn effective_policy validate_policy b64u_encode
    b64u_decode ledger_key evaluate as_int b64_groups digit symbol ◌+ℤ◌
deposited_9990 = refl

abbrev pub books_paid : Books
books_paid = record books_registered {
  agents =
      (codes "b", new_account (codes "k2") (pos 40))
      ∷ (codes "a", new_account (codes "k1") (pos 9_950))
      ∷ [];
  lines =
      line (codes "b") 500 credit 40 (some (codes "a")) []
      ∷ line (codes "a") 500 debit 40 (some (codes "b")) []
      ∷ books_deposited.lines;
}

pub operator_registered :
    op_register
      (name_body (codes "operator_name") (codes "o"))
      7
      (codes "op")
      (codes "key")
      empty_books
    ≡ ok ((codes "op", codes "key"), books_registered)
unfolding op_register insert_operator get plain_text all_plain text_eq operator_digest_taken lookup
    insert_row key_digest hex utf8
operator_registered = refl

pub agent_a :
    op_agents
      (codes "op")
      (name_body (codes "agent_name") (codes "agent"))
      7
      (codes "a")
      (codes "k1")
      books_registered
    ≡ ok ((codes "a", codes "k1"), books_with_a)
unfolding op_agents get plain_text all_plain text_eq agent_digest_taken lookup insert_row key_digest
    hex utf8
agent_a = refl

pub agent_b :
    op_agents
      (codes "op")
      (name_body (codes "agent_name") (codes "agent"))
      7
      (codes "b")
      (codes "k2")
      books_with_a
    ≡ ok ((codes "b", codes "k2"), books_with_b)
unfolding op_agents get plain_text all_plain text_eq agent_digest_taken lookup insert_row key_digest
    hex utf8
agent_b = refl

pub paid_40 :
    agent_transfer (codes "a") transfer_body 500 books_deposited ≡ ok (pos 9_950, books_paid)
unfolding agent_transfer transfer_between find_agent plain_text all_plain lookup text_eq get
    positive_int plain_int as_int storable_int is_self read_ref transfer_guards leaves_the_operator
    cap_violation debits_within debits_lifetime sum_lines is_debit move move_agents move_lines
    update_row take_from give_to ◌-ℤ◌ ◌+ℤ◌
paid_40 = refl

pub a_found : lookup (codes "a") books_with_b.agents ≡ some (new_account (codes "k1") (pos 0))
unfolding lookup text_eq
a_found = refl
