-- ===== src/Tests/History.antt =====
-- Theorems about histories, issuances and prunings, at a concrete ledger.
use ai_cash.Codec.Value.{Value}
use ai_cash.Codec.Key.{ledger_key}
use ai_cash.Lock.{as_int}
use ai_cash.Prelude.Int.{pos}
use ai_cash.Ledger.Outputs.{
  spec, OutputArg, no_lock, output_amount, resolve_lock, output_key, resolve_spec, resolve_output,
}
use ai_cash.Codec.Base64.{b64u_encode, b64u_decode}
use ai_cash.Prelude.{
  ◌⊎◌, replicate, if◌then◌else◌, ◌+◌, ◌≡◌, ◌≢◌, refl, false, none, some, [], ◌∷◌, length,
}
use ai_cash.Prelude.Text.{text_eq, text_mem, Text, codes}
use ai_cash.Ledger.Exchange.{insert_entries, insert_entry, out_records, output_errors, exchange}
use ai_cash.Ledger.History.{
  step, Reach, here, funded, exchanged, idle, serve, Serves, supply_balances, no_double_spend,
}
use ai_cash.Ledger.Retries.{exchange_retry}
use ai_cash.Ledger.Issue.{add_issued, issue_commit, with_headroom, issue_outputs, issued, issue}
use ai_cash.Ledger.Reads.{prune, supply}
use ai_cash.Ledger.Reads.Pruning.{outlived, prune_lem}
use ai_cash.Ledger.State.{
  Reply, idempotency_conflict, Entry, Db, empty_db, storable_int, confirmed, done,
}
use ai_cash.Ledger.Table.{lookup, insert_row}
use ai_cash.Tests.Exchange.{confirmed_run, id_given, digest_given, fresh_id, spent_db, inputs_one}
use ai_cash.Tests.Sample.{
  sum_hash, secret_one, key_of, config, config-IsValidConfig, one_entry, one_entry-IsValidDb,
  spend_one, pay, request_id, digest_one,
}

abbrev first_output : OutputArg
first_output = spec (record {
  amount_mc = Value.int (pos 10_000);
  secret_hash = Value.str (key_of secret_one);
  secret = Value.null;
  lock = no_lock;
})

funded_run : issue config 5 (first_output ∷ []) empty_db ≡ done (issued, one_entry)
unfolding issue issue_outputs with_headroom issue_commit add_issued output_errors out_records
    insert_entry insert_entries output_amount resolve_lock output_key resolve_spec resolve_output
    storable_int lookup insert_row text_eq text_mem b64u_encode b64u_decode ledger_key as_int
funded_run = refl

abbrev paid : Reach config empty_db spent_db
paid = step (step here (funded 5 (first_output ∷ []) issued funded_run)) (
    exchanged 50 request_id digest_one inputs_one (pay 9_990 ∷ []) (confirmed 1 10) id_given
      digest_given confirmed_run)

supply_balances_example :
    (supply spent_db).outstanding_mc + (supply spent_db).cumulative_burned_mc
    ≡ (supply spent_db).cumulative_issued_mc
supply_balances_example = supply_balances config spent_db config-IsValidConfig paid

abbrev second_id : Text
second_id = codes "req-2"

second_id_given : second_id ≢ []
second_id_given h = cc

second_id_fresh : lookup second_id spent_db.idempotency ≡ none
unfolding lookup text_eq
second_id_fresh = refl

no_double_spend_example :
    exchange config 60 second_id digest_one inputs_one (pay 9_990 ∷ []) spent_db
    ≢ done (confirmed 1 10, spent_db)
no_double_spend_example =
    no_double_spend config 50 request_id digest_one inputs_one (pay 9_990 ∷ []) one_entry 1 10
      spent_db spent_db 0 spend_one 60 second_id digest_one inputs_one (pay 9_990 ∷ []) 0 spend_one
      config-IsValidConfig one_entry-IsValidDb id_given digest_given fresh_id confirmed_run refl
      idle second_id_given digest_given second_id_fresh refl refl 1 10 spent_db

abbrev the_entry : Entry
the_entry = record {
  amount_mc = 10_000;
  spent = false;
  lock = none;
  created_at = 5;
  spent_at = none;
  claim_witness = none;
}

the_entry_found : lookup (key_of secret_one) one_entry.entries ≡ some the_entry
unfolding lookup b64u_encode text_eq
the_entry_found = refl

prune_lem_example :
    (lookup (key_of secret_one) (prune config 9_000 one_entry).0.entries
      ≡ (if outlived 1000 9_000 none then none else some the_entry))
    × (supply (prune config 9_000 one_entry).0 ≡ supply one_entry)
    × (length (prune config 9_000 one_entry).0.entries + (prune config 9_000 one_entry).1
        ≡ length one_entry.entries)
prune_lem_example =
    prune_lem config 9_000 one_entry (key_of secret_one) the_entry one_entry-IsValidDb
      the_entry_found

abbrev other_key : Text
other_key = key_of (replicate 32 7)

abbrev other_output : OutputArg
other_output = spec (record {
  amount_mc = Value.int (pos 500);
  secret_hash = Value.str other_key;
  secret = Value.null;
  lock = no_lock;
})

abbrev later_db : Db
later_db = record spent_db {
  entries = (other_key, record the_entry { amount_mc = 500; created_at = 60 }) ∷ spent_db.entries;
  cumulative_issued_mc = 10_500;
}

later_run : issue config 60 (other_output ∷ []) spent_db ≡ done (issued, later_db)
unfolding issue issue_outputs with_headroom issue_commit add_issued output_errors out_records
    insert_entry insert_entries output_amount resolve_lock output_key resolve_spec resolve_output
    storable_int lookup insert_row text_eq text_mem b64u_encode b64u_decode ledger_key as_int
later_run = refl

-- An issuance comes between the call and its retry.
came_between : Serves config spent_db later_db
came_between = serve idle (funded 60 (other_output ∷ []) issued later_run)

exchange_retry_example :
    (exchange config 90 request_id digest_one [] [] later_db ≡ done (confirmed 1 10, later_db))
    × ((digest_one ≡ codes "other")
        ⊎ (exchange config 90 request_id (codes "other") [] [] later_db
            ≡ done (Reply.rejected (idempotency_conflict ∷ []), later_db)))
exchange_retry_example =
    exchange_retry config 50 request_id digest_one inputs_one (pay 9_990 ∷ []) one_entry
      (confirmed 1 10) spent_db later_db 90 (codes "other") [] [] config-IsValidConfig
      one_entry-IsValidDb id_given digest_given fresh_id confirmed_run came_between (λ h. cc)
