-- ===== src/Tests/Exchange.antt =====
-- Runs of `exchange`, `issue` and `prune`, and the theorems about them.
use ai_cash.Ledger.Rows.{unspent_sum}
use ai_cash.Prelude.Int.{pos}
use ai_cash.Ledger.Exchange.Totals.{output_total, input_total, Creates}
use ai_cash.Ledger.Exchange.Inputs.{Spends}
use ai_cash.Ledger.Exchange.Guarantees.{
  exchange_conserves, exchange_outputs, exchange_inputs, exchange_rejected,
}
use ai_cash.Prelude.{
  length, ◌+◌, ◌≢◌, All, ℕ, ◌≡◌, refl, true, false, Option, none, some, List, [], ◌∷◌,
}
use ai_cash.Prelude.Text.{text_eq, text_mem}
use ai_cash.Burn
use ai_cash.Burn.{BurnPolicy, compute_burn, effective_policy, validate_policy}
use ai_cash.Codec.Base64.{b64u_encode, b64u_decode}
use ai_cash.Codec.Key.{ledger_key}
use ai_cash.Lock.{InputForm, evaluate, as_int}
use ai_cash.Ledger.Exchange.{
  exchange, exchange_locked, exchange_fresh, in_records, out_records, input_errors, output_errors,
  sum_in, sum_out, duplicate_input, effective_burn_policy, conserve, update_spent, mark_spent,
  insert_entry, insert_entries, store_idempotency, commit, reject,
}
use ai_cash.Ledger.Inputs.{
  form_key, token_agrees, claim_witness_of, judge, check_entry, resolve_at, resolve_input,
  resolve_inputs,
}
use ai_cash.Ledger.Outputs.{
  output_amount, resolve_lock, output_key, resolve_spec, resolve_output, resolve_outputs,
}
use ai_cash.Ledger.State.{Db, confirmed, rejected, amount_mismatch, done, storable_int}
use ai_cash.Ledger.Table.{lookup, insert_row}
use ai_cash.Tests.Sample.{
  one_entry-IsValidDb, config-IsValidConfig, secret_one, sum_hash, secret_two, key_of, config,
  one_entry, spend_one, pay, request_id, digest_one,
}

abbrev pub inputs_one : List (Option InputForm)
inputs_one = some spend_one ∷ []

abbrev pub spent_db : Db
spent_db = record {
  entries =
      (
        key_of secret_two,
        record {
          amount_mc = 9_990;
          spent = false;
          lock = none;
          created_at = 50;
          spent_at = none;
          claim_witness = none;
        },
      )
      ∷ (
        key_of secret_one,
        record {
          amount_mc = 10_000;
          spent = true;
          lock = none;
          created_at = 5;
          spent_at = some 50;
          claim_witness = none;
        },
      )
      ∷ [];
  cumulative_issued_mc = 10_000;
  cumulative_burned_mc = 10;
  idempotency =
      (request_id, record { body_digest = digest_one; result = confirmed 1 10; created_at = 50 })
      ∷ [];
}

-- The burn on 10000 is 10, so an output of 9990 balances.
pub confirmed_run :
    exchange config 50 request_id digest_one inputs_one (pay 9_990 ∷ []) one_entry
    ≡ done (confirmed 1 10, spent_db)
unfolding exchange exchange_locked exchange_fresh in_records out_records input_errors output_errors
    sum_in sum_out duplicate_input effective_burn_policy conserve update_spent mark_spent
    insert_entry insert_entries store_idempotency commit form_key token_agrees claim_witness_of
    judge check_entry resolve_at resolve_input resolve_inputs output_amount resolve_lock output_key
    resolve_spec resolve_output resolve_outputs storable_int lookup insert_row text_eq text_mem
    compute_burn effective_policy validate_policy b64u_encode b64u_decode ledger_key evaluate as_int
confirmed_run = refl

mismatched_run :
    exchange config 50 request_id digest_one inputs_one (pay 10_000 ∷ []) one_entry
    ≡ done (
      rejected (amount_mismatch 10 ∷ []),
      record one_entry {
        idempotency =
            (
              request_id,
              record {
                body_digest = digest_one;
                result = rejected (amount_mismatch 10 ∷ []);
                created_at = 50;
              },
            )
            ∷ [];
      },
    )
unfolding exchange exchange_locked exchange_fresh in_records out_records input_errors output_errors
    sum_in sum_out duplicate_input effective_burn_policy conserve insert_entry insert_entries
    store_idempotency reject form_key token_agrees claim_witness_of judge check_entry resolve_at
    resolve_input resolve_inputs output_amount resolve_lock output_key resolve_spec resolve_output
    resolve_outputs storable_int lookup insert_row text_eq text_mem compute_burn effective_policy
    validate_policy b64u_encode b64u_decode ledger_key evaluate as_int
mismatched_run = refl

pub id_given : request_id ≢ []
id_given h = cc

pub digest_given : digest_one ≢ []
digest_given h = cc

pub fresh_id : lookup request_id one_entry.idempotency ≡ none
unfolding lookup
fresh_id = refl

exchange_inputs_example : All (Spends one_entry.entries spent_db.entries 50) inputs_one
exchange_inputs_example =
    exchange_inputs config 50 request_id digest_one inputs_one (pay 9_990 ∷ []) one_entry
      config-IsValidConfig one_entry-IsValidDb id_given digest_given fresh_id 1 10 spent_db
      confirmed_run

exchange_outputs_example :
    All (Creates config one_entry.entries spent_db.entries 50) (pay 9_990 ∷ [])
    × (◌≡◌ {A = ℕ} 1 1)
    × (length spent_db.entries ≡ length one_entry.entries + 1)
exchange_outputs_example =
    exchange_outputs config 50 request_id digest_one inputs_one (pay 9_990 ∷ []) one_entry
      config-IsValidConfig one_entry-IsValidDb id_given digest_given fresh_id 1 10 spent_db
      confirmed_run

exchange_conserves_example :
    (p : BurnPolicy) × (effective_burn_policy config 50 ≡ done p)
    × (compute_burn (pos (input_total one_entry.entries inputs_one)) p ≡ Burn.ok 10)
    × (input_total one_entry.entries inputs_one ≡ output_total (pay 9_990 ∷ []) + 10)
    × (unspent_sum spent_db.entries + 10 ≡ unspent_sum one_entry.entries)
    × (spent_db.cumulative_burned_mc ≡ one_entry.cumulative_burned_mc + 10)
    × (spent_db.cumulative_issued_mc ≡ one_entry.cumulative_issued_mc)
exchange_conserves_example =
    exchange_conserves config 50 request_id digest_one inputs_one (pay 9_990 ∷ []) one_entry
      config-IsValidConfig one_entry-IsValidDb id_given digest_given fresh_id 1 10 spent_db
      confirmed_run

abbrev refused_db : Db
refused_db = record one_entry {
  idempotency =
      (
        request_id,
        record {
          body_digest = digest_one;
          result = rejected (amount_mismatch 10 ∷ []);
          created_at = 50;
        },
      )
      ∷ [];
}

exchange_rejected_example :
    (amount_mismatch 10 ∷ [] ≢ [])
    × (refused_db.entries ≡ one_entry.entries)
    × (refused_db.cumulative_issued_mc ≡ one_entry.cumulative_issued_mc)
    × (refused_db.cumulative_burned_mc ≡ one_entry.cumulative_burned_mc)
exchange_rejected_example =
    exchange_rejected config 50 request_id digest_one inputs_one (pay 10_000 ∷ []) one_entry
      config-IsValidConfig one_entry-IsValidDb id_given digest_given fresh_id
      (amount_mismatch 10 ∷ []) refused_db mismatched_run
