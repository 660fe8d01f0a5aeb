-- ===== src/Ledger/Exchange.antt =====
-- impl/aicash/ledgerstore.py, `exchange` and `_exchange_locked`: the one atomic operation. A call
-- answers with the tables after it; on a fault the transaction is rolled back.
pub mod Marking
pub mod Totals
pub mod Guarantees
pub mod Inputs
pub mod Outcome
pub mod Effects
pub mod Outgoing
pub mod Fresh
pub mod Inserting
pub mod Placing
pub mod Accepted
pub mod Resolving
pub mod Spending
use ai_cash.Prelude.{
  ℕ, ◌+◌, Bool, true, false, ◌&&◌, not, Option, none, some, List, [], ◌∷◌, ◌++◌, length, sum, ◌==◌,
  if◌then◌else◌,
}
use ai_cash.Prelude.Int.{pos}
use ai_cash.Prelude.Text.{Text, text_eq, text_mem}
use ai_cash.Burn
use ai_cash.Burn.{BurnPolicy, compute_burn, effective_policy}
use ai_cash.Codec.Key.{Hash}
use ai_cash.Lock.{Lock, InputForm, Reason}
use ai_cash.Ledger.Inputs.{InputResult, resolve_inputs}
use ai_cash.Ledger.Outputs.{OutputArg, OutputResult, resolve_outputs}
use ai_cash.Ledger.State.{
  Entry, ErrorItem, input, output, idempotency_conflict, amount_mismatch, Reply, confirmed,
  rejected, Stored, Db, Config, Fault, value_error, integrity_error, input_vanished, burn_error,
  assertion, Run, done, fault, ◌>>=◌, ◌>>◌, or_fault,
}
use ai_cash.Ledger.Table.{Table, lookup, insert_row}

-- `errors`, the part of the inputs; `i` is the position of the first.
unfoldable pub input_errors : ℕ → List InputResult → List ErrorItem
input_errors i [] = []
input_errors i (r ∷ rs) =
    let rest = input_errors (i + 1) rs in
    elim r.reason [ none ↦ rest | some reason ↦ input i reason ∷ rest ]

unfoldable pub output_errors : ℕ → List OutputResult → List ErrorItem
output_errors j [] = []
output_errors j (r ∷ rs) =
    let rest = output_errors (j + 1) rs in
    elim r.reason [ none ↦ rest | some reason ↦ output j reason ∷ rest ]

-- `sum(in_amounts)`, if all of them are known
unfoldable pub sum_in : List InputResult → Option ℕ
sum_in [] = some 0
sum_in (r ∷ rs) =
    let rest = sum_in rs in
    elim r.amount [ none ↦ none | some a ↦ elim rest [ none ↦ none | some n ↦ some (a + n) ] ]

unfoldable pub sum_out : List OutputResult → Option ℕ
sum_out [] = some 0
sum_out (r ∷ rs) =
    let rest = sum_out rs in
    elim r.amount [ none ↦ none | some a ↦ elim rest [ none ↦ none | some n ↦ some (a + n) ] ]

-- Whether two inputs resolved to one key; `keys` are those before.
unfoldable pub duplicate_input : List Text → List InputResult → Bool
duplicate_input keys [] = false
duplicate_input keys (r ∷ rs) = elim r.key [
  | none ↦ duplicate_input keys rs
  | some k ↦ let rest = duplicate_input (k ∷ keys) rs in if text_mem k keys then true else rest
]

abbrev pub from_burn : {A : Type 0} → Burn.Checked A → Run A
from_burn (Burn.ok a) = done a
from_burn (Burn.raised e) = fault burn_error

-- `Ledger.effective_burn_policy`
unfoldable pub effective_burn_policy : Config → ℕ → Run BurnPolicy
effective_burn_policy cfg now =
    from_burn (effective_policy cfg.burn_policy cfg.burn_policy_next (pos now))

-- The burn, if it is computable, and the call-level error.
abbrev pub Conservation : Type 0
Conservation = Option ℕ × List ErrorItem

abbrev pub priced : ℕ → ℕ → ℕ → Conservation
priced total_in total_out burn =
    (some burn, if total_in == total_out + burn then [] else amount_mismatch burn ∷ [])

abbrev pub conserve_sums : Config → ℕ → Option ℕ → Option ℕ → Run Conservation
conserve_sums cfg now (some total_in) (some total_out) = do
  policy ← effective_burn_policy cfg now
  burn ← from_burn (compute_burn (pos total_in) policy)
  done (priced total_in total_out burn)
conserve_sums cfg now _ _ = done (none, [])

unfoldable pub conserve :
    Config → ℕ → List InputResult → List OutputResult → Run (Option ℕ × List ErrorItem)
conserve cfg now ins outs =
    if duplicate_input [] ins
    then done (none, [])
    else conserve_sums cfg now (sum_in ins) (sum_out outs)

-- `in_records` and `out_records`
unfoldable pub in_records : List InputResult → List (Text × ℕ × Option Text)
in_records [] = []
in_records (r ∷ rs) =
    let rest = in_records rs in
    elim r.reason [
      | some _ ↦ rest
      | none ↦ elim r.key [
        | none ↦ rest
        | some k ↦ elim r.amount [ none ↦ rest | some a ↦ (k, a, r.witness) ∷ rest ]
      ]
    ]

unfoldable pub out_records : List OutputResult → List (Text × ℕ × Option Lock)
out_records [] = []
out_records (r ∷ rs) =
    let rest = out_records rs in
    elim r.reason [
      | some _ ↦ rest
      | none ↦ elim r.key [
        | none ↦ rest
        | some k ↦ elim r.amount [ none ↦ rest | some a ↦ (k, a, r.lock) ∷ rest ]
      ]
    ]

-- `UPDATE entries SET spent = 1, … WHERE hash = ? AND spent = 0`, with its row count
abbrev pub spend : ℕ → Option Text → Entry → Entry
spend now witness e = record e { spent = true; spent_at = some now; claim_witness = witness }

unfoldable pub update_spent : ℕ → Text → Option Text → Table Entry → Table Entry × ℕ
update_spent now key witness [] = ([], 0)
update_spent now key witness ((k, e) ∷ t) =
    let (t', n) = update_spent now key witness t in
    if text_eq key k && not e.spent
    then ((k, spend now witness e) ∷ t', n + 1)
    else ((k, e) ∷ t', n)

abbrev pub one_row : Table Entry × ℕ → Run (Table Entry)
one_row (t, n) = if n == 1 then done t else fault input_vanished

unfoldable pub mark_spent : ℕ → List (Text × ℕ × Option Text) → Table Entry → Run (Table Entry)
mark_spent now [] t = done t
mark_spent now ((key, amount, witness) ∷ rs) t = do
  t' ← one_row (update_spent now key witness t)
  mark_spent now rs t'

-- `_insert_entry`
unfoldable pub insert_entry : Table Entry → Text → ℕ → Option Lock → ℕ → Run (Table Entry)
insert_entry t key amount lock now =
    or_fault
      (insert_row key
        (record {
          amount_mc = amount;
          spent = false;
          lock = lock;
          created_at = now;
          spent_at = none;
          claim_witness = none;
        })
        t)
      integrity_error

unfoldable pub insert_entries : ℕ → List (Text × ℕ × Option Lock) → Table Entry → Run (Table Entry)
insert_entries now [] t = done t
insert_entries now ((key, amount, lock) ∷ rs) t = do
  t' ← insert_entry t key amount lock now
  insert_entries now rs t'

unfoldable pub store_idempotency : Table Stored → Text → Text → Reply → ℕ → Run (Table Stored)
store_idempotency t key digest result now =
    or_fault (insert_row key (record { body_digest = digest; result = result; created_at = now }) t)
      integrity_error

-- What follows when no error was found.
unfoldable pub commit :
    ℕ → Text → Text → List InputResult → List OutputResult → ℕ → Db → Run (Reply × Db)
commit now key digest ins outs burn db = do
  marked ← mark_spent now (in_records ins) db.entries
  entries ← insert_entries now (out_records outs) marked
  let result = confirmed (length (out_records outs)) burn
  idempotency ← store_idempotency db.idempotency key digest result now
  done (
    result,
    record {
      entries = entries;
      cumulative_issued_mc = db.cumulative_issued_mc;
      cumulative_burned_mc = db.cumulative_burned_mc + burn;
      idempotency = idempotency;
    },
  )

unfoldable pub reject : ℕ → Text → Text → List ErrorItem → Db → Run (Reply × Db)
reject now key digest errors db = do
  idempotency ← store_idempotency db.idempotency key digest (rejected errors) now
  done (rejected errors, record db { idempotency = idempotency })

abbrev pub settle :
    ℕ
    → Text
    → Text
    → List InputResult
    → List OutputResult
    → Option ℕ
    → List ErrorItem
    → Db
    → Run (Reply × Db)
settle now key digest ins outs none [] db = fault assertion
settle now key digest ins outs (some burn) [] db = commit now key digest ins outs burn db
settle now key digest ins outs burn (e ∷ es) db = reject now key digest (e ∷ es) db

module _ ⦃hash : Hash⦄ where
  -- A call under a key that is not stored.
  unfoldable pub exchange_fresh :
      Config → ℕ → Text → Text → List (Option InputForm) → List OutputArg → Db → Run (Reply × Db)
  exchange_fresh cfg now key digest inputs outputs db = do
    ins ← resolve_inputs db.entries now inputs []
    let outs = resolve_outputs cfg db.entries now outputs []
    (burn, call_errors) ← conserve cfg now ins outs
    settle now key digest ins outs burn
        (input_errors 0 ins ++ (output_errors 0 outs ++ call_errors)) db

  abbrev pub replayed : Stored → Text → Reply
  replayed stored digest =
      if text_eq stored.body_digest digest
      then stored.result
      else rejected (idempotency_conflict ∷ [])

  unfoldable pub exchange_locked :
      Config → ℕ → Text → Text → List (Option InputForm) → List OutputArg → Db → Run (Reply × Db)
  exchange_locked cfg now key digest inputs outputs db = elim (lookup key db.idempotency) [
    | none ↦ exchange_fresh cfg now key digest inputs outputs db
    | some stored ↦ done (replayed stored digest, db)
  ]

  abbrev pub non_empty : Text → Run (Unit {0})
  non_empty [] = fault value_error
  non_empty (c ∷ s) = done tt

  unfoldable pub exchange :
      Config → ℕ → Text → Text → List (Option InputForm) → List OutputArg → Db → Run (Reply × Db)
  exchange cfg now key digest inputs outputs db = do
    non_empty key
    non_empty digest
    exchange_locked cfg now key digest inputs outputs db
