-- ===== src/Ledger/Issue.antt =====
-- impl/aicash/ledgerstore.py, `issue`: the operator's funding, with no inputs and no burn.
pub mod Issuing
use ai_cash.Prelude.{ℕ, ◌+◌, ◌-◌, Option, none, some, List, [], ◌∷◌, map, ltb, leb, if◌then◌else◌}
use ai_cash.Prelude.Text.{Text}
use ai_cash.Codec.Key.{Hash}
use ai_cash.Lock.{Lock, bad_format}
use ai_cash.Ledger.Exchange.{output_errors, out_records, insert_entries}
use ai_cash.Ledger.Outputs.{OutputArg, OutputResult, spec, wire, parse_output_wire, resolve_output}
use ai_cash.Ledger.State.{
  Entry, ErrorItem, Db, Config, max_amount_mc, Fault, overflow_error, Run, done, fault, ◌>>=◌,
}
use ai_cash.Ledger.Table.{Table}

-- The raised rejection, or the return.
pub data IssueReply : Type 0 where
  issued : IssueReply
  refused : List ErrorItem → IssueReply

abbrev pub parse_arg : OutputArg → OutputArg
parse_arg (spec s) = spec s
parse_arg (wire v) = parse_output_wire v

-- The headroom of the issued counter: the result, and `running` after it.
unfoldable pub with_headroom : OutputResult → ℕ → OutputResult × ℕ
with_headroom r running = elim r.reason [
  | some _ ↦ (r, running)
  | none ↦ elim r.amount [
    | none ↦ (r, running)
    | some amount ↦
        if ltb (max_amount_mc - amount) running
        then (record r { reason = some bad_format }, running)
        else (r, running + amount)
  ]
]

abbrev pub record_values : List (Text × ℕ × Option Lock) → ℕ
record_values [] = 0
record_values ((key, amount, lock) ∷ rs) = amount + record_values rs

-- The `UPDATE` of the supply; a number past the column's bound is `OverflowError`.
unfoldable pub add_issued : ℕ → Db → Run Db
add_issued total db =
    if leb total max_amount_mc
    then done (record db { cumulative_issued_mc = db.cumulative_issued_mc + total })
    else fault overflow_error

unfoldable pub issue_commit : ℕ → List OutputResult → Db → Run (IssueReply × Db)
issue_commit now outs db = do
  entries ← insert_entries now (out_records outs) db.entries
  db' ← add_issued (record_values (out_records outs)) (record db { entries = entries })
  done (issued, db')

abbrev pub issue_settle : ℕ → List OutputResult → List ErrorItem → Db → Run (IssueReply × Db)
issue_settle now outs [] db = issue_commit now outs db
issue_settle now outs (e ∷ es) db = done (refused (e ∷ es), db)

module _ ⦃hash : Hash⦄ where
  unfoldable pub issue_outputs :
      Config → Table Entry → ℕ → List OutputArg → List Text → ℕ → List OutputResult
  issue_outputs cfg t now [] seen running = []
  issue_outputs cfg t now (o ∷ os) seen running =
      let (r, seen') = resolve_output cfg t (parse_arg o) now seen in
      let (r', running') = with_headroom r running in r' ∷ issue_outputs cfg t now os seen' running'

  unfoldable pub issue : Config → ℕ → List OutputArg → Db → Run (IssueReply × Db)
  issue cfg now outputs db =
      let outs = issue_outputs cfg db.entries now outputs [] db.cumulative_issued_mc in
      issue_settle now outs (output_errors 0 outs) db
