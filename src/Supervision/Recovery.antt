-- ===== src/Supervision/Recovery.antt =====
-- impl/aicash/supervision.py, `_recover_pending`: the operations that a crash left staged.
pub mod Crash
pub mod Withdrawals
use ai_cash.Prelude.{Bool, true, false, Option, none, some, List, [], ◌∷◌, if◌then◌else◌}
use ai_cash.Prelude.Text.{Text, text_ltb}
use ai_cash.Ledger.Reads
use ai_cash.Ledger.Reads.{Status, status_one}
use ai_cash.Ledger.State.{Db}
use ai_cash.Ledger.Table.{Table}
use ai_cash.Supervision.Bridge.{discard_deposit, finalize_deposit}
use ai_cash.Supervision.Custody.{deposits, withdraws, PendingOp, Bridge}
use ai_cash.Supervision.Withdrawal.{finalize_withdraw, unwind_withdraw}

abbrev pub first_hash : List Text → Text
first_hash [] = []
first_hash (h ∷ hs) = h

abbrev pub is_unknown : Status → Bool
is_unknown Status.unknown = true
is_unknown _ = false

abbrev pub is_known_spent : Status → Bool
is_known_spent (Status.known spent amount lock at witness) = spent
is_known_spent _ = false

-- A deposit's custody entry exists exactly if its exchange was committed; the first input of a
-- withdrawal is spent exactly if its was.
unfoldable pub recover_op : Db → Text → PendingOp → Bridge → Bridge
recover_op db op_id op s = elim op.work [
  | deposits d ↦
      if is_unknown (status_one db.entries d.custody_hash)
      then discard_deposit op_id d s
      else finalize_deposit op_id op.agent_id d s
  | withdraws d ↦
      if is_known_spent (status_one db.entries (first_hash d.input_hashes))
      then finalize_withdraw op_id op.agent_id d s
      else unwind_withdraw op_id d s
]

-- `ORDER BY op_id`
unfoldable pub insert_by_id : Text × PendingOp → Table PendingOp → Table PendingOp
insert_by_id r [] = r ∷ []
insert_by_id r (q ∷ rows) =
    let rest = insert_by_id r rows in if text_ltb r.0 q.0 then r ∷ q ∷ rows else q ∷ rest

unfoldable pub sorted_ops : Table PendingOp → Table PendingOp
sorted_ops [] = []
sorted_ops (r ∷ rows) = insert_by_id r (sorted_ops rows)

unfoldable pub recover_ops : Db → Table PendingOp → Bridge → Bridge
recover_ops db [] s = s
recover_ops db ((op_id, op) ∷ ops) s = recover_ops db ops (recover_op db op_id op s)

unfoldable pub recover_pending : Db → Bridge → Bridge
recover_pending db s = recover_ops db (sorted_ops s.pending_ops) s
