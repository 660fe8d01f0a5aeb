-- ===== src/Supervision/Custody.antt =====
-- impl/aicash/supervision.py: the mint's custody of bearer money, and the operations that are staged
-- before an exchange.
pub mod Held
use ai_cash.Prelude.{
  ℕ, Bool, true, false, ◌&&◌, not, Option, none, some, List, [], ◌∷◌, if◌then◌else◌,
}
use ai_cash.Prelude.Int.{ℤ}
use ai_cash.Prelude.Text.{Text, text_eq}
use ai_cash.Ledger.Table.{Table}
use ai_cash.Supervision.{Books}

-- The state of a row of `sup_custody`.
pub data CustodyState : Type 0 where
  pending unspent reserved spent : CustodyState

-- A row of `sup_custody`; the hash is its key.
pub record Custody : Type 0 where
  pub secret_b64u : Text
  pub amount_mc : ℕ
  pub state : CustodyState

pub record DepositDetails : Type 0 where
  pub custody_hash : Text
  pub net_mc : ℕ
  pub t : ℕ
  pub ref : Text

pub record WithdrawDetails : Type 0 where
  pub input_hashes : List Text
  pub change_hash : Option Text
  pub total_out_mc : ℕ
  pub burn_mc : ℕ
  pub ledger_burn_mc : ℕ
  pub absorbed_mc : ℤ
  pub gross_mc : ℕ
  pub t : ℕ

pub data Work : Type 0 where
  deposits : DepositDetails → Work
  withdraws : WithdrawDetails → Work

-- A row of `sup_pending_ops`; the id is its key. The probe is the custody hash of a deposit and the
-- first input of a withdrawal.
pub record PendingOp : Type 0 where
  pub agent_id : Text
  pub work : Work

-- All the tables of the service; `absorbed_mc` is the one row of `sup_mint`.
pub record Bridge : Type 0 where
  pub books : Books
  pub custody : Table Custody
  pub pending_ops : Table PendingOp
  pub absorbed_mc : ℤ

-- `DELETE … WHERE key = ?`, of the rows that a test selects.
unfoldable pub delete_row {ℓ} : {V : Type ℓ} → Text → (V → Bool) → Table V → Table V
delete_row k test [] = []
delete_row k test ((j, v) ∷ t) =
    let rest = delete_row k test t in if text_eq k j && test v then rest else (j, v) ∷ rest

abbrev pub is_pending : Custody → Bool
is_pending c = elim c.state [ pending ↦ true | _ ↦ false ]

abbrev pub is_unspent : Custody → Bool
is_unspent c = elim c.state [ unspent ↦ true | _ ↦ false ]

abbrev pub is_reserved : Custody → Bool
is_reserved c = elim c.state [ reserved ↦ true | _ ↦ false ]

-- `UPDATE sup_custody SET state = 'unspent' … AND state = 'pending'`, and its like for the other
-- steps of a state.
abbrev pub activate : Custody → Custody
activate c = if is_pending c then record c { state = unspent } else c

abbrev pub reserve : Custody → Custody
reserve c = if is_unspent c then record c { state = reserved } else c

abbrev pub release : Custody → Custody
release c = if is_reserved c then record c { state = unspent } else c

abbrev pub consume : Custody → Custody
consume c = if is_reserved c then record c { state = spent } else c
