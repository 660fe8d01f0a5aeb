-- ===== src/Ledger/Rows.antt =====
-- impl/aicash/ledgerstore.py: what holds of the rows of `entries`, and the value they hold unspent.
use ai_cash.Prelude.{
  subst, inr, inl, Bool-cases, ℕ, ◌+◌, ◌≤◌, ◌<◌, ◌≡◌, false, some, [], ◌∷◌, arith, if◌then◌else◌,
  is_some,
}
use ai_cash.Prelude.Text.{Text, text_eq}
use ai_cash.Lock.Paths.{IsValidLock, OptionAll}
use ai_cash.Ledger.State.{Entry}
use ai_cash.Ledger.Table.{Table, lookup}

-- `SUM(amount_mc) FROM entries WHERE spent = 0`, 0 where there is none
unfoldable pub unspent_sum : Table Entry → ℕ
unspent_sum [] = 0
unspent_sum ((k, e) ∷ t) = (if e.spent then 0 else e.amount_mc) + unspent_sum t

-- A row is well formed: it has value, its lock can be evaluated, and it has an instant of spending
-- exactly when it is spent.
pub record IsValidEntry (e : Entry) : Type 0 where
  pub positive : 0 < e.amount_mc
  pub lock_valid : OptionAll IsValidLock e.lock
  pub spent_stamped : is_some e.spent_at ≡ e.spent

abbrev pub AreValid : Table Entry → Type 0
AreValid [] = Unit
AreValid ((k, e) ∷ t) = IsValidEntry e × AreValid t

pub found-IsValidEntry :
    (k : Text) (t : Table Entry) → AreValid t → OptionAll IsValidEntry (lookup k t)
unfolding lookup
found-IsValidEntry k [] v = tt
found-IsValidEntry k ((j, e) ∷ t) v = elim (Bool-cases (text_eq k j)) [
  | inl same ↦ rw same v.0
  | inr differ ↦ rw differ (found-IsValidEntry k t v.1)
]

-- A key that holds an unspent entry holds part of the sum.
pub amount-le-unspent_sum :
    (k : Text) (e : Entry) (t : Table Entry)
    → lookup k t ≡ some e
    → e.spent ≡ false
    → e.amount_mc ≤ unspent_sum t
unfolding lookup unspent_sum
amount-le-unspent_sum k e [] h u = cc
amount-le-unspent_sum k e ((j, f) ∷ t) h u = ground (arith, amount-le-unspent_sum k e t)

pub found-entry :
    (k : Text) (e : Entry) (t : Table Entry) → AreValid t → lookup k t ≡ some e → IsValidEntry e
found-entry k e t v h = subst (OptionAll IsValidEntry) h (found-IsValidEntry k t v)
