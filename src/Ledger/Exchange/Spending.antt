-- ===== src/Ledger/Exchange/Spending.antt =====
-- impl/aicash/ledgerstore.py, the inputs of a call: what the checks establish of the entries that
-- are marked spent, and that each `UPDATE` touches one row.
use ai_cash.Prelude.{ℕ, ◌+◌, ◌≡◌, refl, true, false, Option, some, List, [], ◌∷◌, arith}
use ai_cash.Prelude.Text.{Text, text_mem, mem_ne, mem-cons, mem-cons_self}
use ai_cash.Ledger.Exchange.{update_spent, mark_spent}
use ai_cash.Ledger.Exchange.Marking.{
  lookup-update, update-IsUnique, update-AreValid, update_spent_one,
}
use ai_cash.Ledger.Rows.{unspent_sum, AreValid}
use ai_cash.Ledger.State.{Entry, done}
use ai_cash.Ledger.Table.{Table, lookup, IsUnique}

abbrev pub InRecord : Type 0
InRecord = Text × ℕ × Option Text

-- Each record names an unspent entry and its amount, and none names a key twice or one in `seen`.
abbrev pub Spendable : Table Entry → List Text → List InRecord → Type 0
Spendable t seen [] = Unit
Spendable t seen ((k, a, w) ∷ rs) =
    (text_mem k seen ≡ false)
    × ((e : Entry) × (lookup k t ≡ some e) × (e.spent ≡ false) × (e.amount_mc ≡ a))
    × Spendable t (k ∷ seen) rs

abbrev pub amounts : List InRecord → ℕ
amounts [] = 0
amounts ((k, a, w) ∷ rs) = a + amounts rs

-- Marking one key leaves the others spendable.
Spendable-update :
    (now : ℕ) (key : Text) (w : Option Text) (t : Table Entry) (seen : List Text)
    (rs : List InRecord)
    → text_mem key seen ≡ true
    → Spendable t seen rs
    → Spendable (update_spent now key w t).0 seen rs
Spendable-update now key w t seen [] m s = tt
Spendable-update now key w t seen ((k, a, v) ∷ rs) m (fresh, (e, found, unspent, amount), rest) = (
  fresh,
  (e, rw (lookup-update now key k w t, mem_ne k key seen m fresh) found, unspent, amount),
  Spendable-update now key w t (k ∷ seen) rs (mem-cons key k seen m) rest,
)

-- Every record is one row: the marking ends with no fault. The rows stay unique and well formed, and
-- the unspent sum falls by the amounts.
pub mark_spent_lem :
    (now : ℕ) (rs : List InRecord) (seen : List Text) (t : Table Entry)
    → IsUnique t
    → AreValid t
    → Spendable t seen rs
    → (t' : Table Entry) × (mark_spent now rs t ≡ done t')
      × IsUnique t'
      × AreValid t'
      × (unspent_sum t' + amounts rs ≡ unspent_sum t)
unfolding mark_spent
mark_spent_lem now [] seen t u v s = (t, refl, u, v, omega arith)
mark_spent_lem now ((k, a, w) ∷ rs) seen t u v (fresh, (e, found, unspent, amount), rest) =
    let (t', n) = update_spent now k w t in
    let (one, total) = update_spent_one now k w e t u found unspent in
    let (t'', eq, u'', v'', sum) =
      mark_spent_lem now rs (k ∷ seen) t' (update-IsUnique now k w t u)
        (update-AreValid now k w t v)
        (Spendable-update now k w t (k ∷ seen) rs (mem-cons_self k seen) rest) in
    (t'', rw one eq, u'', v'', omega (arith, amount, total, sum))
