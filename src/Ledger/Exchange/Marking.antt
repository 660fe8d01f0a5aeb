-- ===== src/Ledger/Exchange/Marking.antt =====
-- impl/aicash/ledgerstore.py, the `UPDATE` that marks an input spent: what it does to the rows.
use ai_cash.Prelude.{ℕ, ◌+◌, ◌≡◌, refl, false, Option, none, some, [], ◌∷◌, arith, if◌then◌else◌}
use ai_cash.Prelude.Text.{Text, text_eq, text_eq_iff}
use ai_cash.Ledger.Exchange.{update_spent, spend}
use ai_cash.Ledger.Rows.{unspent_sum, AreValid}
use ai_cash.Ledger.State.{Entry}
use ai_cash.Ledger.Table.{Table, lookup, IsUnique}

update-absent :
    (now : ℕ) (key : Text) (w : Option Text) (t : Table Entry)
    → lookup key t ≡ none
    → update_spent now key w t ≡ (t, 0)
unfolding update_spent lookup
update-absent now key w [] h = refl
update-absent now key w ((k, e) ∷ t) h = ground (arith, update-absent now key w t)

-- The row that an `UPDATE` leaves at its own key.
abbrev pub marked : ℕ → Option Text → Option Entry → Option Entry
marked now w none = none
marked now w (some e) = some (if e.spent then e else spend now w e)

pub lookup-update :
    (now : ℕ) (key j : Text) (w : Option Text) (t : Table Entry)
    → lookup j (update_spent now key w t).0
      ≡ (if text_eq key j then marked now w (lookup j t) else lookup j t)
unfolding update_spent lookup
lookup-update now key j w [] = ground arith
lookup-update now key j w ((k, e) ∷ t) =
    ground
      (arith, text_eq_iff key j, text_eq_iff key k, text_eq_iff j k, lookup-update now key j w t)

pub update-IsUnique :
    (now : ℕ) (key : Text) (w : Option Text) (t : Table Entry)
    → IsUnique t
    → IsUnique (update_spent now key w t).0
unfolding update_spent
update-IsUnique now key w [] u = tt
update-IsUnique now key w ((k, e) ∷ t) (absent, u) =
    ground (arith, update-IsUnique now key w t u, lookup-update now key k w t)

pub update-AreValid :
    (now : ℕ) (key : Text) (w : Option Text) (t : Table Entry)
    → AreValid t
    → AreValid (update_spent now key w t).0
unfolding update_spent
update-AreValid now key w [] v = tt
update-AreValid now key w ((k, e) ∷ t) (v, vs) = ground (arith, update-AreValid now key w t vs)

-- An unspent entry under a unique key is one row, and its amount leaves the unspent sum.
pub update_spent_one :
    (now : ℕ) (key : Text) (w : Option Text) (e : Entry) (t : Table Entry)
    → IsUnique t
    → lookup key t ≡ some e
    → e.spent ≡ false
    → ((update_spent now key w t).1 ≡ 1)
      × (unspent_sum (update_spent now key w t).0 + e.amount_mc ≡ unspent_sum t)
unfolding update_spent lookup unspent_sum
update_spent_one now key w e [] u h s = cc
update_spent_one now key w e ((k, f) ∷ t) (absent, u) h s =
    ground (arith, text_eq_iff key k, update_spent_one now key w e t u, update-absent now key w t)
