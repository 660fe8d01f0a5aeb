-- ===== src/Ledger/Reads/Pruning.antt =====
-- impl/aicash/ledgerstore.py, `prune`: what it deletes and what it keeps.
use ai_cash.Prelude.{
  ltb, ap, ◌∙◌, ℕ, ◌+◌, ◌-◌, ◌≡◌, refl, Bool, false, Option, none, some, [], ◌∷◌, arith, length,
  if◌then◌else◌,
}
use ai_cash.Prelude.Text.{Text}
use ai_cash.Ledger.Invariant.{IsValidDb}
use ai_cash.Ledger.Reads.{prune, is_stale, supply}
use ai_cash.Ledger.Rows.{found-entry, unspent_sum, AreValid}
use ai_cash.Ledger.State.{Entry, Db, Config}
use ai_cash.Ledger.Table.{
  Table, lookup, delete_where, delete-IsUnique, lookup-delete, length-delete,
}

-- Deleting spent entries takes nothing from the unspent sum.
unspent_sum-delete :
    (cutoff : ℕ) (t : Table Entry) → unspent_sum (delete_where (is_stale cutoff) t) ≡ unspent_sum t
unfolding delete_where unspent_sum
unspent_sum-delete cutoff [] = refl
unspent_sum-delete cutoff ((k, e) ∷ t) = ground (arith, unspent_sum-delete cutoff t)

delete-AreValid :
    (drop : Entry → Bool) (t : Table Entry) → AreValid t → AreValid (delete_where drop t)
unfolding delete_where
delete-AreValid drop [] v = tt
delete-AreValid drop ((k, e) ∷ t) (v, vs) = ground (arith, delete-AreValid drop t vs)

-- Pruning keeps the tables valid.
pub prune-IsValidDb :
    (cfg : Config) (now : ℕ) (db : Db) → IsValidDb db → IsValidDb (prune cfg now db).0
unfolding prune
prune-IsValidDb cfg now db v =
    let cutoff = now - cfg.recovery_window_ms in
    record {
      unique = delete-IsUnique (is_stale cutoff) db.entries v.unique;
      rows = delete-AreValid (is_stale cutoff) db.entries v.rows;
      balance = omega (arith, unspent_sum-delete cutoff db.entries, v.balance);
      issued_fits = v.issued_fits;
    }

-- The entry was spent, longer ago than the window.
abbrev pub outlived : ℕ → ℕ → Option ℕ → Bool
outlived window now none = false
outlived window now (some at) = ltb (at + window) now

-- On valid tables pruning deletes an entry exactly when it was spent longer ago than the recovery
-- window. The supply is as before, and the rows that stay and the count returned are all the rows.
pub prune_lem :
    (cfg : Config) (now : ℕ) (db : Db) (k : Text) (e : Entry)
    → IsValidDb db
    → lookup k db.entries ≡ some e
    → (lookup k (prune cfg now db).0.entries
        ≡ (if outlived cfg.recovery_window_ms now e.spent_at then none else some e))
      × (supply (prune cfg now db).0 ≡ supply db)
      × (length (prune cfg now db).0.entries + (prune cfg now db).1 ≡ length db.entries)
unfolding prune supply
prune_lem cfg now db k e v found =
    let cutoff = now - cfg.recovery_window_ms in
    let at_key = lookup-delete (is_stale cutoff) k e db.entries v.unique found in
    let row = found-entry k e db.entries v.rows found in
    (
      at_key ∙ ground (arith, row.spent_stamped),
      ap
          (λ (n : ℕ). record {
            outstanding_mc = n;
            cumulative_issued_mc = db.cumulative_issued_mc;
            cumulative_burned_mc = db.cumulative_burned_mc;
          })
          (unspent_sum-delete cutoff db.entries),
      length-delete (is_stale cutoff) db.entries,
    )
