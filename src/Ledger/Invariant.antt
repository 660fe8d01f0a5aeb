-- ===== src/Ledger/Invariant.antt =====
-- impl/aicash/ledgerstore.py: what holds of the three tables between calls.
use ai_cash.Prelude.{◌+◌, ◌≤◌, ◌≡◌, refl, arith}
use ai_cash.Burn.Bounds.{IsValidPolicy}
use ai_cash.Burn.Notice.{IsValidAnnounced}
use ai_cash.Ledger.Rows.{unspent_sum, AreValid}
use ai_cash.Ledger.State.{Db, Config, empty_db, max_amount_mc}
use ai_cash.Ledger.Table.{IsUnique}

-- The rows are unique and well formed, what is outstanding is what was issued less what was burned,
-- and the counter of what was issued fits its column.
pub record IsValidDb (db : Db) : Type 0 where
  pub unique : IsUnique db.entries
  pub rows : AreValid db.entries
  pub balance : unspent_sum db.entries + db.cumulative_burned_mc ≡ db.cumulative_issued_mc
  pub issued_fits : db.cumulative_issued_mc ≤ max_amount_mc

-- The configured policies are valid.
pub record IsValidConfig (cfg : Config) : Type 0 where
  pub policy : IsValidPolicy cfg.burn_policy
  pub announced : IsValidAnnounced cfg.burn_policy_next

pub empty_db-IsValidDb : IsValidDb empty_db
unfolding unspent_sum
empty_db-IsValidDb = record { unique = tt; rows = tt; balance = refl; issued_fits = omega arith }
