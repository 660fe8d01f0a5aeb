-- ===== src/Ledger/Exchange/Fresh.antt =====
-- impl/aicash/ledgerstore.py, `_exchange_locked` under a key that is not stored: that it answers, and
-- what holds of the tables after each answer.
use ai_cash.Prelude.{
  ℕ, ◌+◌, ◌≡◌, refl, ap, ◌∙◌, true, false, Option, none, some, List, [], ◌∷◌, arith, length,
  Bool-cases, inl, inr,
}
use ai_cash.Prelude.Int.{pos}
use ai_cash.Prelude.Text.{Text}
use ai_cash.Burn.{BurnPolicy}
use ai_cash.Burn.Bounds.{IsValidPolicy, compute_burn-eq, burn_of}
use ai_cash.Burn.Notice.{effective_policy_total}
use ai_cash.Ledger.Inputs.{InputResult}
use ai_cash.Ledger.Outputs.{OutputResult}
use ai_cash.Ledger.Exchange.{
  in_records, out_records, sum_in, sum_out, duplicate_input, effective_burn_policy, conserve,
  conserve_sums, priced, mark_spent, insert_entries, store_idempotency, commit, reject,
}
use ai_cash.Ledger.Exchange.Effects.{marked_all, mark_spent-lookup, marked_all-none}
use ai_cash.Ledger.Exchange.Inserting.{Insertable, Insertable-grow, values, insert_entries_lem}
use ai_cash.Ledger.Exchange.Spending.{Spendable, amounts, mark_spent_lem}
use ai_cash.Ledger.Invariant.{IsValidDb, IsValidConfig}
use ai_cash.Ledger.State.{
  Entry, ErrorItem, Reply, confirmed, rejected, Stored, Db, Config, done, is_done,
}
use ai_cash.Ledger.Table.{Table, lookup, insert_row}

abbrev pub stored_row : Text → Reply → ℕ → Stored
stored_row digest reply now = record { body_digest = digest; result = reply; created_at = now }

-- A policy is in force and a burn is computed whatever the instant and the sum.
pub effective_burn_policy_total :
    (cfg : Config) (now : ℕ)
    → IsValidConfig cfg
    → (p : BurnPolicy) × (effective_burn_policy cfg now ≡ done p) × IsValidPolicy p
unfolding effective_burn_policy
effective_burn_policy_total cfg now v =
    let (p, e, w) =
      effective_policy_total cfg.burn_policy cfg.burn_policy_next (pos now) v.policy v.announced in
    (p, rw e, w)

conserve_sums_eq :
    (cfg : Config) (now total_in total_out : ℕ) (p : BurnPolicy)
    → effective_burn_policy cfg now ≡ done p
    → IsValidPolicy p
    → conserve_sums cfg now (some total_in) (some total_out)
      ≡ done (priced total_in total_out (burn_of p total_in))
conserve_sums_eq cfg now i o p e v = rw (e, compute_burn-eq p i v)

pub conserve-is_done :
    (cfg : Config) (now : ℕ) (ins : List InputResult) (outs : List OutputResult)
    → IsValidConfig cfg
    → is_done (conserve cfg now ins outs) ≡ true
unfolding conserve
conserve-is_done cfg now ins outs v = elim (Bool-cases (duplicate_input [] ins)) [
  | inl d ↦ rw d
  | inr d ↦ rw d (sums-is_done (sum_in ins) (sum_out outs))
]
  where
    sums-is_done : (i o : Option ℕ) → is_done (conserve_sums cfg now i o) ≡ true
    sums-is_done (some i) (some o) =
        let (p, e, w) = effective_burn_policy_total cfg now v in
        rw (conserve_sums_eq cfg now i o p e w)
    sums-is_done none o = refl
    sums-is_done (some i) none = refl

pub reject_lem :
    (now : ℕ) (key digest : Text) (es : List ErrorItem) (db : Db)
    → lookup key db.idempotency ≡ none
    → reject now key digest es db
      ≡ done (
        rejected es,
        record db { idempotency = (key, stored_row digest (rejected es) now) ∷ db.idempotency },
      )
unfolding reject store_idempotency insert_row
reject_lem now key digest es db h = rw h

-- What the writes of a confirmed call leave.
pub record Written (now : ℕ) (key digest : Text) (ins : List InputResult) (outs : List OutputResult)
    (burn : ℕ) (db db' : Db) : Type 0 where
  pub marked : Table Entry
  pub inputs_marked : mark_spent now (in_records ins) db.entries ≡ done marked
  pub outputs_inserted : insert_entries now (out_records outs) marked ≡ done db'.entries
  pub burned : db'.cumulative_burned_mc ≡ db.cumulative_burned_mc + burn
  pub issued : db'.cumulative_issued_mc ≡ db.cumulative_issued_mc
  pub remembered :
      db'.idempotency
      ≡ (key, stored_row digest (confirmed (length (out_records outs)) burn) now) ∷ db.idempotency

pub commit_lem :
    (now : ℕ) (key digest : Text) (ins : List InputResult) (outs : List OutputResult) (burn : ℕ)
    (db : Db)
    → IsValidDb db
    → lookup key db.idempotency ≡ none
    → Spendable db.entries [] (in_records ins)
    → Insertable db.entries [] (out_records outs)
    → amounts (in_records ins) ≡ values (out_records outs) + burn
    → (db' : Db) × (commit now key digest ins outs burn db
        ≡ done (confirmed (length (out_records outs)) burn, db'))
      × IsValidDb db'
      × Written now key digest ins outs burn db db'
unfolding commit store_idempotency insert_row
commit_lem now key digest ins outs burn db v free sp inr_ balanced =
    let (marked, em, um, vm, sm) =
      mark_spent_lem now (in_records ins) [] db.entries v.unique v.rows sp in
    let grown : Insertable marked [] (out_records outs) =
      Insertable-grow db.entries marked [] (out_records outs)
        (λ j _ h.
          mark_spent-lookup now (in_records ins) j db.entries marked em
          ∙ ap (marked_all now (in_records ins) j) h
          ∙ marked_all-none now (in_records ins) j)
        inr_ in
    let (entries, ei, ui, vi, si) =
      insert_entries_lem now (out_records outs) [] marked um vm grown in
    (
      record {
        entries = entries;
        cumulative_issued_mc = db.cumulative_issued_mc;
        cumulative_burned_mc = db.cumulative_burned_mc + burn;
        idempotency =
            (key, stored_row digest (confirmed (length (out_records outs)) burn) now)
            ∷ db.idempotency;
      },
      rw (em, ei, free),
      record {
        unique = ui;
        rows = vi;
        balance = omega (arith, sm, si, balanced, v.balance);
        issued_fits = v.issued_fits;
      },
      record {
        marked = marked;
        inputs_marked = em;
        outputs_inserted = ei;
        burned = refl;
        issued = refl;
        remembered = refl;
      },
    )

-- With every sum known and no key counted twice the burn is computed, and the sums are compared.
pub conserve-eq :
    (cfg : Config) (now i o : ℕ) (p : BurnPolicy) (ins : List InputResult)
    (outs : List OutputResult)
    → effective_burn_policy cfg now ≡ done p
    → IsValidPolicy p
    → duplicate_input [] ins ≡ false
    → sum_in ins ≡ some i
    → sum_out outs ≡ some o
    → conserve cfg now ins outs ≡ done (priced i o (burn_of p i))
unfolding conserve
conserve-eq cfg now i o p ins outs e v d si so = rw (d, si, so) (conserve_sums_eq cfg now i o p e v)
