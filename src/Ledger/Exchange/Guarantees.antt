-- ===== src/Ledger/Exchange/Guarantees.antt =====
-- impl/aicash/ledgerstore.py, `exchange`: what a caller, an auditor and the operator rely on.
use ai_cash.Prelude.{
  subst, ℕ, ◌+◌, ◌≡◌, ◌≢◌, refl, ap, sym, ◌∙◌, Option, none, some, List, [], ◌∷◌, arith, length,
  All, Option-cases, inl, inr,
}
use ai_cash.Prelude.Int.{pos}
use ai_cash.Prelude.Text.{Text}
use ai_cash.Burn
use ai_cash.Burn.{BurnPolicy, compute_burn}
use ai_cash.Codec.Key.{Hash}
use ai_cash.Lock.{InputForm}
use ai_cash.Ledger.Outputs.{OutputArg}
use ai_cash.Ledger.Exchange.{
  exchange, exchange_locked, exchange_fresh, in_records, out_records, effective_burn_policy,
  replayed,
}
use ai_cash.Ledger.Exchange.Effects.{
  mark_spent-lookup, insert_entries-keeps, insert_entries-found, rows_after,
}
use ai_cash.Ledger.Exchange.Fresh.{stored_row}
use ai_cash.Ledger.Exchange.Inputs.{Spends-later, Spends, AllPass-Spends}
use ai_cash.Ledger.Exchange.Outcome.{Outcome, exchange_fresh-Outcome}
use ai_cash.Ledger.Exchange.Totals.{
  Creates, input_total, output_total, AllPass-input_total, AllPlaced-Creates,
  AllPlaced-output_total,
}
use ai_cash.Ledger.Invariant.{IsValidDb, IsValidConfig}
use ai_cash.Ledger.Rows.{unspent_sum}
use ai_cash.Ledger.State.{
  ErrorItem, Reply, confirmed, rejected, Stored, Db, Config, done, done-injective,
}
use ai_cash.Ledger.Table.{lookup, lookup_self}

module _ ⦃hash : Hash⦄ where
  -- With a key and a digest that are not empty only the idempotency table decides the path.
  exchange-free :
      (cfg : Config) (now : ℕ) (key digest : Text) (inputs : List (Option InputForm))
      (outputs : List OutputArg) (db : Db)
      → key ≢ []
      → digest ≢ []
      → lookup key db.idempotency ≡ none
      → exchange cfg now key digest inputs outputs db
        ≡ exchange_fresh cfg now key digest inputs outputs db
  unfolding exchange exchange_locked
  exchange-free cfg now [] digest inputs outputs db hk hd free = absurd (hk refl)
  exchange-free cfg now (c ∷ key) [] inputs outputs db hk hd free = absurd (hd refl)
  exchange-free cfg now (c ∷ key) (d ∷ digest) inputs outputs db hk hd free =
      rw (free, exchange_locked)

  pub exchange-stored :
      (cfg : Config) (now : ℕ) (key digest : Text) (inputs : List (Option InputForm))
      (outputs : List OutputArg) (db : Db) (s : Stored)
      → key ≢ []
      → digest ≢ []
      → lookup key db.idempotency ≡ some s
      → exchange cfg now key digest inputs outputs db ≡ done (replayed s digest, db)
  unfolding exchange exchange_locked
  exchange-stored cfg now [] digest inputs outputs db s hk hd found = absurd (hk refl)
  exchange-stored cfg now (c ∷ key) [] inputs outputs db s hk hd found = absurd (hd refl)
  exchange-stored cfg now (c ∷ key) (d ∷ digest) inputs outputs db s hk hd found =
      rw (found, exchange_locked)

  Outcome-IsValidDb :
      (cfg : Config) (now : ℕ) (key digest : Text) (inputs : List (Option InputForm))
      (outputs : List OutputArg) (db : Db) (reply : Reply) (db' : Db)
      → IsValidDb db
      → Outcome cfg now key digest inputs outputs db reply db'
      → IsValidDb db'
  Outcome-IsValidDb cfg now key digest inputs outputs db (confirmed n burn) db' v (w, c) = w
  Outcome-IsValidDb cfg now key digest inputs outputs db (rejected es) db' v (e, same) =
      rw same (record {
        unique = v.unique;
        rows = v.rows;
        balance = v.balance;
        issued_fits = v.issued_fits;
      })

  pub exchange-IsValidDb :
      (cfg : Config) (now : ℕ) (key digest : Text) (inputs : List (Option InputForm))
      (outputs : List OutputArg) (db : Db)
      → IsValidConfig cfg
      → IsValidDb db
      → key ≢ []
      → digest ≢ []
      → (reply : Reply) × (db' : Db) × (exchange cfg now key digest inputs outputs db
          ≡ done (reply, db'))
        × IsValidDb db'
  exchange-IsValidDb cfg now key digest inputs outputs db vc v hk hd =
      elim (Option-cases (lookup key db.idempotency)) [
        | inl free ↦
            let (reply, db', e, o) =
              exchange_fresh-Outcome cfg now key digest inputs outputs db vc v free in
            (
              reply,
              db',
              exchange-free cfg now key digest inputs outputs db hk hd free ∙ e,
              Outcome-IsValidDb cfg now key digest inputs outputs db reply db' v o,
            )
        | inr (s, found) ↦ (
          replayed s digest,
          db,
          exchange-stored cfg now key digest inputs outputs db s hk hd found,
          v,
        )
      ]

  module _ (cfg : Config) (now : ℕ) (key digest : Text) (inputs : List (Option InputForm))
      (outputs : List OutputArg) (db : Db) (vc : IsValidConfig cfg) (v : IsValidDb db)
      (hk : key ≢ []) (hd : digest ≢ []) (free : lookup key db.idempotency ≡ none) where
    -- Any answer to a call under a new key is the one that the checks settled.
    pub exchange-Outcome :
        (reply : Reply) (db' : Db)
        → exchange cfg now key digest inputs outputs db ≡ done (reply, db')
        → Outcome cfg now key digest inputs outputs db reply db'
    exchange-Outcome reply db' h =
        let (r, d, e, o) = exchange_fresh-Outcome cfg now key digest inputs outputs db vc v free in
        let q = exchange-free cfg now key digest inputs outputs db hk hd free in
        let p : (r, d) ≡ (reply, db') = done-injective (sym e ∙ sym q ∙ h) in
        subst (λ x. Outcome cfg now key digest inputs outputs db x.0 x.1) p o

    -- Over valid policies and tables, with a key and a digest that are not empty and under a new key:
    -- every input of a confirmed call names an entry that was unspent, whose amount is the one the
    -- form states and whose lock allowed the form then; afterwards that entry is spent.
    pub exchange_inputs :
        (n burn : ℕ) (db' : Db)
        → exchange cfg now key digest inputs outputs db ≡ done (confirmed n burn, db')
        → All (Spends db.entries db'.entries now) inputs
    exchange_inputs n burn db' h =
        let c = (exchange-Outcome (confirmed n burn) db' h).1 in
        let w = c.written in
        Spends-later db.entries w.marked db'.entries now inputs
          (λ j e.
            insert_entries-keeps now (out_records c.outs) j w.marked db'.entries e
              w.outputs_inserted)
          (AllPass-Spends db.entries w.marked now c.passes
            (λ j _. mark_spent-lookup now (in_records c.ins) j db.entries w.marked w.inputs_marked))

    -- Over valid policies and tables, with a key and a digest that are not empty and under a new key:
    -- every output of a confirmed call asked for a key that had no entry, and afterwards that key's
    -- entry is unspent and has the amount and the lock that it asked for; the answer counts the
    -- outputs, and there are so many entries more.
    pub exchange_outputs :
        (n burn : ℕ) (db' : Db)
        → exchange cfg now key digest inputs outputs db ≡ done (confirmed n burn, db')
        → All (Creates cfg db.entries db'.entries now) outputs
          × (n ≡ length outputs)
          × (length db'.entries ≡ length db.entries + length outputs)
    exchange_outputs n burn db' h =
        let c = (exchange-Outcome (confirmed n burn) db' h).1 in
        let w = c.written in
        (
          AllPlaced-Creates cfg db.entries db'.entries now c.placed (
              insert_entries-found now (out_records c.outs) w.marked db'.entries
                w.outputs_inserted),
          c.counted ∙ (AllPlaced-output_total cfg db.entries now c.placed).1,
          rows_after now (in_records c.ins) (out_records c.outs) db.entries w.marked db'.entries
                w.inputs_marked w.outputs_inserted
              ∙ ap (λ m. length db.entries + m)
                  (AllPlaced-output_total cfg db.entries now c.placed).1,
        )

    -- Over valid policies and tables, with a key and a digest that are not empty and under a new key:
    -- a confirmed call burns what the policy in force charges on the sum of the entries that its
    -- inputs name; that sum is what its outputs ask for and the burn. The burn leaves what is
    -- outstanding and enters the burned total; the issued total is as before.
    pub exchange_conserves :
        (n burn : ℕ) (db' : Db)
        → exchange cfg now key digest inputs outputs db ≡ done (confirmed n burn, db')
        → (policy : BurnPolicy) × (effective_burn_policy cfg now ≡ done policy)
          × (compute_burn (pos (input_total db.entries inputs)) policy ≡ Burn.ok burn)
          × (input_total db.entries inputs ≡ output_total outputs + burn)
          × (unspent_sum db'.entries + burn ≡ unspent_sum db.entries)
          × (db'.cumulative_burned_mc ≡ db.cumulative_burned_mc + burn)
          × (db'.cumulative_issued_mc ≡ db.cumulative_issued_mc)
    exchange_conserves n burn db' h =
        let (w, c) = exchange-Outcome (confirmed n burn) db' h in
        let total_in = AllPass-input_total db.entries now c.passes in
        let total_out = (AllPlaced-output_total cfg db.entries now c.placed).0 in
        (
          c.policy,
          c.in_force,
          subst (λ s. compute_burn (pos s) c.policy ≡ Burn.ok burn) total_in c.charged,
          omega (arith, total_in, total_out, c.conserved),
          omega (arith, w.balance, v.balance, c.written.burned, c.written.issued),
          c.written.burned,
          c.written.issued,
        )

    -- Over valid policies and tables, with a key and a digest that are not empty and under a new key:
    -- a rejection changes nothing but the idempotency table, and it lists an error.
    pub exchange_rejected :
        (es : List ErrorItem) (db' : Db)
        → exchange cfg now key digest inputs outputs db ≡ done (rejected es, db')
        → (es ≢ [])
          × (db'.entries ≡ db.entries)
          × (db'.cumulative_issued_mc ≡ db.cumulative_issued_mc)
          × (db'.cumulative_burned_mc ≡ db.cumulative_burned_mc)
    exchange_rejected es db' h =
        let (listed, same) = exchange-Outcome (rejected es) db' h in
        (
          listed,
          ap (λ (d : Db). d.entries) same,
          ap (λ (d : Db). d.cumulative_issued_mc) same,
          ap (λ (d : Db). d.cumulative_burned_mc) same,
        )

    pub Outcome-remembers :
        (reply : Reply) (db' : Db)
        → Outcome cfg now key digest inputs outputs db reply db'
        → lookup key db'.idempotency ≡ some (stored_row digest reply now)
    Outcome-remembers (confirmed n burn) db' (w, c) =
        rw (c.written.remembered, c.counted)
          (lookup_self key (stored_row digest (confirmed (length (out_records c.outs)) burn) now)
            db.idempotency)
    Outcome-remembers (rejected es) db' (listed, same) =
        rw same (lookup_self key (stored_row digest (rejected es) now) db.idempotency)
