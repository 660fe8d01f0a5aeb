-- ===== src/Ledger/History.antt =====
-- impl/aicash/ledgerstore.py: histories of calls. Every call runs in one transaction that holds the
-- write lock, so concurrent calls are some order of whole calls.
use ai_cash.Prelude.{
  subst, ℕ, ◌+◌, ◌≡◌, ◌≢◌, ap, sym, ◌∙◌, true, Option, none, some, List, [], get_elem?,
  All-get_elem?, Option-cases, inl, inr, some_eq,
}
use ai_cash.Prelude.Text.{Text}
use ai_cash.Codec.Key.{Hash}
use ai_cash.Lock.{InputForm}
use ai_cash.Ledger.Inputs.{form_key}
use ai_cash.Ledger.Outputs.{OutputArg}
use ai_cash.Ledger.Exchange.{exchange, in_records, out_records}
use ai_cash.Ledger.Exchange.Effects.{
  marked_all, mark_spent-lookup, marked_all-spent, insert_entries-keeps,
}
use ai_cash.Ledger.Exchange.Guarantees.{
  exchange-IsValidDb, exchange-Outcome, exchange-stored, exchange_inputs,
}
use ai_cash.Ledger.Exchange.Inputs.{Spends}
use ai_cash.Ledger.Exchange.Outcome.{Outcome}
use ai_cash.Ledger.Invariant.{IsValidDb, IsValidConfig, empty_db-IsValidDb}
use ai_cash.Ledger.Issue.{IssueReply, issue}
use ai_cash.Ledger.Issue.Issuing.{issue-IsValidDb, issue-keeps}
use ai_cash.Ledger.Reads.{supply, prune}
use ai_cash.Ledger.Reads.Pruning.{prune-IsValidDb}
use ai_cash.Ledger.State.{
  Entry, Reply, confirmed, rejected, Db, Config, empty_db, done, done-injective,
}
use ai_cash.Ledger.Table.{Table, lookup}

module _ ⦃hash : Hash⦄ where
  -- One call that answered. A call that faults is rolled back, and is no step.
  pub data Step (cfg : Config) (db db' : Db) : Type 0 where
    exchanged :
        (now : ℕ) (key digest : Text) (inputs : List (Option InputForm)) (outputs : List OutputArg)
        (reply : Reply)
        → key ≢ []
        → digest ≢ []
        → exchange cfg now key digest inputs outputs db ≡ done (reply, db')
        → Step cfg db db'
    funded :
        (now : ℕ) (outputs : List OutputArg) (reply : IssueReply)
        → issue cfg now outputs db ≡ done (reply, db')
        → Step cfg db db'

  -- Exchanges and issuances, in any order.
  pub data Serves (cfg : Config) (db : Db) : Db → Type 0 where
    idle : Serves cfg db db
    serve : {db₁ db₂ : Db} → Serves cfg db db₁ → Step cfg db₁ db₂ → Serves cfg db db₂

  -- Those and prunings.
  pub data Reach (cfg : Config) (db : Db) : Db → Type 0 where
    here : Reach cfg db db
    step : {db₁ db₂ : Db} → Reach cfg db db₁ → Step cfg db₁ db₂ → Reach cfg db db₂
    pruned :
        {db₁ db₂ : Db} (now : ℕ) → Reach cfg db db₁ → (prune cfg now db₁).0 ≡ db₂ → Reach cfg db db₂

  pub Step-IsValidDb :
      (cfg : Config) (db db' : Db)
      → IsValidConfig cfg
      → IsValidDb db
      → Step cfg db db'
      → IsValidDb db'
  Step-IsValidDb cfg db db' vc v (exchanged now key digest inputs outputs reply hk hd e) =
      let (r, d, e', w) = exchange-IsValidDb cfg now key digest inputs outputs db vc v hk hd in
      let p : (r, d) ≡ (reply, db') = done-injective (sym e' ∙ e) in
      subst (λ (x : Reply × Db). IsValidDb x.1) p w
  Step-IsValidDb cfg db db' vc v (funded now outputs reply e) =
      let (r, d, e', w, o) = issue-IsValidDb cfg now outputs db v in
      let p : (r, d) ≡ (reply, db') = done-injective (sym e' ∙ e) in
      subst (λ (x : IssueReply × Db). IsValidDb x.1) p w

  pub Reach-IsValidDb :
      (cfg : Config) {db db' : Db}
      → IsValidConfig cfg
      → IsValidDb db
      → Reach cfg db db'
      → IsValidDb db'
  Reach-IsValidDb cfg vc v here = v
  Reach-IsValidDb cfg vc v (step {db₁ = d} {db₂ = d'} r s) =
      Step-IsValidDb cfg d d' vc (Reach-IsValidDb cfg vc v r) s
  Reach-IsValidDb cfg vc v (pruned {db₁ = d} now r e) =
      subst IsValidDb e (prune-IsValidDb cfg now d (Reach-IsValidDb cfg vc v r))

  -- After any history of a new ledger under valid policies, what is outstanding and what was burned
  -- make up what was issued.
  pub supply_balances :
      (cfg : Config) (db : Db)
      → IsValidConfig cfg
      → Reach cfg empty_db db
      → (supply db).outstanding_mc + (supply db).cumulative_burned_mc
        ≡ (supply db).cumulative_issued_mc
  unfolding supply
  supply_balances cfg db vc r = (Reach-IsValidDb cfg vc empty_db-IsValidDb r).balance

  Outcome-keeps_spent :
      (cfg : Config) (now : ℕ) (key digest : Text) (inputs : List (Option InputForm))
      (outputs : List OutputArg) (db : Db) (reply : Reply) (db' : Db) (k : Text) (e : Entry)
      → Outcome cfg now key digest inputs outputs db reply db'
      → lookup k db.entries ≡ some e
      → e.spent ≡ true
      → lookup k db'.entries ≡ some e
  Outcome-keeps_spent cfg now key digest inputs outputs db (confirmed n b) db' k e (w, c) f s =
      let t = c.written in
      insert_entries-keeps now (out_records c.outs) k t.marked db'.entries e t.outputs_inserted (
        mark_spent-lookup now (in_records c.ins) k db.entries t.marked t.inputs_marked
        ∙ ap (marked_all now (in_records c.ins) k) f
        ∙ marked_all-spent now (in_records c.ins) k e s)
  Outcome-keeps_spent cfg now key digest inputs outputs db (rejected es) db' k e (l, same) f s =
      ap (λ (d : Db). lookup k d.entries) same ∙ f

  exchange-keeps_spent :
      (cfg : Config) (now : ℕ) (key digest : Text) (inputs : List (Option InputForm))
      (outputs : List OutputArg) (db : Db) (reply : Reply) (db' : Db) (k : Text) (e : Entry)
      → IsValidConfig cfg
      → IsValidDb db
      → key ≢ []
      → digest ≢ []
      → exchange cfg now key digest inputs outputs db ≡ done (reply, db')
      → lookup k db.entries ≡ some e
      → e.spent ≡ true
      → lookup k db'.entries ≡ some e
  exchange-keeps_spent cfg now key digest inputs outputs db reply db' k e vc v hk hd h f s =
      elim (Option-cases (lookup key db.idempotency)) [
        | inl free ↦
            Outcome-keeps_spent cfg now key digest inputs outputs db reply db' k e
              (exchange-Outcome cfg now key digest inputs outputs db vc v hk hd free reply db' h) f
              s
        | inr (row, found) ↦
            let p =
              done-injective
                (sym (exchange-stored cfg now key digest inputs outputs db row hk hd found) ∙ h) in
            ap (λ (x : Reply × Db). lookup k x.1.entries) (sym p) ∙ f
      ]

  Spends-clash :
      {t t₁ t₂ t₃ : Table Entry} {now now' : ℕ} {f g : InputForm} (a : Spends t t₁ now (some f))
      (b : Spends t₂ t₃ now' (some g))
      → form_key g ≡ form_key f
      → lookup a.at t₂ ≡ some a.after
      → ⊥
  Spends-clash {f = f} {g = g} a b same stays =
      let fa : form_key f ≡ some a.at = ap form_key (some_eq a.given) ∙ a.named in
      let gb : form_key g ≡ some b.at = ap form_key (some_eq b.given) ∙ b.named in
      let k : a.at ≡ b.at = some_eq (sym fa ∙ sym same ∙ gb) in
      cc (k, stays, b.found, a.is_spent, b.was_unspent)

  -- Until it is pruned, a spent entry stays as it is.
  pub Serves-keeps_spent :
      (cfg : Config) {db db' : Db} (k : Text) (e : Entry)
      → IsValidConfig cfg
      → IsValidDb db
      → Serves cfg db db'
      → lookup k db.entries ≡ some e
      → e.spent ≡ true
      → (lookup k db'.entries ≡ some e) × IsValidDb db'
  Serves-keeps_spent cfg k e vc v idle f s = (f, v)
  Serves-keeps_spent cfg k e vc v
        (serve {db₁ = d} {db₂ = d'} r (exchanged now key digest inputs outputs reply hk hd h)) f s =
      let (f', v') = Serves-keeps_spent cfg k e vc v r f s in
      (
        exchange-keeps_spent cfg now key digest inputs outputs d reply d' k e vc v' hk hd h f' s,
        Step-IsValidDb cfg d d' vc v' (exchanged now key digest inputs outputs reply hk hd h),
      )
  Serves-keeps_spent cfg k e vc v (serve {db₁ = d} {db₂ = d'} r (funded now outputs reply h)) f s =
      let (f', v') = Serves-keeps_spent cfg k e vc v r f s in
      (
        issue-keeps cfg now outputs d v' reply d' k e h f',
        Step-IsValidDb cfg d d' vc v' (funded now outputs reply h),
      )

  -- After a confirmed exchange that spends a key, and any calls but prunings, no exchange under a new
  -- idempotency key that names this key is confirmed.
  pub no_double_spend :
      (cfg : Config) (now : ℕ) (key digest : Text) (inputs : List (Option InputForm))
      (outputs : List OutputArg) (db : Db) (n burn : ℕ) (db₁ db₂ : Db) (i : ℕ) (f : InputForm)
      (now' : ℕ) (key' digest' : Text) (inputs' : List (Option InputForm))
      (outputs' : List OutputArg) (j : ℕ) (g : InputForm)
      → IsValidConfig cfg
      → IsValidDb db
      → key ≢ []
      → digest ≢ []
      → lookup key db.idempotency ≡ none
      → exchange cfg now key digest inputs outputs db ≡ done (confirmed n burn, db₁)
      → get_elem? inputs i ≡ some (some f)
      → Serves cfg db₁ db₂
      → key' ≢ []
      → digest' ≢ []
      → lookup key' db₂.idempotency ≡ none
      → get_elem? inputs' j ≡ some (some g)
      → form_key g ≡ form_key f
      → (n' burn' : ℕ) (db₃ : Db)
      → exchange cfg now' key' digest' inputs' outputs' db₂ ≢ done (confirmed n' burn', db₃)
  no_double_spend cfg now key digest inputs outputs db n burn db₁ db₂ i f now' key' digest' inputs'
        outputs' j g vc v hk hd free h at_i served hk' hd' free' at_j same n' burn' db₃ h' =
      let first =
        All-get_elem? (Spends db.entries db₁.entries now) inputs i (some f)
          (exchange_inputs cfg now key digest inputs outputs db vc v hk hd free n burn db₁ h)
          at_i in
      let v₁ =
        (exchange-Outcome cfg now key digest inputs outputs db vc v hk hd free (confirmed n burn)
          db₁ h).0 in
      let (stays, v₂) =
        Serves-keeps_spent cfg first.at first.after vc v₁ served first.found_after first.is_spent in
      let second =
        All-get_elem? (Spends db₂.entries db₃.entries now') inputs' j (some g)
          (exchange_inputs cfg now' key' digest' inputs' outputs' db₂ vc v₂ hk' hd' free' n' burn'
            db₃ h')
          at_j in
      Spends-clash first second same stays
