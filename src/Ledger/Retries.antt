-- ===== src/Ledger/Retries.antt =====
-- impl/aicash/ledgerstore.py: retries of an exchange under its idempotency key.
use ai_cash.Prelude.{
  arith, leb, ◌⊎◌, ℕ, ◌≡◌, ◌≢◌, ap, sym, ◌∙◌, Option, none, some, List, [], ◌∷◌, Bool-cases,
  Option-cases, inl, inr, none-some,
}
use ai_cash.Prelude.Text.{Text, text_eq, text_eq_iff, text_eq_refl}
use ai_cash.Codec.Key.{Hash}
use ai_cash.Lock.{InputForm}
use ai_cash.Ledger.Outputs.{OutputArg}
use ai_cash.Ledger.Exchange.{exchange, insert_entries, out_records}
use ai_cash.Ledger.Exchange.Fresh.{stored_row}
use ai_cash.Ledger.Exchange.Guarantees.{exchange-Outcome, exchange-stored, Outcome-remembers}
use ai_cash.Ledger.Exchange.Outcome.{Outcome}
use ai_cash.Ledger.History.{exchanged, funded, Serves, idle, serve, Step-IsValidDb}
use ai_cash.Ledger.Invariant.{IsValidDb, IsValidConfig}
use ai_cash.Ledger.Issue.{
  record_values, IssueReply, issued, issue, issue_commit, issue_settle, add_issued,
}
use ai_cash.Ledger.Outputs.{OutputResult}
use ai_cash.Ledger.State.{
  ErrorItem, idempotency_conflict, Reply, confirmed, rejected, Stored, Db, Config, done, ◌>>=◌,
  >>=-eq-done, done-injective, max_amount_mc,
}
use ai_cash.Ledger.Table.{Table, lookup, lookup_ne}

-- Another row does not hide a row that is there.
lookup_under :
    (k j : Text) (s r : Stored) (t : Table Stored)
    → lookup j t ≡ none
    → lookup k t ≡ some s
    → lookup k ((j, r) ∷ t) ≡ some s
lookup_under k j s r t free found = elim (Bool-cases (text_eq k j)) [
  | inr e ↦ lookup_ne k j r t e ∙ found
  | inl e ↦
      let same : k ≡ j = (text_eq_iff k j).0 e in
      absurd (none-some (sym free ∙ ap (λ x. lookup x t) (sym same) ∙ found))
]

add_issued-idempotency :
    (total : ℕ) (d db' : Db) (reply : IssueReply)
    → ◌>>=◌ {B = IssueReply × Db} (add_issued total d) (λ x. done (issued, x)) ≡ done (reply, db')
    → db'.idempotency ≡ d.idempotency
unfolding add_issued
add_issued-idempotency total d db' reply h = elim (Bool-cases (leb total max_amount_mc)) [
  | inl e ↦ ground arith
  | inr e ↦ absurd (ground arith)
]

module _ ⦃hash : Hash⦄ where
  issue_settle-idempotency :
      (now : ℕ) (rs : List OutputResult) (errors : List ErrorItem) (db db' : Db)
      (reply : IssueReply)
      → issue_settle now rs errors db ≡ done (reply, db')
      → db'.idempotency ≡ db.idempotency
  unfolding issue_commit
  issue_settle-idempotency now rs [] db db' reply h =
      let (t, q, h') = >>=-eq-done (insert_entries now (out_records rs) db.entries) _ h in
      add_issued-idempotency (record_values (out_records rs)) (record db { entries = t }) db' reply
        h'
  issue_settle-idempotency now rs (x ∷ xs) db db' reply h =
      let p : db ≡ db' = cc in ap (λ (d : Db). d.idempotency) (sym p)

  issue-idempotency :
      (cfg : Config) (now : ℕ) (outputs : List OutputArg) (db db' : Db) (reply : IssueReply)
      → issue cfg now outputs db ≡ done (reply, db')
      → db'.idempotency ≡ db.idempotency
  unfolding issue
  issue-idempotency cfg now outputs db db' reply h = issue_settle-idempotency now _ _ db db' reply h

  Outcome-keeps_stored :
      (cfg : Config) (now : ℕ) (key digest : Text) (inputs : List (Option InputForm))
      (outputs : List OutputArg) (db : Db) (reply : Reply) (db' : Db) (k : Text) (s : Stored)
      → Outcome cfg now key digest inputs outputs db reply db'
      → lookup key db.idempotency ≡ none
      → lookup k db.idempotency ≡ some s
      → lookup k db'.idempotency ≡ some s
  Outcome-keeps_stored cfg now key digest inputs outputs db (confirmed n b) db' k s (w, c) free f =
      rw c.written.remembered (lookup_under k key s _ db.idempotency free f)
  Outcome-keeps_stored cfg now key digest inputs outputs db (rejected es) db' k s (l, same) free f =
      rw same (lookup_under k key s _ db.idempotency free f)

  exchange-keeps_stored :
      (cfg : Config) (now : ℕ) (key digest : Text) (inputs : List (Option InputForm))
      (outputs : List OutputArg) (db : Db) (reply : Reply) (db' : Db) (k : Text) (s : Stored)
      → IsValidConfig cfg
      → IsValidDb db
      → key ≢ []
      → digest ≢ []
      → exchange cfg now key digest inputs outputs db ≡ done (reply, db')
      → lookup k db.idempotency ≡ some s
      → lookup k db'.idempotency ≡ some s
  exchange-keeps_stored cfg now key digest inputs outputs db reply db' k s vc v hk hd h f =
      elim (Option-cases (lookup key db.idempotency)) [
        | inl free ↦
            Outcome-keeps_stored cfg now key digest inputs outputs db reply db' k s
              (exchange-Outcome cfg now key digest inputs outputs db vc v hk hd free reply db' h)
              free f
        | inr (row, found) ↦
            let p =
              done-injective
                (sym (exchange-stored cfg now key digest inputs outputs db row hk hd found) ∙ h) in
            ap (λ (x : Reply × Db). lookup k x.1.idempotency) (sym p) ∙ f
      ]

  -- Until it is pruned, a stored answer stays as it is.
  Serves-keeps_stored :
      (cfg : Config) {db db' : Db} (k : Text) (s : Stored)
      → IsValidConfig cfg
      → IsValidDb db
      → Serves cfg db db'
      → lookup k db.idempotency ≡ some s
      → (lookup k db'.idempotency ≡ some s) × IsValidDb db'
  Serves-keeps_stored cfg k s vc v idle f = (f, v)
  Serves-keeps_stored cfg k s vc v
        (serve {db₁ = d} {db₂ = d'} r (exchanged now key digest inputs outputs reply hk hd h)) f =
      let (f', v') = Serves-keeps_stored cfg k s vc v r f in
      (
        exchange-keeps_stored cfg now key digest inputs outputs d reply d' k s vc v' hk hd h f',
        Step-IsValidDb cfg d d' vc v' (exchanged now key digest inputs outputs reply hk hd h),
      )
  Serves-keeps_stored cfg k s vc v (serve {db₁ = d} {db₂ = d'} r (funded now outputs reply h)) f =
      let (f', v') = Serves-keeps_stored cfg k s vc v r f in
      (
        ap (lookup k) (issue-idempotency cfg now outputs d d' reply h) ∙ f',
        Step-IsValidDb cfg d d' vc v' (funded now outputs reply h),
      )

  -- After an answered call under a new key, over valid policies and tables and with a key and a
  -- digest that are not empty, and after any exchanges and issuances but no pruning, a retry under
  -- the same key and digest gets the first answer again, whatever the instant and the body, and
  -- changes nothing; under another digest that is not empty it gets a conflict.
  pub exchange_retry :
      (cfg : Config) (now : ℕ) (key digest : Text) (inputs : List (Option InputForm))
      (outputs : List OutputArg) (db : Db) (reply : Reply) (db₁ db₂ : Db) (later : ℕ)
      (digest' : Text) (inputs' : List (Option InputForm)) (outputs' : List OutputArg)
      → IsValidConfig cfg
      → IsValidDb db
      → key ≢ []
      → digest ≢ []
      → lookup key db.idempotency ≡ none
      → exchange cfg now key digest inputs outputs db ≡ done (reply, db₁)
      → Serves cfg db₁ db₂
      → digest' ≢ []
      → (exchange cfg later key digest inputs' outputs' db₂ ≡ done (reply, db₂))
        × ((digest ≡ digest')
            ⊎ (exchange cfg later key digest' inputs' outputs' db₂
                ≡ done (rejected (idempotency_conflict ∷ []), db₂)))
  exchange_retry cfg now key digest inputs outputs db reply db₁ db₂ later digest' inputs' outputs'
        vc v hk hd free h served hd' =
      let row = stored_row digest reply now in
      let first =
        Outcome-remembers cfg now key digest inputs outputs db vc v hk hd free reply db₁
          (exchange-Outcome cfg now key digest inputs outputs db vc v hk hd free reply db₁ h) in
      let v₁ =
        Step-IsValidDb cfg db db₁ vc v (exchanged now key digest inputs outputs reply hk hd h) in
      let (found, _) = Serves-keeps_stored cfg key row vc v₁ served first in
      (
        exchange-stored cfg later key digest inputs' outputs' db₂ row hk hd found
            ∙ rw (text_eq_refl digest),
        elim (Bool-cases (text_eq digest digest')) [
          | inl e ↦ inl ((text_eq_iff digest digest').0 e)
          | inr e ↦
              inr
                (exchange-stored cfg later key digest' inputs' outputs' db₂ row hk hd' found ∙ rw e)
        ],
      )
