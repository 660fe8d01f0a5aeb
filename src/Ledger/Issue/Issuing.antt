-- ===== src/Ledger/Issue/Issuing.antt =====
-- impl/aicash/ledgerstore.py, `issue`: every answer, with what it says of the tables.
use ai_cash.Prelude.{
  inr, inl, Bool-cases, sym, subst, ◌∙◌, ℕ, ◌+◌, ◌≤◌, ◌≡◌, ◌≢◌, refl, ap, none, some, List, [], ◌∷◌,
  map, arith, All, le→leb,
}
use ai_cash.Prelude.Text.{Text}
use ai_cash.Codec.Key.{Hash}
use ai_cash.Ledger.Exchange.{output_errors, out_records, insert_entries}
use ai_cash.Ledger.Exchange.Effects.{insert_entries-keeps, insert_entries-found}
use ai_cash.Ledger.Exchange.Inserting.{values, insert_entries_lem, OutRecord}
use ai_cash.Ledger.Exchange.Outgoing.{
  AllPlaced, placed_nil, placed_cons, AllPlaced-Insertable, no_error,
}
use ai_cash.Ledger.Exchange.Placing.{Placed, Placed-positive, resolve_output-Placed}
use ai_cash.Ledger.Exchange.Totals.{
  out_records-cons, Creates, output_total, AllPlaced-Creates, AllPlaced-output_total,
}
use ai_cash.Ledger.Invariant.{IsValidDb}
use ai_cash.Ledger.Issue.{
  leb, IssueReply, issued, refused, parse_arg, with_headroom, record_values, add_issued,
  issue_commit, issue_settle, issue_outputs, issue,
}
use ai_cash.Ledger.Outputs.{OutputResult, OutputArg, resolve_output}
use ai_cash.Ledger.Rows.{unspent_sum}
use ai_cash.Ledger.State.{◌>>=◌, >>=-eq-done, Entry, ErrorItem, Db, Config, max_amount_mc, done}
use ai_cash.Ledger.Table.{lookup, Table}

with_headroom-reason :
    (r : OutputResult) (running : ℕ) → (with_headroom r running).0.reason ≡ none → r.reason ≡ none
unfolding with_headroom
with_headroom-reason r running h = ground arith

with_headroom-passes :
    (r : OutputResult) (running a : ℕ)
    → (with_headroom r running).0.reason ≡ none
    → r.amount ≡ some a
    → a ≤ max_amount_mc
    → ((with_headroom r running).0 ≡ r)
      × ((with_headroom r running).1 ≡ running + a)
      × (running + a ≤ max_amount_mc)
unfolding with_headroom
with_headroom-passes r running a h e fits = rw (with_headroom-reason r running h) (ground arith)

record_values-eq : (rs : List OutRecord) → record_values rs ≡ values rs
record_values-eq [] = refl
record_values-eq ((k, a, l) ∷ rs) = ap (λ (n : ℕ). a + n) (record_values-eq rs)

out_records-nil : out_records [] ≡ []
unfolding out_records
out_records-nil = refl

module _ ⦃hash : Hash⦄ where
  issue_outputs-AllPlaced :
      (cfg : Config) (t : Table Entry) (now : ℕ) (os : List OutputArg) (seen : List Text)
      (running j : ℕ)
      → running ≤ max_amount_mc
      → output_errors j (issue_outputs cfg t now os seen running) ≡ []
      → AllPlaced cfg t now (map parse_arg os) seen (issue_outputs cfg t now os seen running)
        × (running + values (out_records (issue_outputs cfg t now os seen running)) ≤ max_amount_mc)
  unfolding issue_outputs
  issue_outputs-AllPlaced cfg t now [] seen running j fits n =
      (placed_nil, rw out_records-nil (omega arith))
  issue_outputs-AllPlaced cfg t now (o ∷ os) seen running j fits n =
      let (r, seen') = resolve_output cfg t (parse_arg o) now seen in
      let (r', running') = with_headroom r running in
      let rest = issue_outputs cfg t now os seen' running' in
      let (passed, later) = no_error j r' rest n in
      let clean = with_headroom-reason r running passed in
      let p = resolve_output-Placed cfg t (parse_arg o) now seen seen' r refl clean in
      let (low, high, valid) = Placed-positive cfg t (parse_arg o) now seen r seen' p in
      let (same, grown, room) =
        with_headroom-passes r running p.amount passed p.result_amount high in
      let (placed, within) =
        issue_outputs-AllPlaced cfg t now os seen' running' (j + 1) (omega (arith, grown, room))
          later in
      let row =
        out_records-cons r' rest p.at p.amount passed
          (ap (λ (x : OutputResult). x.key) same ∙ p.result_key)
          (ap (λ (x : OutputResult). x.amount) same ∙ p.result_amount) in
      (
        placed_cons (subst (λ x. Placed cfg t (parse_arg o) now seen x seen') (sym same) p) passed
            placed,
        rw row (omega (arith, grown, within)),
      )

  -- What an issuance answers, and what it leaves.
  abbrev pub IssueOutcome : Config → ℕ → List OutputArg → Db → IssueReply → Db → Type 0
  IssueOutcome cfg now outputs db issued db' =
      All (Creates cfg db.entries db'.entries now) (map parse_arg outputs)
      × (unspent_sum db'.entries ≡ unspent_sum db.entries + output_total (map parse_arg outputs))
      × (db'.cumulative_issued_mc ≡ db.cumulative_issued_mc + output_total (map parse_arg outputs))
      × (db'.cumulative_burned_mc ≡ db.cumulative_burned_mc)
  IssueOutcome cfg now outputs db (refused es) db' = (es ≢ []) × (db' ≡ db)

  issue_commit_lem :
      (cfg : Config) (now : ℕ) (os : List OutputArg) (rs : List OutputResult) (db : Db)
      → IsValidDb db
      → AllPlaced cfg db.entries now (map parse_arg os) [] rs
      → db.cumulative_issued_mc + values (out_records rs) ≤ max_amount_mc
      → (db' : Db) × (issue_commit now rs db ≡ done (issued, db'))
        × IsValidDb db'
        × IssueOutcome cfg now os db issued db'
  unfolding issue_commit add_issued
  issue_commit_lem cfg now os rs db v placed fits =
      let recs = out_records rs in
      let (t', e, u', v', sum) =
        insert_entries_lem now recs [] db.entries v.unique v.rows
          (AllPlaced-Insertable cfg db.entries now placed) in
      let total = record_values-eq recs in
      let asked = (AllPlaced-output_total cfg db.entries now placed).0 in
      (
        record db {
          entries = t';
          cumulative_issued_mc = db.cumulative_issued_mc + record_values recs;
        },
        rw (e, le→leb (record_values recs) max_amount_mc (omega (arith, total, fits))),
        record {
          unique = u';
          rows = v';
          balance = omega (arith, sum, total, v.balance);
          issued_fits = omega (arith, total, fits);
        },
        (
          AllPlaced-Creates cfg db.entries t' now placed
              (insert_entries-found now recs db.entries t' e),
          omega (arith, sum, asked),
          omega (arith, total, asked),
          refl,
        ),
      )

  issue_settle-lem :
      (cfg : Config) (now : ℕ) (outputs : List OutputArg) (db : Db)
      → IsValidDb db
      → (errors : List ErrorItem)
      → output_errors 0 (issue_outputs cfg db.entries now outputs [] db.cumulative_issued_mc)
        ≡ errors
      → (reply : IssueReply) × (db' : Db) × (issue_settle now
            (issue_outputs cfg db.entries now outputs [] db.cumulative_issued_mc)
            errors
            db
          ≡ done (reply, db'))
        × IsValidDb db'
        × IssueOutcome cfg now outputs db reply db'
  issue_settle-lem cfg now outputs db v [] n =
      let (placed, fits) =
        issue_outputs-AllPlaced cfg db.entries now outputs [] db.cumulative_issued_mc 0
          v.issued_fits n in
      let (db', e, v', o) =
        issue_commit_lem cfg now outputs
          (issue_outputs cfg db.entries now outputs [] db.cumulative_issued_mc) db v placed fits in
      (issued, db', e, v', o)
  issue_settle-lem cfg now outputs db v (e ∷ es) n =
      (refused (e ∷ es), db, refl, v, ((λ q. cc), refl))

  pub issue-IsValidDb :
      (cfg : Config) (now : ℕ) (outputs : List OutputArg) (db : Db)
      → IsValidDb db
      → (reply : IssueReply) × (db' : Db) × (issue cfg now outputs db ≡ done (reply, db'))
        × IsValidDb db'
        × IssueOutcome cfg now outputs db reply db'
  unfolding issue
  issue-IsValidDb cfg now outputs db v =
      let rs = issue_outputs cfg db.entries now outputs [] db.cumulative_issued_mc in
      issue_settle-lem cfg now outputs db v (output_errors 0 rs) refl

  add_issued-entries :
      (total : ℕ) (d db' : Db) (reply : IssueReply)
      → ◌>>=◌ {B = IssueReply × Db} (add_issued total d) (λ x. done (issued, x)) ≡ done (reply, db')
      → db'.entries ≡ d.entries
  unfolding add_issued
  add_issued-entries total d db' reply h = elim (Bool-cases (leb total max_amount_mc)) [
    | inl e ↦ ground arith
    | inr e ↦ absurd (ground arith)
  ]

  issue_commit-keeps :
      (now : ℕ) (rs : List OutputResult) (db db' : Db) (reply : IssueReply) (k : Text) (e : Entry)
      → issue_commit now rs db ≡ done (reply, db')
      → lookup k db.entries ≡ some e
      → lookup k db'.entries ≡ some e
  unfolding issue_commit add_issued
  issue_commit-keeps now rs db db' reply k e h f =
      let (t, q, h') = >>=-eq-done (insert_entries now (out_records rs) db.entries) _ h in
      insert_entries-keeps now (out_records rs) k db.entries db'.entries e
        (q
          ∙ ap done (
              sym (
                add_issued-entries (record_values (out_records rs)) (record db { entries = t }) db'
                  reply h')))
        f

  issue_settle-keeps :
      (now : ℕ) (rs : List OutputResult) (errors : List ErrorItem) (db db' : Db)
      (reply : IssueReply) (k : Text) (e : Entry)
      → issue_settle now rs errors db ≡ done (reply, db')
      → lookup k db.entries ≡ some e
      → lookup k db'.entries ≡ some e
  issue_settle-keeps now rs [] db db' reply k e h f = issue_commit-keeps now rs db db' reply k e h f
  issue_settle-keeps now rs (x ∷ xs) db db' reply k e h f =
      let p : db ≡ db' = cc in ap (λ (d : Db). lookup k d.entries) (sym p) ∙ f

  -- An issuance changes no entry.
  pub issue-keeps :
      (cfg : Config) (now : ℕ) (outputs : List OutputArg) (db : Db)
      → IsValidDb db
      → (reply : IssueReply) (db' : Db) (k : Text) (e : Entry)
      → issue cfg now outputs db ≡ done (reply, db')
      → lookup k db.entries ≡ some e
      → lookup k db'.entries ≡ some e
  unfolding issue
  issue-keeps cfg now outputs db v reply db' k e h f =
      issue_settle-keeps now _ _ db db' reply k e h f
