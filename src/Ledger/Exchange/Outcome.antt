-- ===== src/Ledger/Exchange/Outcome.antt =====
-- impl/aicash/ledgerstore.py, `_exchange_locked` under a key that is not stored: every answer, with
-- what it says of the inputs, the outputs, the burn and the tables.
use ai_cash.Prelude.{
  ℕ, ◌+◌, ◌≡◌, ◌≢◌, refl, ap, sym, ◌∙◌, Option, none, some, List, [], ◌∷◌, ◌++◌, arith, length,
}
use ai_cash.Prelude.Int.{pos}
use ai_cash.Prelude.Text.{Text}
use ai_cash.Burn
use ai_cash.Burn.{BurnPolicy, compute_burn}
use ai_cash.Burn.Bounds.{compute_burn-eq, burn_of}
use ai_cash.Codec.Key.{Hash}
use ai_cash.Lock.{InputForm}
use ai_cash.Ledger.Inputs.{InputResult, resolve_inputs}
use ai_cash.Ledger.Outputs.{OutputArg, OutputResult, resolve_outputs}
use ai_cash.Ledger.Exchange.{
  input_errors, output_errors, in_records, out_records, effective_burn_policy, conserve, priced,
  reject, settle, exchange_fresh,
}
use ai_cash.Ledger.Exchange.Accepted.{
  AllPass, resolve_inputs-AllPass, AllPass-Spendable, AllPass-sum_in, AllPass-duplicate_input,
}
use ai_cash.Ledger.Exchange.Inserting.{values}
use ai_cash.Ledger.Exchange.Fresh.{
  stored_row, effective_burn_policy_total, conserve-eq, conserve-is_done, reject_lem, commit_lem,
  Written,
}
use ai_cash.Ledger.Exchange.Outgoing.{
  AllPlaced, resolve_outputs-AllPlaced, AllPlaced-Insertable, AllPlaced-sum_out,
}
use ai_cash.Ledger.Exchange.Resolving.{resolve_inputs-is_done}
use ai_cash.Ledger.Exchange.Spending.{amounts}
use ai_cash.Ledger.Invariant.{IsValidDb, IsValidConfig}
use ai_cash.Ledger.State.{
  ErrorItem, Reply, confirmed, rejected, Db, Config, Run, done, done_of, done-injective,
}
use ai_cash.Ledger.Table.{lookup}

settle-reject :
    (now : ℕ) (key digest : Text) (ins : List InputResult) (outs : List OutputResult) (b : Option ℕ)
    (e : ErrorItem) (es : List ErrorItem) (db : Db)
    → settle now key digest ins outs b (e ∷ es) db ≡ reject now key digest (e ∷ es) db
settle-reject now key digest ins outs none e es db = refl
settle-reject now key digest ins outs (some b) e es db = refl

append-eq-nil : (xs ys : List ErrorItem) → xs ++ ys ≡ [] → (xs ≡ []) × (ys ≡ [])
append-eq-nil [] ys h = (refl, h)
append-eq-nil (x ∷ xs) ys h = cc

-- A priced call with no mismatch balances.
priced-balanced :
    (i o burn : ℕ) (b : Option ℕ) → priced i o burn ≡ (b, []) → (b ≡ some burn) × (i ≡ o + burn)
priced-balanced i o burn b h = ground arith

module _ ⦃hash : Hash⦄ where
  -- What a confirmed call has checked, charged and written.
  pub record Confirmed (cfg : Config) (now : ℕ) (key digest : Text)
      (inputs : List (Option InputForm)) (outputs : List OutputArg) (n burn : ℕ) (db db' : Db)
      : Type 0 where
    pub ins : List InputResult
    pub outs : List OutputResult
    pub policy : BurnPolicy
    pub passes : AllPass db.entries now inputs [] ins
    pub placed : AllPlaced cfg db.entries now outputs [] outs
    pub in_force : effective_burn_policy cfg now ≡ done policy
    pub charged : compute_burn (pos (amounts (in_records ins))) policy ≡ Burn.ok burn
    pub conserved : amounts (in_records ins) ≡ values (out_records outs) + burn
    pub counted : n ≡ length (out_records outs)
    pub written : Written now key digest ins outs burn db db'

  abbrev pub Outcome :
      Config → ℕ → Text → Text → List (Option InputForm) → List OutputArg → Db → Reply → Db → Type 0
  Outcome cfg now key digest inputs outputs db (confirmed n burn) db' =
      IsValidDb db' × Confirmed cfg now key digest inputs outputs n burn db db'
  Outcome cfg now key digest inputs outputs db (rejected es) db' =
      (es ≢ [])
      × (db'
          ≡ record db { idempotency = (key, stored_row digest (rejected es) now) ∷ db.idempotency })

  module _ (cfg : Config) (now : ℕ) (key digest : Text) (inputs : List (Option InputForm))
      (outputs : List OutputArg) (db : Db) (vc : IsValidConfig cfg) (v : IsValidDb db)
      (free : lookup key db.idempotency ≡ none) where
    abbrev Settled : Run (Reply × Db) → Type 0
    Settled m =
        (reply : Reply) × (db' : Db) × (m ≡ done (reply, db'))
        × Outcome cfg now key digest inputs outputs db reply db'

    settle_lem :
        (ins : List InputResult) (b : Option ℕ) (ce errors : List ErrorItem)
        → resolve_inputs db.entries now inputs [] ≡ done ins
        → conserve cfg now ins (resolve_outputs cfg db.entries now outputs []) ≡ done (b, ce)
        → input_errors 0 ins
            ++ (output_errors 0 (resolve_outputs cfg db.entries now outputs []) ++ ce)
          ≡ errors
        → Settled
            (settle now key digest ins (resolve_outputs cfg db.entries now outputs []) b errors db)
    settle_lem ins b ce (e ∷ es) ei ec ee = (
      rejected (e ∷ es),
      record db { idempotency = (key, stored_row digest (rejected (e ∷ es)) now) ∷ db.idempotency },
      settle-reject now key digest ins (resolve_outputs cfg db.entries now outputs []) b e es db
          ∙ reject_lem now key digest (e ∷ es) db free,
      (λ q. cc, refl),
    )
    settle_lem ins b ce [] ei ec ee =
        let outs = resolve_outputs cfg db.entries now outputs [] in
        let (ni, nrest) = append-eq-nil (input_errors 0 ins) (output_errors 0 outs ++ ce) ee in
        let (no_, nc) = append-eq-nil (output_errors 0 outs) ce nrest in
        let passes = resolve_inputs-AllPass db.entries now inputs [] 0 ins ei ni in
        let placed = resolve_outputs-AllPlaced cfg db.entries now outputs [] 0 no_ in
        let total_in = amounts (in_records ins) in
        let total_out = values (out_records outs) in
        let (p, ep, vp) = effective_burn_policy_total cfg now vc in
        let priced_call =
          conserve-eq cfg now total_in total_out p ins outs ep vp
            (AllPass-duplicate_input db.entries now passes) (AllPass-sum_in db.entries now passes)
            (AllPlaced-sum_out cfg db.entries now placed) in
        let (eb, balanced) =
          priced-balanced total_in total_out (burn_of p total_in) b
            (done-injective (sym priced_call ∙ ec ∙ ap (λ c. done (b, c)) nc)) in
        let (db', ed, vd, written) =
          commit_lem now key digest ins outs (burn_of p total_in) db v free
            (AllPass-Spendable db.entries now passes)
            (AllPlaced-Insertable cfg db.entries now placed) balanced in
        (
          confirmed (length (out_records outs)) (burn_of p total_in),
          db',
          rw eb ed,
          (
            vd,
            record {
              ins = ins;
              outs = outs;
              policy = p;
              passes = passes;
              placed = placed;
              in_force = ep;
              charged = compute_burn-eq p total_in vp;
              conserved = balanced;
              counted = refl;
              written = written;
            },
          ),
        )

    -- Under valid policies and tables a call under a new key answers: with a rejection that lists an
    -- error and leaves the entries and the counters alone, or with a confirmation after which the
    -- tables are valid, whose inputs all passed and whose sums balance.
    pub exchange_fresh-Outcome :
        (reply : Reply) × (db' : Db) × (exchange_fresh cfg now key digest inputs outputs db
          ≡ done (reply, db'))
        × Outcome cfg now key digest inputs outputs db reply db'
    unfolding exchange_fresh
    exchange_fresh-Outcome =
        let (ins, ei) =
          done_of (resolve_inputs db.entries now inputs [])
            (resolve_inputs-is_done db.entries now inputs [] v.rows) in
        let outs = resolve_outputs cfg db.entries now outputs [] in
        let ((b, ce), ec) =
          done_of (conserve cfg now ins outs) (conserve-is_done cfg now ins outs vc) in
        rw (ei, ec) (settle_lem ins b ce _ ei ec refl)
