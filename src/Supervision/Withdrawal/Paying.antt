-- ===== src/Supervision/Withdrawal/Paying.antt =====
-- impl/aicash/supervision.py, `agent_withdraw`: what an answer of 200 tells.
use ai_cash.Prelude.{ℕ, ◌≡◌, refl}
use ai_cash.Prelude.Int.{ℤ, pos, ◌-ℤ◌}
use ai_cash.Prelude.Text.{Text, Bytes}
use ai_cash.Codec.Value.{Fields}
use ai_cash.Codec.Key.{Hash}
use ai_cash.Ledger.State.{Config}
use ai_cash.Ledger.Exchange.{exchange}
use ai_cash.Ledger.Table.{IsUnique}
use ai_cash.Supervision.{Unicode, Answer, ok}
use ai_cash.Supervision.Custody.{Bridge}
use ai_cash.Supervision.Withdrawal.{Planned}
use ai_cash.Supervision.Withdrawal.Planning.{Paid, Ordered, plan_withdraw-Ordered}
use ai_cash.Supervision.{rejected}
use ai_cash.Ledger.State.{Reply, Run, done, fault, Db}
use ai_cash.Supervision.Withdrawal.{
  stage_withdraw, finalize_withdraw, plan_withdraw, withdrawn, WithdrawReply, after_withdraw,
  withdraw_staged, withdraw_planned, agent_withdraw,
}

withdrawn-injective :
    (total total' burn_mc burn_mc' : ℕ) (balance balance' : ℤ)
    → ◌≡◌ {A = Answer WithdrawReply}
        (ok (withdrawn total burn_mc balance))
        (ok (withdrawn total' burn_mc' balance'))
    → (total' ≡ total) × (burn_mc' ≡ burn_mc) × (balance' ≡ balance)
withdrawn-injective total total' burn_mc burn_mc' balance balance' h = (cc, cc, cc)

-- What the answer says of the plan.
pub record Answered (p : Planned) (total burn_mc : ℕ) (balance : ℤ) : Type 0 where
  pub total_is : total ≡ p.details.total_out_mc
  pub burn_is : burn_mc ≡ p.details.burn_mc
  pub balance_is : balance ≡ p.agent.balance_mc -ℤ pos p.details.gross_mc

after_withdraw-Answered :
    (caller op_id : Text) (p : Planned) (s : Bridge) (db : Db) (m : Run (Reply × Db))
    (total burn_mc : ℕ) (balance : ℤ)
    → (after_withdraw caller op_id p s db m).0 ≡ ok (withdrawn total burn_mc balance)
    → Answered p total burn_mc balance
unfolding after_withdraw
after_withdraw-Answered caller op_id p s db (fault e) total burn_mc balance h = cc
after_withdraw-Answered caller op_id p s db (done (Reply.rejected es, db')) total burn_mc balance
      h =
    cc
after_withdraw-Answered caller op_id p s db (done (Reply.confirmed n m, db')) total burn_mc balance
      h =
    let d = p.details in
    let (t, b, r) =
      withdrawn-injective d.total_out_mc total d.burn_mc burn_mc
        (p.agent.balance_mc -ℤ pos d.gross_mc) balance h in
    record { total_is = t; burn_is = b; balance_is = r }

-- A confirmed exchange is booked, over what was staged.
after_withdraw-confirmed :
    (caller op_id : Text) (p : Planned) (s : Bridge) (db : Db) (m : Run (Reply × Db))
    (total burn_mc : ℕ) (balance : ℤ)
    → (after_withdraw caller op_id p s db m).0 ≡ ok (withdrawn total burn_mc balance)
    → (outputs burned : ℕ) × (ledger : Db) × (m ≡ done (Reply.confirmed outputs burned, ledger))
      × ((after_withdraw caller op_id p s db m).1 ≡ finalize_withdraw op_id caller p.details s)
      × ((after_withdraw caller op_id p s db m).2 ≡ ledger)
unfolding after_withdraw
after_withdraw-confirmed caller op_id p s db (fault e) total burn_mc balance h = cc
after_withdraw-confirmed caller op_id p s db (done (Reply.rejected es, db')) total burn_mc balance
      h =
    cc
after_withdraw-confirmed caller op_id p s db (done (Reply.confirmed n m, db')) total burn_mc balance
      h =
    (n, m, db', refl, refl, refl)

module _ ⦃hash : Hash⦄ ⦃unicode : Unicode⦄ where
  -- The plan was staged, its exchange was confirmed, and the tables after are those of the staged
  -- plan's booking and of that exchange.
  pub record Completed (cfg : Config) (caller idem op_id : Text) (secret : Bytes) (exchange_now : ℕ)
      (s : Bridge) (db : Db) (p : Planned) (s' : Bridge) (db' : Db) : Type 0 where
    pub staged : Bridge
    pub outputs : ℕ
    pub burned : ℕ
    pub ledger : Db
    pub staging : stage_withdraw op_id caller secret p s ≡ ok staged
    pub ran :
        exchange cfg exchange_now idem idem p.inputs p.outputs db
        ≡ done (Reply.confirmed outputs burned, ledger)
    pub booked : s' ≡ finalize_withdraw op_id caller p.details staged
    pub committed : db' ≡ ledger

  withdraw_staged-Completed :
      (cfg : Config) (caller idem op_id : Text) (secret : Bytes) (exchange_now : ℕ) (p : Planned)
      (s : Bridge) (db : Db) (m : Answer Bridge) (total burn_mc : ℕ) (balance : ℤ)
      → stage_withdraw op_id caller secret p s ≡ m
      → (withdraw_staged cfg caller idem op_id exchange_now p s db m).0
        ≡ ok (withdrawn total burn_mc balance)
      → Answered p total burn_mc balance
        × Completed cfg caller idem op_id secret exchange_now s db p
            (withdraw_staged cfg caller idem op_id exchange_now p s db m).1
            (withdraw_staged cfg caller idem op_id exchange_now p s db m).2
  unfolding withdraw_staged
  withdraw_staged-Completed cfg caller idem op_id secret exchange_now p s db (ok staged) total
        burn_mc balance e h =
      let (n, b, ledger, ran, booked, committed) =
        after_withdraw-confirmed caller op_id p staged db _ total burn_mc balance h in
      (
        after_withdraw-Answered caller op_id p staged db _ total burn_mc balance h,
        record {
          staged = staged;
          outputs = n;
          burned = b;
          ledger = ledger;
          staging = e;
          ran = ran;
          booked = booked;
          committed = committed;
        },
      )
  withdraw_staged-Completed cfg caller idem op_id secret exchange_now p s db (rejected r) total
        burn_mc balance e h =
      cc
  withdraw_staged-Completed cfg caller idem op_id secret exchange_now p s db _ total burn_mc balance
        e h =
      cc

  withdraw_planned-Completed :
      (cfg : Config) (caller idem op_id : Text) (secret : Bytes) (exchange_now : ℕ) (s : Bridge)
      (db : Db) (m : Answer Planned) (total burn_mc : ℕ) (balance : ℤ)
      → (withdraw_planned cfg caller idem op_id secret exchange_now s db m).0
        ≡ ok (withdrawn total burn_mc balance)
      → (p : Planned) × (m ≡ ok p)
        × Answered p total burn_mc balance
        × Completed cfg caller idem op_id secret exchange_now s db p
            (withdraw_planned cfg caller idem op_id secret exchange_now s db m).1
            (withdraw_planned cfg caller idem op_id secret exchange_now s db m).2
  unfolding withdraw_planned
  withdraw_planned-Completed cfg caller idem op_id secret exchange_now s db (ok p) total burn_mc
        balance h =
      let (answered, completed) =
        withdraw_staged-Completed cfg caller idem op_id secret exchange_now p s db _ total burn_mc
          balance refl h in
      (p, refl, answered, completed)
  withdraw_planned-Completed cfg caller idem op_id secret exchange_now s db (rejected r) total
        burn_mc balance h =
      cc
  withdraw_planned-Completed cfg caller idem op_id secret exchange_now s db _ total burn_mc balance
        h =
      cc

  -- Over a custody without duplicate keys, a withdrawal that is answered with 200 is of an account
  -- that is not frozen and may withdraw. Its plan is the one made from the request: the outputs of
  -- the body and the change, under the policy in force. The account holds the sum of those outputs
  -- and its burn, which are within its caps; the answer tells the two, and the balance with both
  -- taken off. The mint pays with unspent rows of its custody, each once, whose sum is the outputs,
  -- their own burn and the change; that burn is no less than the one the account is charged. The
  -- plan was staged, the exchange of those rows for those outputs was confirmed, and the tables
  -- after are those of the exchange and of the staged plan's booking.
  pub agent_withdraw-Paid :
      (cfg : Config) (mint_id caller : Text) (body : Fields) (now exchange_now : ℕ) (secret : Bytes)
      (idem op_id : Text) (s : Bridge) (db : Db) (total burn_mc : ℕ) (balance : ℤ)
      → IsUnique s.custody
      → (agent_withdraw cfg mint_id caller body now exchange_now secret idem op_id s db).0
        ≡ ok (withdrawn total burn_mc balance)
      → (p : Planned) × (plan_withdraw cfg mint_id caller body now secret s ≡ ok p)
        × (paid : Paid s caller now p) × Ordered cfg mint_id caller body now secret s p paid
        × Answered p total burn_mc balance
        × Completed cfg caller idem op_id secret exchange_now s db p
            (agent_withdraw cfg mint_id caller body now exchange_now secret idem op_id s db).1
            (agent_withdraw cfg mint_id caller body now exchange_now secret idem op_id s db).2
  unfolding agent_withdraw
  agent_withdraw-Paid cfg mint_id caller body now exchange_now secret idem op_id s db total burn_mc
        balance u h =
      let (p, plans, answered, completed) =
        withdraw_planned-Completed cfg caller idem op_id secret exchange_now s db _ total burn_mc
          balance h in
      let (paid, ordered) = plan_withdraw-Ordered cfg mint_id caller body now secret s p u plans in
      (p, plans, paid, ordered, answered, completed)
