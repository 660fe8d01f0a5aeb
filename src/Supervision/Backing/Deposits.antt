-- ===== src/Supervision/Backing/Deposits.antt =====
-- impl/aicash/supervision.py, `agent_deposit`: a deposit keeps the balances backed.
use ai_cash.Supervision.Withdrawal.{add_change}
use ai_cash.Prelude.{
  ℕ, ◌+◌, ◌≡◌, refl, sym, ◌∙◌, ap, subst, none, some, ◌∷◌, arith, leb, if◌then◌else◌,
}
use ai_cash.Prelude.Int.{pos, ◌+ℤ◌}
use ai_cash.Prelude.Text.{Text, Bytes}
use ai_cash.Codec.Key.{Hash}
use ai_cash.Codec.Value.{Fields}
use ai_cash.Ledger.State.{Db, Config, Run, done, fault, Reply, max_amount_mc}
use ai_cash.Ledger.Table.{Table, IsUnique, insert_row, lookup, lookup_self}
use ai_cash.Supervision.{
  rejected, ok, Answer, Unicode, or_internal, >>=-eq-ok, or_internal-eq-ok, ok-injective, Books,
  Agent,
}
use ai_cash.Supervision.Accounts.{give_to}
use ai_cash.Supervision.Backing.{IsBacked, total_balance, total-update, backed-give}
use ai_cash.Supervision.Booking.{IsSound}
use ai_cash.Supervision.Bridge.{
  Priced, add_custody, discard_deposit, finalize_deposit, after_exchange, exchange_staged,
  exchange_priced, agent_deposit,
}
use ai_cash.Supervision.Bridge.Staging.{finalize_deposit-IsSound}
use ai_cash.Supervision.Custody.{
  Custody, Bridge, PendingOp, DepositDetails, deposits, activate, is_pending,
}
use ai_cash.Supervision.Custody.Held.{held, held-update, held-delete, delete-IsUnique_row}
use ai_cash.Supervision.Rows.{update_row, update-IsUnique}
use ai_cash.Supervision.Withdrawal.Change.{
  IsStaged, with_change, change_row, add_change-IsStaged, IsStaged-IsUnique, IsStaged-held,
}

-- What a deposit has staged, over the tables that it found.
pub record Staging (secret : Bytes) (d : DepositDetails) (s staged : Bridge) : Type 0 where
  pub same_books : staged.books ≡ s.books
  pub same_absorbed : staged.absorbed_mc ≡ s.absorbed_mc
  pub in_custody : IsStaged secret d.net_mc s.custody (some d.custody_hash) staged.custody

add_custody-Staging :
    (secret : Bytes) (op_id agent_id : Text) (d : DepositDetails) (s staged : Bridge)
    → add_custody d.custody_hash secret op_id agent_id d s ≡ ok staged
    → Staging secret d s staged
unfolding add_custody
add_custody-Staging secret op_id agent_id d s staged h =
    let row = change_row secret d.net_mc in
    let added =
      if leb d.net_mc max_amount_mc then insert_row d.custody_hash row s.custody else none in
    let (custody, e, h1) = >>=-eq-ok (or_internal added) _ h in
    let op : PendingOp = record { agent_id = agent_id; work = deposits d } in
    let (ops, _, h2) = >>=-eq-ok (or_internal (insert_row op_id op s.pending_ops)) _ h1 in
    subst (Staging secret d s) (ok-injective h2) (record {
      same_books = refl;
      same_absorbed = refl;
      in_custody =
          add_change-IsStaged (some d.custody_hash) secret d.net_mc s.custody custody
            (unfold add_change in or_internal-eq-ok added e);
    })

-- The row that was staged becomes spendable.
staged_row-held :
    (secret : Bytes) (change : ℕ) (t : Table Custody) (h : Text) (staged : Table Custody)
    → IsStaged secret change t (some h) staged
    → IsUnique staged
    → held (update_row h activate staged) ≡ held staged + change
staged_row-held secret change t h _ (with_change gone) u =
    let row = change_row secret change in
    omega (arith, held-update h activate ((h, row) ∷ t) row u (lookup_self h row t))

module _ (caller op_id : Text) (secret : Bytes) (d : DepositDetails) (s staged : Bridge)
    (agent : Agent) (found : lookup caller s.books.agents ≡ some agent) (b : IsBacked s)
    (st : Staging secret d s staged) where
  staged-IsBacked : IsBacked staged
  staged-IsBacked = record {
    sound = subst IsSound (sym st.same_books) b.sound;
    unique =
        IsStaged-IsUnique secret d.net_mc s.custody (some d.custody_hash) staged.custody
          st.in_custody b.unique;
    backed =
        ap (λ x. pos (held staged.custody) +ℤ x) st.same_absorbed
        ∙ ap (λ n. pos n +ℤ s.absorbed_mc)
            (IsStaged-held secret d.net_mc s.custody (some d.custody_hash) staged.custody
              st.in_custody)
        ∙ b.backed
        ∙ ap (λ (x : Books). total_balance x.agents) (sym st.same_books);
  }

  discard_deposit-IsBacked : IsBacked (discard_deposit op_id d staged)
  unfolding discard_deposit
  discard_deposit-IsBacked =
      let before = staged-IsBacked in
      record {
        sound = before.sound;
        unique = delete-IsUnique_row d.custody_hash is_pending staged.custody before.unique;
        backed =
            ap (λ n. pos n +ℤ staged.absorbed_mc) (held-delete d.custody_hash staged.custody)
            ∙ before.backed;
      }

  finalize_deposit-IsBacked : IsBacked (finalize_deposit op_id caller d staged)
  unfolding finalize_deposit give_to
  finalize_deposit-IsBacked =
      let before = staged-IsBacked in
      let agents = staged.books.agents in
      let still : lookup caller agents ≡ some agent =
        ap (λ (x : Books). lookup caller x.agents) st.same_books ∙ found in
      record {
        sound = finalize_deposit-IsSound op_id caller d staged agent still before.sound;
        unique = update-IsUnique d.custody_hash activate staged.custody before.unique;
        backed =
            backed-give (held staged.custody)
              (held (update_row d.custody_hash activate staged.custody)) staged.absorbed_mc
              agent.balance_mc (total_balance agents)
              (total_balance (update_row caller (give_to d.net_mc) agents)) d.net_mc before.backed
              (total-update caller (give_to d.net_mc) agents agent before.sound.unique still)
              (staged_row-held secret d.net_mc s.custody d.custody_hash staged.custody st.in_custody
                before.unique);
      }

module _ ⦃hash : Hash⦄ ⦃unicode : Unicode⦄ where
  after_exchange-IsBacked :
      (caller op_id : Text) (secret : Bytes) (d : DepositDetails) (s staged : Bridge)
      (agent : Agent) (db : Db) (m : Run (Reply × Db))
      → lookup caller s.books.agents ≡ some agent
      → IsBacked s
      → Staging secret d s staged
      → IsBacked (after_exchange caller op_id d staged db m).1
  unfolding after_exchange
  after_exchange-IsBacked caller op_id secret d s staged agent db (fault e) found b st =
      staged-IsBacked caller op_id secret d s staged agent found b st
  after_exchange-IsBacked caller op_id secret d s staged agent db (done (Reply.rejected es, db'))
        found b st =
      discard_deposit-IsBacked caller op_id secret d s staged agent found b st
  after_exchange-IsBacked caller op_id secret d s staged agent db (done (Reply.confirmed n m, db'))
        found b st =
      finalize_deposit-IsBacked caller op_id secret d s staged agent found b st

  exchange_staged-IsBacked :
      (cfg : Config) (caller idem op_id : Text) (exchange_now : ℕ) (secret : Bytes) (p : Priced)
      (s : Bridge) (db : Db) (m : Answer Bridge) (agent : Agent)
      → ((staged : Bridge) → m ≡ ok staged → Staging secret p.details s staged)
      → lookup caller s.books.agents ≡ some agent
      → IsBacked s
      → IsBacked (exchange_staged cfg caller idem op_id exchange_now p s db m).1
  unfolding exchange_staged
  exchange_staged-IsBacked cfg caller idem op_id exchange_now secret p s db (ok staged) agent st
        found b =
      after_exchange-IsBacked caller op_id secret p.details s staged agent db _ found b
        (st staged refl)
  exchange_staged-IsBacked cfg caller idem op_id exchange_now secret p s db _ agent st found b = b

  exchange_priced-IsBacked :
      (cfg : Config) (caller idem op_id : Text) (secret : Bytes) (exchange_now : ℕ) (s : Bridge)
      (db : Db) (m : Answer Priced) (agent : Agent)
      → lookup caller s.books.agents ≡ some agent
      → IsBacked s
      → IsBacked (exchange_priced cfg caller idem op_id secret exchange_now s db m).1
  unfolding exchange_priced
  exchange_priced-IsBacked cfg caller idem op_id secret exchange_now s db (ok p) agent found b =
      exchange_staged-IsBacked cfg caller idem op_id exchange_now secret p s db _ agent
        (λ staged e. add_custody-Staging secret op_id caller p.details s staged e) found b
  exchange_priced-IsBacked cfg caller idem op_id secret exchange_now s db (rejected r) agent found
        b =
      b
  exchange_priced-IsBacked cfg caller idem op_id secret exchange_now s db _ agent found b = b

  -- However a deposit by an agent that there is ends, it keeps the balances backed.
  pub agent_deposit-IsBacked :
      (cfg : Config) (mint_id caller : Text) (body : Fields) (now exchange_now : ℕ) (secret : Bytes)
      (idem op_id : Text) (s : Bridge) (db : Db) (agent : Agent)
      → lookup caller s.books.agents ≡ some agent
      → IsBacked s
      → IsBacked (agent_deposit cfg mint_id caller body now exchange_now secret idem op_id s db).1
  unfolding agent_deposit
  agent_deposit-IsBacked cfg mint_id caller body now exchange_now secret idem op_id s db agent found
        b =
      exchange_priced-IsBacked cfg caller idem op_id secret exchange_now s db _ agent found b
