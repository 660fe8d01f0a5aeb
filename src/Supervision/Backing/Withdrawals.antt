-- ===== src/Supervision/Backing/Withdrawals.antt =====
-- impl/aicash/supervision.py, `agent_withdraw`: a withdrawal keeps the balances backed.
use ai_cash.Prelude.{
  ℕ, ◌+◌, ◌≡◌, refl, sym, ◌∙◌, ap, subst, Option, is_some, not, ◌==◌, none, arith,
}
use ai_cash.Prelude.Int.{ℤ, pos, pos_part, neg_part, ◌+ℤ◌, ◌-ℤ◌, +ℤ_parts, -ℤ_parts, eq_of_parts}
use ai_cash.Prelude.Text.{Text, Bytes}
use ai_cash.Codec.Key.{Hash}
use ai_cash.Codec.Value.{Fields}
use ai_cash.Ledger.State.{Db, Config, Run, done, fault, Reply}
use ai_cash.Ledger.Table.{insert_row}
use ai_cash.Supervision.{
  rejected, ok, Answer, Unicode, or_internal, >>=-eq-ok, or_internal-eq-ok, ok-injective, Books,
}
use ai_cash.Supervision.Accounts.{take_from}
use ai_cash.Supervision.Backing.{IsBacked, total_balance, total-update, backed-take}
use ai_cash.Supervision.Booking.{IsSound}
use ai_cash.Supervision.Custody.{Bridge, PendingOp, withdraws, reserve, release, consume}
use ai_cash.Supervision.Custody.Held.{held}
use ai_cash.Supervision.Rows.{update_row}
use ai_cash.Supervision.Selection.{hashes_of}
use ai_cash.Supervision.Withdrawal.{
  Planned, update_inputs, add_change, stage_withdraw, unwind_withdraw, finalize_withdraw,
  after_withdraw, withdraw_staged, withdraw_planned, agent_withdraw, activate_change, drop_change,
}
use ai_cash.Supervision.Withdrawal.Change.{
  IsStaged, add_change-IsStaged, staged-IsUnique, staged-held, consumed-held, unwound-held,
  activate-IsUnique, drop-IsUnique,
}
use ai_cash.Supervision.Withdrawal.Inputs.{inputs-IsUnique}
use ai_cash.Supervision.Withdrawal.Planning.{Paid, plan_withdraw-Paid}
use ai_cash.Supervision.Withdrawal.Sound.{Covered, finalize_withdraw-IsSound}

-- What a withdrawal has staged, over the tables that it found.
pub record Staging (secret : Bytes) (p : Planned) (s staged : Bridge) : Type 0 where
  pub same_books : staged.books ≡ s.books
  pub same_absorbed : staged.absorbed_mc ≡ s.absorbed_mc
  pub in_custody :
      IsStaged secret p.change_mc
        (update_inputs reserve p.details.input_hashes s.custody)
        p.details.change_hash
        staged.custody

stage_withdraw-Staging :
    (op_id caller : Text) (secret : Bytes) (p : Planned) (s staged : Bridge)
    → stage_withdraw op_id caller secret p s ≡ ok staged
    → Staging secret p s staged
unfolding stage_withdraw
stage_withdraw-Staging op_id caller secret p s staged h =
    let d = p.details in
    let inputs = update_inputs reserve d.input_hashes s.custody in
    let added = add_change d.change_hash secret p.change_mc inputs in
    let (custody, e, h1) = >>=-eq-ok (or_internal added) _ h in
    let op : PendingOp = record { agent_id = caller; work = withdraws d } in
    let (ops, _, h2) = >>=-eq-ok (or_internal (insert_row op_id op s.pending_ops)) _ h1 in
    subst (Staging secret p s) (ok-injective h2) (record {
      same_books = refl;
      same_absorbed = refl;
      in_custody =
          add_change-IsStaged d.change_hash secret p.change_mc inputs custody
            (or_internal-eq-ok added e);
    })

zero_of : (ch : Option Text) (n : ℕ) → is_some ch ≡ not (n == 0) → ch ≡ none → n ≡ 0
zero_of ch n h e = ground (arith, e)

absorbed_sum :
    (m m' total burn ledger_burn gross : ℕ) (x y : ℤ)
    → gross ≡ total + burn
    → m' + total + ledger_burn ≡ m
    → y ≡ x +ℤ (pos ledger_burn -ℤ pos burn)
    → pos m' +ℤ y +ℤ pos gross ≡ pos m +ℤ x
absorbed_sum m m' total burn ledger_burn gross x y g e k =
    eq_of_parts (pos m' +ℤ y +ℤ pos gross) (pos m +ℤ x) (
      omega (
        arith,
        g,
        e,
        ap pos_part k,
        ap neg_part k,
        +ℤ_parts (pos m' +ℤ y) (pos gross),
        +ℤ_parts (pos m') y,
        +ℤ_parts (pos m) x,
        +ℤ_parts x (pos ledger_burn -ℤ pos burn),
        -ℤ_parts (pos ledger_burn) (pos burn),
      ))

module _ (caller op_id : Text) (secret : Bytes) (now : ℕ) (p : Planned) (s staged : Bridge)
    (b : IsBacked s) (paid : Paid s caller now p) (st : Staging secret p s staged) where
  in_custody :
      IsStaged secret p.change_mc
        (update_inputs reserve (hashes_of paid.sel) s.custody)
        p.details.change_hash
        staged.custody
  in_custody =
      subst
        (λ hs.
          IsStaged secret p.change_mc (update_inputs reserve hs s.custody) p.details.change_hash
            staged.custody)
        paid.hashes st.in_custody

  pub staged-IsBacked : IsBacked staged
  staged-IsBacked = record {
    sound = subst IsSound (sym st.same_books) b.sound;
    unique =
        staged-IsUnique secret p.change_mc s.custody p.details.change_hash staged.custody paid.sel
          b.unique in_custody;
    backed =
        ap (λ x. pos (held staged.custody) +ℤ x) st.same_absorbed
        ∙ ap (λ n. pos n +ℤ s.absorbed_mc)
            (staged-held secret p.change_mc s.custody p.details.change_hash staged.custody paid.sel
              b.unique in_custody)
        ∙ b.backed
        ∙ ap (λ (x : Books). total_balance x.agents) (sym st.same_books);
  }

  pub unwind_withdraw-IsBacked : IsBacked (unwind_withdraw op_id p.details staged)
  unfolding unwind_withdraw
  unwind_withdraw-IsBacked =
      let before = staged-IsBacked in
      let ch = p.details.change_hash in
      let still =
        staged-held secret p.change_mc s.custody ch staged.custody paid.sel b.unique in_custody in
      let unwound =
        ap (λ hs. held (drop_change ch (update_inputs release hs staged.custody))) paid.hashes
        ∙ unwound-held secret p.change_mc s.custody ch staged.custody paid.sel b.unique
            in_custody in
      record {
        sound = before.sound;
        unique =
            drop-IsUnique p.details.change_hash
              (update_inputs release p.details.input_hashes staged.custody)
              (inputs-IsUnique release p.details.input_hashes staged.custody before.unique);
        backed = ap (λ n. pos n +ℤ staged.absorbed_mc) (unwound ∙ sym still) ∙ before.backed;
      }

  finalized-held :
      held (
          activate_change p.details.change_hash
            (update_inputs consume p.details.input_hashes staged.custody))
        + p.details.total_out_mc
        + p.details.ledger_burn_mc
      ≡ held s.custody
  finalized-held =
      let consumed =
        consumed-held secret p.change_mc s.custody p.details.change_hash staged.custody paid.sel
          b.unique in_custody paid.pays
          (zero_of p.details.change_hash p.change_mc paid.has_change) in
      rw paid.hashes (omega (arith, paid.sums, consumed))

  covered : Covered staged.books caller p
  covered = subst (λ x. Covered x caller p) (sym st.same_books) paid.covered

  pub finalize_withdraw-IsBacked : IsBacked (finalize_withdraw op_id caller p.details staged)
  unfolding finalize_withdraw take_from
  finalize_withdraw-IsBacked =
      let before = staged-IsBacked in
      let d = p.details in
      let consumed = update_inputs consume d.input_hashes staged.custody in
      let spendable = held (activate_change d.change_hash consumed) in
      let agents = staged.books.agents in
      record {
        sound = finalize_withdraw-IsSound op_id caller p staged covered before.sound;
        unique =
            activate-IsUnique d.change_hash consumed
              (inputs-IsUnique consume d.input_hashes staged.custody before.unique);
        backed =
            backed-take (held staged.custody) spendable staged.absorbed_mc
              (staged.absorbed_mc +ℤ d.absorbed_mc) p.agent.balance_mc (total_balance agents)
              (total_balance (update_row caller (take_from d.gross_mc) agents)) d.gross_mc
              before.backed
              (total-update caller (take_from d.gross_mc) agents p.agent before.sound.unique
                covered.found)
              (absorbed_sum (held staged.custody) spendable d.total_out_mc d.burn_mc
                d.ledger_burn_mc d.gross_mc staged.absorbed_mc (staged.absorbed_mc +ℤ d.absorbed_mc)
                covered.gross
                (finalized-held
                  ∙ sym (
                      staged-held secret p.change_mc s.custody d.change_hash staged.custody paid.sel
                        b.unique in_custody))
                (ap (λ x. staged.absorbed_mc +ℤ x) paid.absorbs));
      }

  pub after_withdraw-IsBacked :
      (db : Db) (m : Run (Reply × Db)) → IsBacked (after_withdraw caller op_id p staged db m).1
  unfolding after_withdraw
  after_withdraw-IsBacked db (fault e) = staged-IsBacked
  after_withdraw-IsBacked db (done (Reply.rejected errors, db')) = unwind_withdraw-IsBacked
  after_withdraw-IsBacked db (done (Reply.confirmed n burned, db')) = finalize_withdraw-IsBacked

module _ ⦃hash : Hash⦄ ⦃unicode : Unicode⦄ where
  withdraw_staged-IsBacked :
      (cfg : Config) (caller idem op_id : Text) (now exchange_now : ℕ) (secret : Bytes)
      (p : Planned) (s : Bridge) (db : Db) (m : Answer Bridge)
      → ((staged : Bridge) → m ≡ ok staged → Staging secret p s staged)
      → Paid s caller now p
      → IsBacked s
      → IsBacked (withdraw_staged cfg caller idem op_id exchange_now p s db m).1
  unfolding withdraw_staged
  withdraw_staged-IsBacked cfg caller idem op_id now exchange_now secret p s db (ok staged) st paid
        b =
      after_withdraw-IsBacked caller op_id secret now p s staged b paid (st staged refl) db _
  withdraw_staged-IsBacked cfg caller idem op_id now exchange_now secret p s db _ st paid b = b

  withdraw_planned-IsBacked :
      (cfg : Config) (caller idem op_id : Text) (now exchange_now : ℕ) (secret : Bytes) (s : Bridge)
      (db : Db) (m : Answer Planned)
      → ((p : Planned) → m ≡ ok p → Paid s caller now p)
      → IsBacked s
      → IsBacked (withdraw_planned cfg caller idem op_id secret exchange_now s db m).1
  unfolding withdraw_planned
  withdraw_planned-IsBacked cfg caller idem op_id now exchange_now secret s db (ok p) paid b =
      withdraw_staged-IsBacked cfg caller idem op_id now exchange_now secret p s db _
        (λ staged e. stage_withdraw-Staging op_id caller secret p s staged e) (paid p refl) b
  withdraw_planned-IsBacked cfg caller idem op_id now exchange_now secret s db (rejected r) paid b =
      b
  withdraw_planned-IsBacked cfg caller idem op_id now exchange_now secret s db _ paid b = b

  -- However a withdrawal ends, it keeps the balances backed.
  pub agent_withdraw-IsBacked :
      (cfg : Config) (mint_id caller : Text) (body : Fields) (now exchange_now : ℕ) (secret : Bytes)
      (idem op_id : Text) (s : Bridge) (db : Db)
      → IsBacked s
      → IsBacked (agent_withdraw cfg mint_id caller body now exchange_now secret idem op_id s db).1
  unfolding agent_withdraw
  agent_withdraw-IsBacked cfg mint_id caller body now exchange_now secret idem op_id s db b =
      withdraw_planned-IsBacked cfg caller idem op_id now exchange_now secret s db _
        (λ p e. plan_withdraw-Paid cfg mint_id caller body now secret s p b.unique e) b
