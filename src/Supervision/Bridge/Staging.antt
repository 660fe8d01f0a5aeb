-- ===== src/Supervision/Bridge/Staging.antt =====
-- impl/aicash/supervision.py: what a deposit stages, finalizes and discards.
use ai_cash.Supervision.Targets.{insert_row-eq-some}
use ai_cash.Supervision.Moves.Sound.{give_to-IsSolvent}
use ai_cash.Ledger.State.{max_amount_mc}
use ai_cash.Codec.Base64.{b64u_encode}
use ai_cash.Supervision.Rows.{update-IsUnique, Rows-update, is_some-update, update_row}
use ai_cash.Supervision.Accounts.{give_to, line}
use ai_cash.Supervision.Booking.{
  IsOwned, IsSolvent, IsBooked-other, IsBooked-give_to, IsBooked, IsSound,
}
use ai_cash.Ledger.Table.{Table, insert_row, lookup}
use ai_cash.Prelude.Text.{text_eq_refl, text_eq, Bytes, Text}
use ai_cash.Supervision.Bridge.{discard_deposit, finalize_deposit, add_custody}
use ai_cash.Supervision.Custody.{
  deposits, is_pending, delete_row, PendingOp, pending, Custody, Bridge, DepositDetails,
}
use ai_cash.Prelude.{
  none-some, leb, ◌≡◌, refl, sym, ◌∙◌, ap, subst, Bool, true, false, Option, none, some, [], ◌∷◌,
  is_some, All-map, Bool-cases, inl, inr, if◌then◌else◌,
}
use ai_cash.Supervision.{
  or_internal-eq-ok, ok-injective, or_internal, >>=-eq-ok, is_credit, is_debit, Agent, Line, Books,
  ok, deposit,
}

give-IsSound :
    (b : Books) (l : Line) (agent : Agent)
    → is_debit l.kind ≡ false
    → is_credit l.kind ≡ true
    → lookup l.agent_id b.agents ≡ some agent
    → IsSound b
    → IsSound (record b {
      agents = update_row l.agent_id (give_to l.amount_mc) b.agents;
      lines = l ∷ b.lines;
    })
give-IsSound b l agent d c found s =
    let there = λ (j : Text). is_some-update j l.agent_id (give_to l.amount_mc) b.agents in
    record {
      unique = update-IsUnique l.agent_id (give_to l.amount_mc) b.agents s.unique;
      booked =
          Rows-update (IsBooked b.lines) (IsBooked (l ∷ b.lines)) l.agent_id (give_to l.amount_mc)
            b.agents (λ v h. IsBooked-give_to l b.lines v d c h)
            (λ j v ne h. IsBooked-other l b.lines j v ne h) s.booked;
      solvent =
          Rows-update IsSolvent IsSolvent l.agent_id (give_to l.amount_mc) b.agents
            (λ v h. give_to-IsSolvent l.agent_id v l.amount_mc h) (λ j v ne h. h) s.solvent;
      owned = (
        there l.agent_id ∙ ap is_some found,
        All-map (IsOwned b.agents) (IsOwned (update_row l.agent_id (give_to l.amount_mc) b.agents))
            b.lines (λ k h. there k.agent_id ∙ h) s.owned,
      );
    }

pub finalize_deposit-IsSound :
    (op_id caller : Text) (details : DepositDetails) (s : Bridge) (agent : Agent)
    → lookup caller s.books.agents ≡ some agent
    → IsSound s.books
    → IsSound (finalize_deposit op_id caller details s).books
unfolding finalize_deposit is_debit is_credit
finalize_deposit-IsSound op_id caller details s agent found sound =
    give-IsSound s.books (line caller details.t deposit details.net_mc none details.ref) agent refl
      refl found sound

pub add_custody-books :
    (hash : Text) (secret : Bytes) (op_id agent_id : Text) (details : DepositDetails)
    (s s' : Bridge)
    → add_custody hash secret op_id agent_id details s ≡ ok s'
    → s'.books ≡ s.books
unfolding add_custody
add_custody-books hash secret op_id agent_id details s s' h =
    let row : Custody = record {
      secret_b64u = b64u_encode secret;
      amount_mc = details.net_mc;
      state = pending;
    } in
    let insertion =
      if leb details.net_mc max_amount_mc then insert_row hash row s.custody else none in
    let (custody, _, h1) = >>=-eq-ok (or_internal insertion) _ h in
    let op : PendingOp = record { agent_id = agent_id; work = deposits details } in
    let (ops, _, h2) = >>=-eq-ok (or_internal (insert_row op_id op s.pending_ops)) _ h1 in
    sym (ap (λ (x : Bridge). x.books) (ok-injective h2))

delete_row_absent {ℓ} :
    {V : Type ℓ} (k : Text) (test : V → Bool) (t : Table V)
    → lookup k t ≡ none
    → delete_row k test t ≡ t
unfolding delete_row lookup
delete_row_absent k test [] h = refl
delete_row_absent k test ((j, v) ∷ t) h = elim (Bool-cases (text_eq k j)) [
  | inl e ↦ let q : some v ≡ none = rw e at h in absurd (none-some (sym q))
  | inr e ↦ rw e (ap (λ x. (j, v) ∷ x) (delete_row_absent k test t (rw e at h)))
]

pub delete_row_inserted {ℓ} :
    {V : Type ℓ} (k : Text) (test : V → Bool) (v : V) (t : Table V)
    → lookup k t ≡ none
    → test v ≡ true
    → delete_row k test ((k, v) ∷ t) ≡ t
unfolding delete_row
delete_row_inserted k test v t absent e = rw (text_eq_refl k, e) (delete_row_absent k test t absent)

none_else {ℓ} :
    {V : Type ℓ} (t : Bool) (o : Option V) {v : V} → (if t then o else none) ≡ some v → o ≡ some v
none_else true o h = h
none_else false o h = cc

-- Discarding what a deposit staged leaves the tables as they were.
pub discard_deposit-add_custody :
    (secret : Bytes) (op_id agent_id : Text) (details : DepositDetails) (s s' : Bridge)
    → add_custody details.custody_hash secret op_id agent_id details s ≡ ok s'
    → discard_deposit op_id details s' ≡ s
unfolding add_custody discard_deposit
discard_deposit-add_custody secret op_id agent_id details s s' h =
    let row : Custody = record {
      secret_b64u = b64u_encode secret;
      amount_mc = details.net_mc;
      state = pending;
    } in
    let insertion =
      if leb details.net_mc max_amount_mc
      then insert_row details.custody_hash row s.custody
      else none in
    let (custody, e, h1) = >>=-eq-ok (or_internal insertion) _ h in
    let op : PendingOp = record { agent_id = agent_id; work = deposits details } in
    let (ops, f, h2) = >>=-eq-ok (or_internal (insert_row op_id op s.pending_ops)) _ h1 in
    let (no_custody, custody_is) = insert_row-eq-some details.custody_hash row s.custody custody (
      none_else (leb details.net_mc max_amount_mc) (insert_row details.custody_hash row s.custody)
        (or_internal-eq-ok insertion e)) in
    let (no_op, ops_is) =
      insert_row-eq-some op_id op s.pending_ops ops
        (or_internal-eq-ok (insert_row op_id op s.pending_ops) f) in
    let staged : record s { custody = custody; pending_ops = ops } ≡ s' = ok-injective h2 in
    subst
      (λ (x : Bridge).
        record x {
          custody = delete_row details.custody_hash is_pending x.custody;
          pending_ops = delete_row op_id (λ _. true) x.pending_ops;
        }
        ≡ s)
      staged
      (λ i. record s {
        custody =
            (ap (delete_row details.custody_hash is_pending) custody_is
                ∙ delete_row_inserted details.custody_hash is_pending row s.custody no_custody refl)
              i;
        pending_ops =
            (ap (delete_row op_id (λ _. true)) ops_is
                ∙ delete_row_inserted op_id (λ _. true) op s.pending_ops no_op refl)
              i;
      })

pub add_custody-pending_ops :
    (secret : Bytes) (op_id agent_id : Text) (details : DepositDetails) (s s' : Bridge)
    → s.pending_ops ≡ []
    → add_custody details.custody_hash secret op_id agent_id details s ≡ ok s'
    → s'.pending_ops ≡ (op_id, record { agent_id = agent_id; work = deposits details }) ∷ []
unfolding add_custody
add_custody-pending_ops secret op_id agent_id details s s' empty h =
    let row : Custody = record {
      secret_b64u = b64u_encode secret;
      amount_mc = details.net_mc;
      state = pending;
    } in
    let insertion =
      if leb details.net_mc max_amount_mc
      then insert_row details.custody_hash row s.custody
      else none in
    let (custody, _, h1) = >>=-eq-ok (or_internal insertion) _ h in
    let op : PendingOp = record { agent_id = agent_id; work = deposits details } in
    let (ops, f, h2) = >>=-eq-ok (or_internal (insert_row op_id op s.pending_ops)) _ h1 in
    let (_, ops_is) =
      insert_row-eq-some op_id op s.pending_ops ops
        (or_internal-eq-ok (insert_row op_id op s.pending_ops) f) in
    sym (ap (λ (x : Bridge). x.pending_ops) (ok-injective h2))
    ∙ ops_is
    ∙ ap (λ t. (op_id, op) ∷ t) empty
