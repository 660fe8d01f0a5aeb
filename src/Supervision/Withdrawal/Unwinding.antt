-- ===== src/Supervision/Withdrawal/Unwinding.antt =====
-- impl/aicash/supervision.py, `_unwind_withdraw`: what it undoes.
use ai_cash.Prelude.{
  ℕ, ◌≡◌, refl, ◌∙◌, ap, subst, true, false, Option, none, some, some_eq, List, [], ◌∷◌, arith,
  Bool-cases, inl, inr,
}
use ai_cash.Prelude.Text.{Text, Bytes, text_eq, text_eq_iff}
use ai_cash.Codec.Key.{Hash}
use ai_cash.Codec.Value.{Fields}
use ai_cash.Ledger.State.{Db, Config, ErrorItem, Run, done, fault, Reply}
use ai_cash.Ledger.Table.{Table, lookup, IsUnique, insert_row}
use ai_cash.Supervision.{
  rejected, ok, Answer, Unicode, or_internal, >>=-eq-ok, or_internal-eq-ok, ok-injective,
}
use ai_cash.Supervision.Bridge.Staging.{delete_row_inserted}
use ai_cash.Supervision.Custody.{
  Custody, Bridge, PendingOp, unspent, withdraws, is_unspent, is_pending, reserve, release,
  delete_row,
}
use ai_cash.Supervision.Rows.{absent_parts, Rows, update_row, lookup-update_none}
use ai_cash.Supervision.Selection.{hashes_of}
use ai_cash.Supervision.Targets.{insert_row-eq-some}
use ai_cash.Supervision.Withdrawal.{
  refused, Planned, update_inputs, add_change, drop_change, stage_withdraw, unwind_withdraw,
  after_withdraw, withdraw_staged, withdraw_planned, agent_withdraw,
}
use ai_cash.Supervision.Withdrawal.Change.{
  IsStaged, bare, with_change, change_row, add_change-IsStaged,
}
use ai_cash.Supervision.Withdrawal.Planning.{Paid, plan_withdraw-Paid}

module _ {V : Type 0} where
  update_row_absent :
      (k : Text) (f : V → V) (t : Table V) → lookup k t ≡ none → update_row k f t ≡ t
  unfolding update_row lookup
  update_row_absent k f [] absent = refl
  update_row_absent k f ((j, v) ∷ t) absent = elim (Bool-cases (text_eq k j)) [
    | inl e ↦ cc
    | inr e ↦ rw e (ap (λ x. (j, v) ∷ x) (update_row_absent k f t (rw e at absent)))
  ]

  update_row_comm :
      (h k : Text) (f g : V → V) (t : Table V)
      → text_eq h k ≡ false
      → update_row h f (update_row k g t) ≡ update_row k g (update_row h f t)
  unfolding update_row
  update_row_comm h k f g [] ne = refl
  update_row_comm h k f g ((j, v) ∷ t) ne =
      ground
        (arith, text_eq_iff h j, text_eq_iff k j, text_eq_iff h k, update_row_comm h k f g t ne)

unspent-state : (c : Custody) → is_unspent c ≡ true → unspent ≡ c.state
unspent-state c e = ground arith

released_self : (c : Custody) → is_unspent c ≡ true → release (reserve c) ≡ c
released_self c e = rw e (λ i. record c { state = unspent-state c e i })

released_row :
    (h : Text) (t : Table Custody) (c : Custody)
    → IsUnique t
    → lookup h t ≡ some c
    → is_unspent c ≡ true
    → update_row h release (update_row h reserve t) ≡ t
unfolding update_row lookup
released_row h [] c u found e = cc
released_row h ((j, d) ∷ t) c (absent, u) found e = elim (Bool-cases (text_eq h j)) [
  | inl q ↦
      let same : d ≡ c = some_eq (rw q at found) in
      let gone : lookup h t ≡ none = ap (λ i. lookup i t) ((text_eq_iff h j).0 q) ∙ absent in
      let own = released_self d (ap is_unspent same ∙ e) in
      rw (q, update_row_absent h reserve t gone, update_row_absent h release t gone)
        (ap (λ x. (j, x) ∷ t) own)
  | inr q ↦ rw q (ap (λ x. (j, d) ∷ x) (released_row h t c u (rw q at found) e))
]

inputs_comm :
    (h : Text) (f g : Custody → Custody) (sel t : Table Custody)
    → lookup h sel ≡ none
    → update_row h f (update_inputs g (hashes_of sel) t)
      ≡ update_inputs g (hashes_of sel) (update_row h f t)
unfolding update_inputs hashes_of
inputs_comm h f g [] t absent = refl
inputs_comm h f g ((j, c) ∷ sel) t absent =
    let (ne, gone) = absent_parts h j c sel absent in
    inputs_comm h f g sel (update_row j g t) gone
    ∙ ap (update_inputs g (hashes_of sel)) (update_row_comm h j f g t ne)

released_inputs :
    (sel t : Table Custody)
    → Rows (λ h c. (lookup h t ≡ some c) × (is_unspent c ≡ true)) sel
    → IsUnique sel
    → IsUnique t
    → update_inputs release (hashes_of sel) (update_inputs reserve (hashes_of sel) t) ≡ t
unfolding update_inputs hashes_of
released_inputs [] t r us ut = refl
released_inputs ((h, c) ∷ sel) t ((found, e), r) (absent, us) ut =
    let back = inputs_comm h release reserve sel (update_row h reserve t) absent in
    let again = released_row h t c ut found e in
    ap (update_inputs release (hashes_of sel))
      (back ∙ ap (update_inputs reserve (hashes_of sel)) again)
    ∙ released_inputs sel t r us ut

-- The change is pending, which a release leaves.
release_past :
    (k : Text) (secret : Bytes) (change : ℕ) (hs : List Text) (t : Table Custody)
    → update_inputs release hs ((k, change_row secret change) ∷ t)
      ≡ (k, change_row secret change) ∷ update_inputs release hs t
unfolding update_inputs update_row
release_past k secret change [] t = refl
release_past k secret change (h ∷ hs) t = elim (Bool-cases (text_eq h k)) [
  | inl e ↦ rw e (release_past k secret change hs (update_row h release t))
  | inr e ↦ rw e (release_past k secret change hs (update_row h release t))
]

inputs_absent :
    (k : Text) (f : Custody → Custody) (hs : List Text) (t : Table Custody)
    → lookup k t ≡ none
    → lookup k (update_inputs f hs t) ≡ none
unfolding update_inputs
inputs_absent k f [] t absent = absent
inputs_absent k f (h ∷ hs) t absent =
    inputs_absent k f hs (update_row h f t) (lookup-update_none k h f t absent)

unwound_change :
    (secret : Bytes) (change : ℕ) (t : Table Custody) (ch : Option Text) (staged : Table Custody)
    (hs : List Text)
    → IsStaged secret change t ch staged
    → drop_change ch (update_inputs release hs staged) ≡ update_inputs release hs t
unfolding drop_change
unwound_change secret change t none _ hs bare = refl
unwound_change secret change t (some k) _ hs (with_change gone) =
    ap (delete_row k is_pending) (release_past k secret change hs t)
    ∙ delete_row_inserted k is_pending (change_row secret change) (update_inputs release hs t)
        (inputs_absent k release hs t gone) refl

pub unwind_withdraw-stage :
    (op_id caller : Text) (secret : Bytes) (now : ℕ) (p : Planned) (s staged : Bridge)
    → IsUnique s.custody
    → Paid s caller now p
    → stage_withdraw op_id caller secret p s ≡ ok staged
    → unwind_withdraw op_id p.details staged ≡ s
unfolding stage_withdraw unwind_withdraw
unwind_withdraw-stage op_id caller secret now p s staged u paid h =
    let d = p.details in
    let inputs = update_inputs reserve d.input_hashes s.custody in
    let added = add_change d.change_hash secret p.change_mc inputs in
    let (custody, e, h1) = >>=-eq-ok (or_internal added) _ h in
    let op : PendingOp = record { agent_id = caller; work = withdraws d } in
    let (ops, f, h2) = >>=-eq-ok (or_internal (insert_row op_id op s.pending_ops)) _ h1 in
    let (no_op, ops_is) =
      insert_row-eq-some op_id op s.pending_ops ops
        (or_internal-eq-ok (insert_row op_id op s.pending_ops) f) in
    let st =
      add_change-IsStaged d.change_hash secret p.change_mc inputs custody
        (or_internal-eq-ok added e) in
    let custody_back : drop_change d.change_hash (update_inputs release d.input_hashes custody)
        ≡ s.custody =
      unwound_change secret p.change_mc inputs d.change_hash custody d.input_hashes st
      ∙ ap (λ hs. update_inputs release hs (update_inputs reserve hs s.custody)) paid.hashes
      ∙ released_inputs paid.sel s.custody paid.pays.rows paid.pays.unique u in
    let ops_back : delete_row op_id (λ _. true) ops ≡ s.pending_ops =
      ap (delete_row op_id (λ _. true)) ops_is
      ∙ delete_row_inserted op_id (λ _. true) op s.pending_ops no_op refl in
    subst
      (λ (x : Bridge).
        record x {
          custody = drop_change d.change_hash (update_inputs release d.input_hashes x.custody);
          pending_ops = delete_row op_id (λ _. true) x.pending_ops;
        }
        ≡ s)
      (ok-injective h2) (λ i. record s { custody = custody_back i; pending_ops = ops_back i })

after_withdraw-restores :
    (caller op_id : Text) (p : Planned) (s before : Bridge) (db : Db) (m : Run (Reply × Db))
    (errors : List ErrorItem)
    → unwind_withdraw op_id p.details s ≡ before
    → (after_withdraw caller op_id p s db m).0 ≡ ok (refused errors)
    → (after_withdraw caller op_id p s db m).1 ≡ before
unfolding after_withdraw
after_withdraw-restores caller op_id p s before db (fault e) errors d h = cc
after_withdraw-restores caller op_id p s before db (done (Reply.rejected es, db')) errors d h = d
after_withdraw-restores caller op_id p s before db (done (Reply.confirmed n burned, db')) errors d
      h =
    cc

module _ ⦃hash : Hash⦄ ⦃unicode : Unicode⦄ where
  withdraw_staged-restores :
      (cfg : Config) (caller idem op_id : Text) (exchange_now : ℕ) (p : Planned) (s : Bridge)
      (db : Db) (m : Answer Bridge) (errors : List ErrorItem)
      → ((staged : Bridge) → m ≡ ok staged → unwind_withdraw op_id p.details staged ≡ s)
      → (withdraw_staged cfg caller idem op_id exchange_now p s db m).0 ≡ ok (refused errors)
      → (withdraw_staged cfg caller idem op_id exchange_now p s db m).1 ≡ s
  unfolding withdraw_staged
  withdraw_staged-restores cfg caller idem op_id exchange_now p s db (ok staged) errors back h =
      after_withdraw-restores caller op_id p staged s db _ errors (back staged refl) h
  withdraw_staged-restores cfg caller idem op_id exchange_now p s db _ errors back h = refl

  withdraw_planned-restores :
      (cfg : Config) (caller idem op_id : Text) (secret : Bytes) (now exchange_now : ℕ) (s : Bridge)
      (db : Db) (m : Answer Planned) (errors : List ErrorItem)
      → IsUnique s.custody
      → ((p : Planned) → m ≡ ok p → Paid s caller now p)
      → (withdraw_planned cfg caller idem op_id secret exchange_now s db m).0 ≡ ok (refused errors)
      → (withdraw_planned cfg caller idem op_id secret exchange_now s db m).1 ≡ s
  unfolding withdraw_planned
  withdraw_planned-restores cfg caller idem op_id secret now exchange_now s db (ok p) errors u paid
        h =
      withdraw_staged-restores cfg caller idem op_id exchange_now p s db _ errors
        (λ staged e. unwind_withdraw-stage op_id caller secret now p s staged u (paid p refl) e) h
  withdraw_planned-restores cfg caller idem op_id secret now exchange_now s db (rejected r) errors u
        paid h =
      refl
  withdraw_planned-restores cfg caller idem op_id secret now exchange_now s db _ errors u paid h =
      refl

  -- A withdrawal whose exchange the ledger refuses, over a custody with one row for a hash, leaves
  -- accounts, journal, custody and staged operations as they were.
  pub agent_withdraw_refused :
      (cfg : Config) (mint_id caller : Text) (body : Fields) (now exchange_now : ℕ) (secret : Bytes)
      (idem op_id : Text) (s : Bridge) (db : Db) (errors : List ErrorItem)
      → IsUnique s.custody
      → (agent_withdraw cfg mint_id caller body now exchange_now secret idem op_id s db).0
        ≡ ok (refused errors)
      → (agent_withdraw cfg mint_id caller body now exchange_now secret idem op_id s db).1 ≡ s
  unfolding agent_withdraw
  agent_withdraw_refused cfg mint_id caller body now exchange_now secret idem op_id s db errors u
        h =
      withdraw_planned-restores cfg caller idem op_id secret now exchange_now s db _ errors u
        (λ p e. plan_withdraw-Paid cfg mint_id caller body now secret s p u e) h
