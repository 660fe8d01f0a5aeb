-- ===== src/Supervision/Recovery/Withdrawals.antt =====
-- impl/aicash/supervision.py: a crash between a withdrawal's transactions changes nothing in the end.
use ai_cash.Prelude.{
  ℕ, ◌+◌, ◌<◌, ◌≡◌, ◌≢◌, refl, sym, ◌∙◌, ap, subst, true, false, Option, none, some, some_eq,
  none-some, List, [], ◌∷◌, arith, All, is_some, Option-cases, Bool-cases, length, ◌==◌, inl, inr,
  if◌then◌else◌,
}
use ai_cash.Prelude.Text.{Text, Bytes}
use ai_cash.Codec.Base64.{b64u_encode, b64u_decode, length_accepted}
use ai_cash.Prelude.Int.{pos}
use ai_cash.Codec.Base64.RoundTrip.{decode-encode}
use ai_cash.Codec.Key.{Hash, ledger_key}
use ai_cash.Codec.Value.{Value, Fields}
use ai_cash.Ledger.Exchange.{exchange}
use ai_cash.Ledger.Exchange.Guarantees.{exchange_inputs, exchange_rejected}
use ai_cash.Ledger.Exchange.Inputs.{Spends}
use ai_cash.Ledger.Inputs.{form_key}
use ai_cash.Ledger.Invariant.{IsValidDb, IsValidConfig}
use ai_cash.Ledger.Reads.{status_one}
use ai_cash.Ledger.State.{done, Reply, Config, Entry, Db}
use ai_cash.Ledger.Table.{Table, lookup, IsUnique, insert_row}
use ai_cash.Lock.{InputForm, plain}
use ai_cash.Supervision.{Unicode, ok, or_internal, >>=-eq-ok, or_internal-eq-ok, ok-injective}
use ai_cash.Supervision.Custody.{Bridge, Custody, PendingOp, withdraws, reserve, is_unspent}
use ai_cash.Supervision.Recovery.{
  first_hash, is_known_spent, recover_op, insert_by_id, sorted_ops, recover_ops, recover_pending,
}
use ai_cash.Supervision.Rows.{Rows, Rows-map, Rows-lookup}
use ai_cash.Supervision.Selection.{hashes_of, custody_forms}
use ai_cash.Supervision.Selection.Covering.{amount_of, IsDrawn}
use ai_cash.Supervision.Targets.{insert_row-eq-some}
use ai_cash.Supervision.Withdrawal.{
  Planned, add_change, update_inputs, stage_withdraw, plan_withdraw, unwind_withdraw,
  finalize_withdraw, after_withdraw,
}
use ai_cash.Supervision.Withdrawal.Planning.{Paid, plan_withdraw-Paid}
use ai_cash.Supervision.Withdrawal.Unwinding.{unwind_withdraw-stage}

stage_withdraw-pending_ops :
    (op_id caller : Text) (secret : Bytes) (p : Planned) (s staged : Bridge)
    → s.pending_ops ≡ []
    → stage_withdraw op_id caller secret p s ≡ ok staged
    → staged.pending_ops ≡ (op_id, record { agent_id = caller; work = withdraws p.details }) ∷ []
unfolding stage_withdraw
stage_withdraw-pending_ops op_id caller secret p s staged empty h =
    let d = p.details in
    let added =
      add_change d.change_hash secret p.change_mc
        (update_inputs reserve d.input_hashes s.custody) in
    let (custody, _, h1) = >>=-eq-ok (or_internal added) _ h in
    let op : PendingOp = record { agent_id = caller; work = withdraws d } in
    let (ops, f, h2) = >>=-eq-ok (or_internal (insert_row op_id op s.pending_ops)) _ h1 in
    let (_, ops_is) =
      insert_row-eq-some op_id op s.pending_ops ops
        (or_internal-eq-ok (insert_row op_id op s.pending_ops) f) in
    sym (ap (λ (x : Bridge). x.pending_ops) (ok-injective h2))
    ∙ ops_is
    ∙ ap (λ t. (op_id, op) ∷ t) empty

recover_staged :
    (db : Db) (secret : Bytes) (op_id caller : Text) (p : Planned) (s staged : Bridge)
    → s.pending_ops ≡ []
    → stage_withdraw op_id caller secret p s ≡ ok staged
    → recover_pending db staged ≡ (
        if is_known_spent (status_one db.entries (first_hash p.details.input_hashes))
        then finalize_withdraw op_id caller p.details staged
        else unwind_withdraw op_id p.details staged)
unfolding recover_pending
recover_staged db secret op_id caller p s staged empty h =
    ap (λ ops. recover_ops db (sorted_ops ops) staged)
      (stage_withdraw-pending_ops op_id caller secret p s staged empty h)
    ∙ unfold sorted_ops in unfold insert_by_id in unfold recover_ops in unfold recover_op in refl

status_spent :
    (t : Table Entry) (h : Text) (entry : Entry)
    → is_some (b64u_decode h (some 32)) ≡ true
    → lookup h t ≡ some entry
    → entry.spent ≡ true
    → is_known_spent (status_one t h) ≡ true
unfolding status_one
status_spent t h entry decodes found spent = rw (decodes, found) spent

pays_something : (n a b c : ℕ) → n ≡ a + b + c → 0 < a → 0 < n
pays_something n a b c e h = omega (arith, e, h)

-- What holds of every row holds of the rows that pay.
Rows-drawn :
    (P : Text → Custody → Type 0) (t sel : Table Custody) → IsDrawn t sel → Rows P t → Rows P sel
Rows-drawn P t sel d r =
    Rows-map (λ h c. (lookup h t ≡ some c) × (is_unspent c ≡ true)) P sel
      (λ h c (found, _). Rows-lookup P h c t r found) d.rows

module _ ⦃hash : Hash⦄ where
  accepted : (b : Bytes) → length_accepted (some 32) (hash.sha256 b) ≡ true
  accepted b = ground (arith, hash.length-sha256 b)

  ledger_key-decodes :
      (v : Value) (h : Text) → ledger_key v ≡ some h → is_some (b64u_decode h (some 32)) ≡ true
  unfolding ledger_key
  ledger_key-decodes (Value.bytes b) h e = elim (Bool-cases (length b == 32)) [
    | inr f ↦ absurd (none-some (rw f at e))
    | inl f ↦
        let is : b64u_encode (hash.sha256 b) ≡ h = some_eq (rw f at e) in
        let back = decode-encode (hash.sha256 b) (some 32) (hash.sha256-IsBytes b) (accepted b) in
        ap (λ k. is_some (b64u_decode k (some 32))) (sym is) ∙ ap is_some back
  ]
  ledger_key-decodes _ h e = cc

  -- The hash of a row is the ledger's key of its secret.
  abbrev pub IsKeyed : Text → Custody → Type 0
  IsKeyed h c =
      (secret : Bytes) × (b64u_decode c.secret_b64u (some 32) ≡ some secret)
      × (ledger_key (Value.bytes secret) ≡ some h)

  first_form :
      (t t' : Table Entry) (now : ℕ) (form : InputForm) (h : Text)
      → Spends t t' now (some form)
      → form_key form ≡ some h
      → is_some (b64u_decode h (some 32)) ≡ true
      → is_known_spent (status_one t' h) ≡ true
  first_form t t' now form h s key decodes =
      let same_form : form ≡ s.form = some_eq s.given in
      let same : h ≡ s.at = some_eq (sym key ∙ ap form_key same_form ∙ s.named) in
      status_spent t' h s.after decodes (ap (λ k. lookup k t') same ∙ s.found_after) s.is_spent

  -- The first of the rows that pay is spent by the exchange.
  first_spent :
      (mint_id : Text) (sel : Table Custody) (forms : List (Option InputForm)) (t t' : Table Entry)
      (now : ℕ)
      → 0 < amount_of sel
      → Rows IsKeyed sel
      → custody_forms mint_id sel ≡ some forms
      → All (Spends t t' now) forms
      → is_known_spent (status_one t' (first_hash (hashes_of sel))) ≡ true
  unfolding amount_of hashes_of custody_forms
  first_spent mint_id [] forms t t' now pos_sum keyed is spends = absurd (ground arith)
  first_spent mint_id ((h, c) ∷ sel) forms t t' now pos_sum ((secret, decodes, key), rest) is
        spends =
      let form : InputForm = record {
        kind = plain;
        token = some (record {
          mint_id = mint_id;
          amount_mc = Value.int (pos c.amount_mc);
          secret = Value.bytes secret;
        });
        hash = none;
        witness = none;
      } in
      elim (Option-cases (custody_forms mint_id sel)) [
        | inl f ↦ absurd (none-some (rw (decodes, f, custody_forms) at is))
        | inr (fs, f) ↦
            let same : some form ∷ fs ≡ forms = some_eq (rw (decodes, f, custody_forms) at is) in
            first_form t t' now form h (subst (All (Spends t t' now)) (sym same) spends).0
              (unfold form_key in key) (ledger_key-decodes (Value.bytes secret) h key)
      ]

  module _ ⦃unicode : Unicode⦄ (cfg : Config) (mint_id caller : Text) (body : Fields)
      (now exchange_now : ℕ) (secret : Bytes) (idem op_id : Text) (p : Planned) (s staged : Bridge)
      (db : Db) (vc : IsValidConfig cfg) (v : IsValidDb db) (key_given : idem ≢ [])
      (free : lookup idem db.idempotency ≡ none) (unique : IsUnique s.custody)
      (keyed : Rows IsKeyed s.custody)
      (unspent_first : is_known_spent (status_one db.entries (first_hash p.details.input_hashes))
        ≡ false)
      (empty : s.pending_ops ≡ [])
      (plans : plan_withdraw cfg mint_id caller body now secret s ≡ ok p)
      (stages : stage_withdraw op_id caller secret p s ≡ ok staged) where
    paid : Paid s caller now p
    paid = plan_withdraw-Paid cfg mint_id caller body now secret s p unique plans

    recovers_before : recover_pending db staged ≡ s
    recovers_before =
        recover_staged db secret op_id caller p s staged empty stages
        ∙ rw unspent_first
            (unwind_withdraw-stage op_id caller secret now p s staged unique paid stages)

    recovers_after :
        (reply : Reply) (db' : Db)
        → exchange cfg exchange_now idem idem p.inputs p.outputs db ≡ done (reply, db')
        → recover_pending db' staged
          ≡ (after_withdraw caller op_id p staged db (done (reply, db'))).1
    unfolding after_withdraw
    recovers_after (Reply.rejected es) db' h =
        let (_, same, _, _) =
          exchange_rejected cfg exchange_now idem idem p.inputs p.outputs db vc v key_given
            key_given free es db' h in
        let still =
          ap (λ t. is_known_spent (status_one t (first_hash p.details.input_hashes))) same
          ∙ unspent_first in
        recover_staged db' secret op_id caller p s staged empty stages ∙ rw still refl
    recovers_after (Reply.confirmed n burned) db' h =
        let spends =
          exchange_inputs cfg exchange_now idem idem p.inputs p.outputs db vc v key_given key_given
            free n burned db' h in
        let gone =
          ap (λ hs. is_known_spent (status_one db'.entries (first_hash hs))) paid.hashes
          ∙ first_spent paid.mint_id paid.sel p.inputs db.entries db'.entries exchange_now
              (pays_something (amount_of paid.sel) p.details.total_out_mc p.details.ledger_burn_mc
                p.change_mc paid.sums paid.wants)
              (Rows-drawn IsKeyed s.custody paid.sel paid.pays keyed) paid.forms spends in
        recover_staged db' secret op_id caller p s staged empty stages ∙ rw gone refl

    -- A withdrawal is planned and staged where nothing else is, over a custody that has one row for
    -- a hash, each under the key of its secret, and whose first paying row the ledger does not know
    -- as spent. If the mint stops before the exchange, its recovery leaves the tables as they were
    -- before the withdrawal; if it stops after the exchange, whatever that answered, its recovery
    -- leaves the tables that the withdrawal itself would have left.
    pub withdrawal_recovered :
        (reply : Reply) (db' : Db)
        → exchange cfg exchange_now idem idem p.inputs p.outputs db ≡ done (reply, db')
        → (recover_pending db staged ≡ s)
          × (recover_pending db' staged
              ≡ (after_withdraw caller op_id p staged db (done (reply, db'))).1)
    withdrawal_recovered reply db' h = (recovers_before, recovers_after reply db' h)
