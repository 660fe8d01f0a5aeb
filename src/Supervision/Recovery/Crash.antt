-- ===== src/Supervision/Recovery/Crash.antt =====
-- impl/aicash/supervision.py: a crash between a deposit's transactions changes nothing in the end.
use ai_cash.Ledger.Exchange.Guarantees.{exchange_outputs, exchange_rejected}
use ai_cash.Ledger.Exchange.{exchange}
use ai_cash.Ledger.Exchange.Inserting.{new_entry}
use ai_cash.Supervision.Selection.{by_hash_spec}
use ai_cash.Ledger.Invariant.{IsValidDb, IsValidConfig}
use ai_cash.Ledger.Exchange.Totals.{Creates}
use ai_cash.Ledger.Outputs.{spec, wire, output_key, OutputSpec, OutputArg}
use ai_cash.Codec.Key.{Hash}
use ai_cash.Supervision.Bridge.Staging.{discard_deposit-add_custody, add_custody-pending_ops}
use ai_cash.Supervision.Bridge.{
  forms_of, after_exchange, Priced, finalize_deposit, discard_deposit, add_custody,
}
use ai_cash.Codec.Base64.{b64u_decode}
use ai_cash.Supervision.Custody.{Bridge, DepositDetails}
use ai_cash.Ledger.Table.{lookup, Table}
use ai_cash.Ledger.State.{Run, done, Reply, Config, Entry, Db}
use ai_cash.Supervision.Recovery.{
  recover_op, insert_by_id, sorted_ops, recover_ops, is_unknown, recover_pending,
}
use ai_cash.Ledger.Reads.{status_one}
use ai_cash.Prelude.{
  none-some, ℕ, ◌≡◌, ◌≢◌, refl, sym, ◌∙◌, ap, subst, true, false, Option, none, some, some_eq, [],
  ◌∷◌, is_some, Bool-cases, inl, inr, if◌then◌else◌,
}
use ai_cash.Prelude.Text.{Text, Bytes}
use ai_cash.Codec.Value.{Value}
use ai_cash.Supervision.{Unicode, ok}

-- What is staged where nothing was: one operation.
recover_staged :
    (db : Db) (secret : Bytes) (op_id agent_id : Text) (details : DepositDetails)
    (s staged : Bridge)
    → s.pending_ops ≡ []
    → add_custody details.custody_hash secret op_id agent_id details s ≡ ok staged
    → recover_pending db staged ≡ (
        if is_unknown (status_one db.entries details.custody_hash)
        then discard_deposit op_id details staged
        else finalize_deposit op_id agent_id details staged)
unfolding recover_pending
recover_staged db secret op_id agent_id details s staged none_pending h =
    ap (λ ops. recover_ops db (sorted_ops ops) staged)
      (add_custody-pending_ops secret op_id agent_id details s staged none_pending h)
    ∙ unfold sorted_ops in unfold insert_by_id in unfold recover_ops in unfold recover_op in refl

status_absent :
    (t : Table Entry) (h : Text) → lookup h t ≡ none → is_unknown (status_one t h) ≡ true
unfolding status_one
status_absent t h absent = elim (Bool-cases (is_some (b64u_decode h (some 32)))) [
  | inl e ↦ rw (e, absent) refl
  | inr e ↦ rw e refl
]

status_present :
    (t : Table Entry) (h : Text) (entry : Entry)
    → is_some (b64u_decode h (some 32)) ≡ true
    → lookup h t ≡ some entry
    → is_unknown (status_one t h) ≡ false
unfolding status_one
status_present t h entry decodes found = rw (decodes, found) refl

abbrev spec_of : OutputArg → Option OutputSpec
spec_of (spec s) = some s
spec_of (wire v) = none

module _ ⦃hash : Hash⦄ where
  key_of_hash :
      (h at : Text)
      → output_key (Value.str h) Value.null ≡ some at
      → (is_some (b64u_decode h (some 32)) ≡ true) × (h ≡ at)
  unfolding output_key
  key_of_hash h at e = elim (Bool-cases (is_some (b64u_decode h (some 32)))) [
    | inl d ↦ (d, some_eq (rw d at e))
    | inr d ↦ absurd (none-some (rw d at e))
  ]

  created_known :
      (cfg : Config) (t t' : Table Entry) (now n : ℕ) (h : Text)
      → Creates cfg t t' now (by_hash_spec n h)
      → is_unknown (status_one t' h) ≡ false
  created_known cfg t t' now n h c =
      let asked_is = some_eq (ap spec_of c.given) in
      let key =
        subst (λ (x : OutputSpec). output_key x.secret_hash x.secret ≡ some c.at) (sym asked_is)
          c.key_asked in
      let (decodes, same) = key_of_hash h c.at key in
      status_present t' h (new_entry c.amount c.lock now) decodes
        (ap (λ k. lookup k t') same ∙ c.created)

  module _ ⦃unicode : Unicode⦄ (cfg : Config) (now : ℕ) (idem caller op_id : Text) (secret : Bytes)
      (p : Priced) (s staged : Bridge) (db : Db) (vc : IsValidConfig cfg) (v : IsValidDb db)
      (key_given : idem ≢ []) (free : lookup idem db.idempotency ≡ none)
      (is_new : lookup p.details.custody_hash db.entries ≡ none) (empty : s.pending_ops ≡ [])
      (stages : add_custody p.details.custody_hash secret op_id caller p.details s
        ≡ ok staged) where
    abbrev deposit_exchange : Run (Reply × Db)
    deposit_exchange =
        exchange cfg now idem idem (forms_of p.tokens)
          (by_hash_spec p.details.net_mc p.details.custody_hash ∷ []) db

    recovers_before : recover_pending db staged ≡ s
    recovers_before =
        let unknown = status_absent db.entries p.details.custody_hash is_new in
        recover_staged db secret op_id caller p.details s staged empty stages
        ∙ rw unknown (discard_deposit-add_custody secret op_id caller p.details s staged stages)

    recovers_after :
        (reply : Reply) (db' : Db)
        → deposit_exchange ≡ done (reply, db')
        → recover_pending db' staged
          ≡ (after_exchange caller op_id p.details staged db (done (reply, db'))).1
    unfolding after_exchange
    recovers_after (Reply.rejected es) db' h =
        let outputs = by_hash_spec p.details.net_mc p.details.custody_hash ∷ [] in
        let (_, same, _, _) =
          exchange_rejected cfg now idem idem (forms_of p.tokens) outputs db vc v key_given
            key_given free es db' h in
        let unknown =
          status_absent db'.entries p.details.custody_hash
            (ap (lookup p.details.custody_hash) same ∙ is_new) in
        recover_staged db' secret op_id caller p.details s staged empty stages ∙ rw unknown refl
    recovers_after (Reply.confirmed n burn) db' h =
        let outputs = by_hash_spec p.details.net_mc p.details.custody_hash ∷ [] in
        let ((created, _), _, _) =
          exchange_outputs cfg now idem idem (forms_of p.tokens) outputs db vc v key_given key_given
            free n burn db' h in
        let known =
          created_known cfg db.entries db'.entries now p.details.net_mc p.details.custody_hash
            created in
        recover_staged db' secret op_id caller p.details s staged empty stages ∙ rw known refl

    -- A deposit is staged where nothing else is, under a custody hash that the ledger does not know
    -- and a new key. If the mint stops before the exchange, its recovery leaves the tables as they
    -- were before the deposit; if it stops after the exchange, whatever that answered, its recovery
    -- leaves the tables that the deposit itself would have left.
    pub crash_recovered :
        (reply : Reply) (db' : Db)
        → deposit_exchange ≡ done (reply, db')
        → (recover_pending db staged ≡ s)
          × (recover_pending db' staged
              ≡ (after_exchange caller op_id p.details staged db (done (reply, db'))).1)
    crash_recovered reply db' h = (recovers_before, recovers_after reply db' h)
