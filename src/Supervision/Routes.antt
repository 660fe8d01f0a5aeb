-- ===== src/Supervision/Routes.antt =====
-- impl/aicash/supervision.py: each route keeps what its changes keep.
use ai_cash.Supervision.Moves.Pull.{agent_pull-Pulled}
use ai_cash.Prelude.Int.{ℤ}
use ai_cash.Supervision.Kept.{Kept, freeze_rows-Kept}
use ai_cash.Supervision.Moves.{
  move, agent_transfer, agent_pull, add_use, agent_revoke_pull, agent_authorize_pull,
}
use ai_cash.Supervision.Access.{key_digest}
use ai_cash.Codec.Key.{Hash}
use ai_cash.Supervision.Moves.Transfer.{agent_transfer-Transferred}
use ai_cash.Supervision.Rows.{update_row}
use ai_cash.Codec.Value.{get, Fields, Value}
use ai_cash.Supervision.Accounts.{leaves_the_operator, find_agent, operator_agent}
use ai_cash.Prelude.Text.{codes, text_eq, Text}
use ai_cash.Supervision.Administration.{
  set_caps, read_cap, set_frozen, operator_digest_taken, op_flags, op_caps, fresh_agent,
  agent_digest_taken, non_empty_text, insert_operator, op_register, op_agents, or_unknown,
  freeze_targets, to_change,
}
use ai_cash.Ledger.Table.{lookup, insert_row}
use ai_cash.Prelude.{
  not, ℕ, ◌≡◌, refl, sym, ◌∙◌, ap, subst, Bool, true, false, none, some, List, if◌then◌else◌,
}
use ai_cash.Supervision.{
  Operator, PullAuth, pull_in, credit, pull_out, debit, external_transfer_disabled, PullAuth,
  unknown_account, reject_if, natural_int, positive_int, is_credit, authorization_missing,
  or_internal-eq-ok, is_debit, bad_format, or_internal, internal, or_reject, plain_text, >>=-eq-ok,
  ok-injective, Unicode, Agent, Books, ok,
}
use ai_cash.Supervision.Targets.{
  to_change-There, insert_row-eq-some, freeze_targets-There, not_internal,
}

module _ ⦃hash : Hash⦄ ⦃unicode : Unicode⦄ (P : Books → Type 0) (k : Kept P) where
  insert_operator-Kept :
      (id key name : Text) (now : ℕ) (b b' : Books)
      → P b
      → insert_operator id key name now b ≡ ok b'
      → P b'
  unfolding insert_operator
  insert_operator-Kept id key name now b b' s h =
      let row : Operator = record { name = name; key_sha256 = key_digest key; created_at = now } in
      let inserted = or_internal (insert_row id row b.operators) in
      let (operators, _, e) =
        >>=-eq-ok inserted _
          (not_internal (operator_digest_taken (key_digest key) b.operators) _ h) in
      subst P (ok-injective e) (k.same b (record b { operators = operators }) refl refl s)

  pub op_register-Kept :
      (body : Fields) (now : ℕ) (id key : Text) (b b' : Books) (a : Text × Text)
      → P b
      → op_register body now id key b ≡ ok (a, b')
      → P b'
  unfolding op_register
  op_register-Kept body now id key b b' a s h =
      let asked = non_empty_text (plain_text (get (codes "operator_name") body)) in
      let (name, _, h1) = >>=-eq-ok (or_reject asked bad_format) _ h in
      let (made, e, h2) = >>=-eq-ok (insert_operator id key name now b) _ h1 in
      subst P (ap (λ (x : (Text × Text) × Books). x.1) (ok-injective h2))
        (insert_operator-Kept id key name now b made s e)

  pub op_agents-Kept :
      (operator_id : Text) (body : Fields) (now : ℕ) (id key : Text) (b b' : Books)
      (a : Text × Text)
      → P b
      → op_agents operator_id body now id key b ≡ ok (a, b')
      → P b'
  unfolding op_agents
  op_agents-Kept operator_id body now id key b b' a s h =
      let asked = non_empty_text (plain_text (get (codes "agent_name") body)) in
      let (name, _, h1) = >>=-eq-ok (or_reject asked bad_format) _ h in
      let row = fresh_agent operator_id name (key_digest key) now in
      let taken = agent_digest_taken (key_digest key) b.agents in
      let inserted = or_internal (insert_row id row b.agents) in
      let (agents, e, h2) = >>=-eq-ok (if taken then internal else inserted) _ h1 in
      let (absent, is_new) =
        insert_row-eq-some id row b.agents agents
          (or_internal-eq-ok (insert_row id row b.agents) (not_internal taken inserted e)) in
      subst P
        (ap (λ t. record b { agents = t }) (sym is_new)
          ∙ ap (λ (x : (Text × Text) × Books). x.1) (ok-injective h2))
        (k.inserted b id row absent refl s)

module _ ⦃unicode : Unicode⦄ (P : Books → Type 0) (k : Kept P) where
  pub op_caps-Kept :
      (operator_id : Text) (body : Fields) (b b' : Books) (a : Text)
      → P b
      → op_caps operator_id body b ≡ ok (a, b')
      → P b'
  unfolding op_caps
  op_caps-Kept operator_id body b b' a s h =
      let found = operator_agent operator_id (get (codes "agent_id") body) b.agents in
      let (row, _, h1) = >>=-eq-ok (or_unknown found) _ h in
      let (hour, _, h2) = >>=-eq-ok (read_cap (get (codes "per_hour_mc") body)) _ h1 in
      let (day, _, h3) = >>=-eq-ok (read_cap (get (codes "per_day_mc") body)) _ h2 in
      let (absolute, _, h4) = >>=-eq-ok (read_cap (get (codes "absolute_mc") body)) _ h3 in
      subst P (ap (λ (x : Text × Books). x.1) (ok-injective h4))
        (k.updated b row.0 (set_caps hour day absolute) (λ x. unfold set_caps in refl) s)

  pub op_flags-Kept :
      (operator_id : Text) (body : Fields) (b b' : Books) (a : Text × Bool)
      → P b
      → op_flags operator_id body b ≡ ok (a, b')
      → P b'
  unfolding op_flags
  op_flags-Kept operator_id body b b' a s h =
      let found = operator_agent operator_id (get (codes "agent_id") body) b.agents in
      let (row, _, h1) = >>=-eq-ok (or_unknown found) _ h in
      let (flag, _, h2) =
        >>=-eq-ok
          (or_reject
            (elim (get (codes "no_bearer_withdrawal") body) [
              | none ↦ none
              | some v ↦ elim v [ Value.bool f ↦ some f | _ ↦ none ]
            ])
            bad_format)
          _ h1 in
      subst P (ap (λ (x : (Text × Bool) × Books). x.1) (ok-injective h2))
        (k.updated b row.0 (λ (x : Agent). record x { no_bearer_withdrawal = flag }) (λ x. refl) s)

  pub set_frozen-Kept :
      (frozen : Bool) (operator_id : Text) (body : Fields) (now : ℕ) (b b' : Books) (a : List Text)
      → P b
      → set_frozen frozen operator_id body now b ≡ ok (a, b')
      → P b'
  unfolding set_frozen
  set_frozen-Kept frozen operator_id body now b b' a s h =
      let target = get (codes "agent_id") body in
      let (rows, e, h1) = >>=-eq-ok (freeze_targets operator_id target b.agents) _ h in
      subst P (ap (λ (x : List Text × Books). x.1) (ok-injective h1)) (
        freeze_rows-Kept P k frozen now (to_change frozen rows) b
          (to_change-There frozen rows b.agents
            (freeze_targets-There operator_id target b.agents rows (k.sound b s).unique e))
          s)

  pub agent_authorize_pull-Kept :
      (granting : Text) (body : Fields) (now : ℕ) (auth_id : Text) (b b' : Books) (a : Text)
      → P b
      → agent_authorize_pull granting body now auth_id b ≡ ok (a, b')
      → P b'
  unfolding agent_authorize_pull
  agent_authorize_pull-Kept granting body now auth_id b b' a s h =
      let cap_asked = positive_int (get (codes "cap_mc_per_day") body) in
      let (cap_mc, _, h1) = >>=-eq-ok (or_reject cap_asked bad_format) _ h in
      let expiry_asked = natural_int (get (codes "expires_at") body) in
      let (expires_at, _, h2) = >>=-eq-ok (or_reject expiry_asked bad_format) _ h1 in
      let found = find_agent (get (codes "payee_account") body) b.agents in
      let (payee, _, h3) = >>=-eq-ok (or_reject found unknown_account) _ h2 in
      let own = find_agent (some (Value.str granting)) b.agents in
      let (granter, _, h4) = >>=-eq-ok (or_internal own) _ h3 in
      let leaves = leaves_the_operator granter.1 payee.1 in
      let (_, _, h5) = >>=-eq-ok (reject_if leaves external_transfer_disabled) _ h4 in
      let row : PullAuth = record {
        granting_agent_id = granting;
        payee_account = payee.0;
        cap_mc_per_day = cap_mc;
        expires_at = expires_at;
        revoked = false;
        created_at = now;
      } in
      let (auths, _, h6) = >>=-eq-ok (or_internal (insert_row auth_id row b.auths)) _ h5 in
      subst P (ap (λ (x : Text × Books). x.1) (ok-injective h6))
        (k.same b (record b { auths = auths }) refl refl s)

  pub agent_revoke_pull-Kept :
      (granting : Text) (body : Fields) (b b' : Books) (a : Text)
      → P b
      → agent_revoke_pull granting body b ≡ ok (a, b')
      → P b'
  unfolding agent_revoke_pull
  agent_revoke_pull-Kept granting body b b' a s h =
      let asked = plain_text (get (codes "auth_id") body) in
      let (auth_id, _, h1) = >>=-eq-ok (or_reject asked bad_format) _ h in
      let (auth, _, h2) =
        >>=-eq-ok (or_reject (lookup auth_id b.auths) authorization_missing) _ h1 in
      let foreign = not (text_eq auth.granting_agent_id granting) in
      let (_, _, h3) = >>=-eq-ok (reject_if foreign authorization_missing) _ h2 in
      let auths = update_row auth_id (λ (x : PullAuth). record x { revoked = true }) b.auths in
      subst P (ap (λ (x : Text × Books). x.1) (ok-injective h3))
        (k.same b (record b { auths = auths }) refl refl s)

  pub agent_transfer-Kept :
      (from : Text) (body : Fields) (now : ℕ) (b b' : Books) (balance : ℤ)
      → P b
      → agent_transfer from body now b ≡ ok (balance, b')
      → P b'
  unfolding is_debit is_credit
  agent_transfer-Kept from body now b b' balance s h =
      let t = agent_transfer-Transferred from body now b balance b' h in
      let m = t.between in
      subst P (sym m.moved) (
        k.moved b now debit credit from m.to t.amount t.ref m.sender m.target refl refl refl refl
          m.sent m.received m.passed.funded s)

  pub agent_pull-Kept :
      (caller : Text) (body : Fields) (now : ℕ) (b b' : Books) (balance : ℤ)
      → P b
      → agent_pull caller body now b ≡ ok (balance, b')
      → P b'
  unfolding is_debit is_credit add_use
  agent_pull-Kept caller body now b b' balance s h =
      let t = agent_pull-Pulled caller body now b balance b' h in
      let m = t.by in
      let after =
        move b now pull_out pull_in t.auth.granting_agent_id t.auth.payee_account t.amount t.ref in
      subst P (sym m.moved) (
        k.same after (add_use t.auth_id now t.amount after) refl refl (
          k.moved b now pull_out pull_in t.auth.granting_agent_id t.auth.payee_account t.amount
            t.ref m.granter m.payee refl refl refl refl m.granted m.received
            m.may_pull.passed.funded s))
