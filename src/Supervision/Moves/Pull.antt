-- ===== src/Supervision/Moves/Pull.antt =====
-- impl/aicash/supervision.py, `agent_pull`: what a pull that is answered with 200 did.
use ai_cash.Prelude.{
  ℕ, ◌+◌, ◌≤◌, ◌<◌, ◌≡◌, sym, ◌∙◌, ap, subst, false, some, arith, leb, ltb, Option-cases, inl, inr,
}
use ai_cash.Prelude.Int.{ℤ, pos, ◌+ℤ◌, ltb_ℤ}
use ai_cash.Prelude.Text.{Text, text_eq_iff, codes}
use ai_cash.Codec.Value.{Value, Fields, get}
use ai_cash.Ledger.Table.{Table, lookup}
use ai_cash.Supervision.{
  Agent, PullAuth, pull_out, pull_in, Books, Unicode, Answer, ok, reject_if, or_internal, or_reject,
  bad_format, account_frozen, agent_cap_exceeded, insufficient_balance, authorization_missing,
  authorization_revoked, authorization_expired, pull_cap_exceeded, plain_text, positive_int,
  read_ref, >>=-eq-ok, or_reject-eq-ok, or_internal-eq-ok, reject_if-eq-ok, ok-injective,
}
use ai_cash.Supervision.Accounts.{find_agent, cap_violation, leaves_the_operator}
use ai_cash.Supervision.Moves.{
  find_auth, auth_guards, pull_guards, pulled, add_use, move, pull_by, agent_pull,
}
use ai_cash.Supervision.Moves.Transfer.{find_agent-eq-some}
use ai_cash.Supervision.Moves.Transfer.{Passed}

-- The guards of a pull, as facts.
pub record MayPull (auth_id : Text) (auth : PullAuth) (from : Text) (granter payee : Agent)
    (amount now : ℕ) (b : Books) : Type 0 where
  pub not_revoked : auth.revoked ≡ false
  pub not_expired : now < auth.expires_at
  pub day_cap : pulled auth_id now b.uses + amount ≤ auth.cap_mc_per_day
  pub passed : Passed from granter payee amount now b.lines

auth_guards-facts :
    (auth : PullAuth) (now : ℕ) {u : Unit {0}}
    → auth_guards auth now ≡ ok u
    → (auth.revoked ≡ false) × (now < auth.expires_at)
unfolding auth_guards
auth_guards-facts auth now h =
    let (_, e, f) = >>=-eq-ok (reject_if auth.revoked authorization_revoked) _ h in
    (
      reject_if-eq-ok auth.revoked authorization_revoked e,
      ground (arith, reject_if-eq-ok (leb auth.expires_at now) authorization_expired f),
    )

pull_guards-facts :
    (auth_id : Text) (auth : PullAuth) (from : Text) (granter payee : Agent) (amount now : ℕ)
    (b : Books) {u : Unit {0}}
    → pull_guards auth_id auth from granter payee amount now b ≡ ok u
    → (pulled auth_id now b.uses + amount ≤ auth.cap_mc_per_day)
      × Passed from granter payee amount now b.lines
unfolding pull_guards
pull_guards-facts auth_id auth from granter payee amount now b h =
    let leaves = leaves_the_operator granter payee in
    let over_day = ltb auth.cap_mc_per_day (pulled auth_id now b.uses + amount) in
    let violates = cap_violation from granter amount now b.lines in
    let (_, e, h1) = >>=-eq-ok (reject_if granter.frozen account_frozen) _ h in
    let (_, f, h2) = >>=-eq-ok (reject_if leaves authorization_revoked) _ h1 in
    let (_, g, h3) = >>=-eq-ok (reject_if over_day pull_cap_exceeded) _ h2 in
    let (_, i, k) = >>=-eq-ok (reject_if violates agent_cap_exceeded) _ h3 in
    (
      ground (arith, reject_if-eq-ok over_day pull_cap_exceeded g),
      record {
        active = reject_if-eq-ok granter.frozen account_frozen e;
        inside = reject_if-eq-ok leaves authorization_revoked f;
        within = reject_if-eq-ok violates agent_cap_exceeded i;
        funded =
            ground (
              arith,
              reject_if-eq-ok (ltb_ℤ granter.balance_mc (pos amount)) insufficient_balance k,
            );
      },
    )

module _ ⦃unicode : Unicode⦄ where
  -- What a pull under an authorization found, checked and did.
  pub record PulledBy (b : Books) (now : ℕ) (auth_id : Text) (auth : PullAuth) (amount : ℕ)
      (ref : Text) (balance : ℤ) (b' : Books) : Type 0 where
    pub granter : Agent
    pub payee : Agent
    pub granted : lookup auth.granting_agent_id b.agents ≡ some granter
    pub received : lookup auth.payee_account b.agents ≡ some payee
    pub may_pull : MayPull auth_id auth auth.granting_agent_id granter payee amount now b
    pub moved :
        b'
        ≡ add_use auth_id now amount
            (move b now pull_out pull_in auth.granting_agent_id auth.payee_account amount ref)
    pub answered : balance ≡ payee.balance_mc +ℤ pos amount

  pulled_by :
      (b : Books) (now : ℕ) (auth_id : Text) (auth : PullAuth) (amount : ℕ) (ref : Text)
      (balance : ℤ) (b' : Books) (from to : Text) (granter payee : Agent)
      → (auth.revoked ≡ false) × (now < auth.expires_at)
      → find_agent (some (Value.str auth.granting_agent_id)) b.agents ≡ some (from, granter)
      → find_agent (some (Value.str auth.payee_account)) b.agents ≡ some (to, payee)
      → (pulled auth_id now b.uses + amount ≤ auth.cap_mc_per_day)
        × Passed from granter payee amount now b.lines
      → ◌≡◌ {A = Answer (ℤ × Books)}
          (ok (
            payee.balance_mc +ℤ pos amount,
            add_use auth_id now amount (move b now pull_out pull_in from to amount ref),
          ))
          (ok (balance, b'))
      → PulledBy b now auth_id auth amount ref balance b'
  pulled_by b now auth_id auth amount ref balance b' from to granter payee valid found_from found_to
        guards e =
      let (same_from, granted) =
        find_agent-eq-some (some (Value.str auth.granting_agent_id)) b.agents from granter
          found_from in
      let (same_to, received) =
        find_agent-eq-some (some (Value.str auth.payee_account)) b.agents to payee found_to in
      let p : from ≡ auth.granting_agent_id = cc in
      let q : to ≡ auth.payee_account = cc in
      let r = ok-injective e in
      record {
        granter = granter;
        payee = payee;
        granted = ap (λ k. lookup k b.agents) (sym p) ∙ granted;
        received = ap (λ k. lookup k b.agents) (sym q) ∙ received;
        may_pull = record {
          not_revoked = valid.0;
          not_expired = valid.1;
          day_cap = guards.0;
          passed = subst (λ k. Passed k granter payee amount now b.lines) p guards.1;
        };
        moved =
            sym (ap (λ (x : ℤ × Books). x.1) r)
            ∙ ap (λ k. add_use auth_id now amount (move b now pull_out pull_in k to amount ref)) p
            ∙ ap
                (λ k.
                  add_use auth_id now amount
                    (move b now pull_out pull_in auth.granting_agent_id k amount ref))
                q;
        answered = sym (ap (λ (x : ℤ × Books). x.0) r);
      }

  pull_by-PulledBy :
      (b : Books) (now : ℕ) (caller auth_id : Text) (auth : PullAuth) (amount : ℕ) (ref : Text)
      (balance : ℤ) (b' : Books)
      → pull_by b now caller auth_id auth amount ref ≡ ok (balance, b')
      → PulledBy b now auth_id auth amount ref balance b'
  unfolding pull_by
  pull_by-PulledBy b now caller auth_id auth amount ref balance b' h =
      let found_from =
        or_internal (find_agent (some (Value.str auth.granting_agent_id)) b.agents) in
      let found_to = or_internal (find_agent (some (Value.str auth.payee_account)) b.agents) in
      let (_, d, h1) = >>=-eq-ok (auth_guards auth now) _ h in
      let (own, e, h2) = >>=-eq-ok found_from _ h1 in
      let (row, f, h3) = >>=-eq-ok found_to _ h2 in
      let (_, g, h4) = >>=-eq-ok (pull_guards auth_id auth own.0 own.1 row.1 amount now b) _ h3 in
      pulled_by b now auth_id auth amount ref balance b' own.0 row.0 own.1 row.1
        (auth_guards-facts auth now d)
        (or_internal-eq-ok (find_agent (some (Value.str auth.granting_agent_id)) b.agents) e)
        (or_internal-eq-ok (find_agent (some (Value.str auth.payee_account)) b.agents) f)
        (pull_guards-facts auth_id auth own.0 own.1 row.1 amount now b g) h4

  find_auth-eq-some :
      (id payee : Text) (auths : Table PullAuth) (auth : PullAuth)
      → find_auth id payee auths ≡ some auth
      → (lookup id auths ≡ some auth) × (auth.payee_account ≡ payee)
  unfolding find_auth
  find_auth-eq-some id payee auths auth h = elim (Option-cases (lookup id auths)) [
    | inl e ↦ absurd (ground (arith, e))
    | inr (a, e) ↦
        let q : a ≡ auth = ground (arith, e) in
        (
          e ∙ ap some q,
          ground (
            arith,
            e,
            text_eq_iff auth.payee_account payee,
            text_eq_iff a.payee_account payee,
            q,
          ),
        )
  ]

  -- The same, with the fields; the authorization is the caller's own.
  pub record Pulled (caller : Text) (body : Fields) (now : ℕ) (b : Books) (balance : ℤ) (b' : Books)
      : Type 0 where
    pub auth_id : Text
    pub auth : PullAuth
    pub amount : ℕ
    pub ref : Text
    pub id_asked : plain_text (get (codes "auth_id") body) ≡ some auth_id
    pub amount_asked : positive_int (get (codes "amount_mc") body) ≡ some amount
    pub authorized : lookup auth_id b.auths ≡ some auth
    pub for_caller : auth.payee_account ≡ caller
    pub by : PulledBy b now auth_id auth amount ref balance b'

  pub agent_pull-Pulled :
      (caller : Text) (body : Fields) (now : ℕ) (b : Books) (balance : ℤ) (b' : Books)
      → agent_pull caller body now b ≡ ok (balance, b')
      → Pulled caller body now b balance b'
  unfolding agent_pull
  agent_pull-Pulled caller body now b balance b' h =
      let id_asked = plain_text (get (codes "auth_id") body) in
      let asked = positive_int (get (codes "amount_mc") body) in
      let ref_asked = read_ref (get (codes "ref") body) in
      let (auth_id, d, h1) = >>=-eq-ok (or_reject id_asked bad_format) _ h in
      let (amount, e, h2) = >>=-eq-ok (or_reject asked bad_format) _ h1 in
      let (ref, f, h3) = >>=-eq-ok (or_reject ref_asked bad_format) _ h2 in
      let (auth, g, h4) =
        >>=-eq-ok (or_reject (find_auth auth_id caller b.auths) authorization_missing) _ h3 in
      let (found, own) =
        find_auth-eq-some auth_id caller b.auths auth
          (or_reject-eq-ok (find_auth auth_id caller b.auths) authorization_missing g) in
      record {
        auth_id = auth_id;
        auth = auth;
        amount = amount;
        ref = ref;
        id_asked = or_reject-eq-ok id_asked bad_format d;
        amount_asked = or_reject-eq-ok asked bad_format e;
        authorized = found;
        for_caller = own;
        by = pull_by-PulledBy b now caller auth_id auth amount ref balance b' h4;
      }
