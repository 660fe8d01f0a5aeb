-- ===== src/Supervision/Moves/Guarantees.antt =====
-- impl/aicash/supervision.py: what transfers and pulls promise to the operator, the agents and the
-- mint.
use ai_cash.Prelude.{
  ℕ, ◌+◌, ◌≤◌, ◌<◌, ◌≡◌, refl, sym, ◌∙◌, ap, subst, true, false, some, List, arith,
}
use ai_cash.Prelude.Int.{ℤ, pos, ◌≤ℤ◌}
use ai_cash.Prelude.Text.{Text, text_eq_refl, codes}
use ai_cash.Codec.Value.{Value, Fields, get}
use ai_cash.Ledger.Table.{lookup}
use ai_cash.Supervision.{
  plain_text, PullAuth, Agent, Line, LineKind, debit, credit, pull_out, pull_in, is_debit, Books,
  Unicode, ok, positive_int, hour_ms, day_ms,
}
use ai_cash.Supervision.Accounts.{
  sum_lines, debits_within, debits_lifetime, exceeds, cap_violation, leaves_the_operator,
  move_lines,
}
use ai_cash.Supervision.Moves.{move, agent_transfer, agent_pull, add_use, pulled}
use ai_cash.Supervision.Moves.Pull.{agent_pull-Pulled}
use ai_cash.Supervision.Moves.Transfer.{Passed, agent_transfer-Transferred}

-- The caps of an agent hold for the debits of the journal, those of an instant included.
abbrev pub WithinCaps : Text → Agent → ℕ → List Line → Type 0
WithinCaps id a now lines =
    (exceeds a.cap_per_hour_mc (debits_within id now hour_ms lines) ≡ false)
    × (exceeds a.cap_per_day_mc (debits_within id now day_ms lines) ≡ false)
    × (exceeds a.cap_absolute_mc (debits_lifetime id lines) ≡ false)

debits_within-move :
    (now window : ℕ) (out in_ : LineKind) (from to : Text) (amount : ℕ) (ref : Text)
    (lines : List Line)
    → 0 < window
    → is_debit out ≡ true
    → is_debit in_ ≡ false
    → debits_within from now window (move_lines now out in_ from to amount ref lines)
      ≡ debits_within from now window lines + amount
unfolding debits_within sum_lines move_lines
debits_within-move now window out in_ from to amount ref lines w d c =
    ground (arith, text_eq_refl from)

debits_lifetime-move :
    (now : ℕ) (out in_ : LineKind) (from to : Text) (amount : ℕ) (ref : Text) (lines : List Line)
    → is_debit out ≡ true
    → is_debit in_ ≡ false
    → debits_lifetime from (move_lines now out in_ from to amount ref lines)
      ≡ debits_lifetime from lines + amount
unfolding debits_lifetime sum_lines move_lines
debits_lifetime-move now out in_ from to amount ref lines d c = ground (arith, text_eq_refl from)

move-WithinCaps :
    (now : ℕ) (out in_ : LineKind) (from to : Text) (a : Agent) (amount : ℕ) (ref : Text)
    (lines : List Line)
    → is_debit out ≡ true
    → is_debit in_ ≡ false
    → cap_violation from a amount now lines ≡ false
    → WithinCaps from a now (move_lines now out in_ from to amount ref lines)
unfolding cap_violation
move-WithinCaps now out in_ from to a amount ref lines d c h =
    rw
      (
        debits_within-move now hour_ms out in_ from to amount ref lines (omega arith) d c,
        debits_within-move now day_ms out in_ from to amount ref lines (omega arith) d c,
        debits_lifetime-move now out in_ from to amount ref lines d c,
      )
      (ground arith)

pulled-add_use :
    (auth_id : Text) (now amount cap_mc : ℕ) (b : Books)
    → pulled auth_id now b.uses + amount ≤ cap_mc
    → pulled auth_id now (add_use auth_id now amount b).uses ≤ cap_mc
unfolding pulled add_use
pulled-add_use auth_id now amount cap_mc b h = ground (arith, text_eq_refl auth_id)

-- What the sender of a move passed, and what that leaves of its caps.
abbrev pub KeepsToCaps : Text → Agent → Agent → ℕ → ℕ → List Line → Type 0
KeepsToCaps from sender target amount now lines =
    (sender.frozen ≡ false)
    × (leaves_the_operator sender target ≡ false)
    × (pos amount ≤ℤ sender.balance_mc)
    × WithinCaps from sender now lines

Passed-KeepsToCaps :
    (now : ℕ) (out in_ : LineKind) (from to : Text) (a target : Agent) (amount : ℕ) (ref : Text)
    (b : Books)
    → is_debit out ≡ true
    → is_debit in_ ≡ false
    → Passed from a target amount now b.lines
    → KeepsToCaps from a target amount now (move b now out in_ from to amount ref).lines
unfolding move
Passed-KeepsToCaps now out in_ from to a target amount ref b d c p = (
  p.active,
  p.inside,
  p.funded,
  move-WithinCaps now out in_ from to a amount ref b.lines d c p.within,
)

module _ ⦃unicode : Unicode⦄ where
  -- A transfer that is answered with 200 debits an account that is not frozen, is not bound to its
  -- operator with a payee of another one, and holds the amount; with this transfer booked, the debits
  -- of the last hour, of the last day and of all time are within the account's caps.
  pub agent_transfer-KeepsToCaps :
      (from : Text) (body : Fields) (now : ℕ) (b : Books) (balance : ℤ) (b' : Books)
      → agent_transfer from body now b ≡ ok (balance, b')
      → (amount : ℕ) × (to : Text) × (sender : Agent) × (target : Agent) × (positive_int
            (get (codes "amount_mc") body)
          ≡ some amount)
        × (get (codes "to_account") body ≡ some (Value.str to))
        × (lookup from b.agents ≡ some sender)
        × (lookup to b.agents ≡ some target)
        × KeepsToCaps from sender target amount now b'.lines
  unfolding is_debit
  agent_transfer-KeepsToCaps from body now b balance b' h =
      let t = agent_transfer-Transferred from body now b balance b' h in
      let m = t.between in
      (
        t.amount,
        m.to,
        m.sender,
        m.target,
        t.amount_asked,
        m.to_asked,
        m.sent,
        m.received,
        subst (λ (x : Books). KeepsToCaps from m.sender m.target t.amount now x.lines) (sym m.moved)
            (Passed-KeepsToCaps now debit credit from m.to m.sender m.target t.amount t.ref b refl
              refl m.passed),
      )

  -- A pull that is answered with 200 is under the authorization that it names, which is granted to
  -- the caller, not revoked and not expired; with this pull booked, the pulls under it of the last day
  -- are within its cap; and the granter is not frozen, is not bound to its operator with a payee of
  -- another one, holds the amount, and stays within its caps.
  pub agent_pull-KeepsToCaps :
      (caller : Text) (body : Fields) (now : ℕ) (b : Books) (balance : ℤ) (b' : Books)
      → agent_pull caller body now b ≡ ok (balance, b')
      → (amount : ℕ) × (auth_id : Text) × (auth : PullAuth) × (granter : Agent) × (payee : Agent)
        × (positive_int (get (codes "amount_mc") body) ≡ some amount)
        × (plain_text (get (codes "auth_id") body) ≡ some auth_id)
        × (lookup auth_id b.auths ≡ some auth)
        × (auth.payee_account ≡ caller)
        × (auth.revoked ≡ false)
        × (now < auth.expires_at)
        × (pulled auth_id now b'.uses ≤ auth.cap_mc_per_day)
        × (lookup auth.granting_agent_id b.agents ≡ some granter)
        × (lookup caller b.agents ≡ some payee)
        × KeepsToCaps auth.granting_agent_id granter payee amount now b'.lines
  unfolding is_debit
  agent_pull-KeepsToCaps caller body now b balance b' h =
      let t = agent_pull-Pulled caller body now b balance b' h in
      let m = t.by in
      let from = t.auth.granting_agent_id in
      (
        t.amount,
        t.auth_id,
        t.auth,
        m.granter,
        m.payee,
        t.amount_asked,
        t.id_asked,
        t.authorized,
        t.for_caller,
        m.may_pull.not_revoked,
        m.may_pull.not_expired,
        subst (λ (x : Books). pulled t.auth_id now x.uses ≤ t.auth.cap_mc_per_day) (sym m.moved)
            (pulled-add_use t.auth_id now t.amount t.auth.cap_mc_per_day
              (move b now pull_out pull_in from t.auth.payee_account t.amount t.ref)
              (unfold move in m.may_pull.day_cap)),
        m.granted,
        ap (λ i. lookup i b.agents) (sym t.for_caller) ∙ m.received,
        subst (λ (x : Books). KeepsToCaps from m.granter m.payee t.amount now x.lines) (sym m.moved)
            (unfold add_use in
              Passed-KeepsToCaps now pull_out pull_in from t.auth.payee_account m.granter m.payee
                t.amount t.ref b refl refl m.may_pull.passed),
      )
