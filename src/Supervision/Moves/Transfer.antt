-- ===== src/Supervision/Moves/Transfer.antt =====
-- impl/aicash/supervision.py, `agent_transfer`: what a transfer that is answered with 200 did.
use ai_cash.Prelude.{
  ℕ, ◌<◌, ◌≡◌, sym, ◌∙◌, ap, subst, false, Option, none, some, List, arith, Option-cases, inl, inr,
}
use ai_cash.Prelude.Int.{ℤ, pos, ◌≤ℤ◌, ◌-ℤ◌, ltb_ℤ}
use ai_cash.Prelude.Text.{Text, codes}
use ai_cash.Codec.Value.{Value, Fields, get}
use ai_cash.Ledger.Table.{Table, lookup}
use ai_cash.Supervision.{
  Agent, Line, debit, credit, Books, Unicode, Answer, ok, reject_if, or_internal, or_reject,
  bad_format, unknown_account, external_transfer_disabled, account_frozen, agent_cap_exceeded,
  insufficient_balance, plain_text, positive_int, read_ref, >>=-eq-ok, or_reject-eq-ok,
  or_internal-eq-ok, reject_if-eq-ok, ok-injective,
}
use ai_cash.Supervision.Accounts.{find_agent, cap_violation, leaves_the_operator}
use ai_cash.Supervision.Moves.{is_self, transfer_guards, move, transfer_between, agent_transfer}

pub positive_int-pos : (v : Option Value) (n : ℕ) → positive_int v ≡ some n → 0 < n
unfolding positive_int
positive_int-pos v n h = ground arith

-- The guards of a transfer, as facts.
pub record Passed (from : Text) (sender target : Agent) (amount now : ℕ) (lines : List Line)
    : Type 0 where
  pub active : sender.frozen ≡ false
  pub inside : leaves_the_operator sender target ≡ false
  pub within : cap_violation from sender amount now lines ≡ false
  pub funded : pos amount ≤ℤ sender.balance_mc

pub transfer_guards-Passed :
    (from : Text) (sender target : Agent) (amount now : ℕ) (lines : List Line) {u : Unit {0}}
    → transfer_guards from sender target amount now lines ≡ ok u
    → Passed from sender target amount now lines
unfolding transfer_guards
transfer_guards-Passed from sender target amount now lines h =
    let (_, e, h1) = >>=-eq-ok (reject_if sender.frozen account_frozen) _ h in
    let (_, f, h2) =
      >>=-eq-ok (reject_if (leaves_the_operator sender target) external_transfer_disabled) _ h1 in
    let (_, g, k) =
      >>=-eq-ok (reject_if (cap_violation from sender amount now lines) agent_cap_exceeded) _ h2 in
    record {
      active = reject_if-eq-ok sender.frozen account_frozen e;
      inside = reject_if-eq-ok (leaves_the_operator sender target) external_transfer_disabled f;
      within = reject_if-eq-ok (cap_violation from sender amount now lines) agent_cap_exceeded g;
      funded =
          ground
            (arith, reject_if-eq-ok (ltb_ℤ sender.balance_mc (pos amount)) insufficient_balance k);
    }

module _ ⦃unicode : Unicode⦄ where
  pub plain_text-eq-some :
      (v : Option Value) (k : Text) → plain_text v ≡ some k → v ≡ some (Value.str k)
  unfolding plain_text
  plain_text-eq-some none k h = cc
  plain_text-eq-some (some (Value.str s)) k h = ground arith
  plain_text-eq-some (some Value.null) k h = cc
  plain_text-eq-some (some _) k h = cc

  pub find_agent-eq-some :
      (v : Option Value) (agents : Table Agent) (k : Text) (a : Agent)
      → find_agent v agents ≡ some (k, a)
      → (v ≡ some (Value.str k)) × (lookup k agents ≡ some a)
  unfolding find_agent
  find_agent-eq-some v agents k a h = elim (Option-cases (plain_text v)) [
    | inl e ↦ absurd (ground (arith, e))
    | inr (j, e) ↦ elim (Option-cases (lookup j agents)) [
      | inl f ↦ absurd (ground (arith, e, f))
      | inr (x, f) ↦
          let p : (j, x) ≡ (k, a) = ground (arith, e, f) in
          let jk : j ≡ k = ap (λ (y : Text × Agent). y.0) p in
          let xa : x ≡ a = ap (λ (y : Text × Agent). y.1) p in
          (
            plain_text-eq-some v j e ∙ ap (λ y. some (Value.str y)) jk,
            ap (λ y. lookup y agents) (sym jk) ∙ f ∙ ap some xa,
          )
    ]
  ]

  -- What a transfer that was answered with 200 found, checked and did, once its fields were read.
  pub record Between (b : Books) (now : ℕ) (from : Text) (to_account : Option Value) (amount : ℕ)
      (ref : Text) (balance : ℤ) (b' : Books) : Type 0 where
    pub to : Text
    pub sender : Agent
    pub target : Agent
    pub to_asked : to_account ≡ some (Value.str to)
    pub sent : lookup from b.agents ≡ some sender
    pub received : lookup to b.agents ≡ some target
    pub passed : Passed from sender target amount now b.lines
    pub moved : b' ≡ move b now debit credit from to amount ref
    pub answered : balance ≡ sender.balance_mc -ℤ pos amount

  between :
      (b : Books) (now : ℕ) (from : Text) (to_account : Option Value) (amount : ℕ) (ref : Text)
      (balance : ℤ) (b' : Books) (to own : Text) (target sender : Agent)
      → find_agent to_account b.agents ≡ some (to, target)
      → find_agent (some (Value.str from)) b.agents ≡ some (own, sender)
      → Passed own sender target amount now b.lines
      → ◌≡◌ {A = Answer (ℤ × Books)}
          (ok (sender.balance_mc -ℤ pos amount, move b now debit credit own to amount ref))
          (ok (balance, b'))
      → Between b now from to_account amount ref balance b'
  between b now from to_account amount ref balance b' to own target sender found_to found_from
        passed e =
      let (asked, received) = find_agent-eq-some to_account b.agents to target found_to in
      let (same, sent) =
        find_agent-eq-some (some (Value.str from)) b.agents own sender found_from in
      let p : from ≡ own = cc in
      let q = ok-injective e in
      record {
        to = to;
        sender = sender;
        target = target;
        to_asked = asked;
        sent = ap (λ k. lookup k b.agents) p ∙ sent;
        received = received;
        passed = subst (λ k. Passed k sender target amount now b.lines) (sym p) passed;
        moved =
            sym (ap (λ (x : ℤ × Books). x.1) q)
            ∙ ap (λ k. move b now debit credit k to amount ref) (sym p);
        answered = sym (ap (λ (x : ℤ × Books). x.0) q);
      }

  transfer_between-Between :
      (b : Books) (now : ℕ) (from : Text) (to_account : Option Value) (amount : ℕ) (ref : Text)
      (balance : ℤ) (b' : Books)
      → transfer_between b now from to_account amount ref ≡ ok (balance, b')
      → Between b now from to_account amount ref balance b'
  unfolding transfer_between
  transfer_between-Between b now from to_account amount ref balance b' h =
      let found_to = or_reject (find_agent to_account b.agents) unknown_account in
      let found_from = or_internal (find_agent (some (Value.str from)) b.agents) in
      let (row, e, h1) = >>=-eq-ok found_to _ h in
      let (own, f, h2) = >>=-eq-ok found_from _ h1 in
      let (_, g, h3) = >>=-eq-ok (transfer_guards own.0 own.1 row.1 amount now b.lines) _ h2 in
      between b now from to_account amount ref balance b' row.0 own.0 row.1 own.1
        (or_reject-eq-ok (find_agent to_account b.agents) unknown_account e)
        (or_internal-eq-ok (find_agent (some (Value.str from)) b.agents) f)
        (transfer_guards-Passed own.0 own.1 row.1 amount now b.lines g) h3

  -- The same, with the fields.
  pub record Transferred (from : Text) (body : Fields) (now : ℕ) (b : Books) (balance : ℤ)
      (b' : Books) : Type 0 where
    pub amount : ℕ
    pub ref : Text
    pub amount_asked : positive_int (get (codes "amount_mc") body) ≡ some amount
    pub apart : is_self (get (codes "to_account") body) from ≡ false
    pub between : Between b now from (get (codes "to_account") body) amount ref balance b'

  pub agent_transfer-Transferred :
      (from : Text) (body : Fields) (now : ℕ) (b : Books) (balance : ℤ) (b' : Books)
      → agent_transfer from body now b ≡ ok (balance, b')
      → Transferred from body now b balance b'
  unfolding agent_transfer
  agent_transfer-Transferred from body now b balance b' h =
      let to_account = get (codes "to_account") body in
      let asked = positive_int (get (codes "amount_mc") body) in
      let ref_asked = read_ref (get (codes "ref") body) in
      let (amount, e, h1) = >>=-eq-ok (or_reject asked bad_format) _ h in
      let (ref, f, h2) = >>=-eq-ok (or_reject ref_asked bad_format) _ h1 in
      let (_, g, h3) = >>=-eq-ok (reject_if (is_self to_account from) bad_format) _ h2 in
      record {
        amount = amount;
        ref = ref;
        amount_asked = or_reject-eq-ok asked bad_format e;
        apart = reject_if-eq-ok (is_self to_account from) bad_format g;
        between = transfer_between-Between b now from to_account amount ref balance b' h3;
      }
