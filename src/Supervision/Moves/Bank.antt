-- ===== src/Supervision/Moves/Bank.antt =====
-- impl/aicash/supervision.py: transfers and pulls refine a payment between abstract accounts, each of
-- which holds a number or does not exist.
use ai_cash.Prelude.{some_eq, ℕ, ◌≡◌, sym, ◌∙◌, ap, true, some}
use ai_cash.Prelude.Int.{ℤ, pos, ◌+ℤ◌}
use ai_cash.Prelude.Text.{Text, codes}
use ai_cash.Codec.Value.{Value, Fields, get}
use ai_cash.Ledger.Table.{lookup}
use ai_cash.Supervision.{plain_text, PullAuth, debit, credit, Books, Unicode, ok, positive_int}
use ai_cash.Supervision.Moves.{agent_transfer, agent_pull}
use ai_cash.Supervision.Moves.Pull.{Pulled, agent_pull-Pulled}
use ai_cash.Supervision.Moves.Transfer.{agent_transfer-Transferred}
use ai_cash.Supervision.Moves.Payment.{
  bank, changed, payment, held_in-some, moved_bank, pulled_bank, payment_sender, payment_self,
  is_self-ne,
}

module _ ⦃unicode : Unicode⦄ where
  -- A transfer that is answered with 200 asked for a positive amount and named its payee; at every
  -- account it is the payment of that amount, and the answer is what the sender then holds.
  pub agent_transfer-payment :
      (from : Text) (body : Fields) (now : ℕ) (b : Books) (balance : ℤ) (b' : Books) (k : Text)
      → agent_transfer from body now b ≡ ok (balance, b')
      → (amount : ℕ) × (to : Text) × (positive_int (get (codes "amount_mc") body) ≡ some amount)
        × (get (codes "to_account") body ≡ some (Value.str to))
        × (bank b' k ≡ payment from to amount (bank b) k)
        × (bank b' from ≡ some balance)
  agent_transfer-payment from body now b balance b' k h =
      let t = agent_transfer-Transferred from body now b balance b' h in
      let m = t.between in
      let sent = held_in-some b.agents from m.sender m.sent in
      let ne = is_self-ne (get (codes "to_account") body) from m.to m.to_asked t.apart in
      (
        t.amount,
        m.to,
        t.amount_asked,
        m.to_asked,
        moved_bank b b' now debit credit from m.to t.amount t.ref k m.moved,
        moved_bank b b' now debit credit from m.to t.amount t.ref from m.moved
            ∙ payment_sender from m.to t.amount (bank b) m.sender.balance_mc ne sent
            ∙ ap some (sym m.answered),
      )

  pull_bank :
      (caller : Text) (body : Fields) (now : ℕ) (b : Books) (balance : ℤ) (b' : Books) (k : Text)
      → (t : Pulled caller body now b balance b')
      → bank b' k ≡ payment t.auth.granting_agent_id caller t.amount (bank b) k
  pull_bank caller body now b balance b' k t =
      ap (λ x. bank x k) t.by.moved
      ∙ pulled_bank b now t.auth_id t.auth.granting_agent_id t.auth.payee_account t.amount t.ref k
      ∙ ap (λ i. payment t.auth.granting_agent_id i t.amount (bank b) k) t.for_caller

  pull_answer :
      (caller : Text) (body : Fields) (now : ℕ) (b : Books) (balance : ℤ) (b' : Books)
      → (t : Pulled caller body now b balance b')
      → some balance ≡ changed true (λ n. n +ℤ pos t.amount) (bank b caller)
  pull_answer caller body now b balance b' t =
      ap some t.by.answered
      ∙ sym (
          ap (changed true (λ n. n +ℤ pos t.amount)) (
            held_in-some b.agents caller t.by.payee
              (ap (λ i. lookup i b.agents) (sym t.for_caller) ∙ t.by.received)))

  -- A pull that is answered with 200 is under an authorization whose payee is the caller; at every
  -- account it is the payment of the amount by the granter, and the answer is what the caller held
  -- before, with the amount.
  pub agent_pull-payment :
      (caller : Text) (body : Fields) (now : ℕ) (b : Books) (balance : ℤ) (b' : Books) (k : Text)
      → agent_pull caller body now b ≡ ok (balance, b')
      → (amount : ℕ) × (auth_id : Text) × (auth : PullAuth) × (positive_int
            (get (codes "amount_mc") body)
          ≡ some amount)
        × (plain_text (get (codes "auth_id") body) ≡ some auth_id)
        × (lookup auth_id b.auths ≡ some auth)
        × (bank b' k ≡ payment auth.granting_agent_id caller amount (bank b) k)
        × (some balance ≡ changed true (λ n. n +ℤ pos amount) (bank b caller))
  agent_pull-payment caller body now b balance b' k h =
      let t = agent_pull-Pulled caller body now b balance b' h in
      (
        t.amount,
        t.auth_id,
        t.auth,
        t.amount_asked,
        t.id_asked,
        t.authorized,
        pull_bank caller body now b balance b' k t,
        pull_answer caller body now b balance b' t,
      )

  -- The granter of a pull whose authorization is known.
  granter_of :
      (id auth_id : Text) (auth : PullAuth) (body : Fields) (now : ℕ) (b : Books) (balance : ℤ)
      (b' : Books)
      → plain_text (get (codes "auth_id") body) ≡ some auth_id
      → lookup auth_id b.auths ≡ some auth
      → (t : Pulled id body now b balance b') → t.auth ≡ auth
  granter_of id auth_id auth body now b balance b' asked found t =
      let same : t.auth_id ≡ auth_id = some_eq (sym t.id_asked ∙ asked) in
      some_eq (sym t.authorized ∙ ap (λ j. lookup j b.auths) same ∙ found)

  unmoved :
      (id : Text) (body : Fields) (now : ℕ) (b : Books) (balance : ℤ) (b' : Books) (k : Text)
      → (t : Pulled id body now b balance b') → t.auth.granting_agent_id ≡ id
      → bank b' k ≡ bank b k
  unmoved id body now b balance b' k t own =
      pull_bank id body now b balance b' k t
      ∙ ap (λ i. payment i id t.amount (bank b) k) own
      ∙ payment_self id t.amount (bank b) k

  -- A pull under an authorization that its payee granted itself, answered with 200, changes no
  -- account, and the balance that it answers is what the caller holds with the amount added to it.
  pub agent_pull_self :
      (id auth_id : Text) (auth : PullAuth) (body : Fields) (now : ℕ) (b : Books) (balance : ℤ)
      (b' : Books) (k : Text)
      → plain_text (get (codes "auth_id") body) ≡ some auth_id
      → lookup auth_id b.auths ≡ some auth
      → auth.granting_agent_id ≡ id
      → agent_pull id body now b ≡ ok (balance, b')
      → (amount : ℕ) × (positive_int (get (codes "amount_mc") body) ≡ some amount)
        × (bank b' k ≡ bank b k)
        × (some balance ≡ changed true (λ n. n +ℤ pos amount) (bank b' id))
  agent_pull_self id auth_id auth body now b balance b' k asked found own h =
      let t = agent_pull-Pulled id body now b balance b' h in
      let granter =
        ap (λ (x : PullAuth). x.granting_agent_id)
          (granter_of id auth_id auth body now b balance b' asked found t)
        ∙ own in
      (
        t.amount,
        t.amount_asked,
        unmoved id body now b balance b' k t granter,
        pull_answer id body now b balance b' t
            ∙ ap (changed true (λ n. n +ℤ pos t.amount))
                (sym (unmoved id body now b balance b' id t granter)),
      )
