-- ===== src/Supervision/History.antt =====
-- impl/aicash/supervision.py: the calls in any order. A call over the accounts alone that is not
-- answered with 200 leaves the tables as they are.
use ai_cash.Ledger.Table.{lookup}
use ai_cash.Supervision.Bridge.{agent_deposit}
use ai_cash.Supervision.Custody.{Bridge}
use ai_cash.Ledger.State.{Db, Config}
use ai_cash.Supervision.Moves.{agent_pull, agent_transfer, agent_revoke_pull, agent_authorize_pull}
use ai_cash.Supervision.Administration.{op_flags, set_frozen, op_caps, op_agents, op_register}
use ai_cash.Prelude.Text.{Bytes, Text}
use ai_cash.Supervision.Routes.{
  agent_pull-Kept, agent_transfer-Kept, agent_revoke_pull-Kept, agent_authorize_pull-Kept,
  op_flags-Kept, set_frozen-Kept, op_caps-Kept, op_agents-Kept, op_register-Kept,
}
use ai_cash.Supervision.Kept.{Kept}
use ai_cash.Supervision.Withdrawal.{agent_withdraw}
use ai_cash.Supervision.Backing.{IsBacked, total_balance}
use ai_cash.Supervision.Backing.Deposits.{agent_deposit-IsBacked}
use ai_cash.Supervision.Backing.Withdrawals.{agent_withdraw-IsBacked}
use ai_cash.Supervision.Backing.Totals.{
  HasTotal, HasTotal-Kept, books-IsBacked, empty_bridge, empty_bridge-IsBacked,
}
use ai_cash.Prelude.{some, refl, sym, subst, List, Bool, ◌≡◌, ℕ}
use ai_cash.Codec.Value.{Fields}
use ai_cash.Codec.Key.{Hash}
use ai_cash.Prelude.Int.{ℤ}
use ai_cash.Supervision.{Agent, ok, Unicode, Books}

module _ ⦃hash : Hash⦄ ⦃unicode : Unicode⦄ where
  -- A call over the accounts alone, answered with 200.
  pub data Step (b b' : Books) : Type 0 where
    registers :
        (body : Fields) (now : ℕ) (id key : Text) (a : Text × Text)
        → op_register body now id key b ≡ ok (a, b')
        → Step b b'
    creates :
        (operator_id : Text) (body : Fields) (now : ℕ) (id key : Text) (a : Text × Text)
        → op_agents operator_id body now id key b ≡ ok (a, b')
        → Step b b'
    sets_caps :
        (operator_id : Text) (body : Fields) (a : Text)
        → op_caps operator_id body b ≡ ok (a, b')
        → Step b b'
    freezes :
        (to_frozen : Bool) (operator_id : Text) (body : Fields) (now : ℕ) (a : List Text)
        → set_frozen to_frozen operator_id body now b ≡ ok (a, b')
        → Step b b'
    sets_flags :
        (operator_id : Text) (body : Fields) (a : Text × Bool)
        → op_flags operator_id body b ≡ ok (a, b')
        → Step b b'
    authorizes :
        (granting : Text) (body : Fields) (now : ℕ) (auth_id a : Text)
        → agent_authorize_pull granting body now auth_id b ≡ ok (a, b')
        → Step b b'
    revokes :
        (granting : Text) (body : Fields) (a : Text)
        → agent_revoke_pull granting body b ≡ ok (a, b')
        → Step b b'
    transfers :
        (from : Text) (body : Fields) (now : ℕ) (balance : ℤ)
        → agent_transfer from body now b ≡ ok (balance, b')
        → Step b b'
    pulls :
        (caller : Text) (body : Fields) (now : ℕ) (balance : ℤ)
        → agent_pull caller body now b ≡ ok (balance, b')
        → Step b b'

  Step-Kept : (P : Books → Type 0) → Kept P → (b b' : Books) → Step b b' → P b → P b'
  Step-Kept P k b b' (registers body now id key a h) s =
      op_register-Kept P k body now id key b b' a s h
  Step-Kept P k b b' (creates o body now id key a h) s =
      op_agents-Kept P k o body now id key b b' a s h
  Step-Kept P k b b' (sets_caps o body a h) s = op_caps-Kept P k o body b b' a s h
  Step-Kept P k b b' (freezes f o body now a h) s = set_frozen-Kept P k f o body now b b' a s h
  Step-Kept P k b b' (sets_flags o body a h) s = op_flags-Kept P k o body b b' a s h
  Step-Kept P k b b' (authorizes g body now i a h) s =
      agent_authorize_pull-Kept P k g body now i b b' a s h
  Step-Kept P k b b' (revokes g body a h) s = agent_revoke_pull-Kept P k g body b b' a s h
  Step-Kept P k b b' (transfers from body now n h) s =
      agent_transfer-Kept P k from body now b b' n s h
  Step-Kept P k b b' (pulls c body now n h) s = agent_pull-Kept P k c body now b b' n s h

  -- A call, over all the tables of the service. A deposit or a withdrawal ends in any way, and over
  -- any ledger.
  pub data Call (s s' : Bridge) : Type 0 where
    books : {b : Books} → Step s.books b → s' ≡ record s { books = b } → Call s s'
    deposits :
        (cfg : Config) (mint_id caller : Text) (body : Fields) (now exchange_now : ℕ)
        (secret : Bytes) (idem op_id : Text) (db : Db) (agent : Agent)
        → lookup caller s.books.agents ≡ some agent
        → (agent_deposit cfg mint_id caller body now exchange_now secret idem op_id s db).1 ≡ s'
        → Call s s'
    withdraws :
        (cfg : Config) (mint_id caller : Text) (body : Fields) (now exchange_now : ℕ)
        (secret : Bytes) (idem op_id : Text) (db : Db)
        → (agent_withdraw cfg mint_id caller body now exchange_now secret idem op_id s db).1 ≡ s'
        → Call s s'

  -- The tables that a mint comes to, from the empty ones.
  pub data Reach : Bridge → Type 0 where
    start : Reach empty_bridge
    call : {s s' : Bridge} → Reach s → Call s s' → Reach s'

  Call-IsBacked : (s s' : Bridge) → Call s s' → IsBacked s → IsBacked s'
  Call-IsBacked s s' (books {b} step same) backed = subst IsBacked (sym same) (
      books-IsBacked s b backed (
        Step-Kept (HasTotal (total_balance s.books.agents)) (HasTotal-Kept _) s.books b step
          (backed.sound, refl)))
  Call-IsBacked s s' (deposits cfg m caller body now at secret idem op db agent found h) backed =
      subst IsBacked h
        (agent_deposit-IsBacked cfg m caller body now at secret idem op s db agent found backed)
  Call-IsBacked s s' (withdraws cfg m caller body now at secret idem op db h) backed =
      subst IsBacked h (agent_withdraw-IsBacked cfg m caller body now at secret idem op s db backed)

  -- After any sequence of calls the ids are unique, every balance is not below zero and is what the
  -- journal has credited less what it has debited, every line is that of an agent, and the custody
  -- that can be spent or is reserved is the sum of the balances less what the mint has absorbed.
  pub Reach-IsBacked : (s : Bridge) → Reach s → IsBacked s
  Reach-IsBacked s start = empty_bridge-IsBacked
  Reach-IsBacked s (call {s = before} r c) = Call-IsBacked before s c (Reach-IsBacked before r)
