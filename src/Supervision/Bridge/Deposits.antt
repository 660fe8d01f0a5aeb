-- ===== src/Supervision/Bridge/Deposits.antt =====
-- impl/aicash/supervision.py: what a deposit leaves, however its exchange ends.
use ai_cash.Codec.Value
use ai_cash.Codec.Value.{Fields}
use ai_cash.Codec.Key.{Hash}
use ai_cash.Ledger.State.{fault, done, Reply, ErrorItem, Run, Db, Config}
use ai_cash.Supervision.Accounts.{find_agent}
use ai_cash.Supervision.Booking.{IsSound}
use ai_cash.Ledger.Table.{lookup}
use ai_cash.Prelude.Text.{Bytes, Text}
use ai_cash.Supervision.Bridge.{
  refused, Priced, exchange_staged, exchange_priced, agent_deposit, after_exchange, discard_deposit,
  finalize_deposit,
}
use ai_cash.Supervision.Custody.{Bridge, DepositDetails}
use ai_cash.Prelude.{ℕ, ◌≡◌, refl, sym, ◌∙◌, ap, subst, some, List}
use ai_cash.Supervision.{rejected, Unicode, or_internal, >>=-eq-ok, Agent, Books, Answer, ok}
use ai_cash.Supervision.Bridge.Staging.{
  finalize_deposit-IsSound, add_custody-books, discard_deposit-add_custody,
}

module _ ⦃hash : Hash⦄ ⦃unicode : Unicode⦄ where
  after_exchange-IsSound :
      (caller op_id : Text) (details : DepositDetails) (s : Bridge) (db : Db) (m : Run (Reply × Db))
      (agent : Agent)
      → lookup caller s.books.agents ≡ some agent
      → IsSound s.books
      → IsSound (after_exchange caller op_id details s db m).1.books
  unfolding after_exchange discard_deposit
  after_exchange-IsSound caller op_id details s db (fault e) agent found sound = sound
  after_exchange-IsSound caller op_id details s db (done (Reply.rejected errors, db')) agent found
        sound =
      sound
  after_exchange-IsSound caller op_id details s db (done (Reply.confirmed n burn, db')) agent found
        sound =
      finalize_deposit-IsSound op_id caller details s agent found sound

  exchange_staged-IsSound :
      (cfg : Config) (caller idem op_id : Text) (exchange_now : ℕ) (p : Priced) (s : Bridge)
      (db : Db) (m : Answer Bridge) (agent : Agent)
      → ((staged : Bridge) → m ≡ ok staged → staged.books ≡ s.books)
      → lookup caller s.books.agents ≡ some agent
      → IsSound s.books
      → IsSound (exchange_staged cfg caller idem op_id exchange_now p s db m).1.books
  unfolding exchange_staged
  exchange_staged-IsSound cfg caller idem op_id exchange_now p s db (ok staged) agent same found
        sound =
      after_exchange-IsSound caller op_id p.details staged db _ agent
        (ap (λ (b : Books). lookup caller b.agents) (same staged refl) ∙ found)
        (subst IsSound (sym (same staged refl)) sound)
  exchange_staged-IsSound cfg caller idem op_id exchange_now p s db _ agent same found sound = sound

  exchange_priced-IsSound :
      (cfg : Config) (caller idem op_id : Text) (secret : Bytes) (exchange_now : ℕ) (s : Bridge)
      (db : Db) (m : Answer Priced) (agent : Agent)
      → lookup caller s.books.agents ≡ some agent
      → IsSound s.books
      → IsSound (exchange_priced cfg caller idem op_id secret exchange_now s db m).1.books
  unfolding exchange_priced
  exchange_priced-IsSound cfg caller idem op_id secret exchange_now s db (ok p) agent found sound =
      exchange_staged-IsSound cfg caller idem op_id exchange_now p s db _ agent
        (λ staged e.
          add_custody-books p.details.custody_hash secret op_id caller p.details s staged e)
        found sound
  exchange_priced-IsSound cfg caller idem op_id secret exchange_now s db (rejected r) agent found
        sound =
      sound
  exchange_priced-IsSound cfg caller idem op_id secret exchange_now s db _ agent found sound = sound

  -- However a deposit by an agent that there is ends, the tables stay sound.
  pub agent_deposit-IsSound :
      (cfg : Config) (mint_id caller : Text) (body : Fields) (now exchange_now : ℕ) (secret : Bytes)
      (idem op_id : Text) (s : Bridge) (db : Db) (agent : Agent)
      → lookup caller s.books.agents ≡ some agent
      → IsSound s.books
      → IsSound
          (agent_deposit cfg mint_id caller body now exchange_now secret idem op_id s db).1.books
  unfolding agent_deposit
  agent_deposit-IsSound cfg mint_id caller body now exchange_now secret idem op_id s db agent found
        sound =
      exchange_priced-IsSound cfg caller idem op_id secret exchange_now s db _ agent found sound

  after_exchange-restores :
      (caller op_id : Text) (details : DepositDetails) (s before : Bridge) (db : Db)
      (m : Run (Reply × Db)) (errors : List ErrorItem)
      → discard_deposit op_id details s ≡ before
      → (after_exchange caller op_id details s db m).0 ≡ ok (refused errors)
      → (after_exchange caller op_id details s db m).1 ≡ before
  unfolding after_exchange
  after_exchange-restores caller op_id details s before db (fault e) errors d h = cc
  after_exchange-restores caller op_id details s before db (done (Reply.rejected es, db')) errors d
        h =
      d
  after_exchange-restores caller op_id details s before db (done (Reply.confirmed n burn, db'))
        errors d h =
      let s' = finalize_deposit op_id caller details s in
      let (row, e, f) =
        >>=-eq-ok (or_internal (find_agent (some (Value.str caller)) s'.books.agents)) _ h in
      cc

  exchange_staged-restores :
      (cfg : Config) (caller idem op_id : Text) (exchange_now : ℕ) (p : Priced) (s : Bridge)
      (db : Db) (m : Answer Bridge) (errors : List ErrorItem)
      → ((staged : Bridge) → m ≡ ok staged → discard_deposit op_id p.details staged ≡ s)
      → (exchange_staged cfg caller idem op_id exchange_now p s db m).0 ≡ ok (refused errors)
      → (exchange_staged cfg caller idem op_id exchange_now p s db m).1 ≡ s
  unfolding exchange_staged
  exchange_staged-restores cfg caller idem op_id exchange_now p s db (ok staged) errors back h =
      after_exchange-restores caller op_id p.details staged s db _ errors (back staged refl) h
  exchange_staged-restores cfg caller idem op_id exchange_now p s db _ errors back h = refl

  exchange_priced-restores :
      (cfg : Config) (caller idem op_id : Text) (secret : Bytes) (exchange_now : ℕ) (s : Bridge)
      (db : Db) (m : Answer Priced) (errors : List ErrorItem)
      → (exchange_priced cfg caller idem op_id secret exchange_now s db m).0 ≡ ok (refused errors)
      → (exchange_priced cfg caller idem op_id secret exchange_now s db m).1 ≡ s
  unfolding exchange_priced
  exchange_priced-restores cfg caller idem op_id secret exchange_now s db (ok p) errors h =
      exchange_staged-restores cfg caller idem op_id exchange_now p s db _ errors
        (λ staged e. discard_deposit-add_custody secret op_id caller p.details s staged e) h
  exchange_priced-restores cfg caller idem op_id secret exchange_now s db (rejected r) errors h =
      refl
  exchange_priced-restores cfg caller idem op_id secret exchange_now s db _ errors h = refl

  -- A deposit whose exchange the ledger refuses leaves accounts, journal, custody and staged
  -- operations as they were.
  pub agent_deposit_refused :
      (cfg : Config) (mint_id caller : Text) (body : Fields) (now exchange_now : ℕ) (secret : Bytes)
      (idem op_id : Text) (s : Bridge) (db : Db) (errors : List ErrorItem)
      → (agent_deposit cfg mint_id caller body now exchange_now secret idem op_id s db).0
        ≡ ok (refused errors)
      → (agent_deposit cfg mint_id caller body now exchange_now secret idem op_id s db).1 ≡ s
  unfolding agent_deposit
  agent_deposit_refused cfg mint_id caller body now exchange_now secret idem op_id s db errors h =
      exchange_priced-restores cfg caller idem op_id secret exchange_now s db _ errors h
