-- ===== src/Supervision/Bridge.antt =====
-- impl/aicash/supervision.py, `agent_deposit`: bearer tokens become a balance by an exchange of the
-- ledger. The custody secret, the key of the exchange and the id of the staged operation come from
-- `os.urandom`: they are arguments.
pub mod Staging
pub mod Deposits
use ai_cash.Ledger.Outputs.{no_lock, spec}
use ai_cash.Supervision.Accounts.{line, give_to, find_agent}
use ai_cash.Ledger.Exchange.{effective_burn_policy, exchange}
use ai_cash.Codec.Base64.{b64u_encode}
use ai_cash.Supervision.Rows.{update_row}
use ai_cash.Ledger.Table.{insert_row, Table}
use ai_cash.Codec.TokenText.{parse_token, TokenParts}
use ai_cash.Codec.Key.{ledger_key, Hash}
use ai_cash.Prelude.{
  ℕ, ◌+◌, ◌-◌, Bool, true, false, ◌&&◌, ◌||◌, not, Option, none, some, List, [], ◌∷◌, ltb, leb,
  is_some, if◌then◌else◌,
}
use ai_cash.Prelude.Int.{ℤ, pos}
use ai_cash.Prelude.Text.{Text, Bytes, text_eq, codes}
use ai_cash.Burn
use ai_cash.Burn.{effective_policy, BurnPolicy, compute_burn}
use ai_cash.Codec.Value
use ai_cash.Codec.Value.{Value, Values, Fields, get}
use ai_cash.Lock.{InputForm, plain}
use ai_cash.Ledger.State
use ai_cash.Ledger.State.{
  max_amount_mc, Db, Config, ErrorItem, storable_int, Run, done, fault, Reply,
}
use ai_cash.Supervision.{
  deposit, Books, Answer, ok, rejected, unknown_agent, forbidden, unauthorized, internal,
  bad_format, Unicode, ◌>>=◌, ◌>>◌, reject_if, or_reject, or_internal, read_ref,
}
use ai_cash.Supervision.Custody.{
  CustodyState, pending, unspent, Custody, DepositDetails, deposits, PendingOp, Bridge, delete_row,
  is_pending, activate,
}

-- The tokens of a request, each of this mint.
unfoldable pub read_tokens : Text → Values → Option (List TokenParts)
read_tokens mint_id Values.nil = some []
read_tokens mint_id (Values.cons (Value.str s) vs) = elim (parse_token s) [
  | none ↦ none
  | some t ↦
      if text_eq t.mint_id mint_id
      then elim (read_tokens mint_id vs) [ none ↦ none | some ts ↦ some (t ∷ ts) ]
      else none
]
read_tokens mint_id (Values.cons v vs) = none

unfoldable pub non_empty_list : Option Value → Option Values
non_empty_list (some (Value.arr (Values.cons v vs))) = some (Values.cons v vs)
non_empty_list _ = none

unfoldable pub total_of : List TokenParts → ℕ
total_of [] = 0
total_of (t ∷ ts) = t.amount_mc + total_of ts

unfoldable pub forms_of : List TokenParts → List (Option InputForm)
forms_of [] = []
forms_of (t ∷ ts) =
    some (record {
      kind = plain;
      token = some (record {
        mint_id = t.mint_id;
        amount_mc = Value.int (pos t.amount_mc);
        secret = Value.bytes t.secret;
      });
      hash = none;
      witness = none;
    })
    ∷ forms_of ts

abbrev pub or_raised : {A : Type 0} → Burn.Checked A → Answer A
or_raised (Burn.ok a) = ok a
or_raised (Burn.raised e) = internal

abbrev pub or_faulted : {A : Type 0} → Run A → Answer A
or_faulted (done a) = ok a
or_faulted (fault e) = internal

-- What a deposit has read and priced. The burn is at most a hundredth of the sum, so that the
-- subtraction is exact.
pub record Priced : Type 0 where
  pub tokens : List TokenParts
  pub burn_mc : ℕ
  pub details : DepositDetails

-- The answer of 200, and the errors of an exchange that was refused.
pub data DepositReply : Type 0 where
  deposited : (net_mc burn_mc : ℕ) (balance_mc : ℤ) → DepositReply
  refused : List ErrorItem → DepositReply

-- An id that is taken, or an amount beyond the column, is an exception.
unfoldable pub add_custody : Text → Bytes → Text → Text → DepositDetails → Bridge → Answer Bridge
add_custody hash secret op_id agent_id details s = do
  custody ← or_internal (
      if leb details.net_mc max_amount_mc
      then insert_row hash
          (record { secret_b64u = b64u_encode secret; amount_mc = details.net_mc; state = pending })
          s.custody
      else none)
  ops ←
      or_internal
        (insert_row op_id (record { agent_id = agent_id; work = deposits details }) s.pending_ops)
  ok (record s { custody = custody; pending_ops = ops })

-- The follow-up of an exchange that was refused, here and in the recovery.
unfoldable pub discard_deposit : Text → DepositDetails → Bridge → Bridge
discard_deposit op_id details s = record s {
  custody = delete_row details.custody_hash is_pending s.custody;
  pending_ops = delete_row op_id (λ _. true) s.pending_ops;
}

unfoldable pub finalize_deposit : Text → Text → DepositDetails → Bridge → Bridge
finalize_deposit op_id agent_id details s = record s {
  books = record s.books {
    agents = update_row agent_id (give_to details.net_mc) s.books.agents;
    lines = line agent_id details.t deposit details.net_mc none details.ref ∷ s.books.lines;
  };
  custody = update_row details.custody_hash activate s.custody;
  pending_ops = delete_row op_id (λ _. true) s.pending_ops;
}

module _ ⦃hash : Hash⦄ ⦃unicode : Unicode⦄ where
  unfoldable pub price_deposit : Config → Text → Fields → ℕ → Bytes → Answer Priced
  price_deposit cfg mint_id body now custody_secret = do
    values ← or_reject (non_empty_list (get (codes "tokens") body)) bad_format
    ref ← or_reject (read_ref (get (codes "ref") body)) bad_format
    tokens ← or_reject (read_tokens mint_id values) bad_format
    policy ← or_faulted (effective_burn_policy cfg now)
    burn ← or_raised (compute_burn (pos (total_of tokens)) policy)
    custody_hash ← or_internal (ledger_key (Value.bytes custody_secret))
    ok (record {
      tokens = tokens;
      burn_mc = burn;
      details = record {
        custody_hash = custody_hash;
        net_mc = total_of tokens - burn;
        t = now;
        ref = ref;
      };
    })

  -- What follows the exchange. A fault of the exchange leaves what was staged to the recovery.
  unfoldable pub after_exchange :
      Text
      → Text
      → DepositDetails
      → Bridge
      → Db
      → Run (Reply × Db)
      → Answer DepositReply × Bridge × Db
  after_exchange caller op_id details s db (fault e) = (internal, s, db)
  after_exchange caller op_id details s db (done (Reply.rejected errors, db')) =
      (ok (refused errors), discard_deposit op_id details s, db')
  after_exchange caller op_id details s db (done (Reply.confirmed outputs burn_mc, db')) =
      let s' = finalize_deposit op_id caller details s in
      (
        or_internal (find_agent (some (Value.str caller)) s'.books.agents) >>= λ row.
            ok (deposited details.net_mc burn_mc row.1.balance_mc),
        s',
        db',
      )

  -- The exchange reads the clock itself, at `exchange_now`; it makes the one custody output.
  unfoldable pub exchange_staged :
      Config
      → Text
      → Text
      → Text
      → ℕ
      → Priced
      → Bridge
      → Db
      → Answer Bridge
      → Answer DepositReply × Bridge × Db
  exchange_staged cfg caller idem op_id exchange_now p s db (ok staged) =
      after_exchange caller op_id p.details staged db (
        exchange cfg exchange_now idem idem (forms_of p.tokens)
          (spec (record {
            amount_mc = Value.int (pos p.details.net_mc);
            secret_hash = Value.str p.details.custody_hash;
            secret = Value.null;
            lock = no_lock;
          })
            ∷ [])
          db)
  exchange_staged cfg caller idem op_id exchange_now p s db _ = (internal, s, db)

  -- A request that is refused has staged nothing.
  unfoldable pub exchange_priced :
      Config
      → Text
      → Text
      → Text
      → Bytes
      → ℕ
      → Bridge
      → Db
      → Answer Priced
      → Answer DepositReply × Bridge × Db
  exchange_priced cfg caller idem op_id custody_secret exchange_now s db (ok p) =
      exchange_staged cfg caller idem op_id exchange_now p s db
        (add_custody p.details.custody_hash custody_secret op_id caller p.details s)
  exchange_priced cfg caller idem op_id custody_secret exchange_now s db (rejected r) =
      (rejected r, s, db)
  exchange_priced cfg caller idem op_id custody_secret exchange_now s db _ = (internal, s, db)

  unfoldable pub agent_deposit :
      Config
      → Text
      → Text
      → Fields
      → ℕ
      → ℕ
      → Bytes
      → Text
      → Text
      → Bridge
      → Db
      → Answer DepositReply × Bridge × Db
  agent_deposit cfg mint_id caller body now exchange_now custody_secret idem op_id s db =
      exchange_priced cfg caller idem op_id custody_secret exchange_now s db
        (price_deposit cfg mint_id body now custody_secret)
