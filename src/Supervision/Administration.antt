-- ===== src/Supervision/Administration.antt =====
-- impl/aicash/supervision.py: the operator's routes, and an agent's view of its balance. The ids and
-- the keys come from `os.urandom`: they are arguments.
use ai_cash.Prelude.{
  ◌≡◌, ℕ, Bool, false, ◌||◌, not, Option, none, some, List, [], ◌∷◌, if◌then◌else◌,
}
use ai_cash.Prelude.Int.{pos}
use ai_cash.Prelude.Text.{Text, text_eq, codes}
use ai_cash.Codec.Key.{Hash}
use ai_cash.Codec.Value.{Value, Fields, get}
use ai_cash.Ledger.Table.{Table, insert_row}
use ai_cash.Supervision.{
  Operator, Agent, freeze, unfreeze, Books, Unicode, Answer, ok, rejected, unknown_agent, forbidden,
  internal, ◌>>=◌, or_internal, or_reject, bad_format, plain_text, natural_int, hour_ms, day_ms,
}
use ai_cash.Supervision.Access.{Principal, operator, agent, key_digest}
use ai_cash.Supervision.Accounts.{find_agent, operator_agent, debits_within, debits_lifetime, line}
use ai_cash.Supervision.Rows.{update_row}

abbrev pub non_empty_text : Option Text → Option Text
non_empty_text none = none
non_empty_text (some []) = none
non_empty_text (some (c ∷ s)) = some (c ∷ s)

-- `key_sha256` is unique as well as the id.
unfoldable pub operator_digest_taken : Text → Table Operator → Bool
operator_digest_taken d [] = false
operator_digest_taken d ((k, o) ∷ t) = text_eq d o.key_sha256 || operator_digest_taken d t

unfoldable pub agent_digest_taken : Text → Table Agent → Bool
agent_digest_taken d [] = false
agent_digest_taken d ((k, a) ∷ t) = text_eq d a.key_sha256 || agent_digest_taken d t

abbrev pub fresh_agent : Text → Text → Text → ℕ → Agent
fresh_agent operator_id name digest now = record {
  operator_id = operator_id;
  name = name;
  key_sha256 = digest;
  balance_mc = pos 0;
  frozen = false;
  no_bearer_withdrawal = false;
  cap_per_hour_mc = none;
  cap_per_day_mc = none;
  cap_absolute_mc = none;
  created_at = now;
}

module _ ⦃hash : Hash⦄ ⦃unicode : Unicode⦄ where
  unfoldable pub insert_operator : Text → Text → Text → ℕ → Books → Answer Books
  insert_operator id key name now b =
      if operator_digest_taken (key_digest key) b.operators then internal else do
        operators ← or_internal (
            insert_row id (record { name = name; key_sha256 = key_digest key; created_at = now })
              b.operators)
        ok (record b { operators = operators })

  -- The answer has the id and the key.
  unfoldable pub op_register : Fields → ℕ → Text → Text → Books → Answer ((Text × Text) × Books)
  op_register body now id key b = do
    name ← or_reject (non_empty_text (plain_text (get (codes "operator_name") body))) bad_format
    b' ← insert_operator id key name now b
    ok ((id, key), b')

  unfoldable pub op_agents :
      Text → Fields → ℕ → Text → Text → Books → Answer ((Text × Text) × Books)
  op_agents operator_id body now id key b = do
    name ← or_reject (non_empty_text (plain_text (get (codes "agent_name") body))) bad_format
    agents ←
        (if agent_digest_taken (key_digest key) b.agents
          then internal
          else or_internal
              (insert_row id (fresh_agent operator_id name (key_digest key) now) b.agents))
    ok ((id, key), record b { agents = agents })

-- A cap: absent and null are no cap.
unfoldable pub read_cap : Option Value → Answer (Option ℕ)
read_cap none = ok none
read_cap (some Value.null) = ok none
read_cap (some v) = elim (natural_int (some v)) [
  | none ↦ rejected bad_format
  | some n ↦ ok (some n)
]

unfoldable pub set_caps : Option ℕ → Option ℕ → Option ℕ → Agent → Agent
set_caps per_hour per_day absolute a = record a {
  cap_per_hour_mc = per_hour;
  cap_per_day_mc = per_day;
  cap_absolute_mc = absolute;
}

abbrev pub or_unknown {ℓ} : {A : Type ℓ} → Option A → Answer A
or_unknown none = unknown_agent
or_unknown (some a) = ok a

pub or_unknown-eq-ok {ℓ} : {A : Type ℓ} (o : Option A) {a : A} → or_unknown o ≡ ok a → o ≡ some a
or_unknown-eq-ok none h = cc
or_unknown-eq-ok (some x) h = cc

-- The rows that a freeze changes, out of those that it names: the ids whose state differs.
unfoldable pub to_change : Bool → List (Text × Agent) → List Text
to_change frozen [] = []
to_change frozen ((id, a) ∷ rows) =
    let rest = to_change frozen rows in
    if (if frozen then a.frozen else not a.frozen) then rest else id ∷ rest

unfoldable pub of_operator : Text → Table Agent → List (Text × Agent)
of_operator operator_id [] = []
of_operator operator_id ((k, a) ∷ t) =
    let rest = of_operator operator_id t in
    if text_eq a.operator_id operator_id then (k, a) ∷ rest else rest

-- The update and the amount-0 line of each changed row.
unfoldable pub freeze_rows : Bool → ℕ → List Text → Books → Books
freeze_rows frozen now [] b = b
freeze_rows frozen now (id ∷ ids) b = freeze_rows frozen now ids (record b {
  agents = update_row id (λ (a : Agent). record a { frozen = frozen }) b.agents;
  lines = line id now (if frozen then freeze else unfreeze) 0 none [] ∷ b.lines;
})

abbrev pub is_all : Option Value → Bool
is_all (some (Value.str s)) = text_eq s (codes "ALL")
is_all _ = false

module _ ⦃unicode : Unicode⦄ where
  unfoldable pub op_caps : Text → Fields → Books → Answer (Text × Books)
  op_caps operator_id body b = do
    (id, _) ← or_unknown (operator_agent operator_id (get (codes "agent_id") body) b.agents)
    per_hour ← read_cap (get (codes "per_hour_mc") body)
    per_day ← read_cap (get (codes "per_day_mc") body)
    absolute ← read_cap (get (codes "absolute_mc") body)
    ok (id, record b { agents = update_row id (set_caps per_hour per_day absolute) b.agents })

  -- The rows that a freeze names. `ORDER BY agent_id` orders the answer and the lines of one instant.
  unfoldable pub freeze_targets : Text → Option Value → Table Agent → Answer (List (Text × Agent))
  freeze_targets operator_id target agents =
      if is_all target
      then ok (of_operator operator_id agents)
      else (or_unknown (operator_agent operator_id target agents) >>= λ row. ok (row ∷ []))

  -- `_set_frozen`; `op_freeze` and `op_unfreeze` are its two cases. The answer has the changed ids.
  unfoldable pub set_frozen : Bool → Text → Fields → ℕ → Books → Answer (List Text × Books)
  set_frozen frozen operator_id body now b = do
    rows ← freeze_targets operator_id (get (codes "agent_id") body) b.agents
    ok (to_change frozen rows, freeze_rows frozen now (to_change frozen rows) b)

  unfoldable pub op_flags : Text → Fields → Books → Answer ((Text × Bool) × Books)
  op_flags operator_id body b = do
    (id, _) ← or_unknown (operator_agent operator_id (get (codes "agent_id") body) b.agents)
    flag ←
        or_reject
          (elim (get (codes "no_bearer_withdrawal") body) [
            | none ↦ none
            | some v ↦ elim v [ Value.bool f ↦ some f | _ ↦ none ]
          ])
          bad_format
    ok (
      (id, flag),
      record b {
        agents = update_row id (λ (a : Agent). record a { no_bearer_withdrawal = flag }) b.agents;
      },
    )

-- What `agent_balance` answers: the row, and the trailing debits of an hour, of a day and of all.
pub record BalanceView : Type 0 where
  pub agent_id : Text
  pub row : Agent
  pub trailing_hour_mc : ℕ
  pub trailing_day_mc : ℕ
  pub lifetime_mc : ℕ

abbrev pub balance_view : ℕ → Books → Text × Agent → BalanceView
balance_view now b (id, a) = record {
  agent_id = id;
  row = a;
  trailing_hour_mc = debits_within id now hour_ms b.lines;
  trailing_day_mc = debits_within id now day_ms b.lines;
  lifetime_mc = debits_lifetime id b.lines;
}

module _ ⦃unicode : Unicode⦄ where
  -- Whose balance is asked for; the parameter of the query is a text.
  unfoldable pub viewed : Principal → Option Text → Books → Answer (Text × Agent)
  viewed (agent id) none b = or_internal (find_agent (some (Value.str id)) b.agents)
  viewed (agent id) (some asked) b =
      if text_eq asked id
      then or_internal (find_agent (some (Value.str id)) b.agents)
      else forbidden
  viewed (operator id) none b = rejected bad_format
  viewed (operator id) (some asked) b =
      or_unknown (operator_agent id (some (Value.str asked)) b.agents)

  unfoldable pub agent_balance : Principal → Option Text → ℕ → Books → Answer BalanceView
  agent_balance principal asked now b =
      viewed principal asked b >>= λ found. ok (balance_view now b found)
