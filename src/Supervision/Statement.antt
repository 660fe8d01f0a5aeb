-- ===== src/Supervision/Statement.antt =====
-- impl/aicash/supervision.py, `op_statement`: the statement of a period, and the sums it is checked by.
-- The signature over it is `attach_sig`, in impl/aicash/signing.py.
pub mod Sums
pub mod Checks
use ai_cash.Prelude.{
  ℕ, ◌+◌, Bool, true, false, ◌&&◌, ◌||◌, not, Option, none, some, List, [], ◌∷◌, ltb, leb, is_some,
  if◌then◌else◌,
}
use ai_cash.Prelude.Int.{ℤ, pos, pos_part, sub_ℕ, ◌+ℤ◌, ◌-ℤ◌, ltb_ℤ, eqb_ℤ}
use ai_cash.Prelude.Text.{Text, text_eq, text_mem, codes}
use ai_cash.Codec.Value
use ai_cash.Codec.Value.{Value}
use ai_cash.Ledger.State.{storable_int}
use ai_cash.Ledger.Table.{Table}
use ai_cash.Supervision.{
  Agent, Line, LineKind, Books, Unicode, Answer, ok, rejected, unknown_agent, internal, ◌>>=◌, ◌>>◌,
  reject_if, or_reject, bad_format, is_debit, is_credit,
}
use ai_cash.Supervision.Accounts.{operator_agent, sum_lines}
use ai_cash.Supervision.Administration.{of_operator, or_unknown}

-- A bound on the instants: before one, up to one, or none.
pub data Span : Type 0 where
  before through : ℕ → Span
  always : Span

unfoldable pub in_span : Span → ℕ → Bool
in_span (before at) t = ltb t at
in_span (through at) t = leb t at
in_span always t = true

unfoldable pub credits_of : List Text → Span → List Line → ℕ
credits_of ids span =
    sum_lines (λ (l : Line). text_mem l.agent_id ids && (in_span span l.t && is_credit l.kind))

unfoldable pub debits_of : List Text → Span → List Line → ℕ
debits_of ids span =
    sum_lines (λ (l : Line). text_mem l.agent_id ids && (in_span span l.t && is_debit l.kind))

-- `_balance_from_lines`
unfoldable pub balance_from_lines : List Text → Span → List Line → ℤ
balance_from_lines ids span lines = sub_ℕ (credits_of ids span lines) (debits_of ids span lines)

-- The lines of the period, with the oldest in front.
unfoldable pub add_period_lines : List Text → ℕ → ℕ → List Line → List Line → List Line
add_period_lines ids from to [] out = out
add_period_lines ids from to (l ∷ ls) out =
    add_period_lines ids from to ls
      (if text_mem l.agent_id ids && (leb from l.t && leb l.t to) then l ∷ out else out)

-- The scope of a statement: a name, the agents and their stored balance.
pub record Scope : Type 0 where
  pub name : Text
  pub ids : List Text
  pub stored_balance : ℤ

unfoldable pub ids_of : List (Text × Agent) → List Text
ids_of [] = []
ids_of ((k, a) ∷ rows) = k ∷ ids_of rows

unfoldable pub sum_balances : List (Text × Agent) → ℤ
sum_balances [] = pos 0
sum_balances ((k, a) ∷ rows) = a.balance_mc +ℤ sum_balances rows

unfoldable pub scope_of : Text → List (Text × Agent) → Scope
scope_of name rows = record { name = name; ids = ids_of rows; stored_balance = sum_balances rows }

abbrev pub asks_fleet : Option Text → Bool
asks_fleet none = true
asks_fleet (some s) = text_eq s (codes "fleet")

pub record Statement : Type 0 where
  pub operator_id : Text
  pub scope : Text
  pub from : ℕ
  pub to : ℕ
  pub opening_balance_mc : ℤ
  pub closing_balance_mc : ℤ
  pub lines : List Line

-- The check of the partition, and that of the stored balance; a failure is a `RuntimeError`.
unfoldable pub checked_statement : Text → Scope → ℕ → ℕ → List Line → List Line → Answer Statement
checked_statement operator_id scope from to lines period =
    let opening = balance_from_lines scope.ids (before from) lines in
    let closing = balance_from_lines scope.ids (through to) lines in
    let credit_sum = sum_lines (λ (l : Line). is_credit l.kind) period in
    let debit_sum = sum_lines (λ (l : Line). is_debit l.kind) period in
    if eqb_ℤ (sub_ℕ credit_sum debit_sum) (closing -ℤ opening)
      && eqb_ℤ (balance_from_lines scope.ids always lines) scope.stored_balance
    then ok (record {
      operator_id = operator_id;
      scope = scope.name;
      from = from;
      to = to;
      opening_balance_mc = opening;
      closing_balance_mc = closing;
      lines = period;
    })
    else internal

-- A parameter of the query, read by `int`; `none` is a key that is missing or no number.
unfoldable pub read_instant : Option ℤ → Answer ℤ
read_instant none = rejected bad_format
read_instant (some n) = if storable_int n then ok n else rejected bad_format

abbrev pub named_agent : Option Text → Option Value
named_agent none = none
named_agent (some s) = some (Value.str s)

module _ ⦃unicode : Unicode⦄ where
  unfoldable pub read_scope : Text → Option Text → Table Agent → Answer Scope
  read_scope operator_id agent_param agents =
      if asks_fleet agent_param
      then ok (scope_of (codes "fleet") (of_operator operator_id agents))
      else (or_unknown (operator_agent operator_id (named_agent agent_param) agents) >>= λ row.
          ok (scope_of row.0 (row ∷ [])))

  unfoldable pub op_statement : Text → Option ℤ → Option ℤ → Option Text → Books → Answer Statement
  op_statement operator_id from to agent_param b = do
    t_from ← read_instant from
    t_to ← read_instant to
    reject_if (ltb_ℤ t_from (pos 0) || ltb_ℤ t_to t_from) bad_format
    scope ← read_scope operator_id agent_param b.agents
    checked_statement operator_id scope (pos_part t_from) (pos_part t_to) b.lines
        (add_period_lines scope.ids (pos_part t_from) (pos_part t_to) b.lines [])
