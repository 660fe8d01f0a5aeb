-- ===== src/Supervision/Statement/Checks.antt =====
-- impl/aicash/supervision.py, `op_statement`: over sound tables no check of a statement fails.
use ai_cash.Supervision.Targets.{operator_agent-eq-some}
use ai_cash.Supervision.Rows.{Rows-lookup, Rows}
use ai_cash.Supervision.Administration.{or_unknown-eq-ok, or_unknown, of_operator}
use ai_cash.Ledger.Table.{IsUnique, Table, lookup}
use ai_cash.Supervision.Booking.{IsSound, IsBooked}
use ai_cash.Supervision.Statement.Sums.{
  debits_of-period, credits_of-period, sum_nil, booked_sum, sum-add_period_lines, distinct_ids,
}
use ai_cash.Supervision.Accounts.{operator_agent, sum_lines}
use ai_cash.Prelude.Text.{codes, text_eq, text_mem, Text}
use ai_cash.Prelude.{
  ℕ, ◌+◌, ◌≤◌, ◌≡◌, ◌≢◌, refl, sym, subst, Bool, true, false, Option, none, List, [], ◌∷◌, arith,
  ◌||◌, All, Bool-cases, inl, inr,
}
use ai_cash.Prelude.Int.{
  sub_ℕ_parts, ℤ, pos, pos_part, neg_part, ◌-ℤ◌, -ℤ_parts, eq_of_parts, sub_ℕ, eqb_ℤ_iff, ltb_ℤ,
}
use ai_cash.Supervision.{
  Reason, rejected, unknown_agent, forbidden, unauthorized, >>=-eq-ok, ok-injective,
  reject_if-eq-ok, reject_if, Unicode, is_debit, is_credit, Agent, Line, Books, Answer, ok,
  internal, ◌>>=◌, bad_format,
}
use ai_cash.Supervision.Statement.{
  named_agent, asks_fleet, read_scope, read_instant, op_statement, Span, sum_balances, ids_of,
  scope_of, add_period_lines, checked_statement, balance_from_lines, Scope, before, through, always,
  credits_of, debits_of,
}

-- A scope of rows that each stand once and that the journal explains.
record Scoped (lines : List Line) (s : Scope) : Type 0 where
  name : Text
  rows : List (Text × Agent)
  same : s ≡ scope_of name rows
  distinct : distinct_ids rows ≡ true
  booked : All (λ (row : Text × Agent). IsBooked lines row.0 row.1) rows

balance_parts :
    (ids : List Text) (span : Span) (lines : List Line)
    → pos_part (balance_from_lines ids span lines) + debits_of ids span lines
      ≡ neg_part (balance_from_lines ids span lines) + credits_of ids span lines
unfolding balance_from_lines
balance_parts ids span lines = sub_ℕ_parts (credits_of ids span lines) (debits_of ids span lines)

period_adds_up :
    (ids : List Text) (from to : ℕ) (lines : List Line)
    → from ≤ to
    → sub_ℕ
        (sum_lines (λ (l : Line). is_credit l.kind) (add_period_lines ids from to lines []))
        (sum_lines (λ (l : Line). is_debit l.kind) (add_period_lines ids from to lines []))
      ≡ balance_from_lines ids (through to) lines -ℤ balance_from_lines ids (before from) lines
period_adds_up ids from to lines le =
    let opening = balance_from_lines ids (before from) lines in
    let closing = balance_from_lines ids (through to) lines in
    let period = add_period_lines ids from to lines [] in
    let cs = sum_lines (λ (l : Line). is_credit l.kind) period in
    let ds = sum_lines (λ (l : Line). is_debit l.kind) period in
    eq_of_parts (sub_ℕ cs ds) (closing -ℤ opening) (
      omega (
        arith,
        -ℤ_parts closing opening,
        balance_parts ids (before from) lines,
        balance_parts ids (through to) lines,
        sub_ℕ_parts cs ds,
        sum-add_period_lines (λ (l : Line). is_credit l.kind) ids from to lines [],
        sum-add_period_lines (λ (l : Line). is_debit l.kind) ids from to lines [],
        sum_nil (λ (l : Line). is_credit l.kind),
        sum_nil (λ (l : Line). is_debit l.kind),
        credits_of-period ids from to lines le,
        debits_of-period ids from to lines le,
      ))

balance_agrees :
    (name : Text) (rows : List (Text × Agent)) (lines : List Line)
    → distinct_ids rows ≡ true
    → All (λ (row : Text × Agent). IsBooked lines row.0 row.1) rows
    → balance_from_lines (ids_of rows) always lines ≡ sum_balances rows
balance_agrees name rows lines d r =
    eq_of_parts (balance_from_lines (ids_of rows) always lines) (sum_balances rows)
      (omega (arith, balance_parts (ids_of rows) always lines, booked_sum rows lines d r))

checked_statement_succeeds :
    (operator_id : Text) (s : Scope) (from to : ℕ) (lines : List Line)
    → from ≤ to
    → Scoped lines s
    → checked_statement operator_id s from to lines (add_period_lines s.ids from to lines [])
      ≢ internal
unfolding checked_statement
checked_statement_succeeds operator_id s from to lines le c h =
    let agrees : balance_from_lines s.ids always lines ≡ s.stored_balance =
      subst (λ (x : Scope). balance_from_lines x.ids always lines ≡ x.stored_balance) (sym c.same)
        (unfold scope_of in balance_agrees c.name c.rows lines c.distinct c.booked) in
    ground (
      arith,
      (eqb_ℤ_iff _ _).1 (period_adds_up s.ids from to lines le),
      (eqb_ℤ_iff _ _).1 agrees,
      h,
    )

distinct_one : (row : Text × Agent) → distinct_ids (row ∷ []) ≡ true
unfolding distinct_ids ids_of text_mem
distinct_one (k, a) = refl

not_listed :
    (operator_id k : Text) (t : Table Agent)
    → lookup k t ≡ none
    → text_mem k (ids_of (of_operator operator_id t)) ≡ false
unfolding lookup of_operator ids_of text_mem
not_listed operator_id k [] absent = refl
not_listed operator_id k ((j, a) ∷ t) absent = ground (arith, not_listed operator_id k t)

distinct_of_operator :
    (operator_id : Text) (t : Table Agent)
    → IsUnique t
    → distinct_ids (of_operator operator_id t) ≡ true
unfolding distinct_ids of_operator
distinct_of_operator operator_id [] u = refl
distinct_of_operator operator_id ((k, a) ∷ t) (absent, u) =
    let rest = distinct_of_operator operator_id t u in
    elim (Bool-cases (text_eq a.operator_id operator_id)) [
      | inl e ↦ rw (e, not_listed operator_id k t absent) rest
      | inr e ↦ rw e rest
    ]

IsBooked-of_operator :
    (operator_id : Text) (lines : List Line) (t : Table Agent)
    → Rows (IsBooked lines) t
    → All (λ (row : Text × Agent). IsBooked lines row.0 row.1) (of_operator operator_id t)
unfolding of_operator
IsBooked-of_operator operator_id lines [] r = tt
IsBooked-of_operator operator_id lines ((k, a) ∷ t) (p, r) =
    let rest = IsBooked-of_operator operator_id lines t r in
    elim (Bool-cases (text_eq a.operator_id operator_id)) [
      | inl e ↦ rw e (p, rest)
      | inr e ↦ rw e rest
    ]

bind-ne-internal {ℓ κ} :
    {A : Type ℓ} {B : Type κ} (m : Answer A) (f : A → Answer B)
    → m ≢ internal
    → ((a : A) → m ≡ ok a → f a ≢ internal)
    → (m >>= f) ≢ internal
bind-ne-internal (ok a) f h g = g a refl
bind-ne-internal (rejected r) f h g = λ e. cc
bind-ne-internal unknown_agent f h g = λ e. cc
bind-ne-internal forbidden f h g = λ e. cc
bind-ne-internal unauthorized f h g = λ e. cc
bind-ne-internal internal f h g = λ e. h refl

module _ ⦃unicode : Unicode⦄ where
  read_scope-Scoped :
      (operator_id : Text) (agent_param : Option Text) (b : Books) (s : Scope)
      → IsSound b
      → read_scope operator_id agent_param b.agents ≡ ok s
      → Scoped b.lines s
  unfolding read_scope
  read_scope-Scoped operator_id agent_param b s sound h =
      elim (Bool-cases (asks_fleet agent_param)) [
        | inl e ↦ record {
          name = codes "fleet";
          rows = of_operator operator_id b.agents;
          same = sym (ok-injective (rw e at h));
          distinct = distinct_of_operator operator_id b.agents sound.unique;
          booked = IsBooked-of_operator operator_id b.lines b.agents sound.booked;
        }
        | inr e ↦
            let found = operator_agent operator_id (named_agent agent_param) b.agents in
            let (row, f, g) = >>=-eq-ok (or_unknown found) _ (rw e at h) in
            record {
              name = row.0;
              rows = row ∷ [];
              same = sym (ok-injective g);
              distinct = distinct_one row;
              booked = (
                Rows-lookup (IsBooked b.lines) row.0 row.1 b.agents sound.booked (
                    operator_agent-eq-some operator_id (named_agent agent_param) b.agents row
                      (or_unknown-eq-ok found f)),
                tt,
              );
            }
      ]

  read_scope-ne-internal :
      (operator_id : Text) (agent_param : Option Text) (agents : Table Agent)
      → read_scope operator_id agent_param agents ≢ internal
  unfolding read_scope
  read_scope-ne-internal operator_id agent_param agents h = ground (arith, h)

  read_instant-ne-internal : (n : Option ℤ) → read_instant n ≢ internal
  unfolding read_instant
  read_instant-ne-internal n h = ground (arith, h)

  reject_if-ne-internal : (t : Bool) (r : Reason) → reject_if t r ≢ internal
  reject_if-ne-internal t r h = ground (arith, h)

  -- Over sound tables a statement is never answered with the failure of a check: the credits and
  -- debits of its period add up to the change of the balance, and the journal to the stored balance.
  pub op_statement_never_fails :
      (operator_id : Text) (from to : Option ℤ) (agent_param : Option Text) (b : Books)
      → IsSound b
      → op_statement operator_id from to agent_param b ≢ internal
  unfolding op_statement
  op_statement_never_fails operator_id from to agent_param b sound =
      bind-ne-internal (read_instant from) _ (read_instant-ne-internal from) (λ t_from _.
        bind-ne-internal (read_instant to) _ (read_instant-ne-internal to) (λ t_to _.
          let backward = ltb_ℤ t_from (pos 0) || ltb_ℤ t_to t_from in
          bind-ne-internal (reject_if backward bad_format) _
            (reject_if-ne-internal backward bad_format)
            (λ u e.
              bind-ne-internal (read_scope operator_id agent_param b.agents) _
                (read_scope-ne-internal operator_id agent_param b.agents)
                (λ s f.
                  checked_statement_succeeds operator_id s (pos_part t_from) (pos_part t_to) b.lines
                    (ground (arith, reject_if-eq-ok backward bad_format e))
                    (read_scope-Scoped operator_id agent_param b s sound f)))))
