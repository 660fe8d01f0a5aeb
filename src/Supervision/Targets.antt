-- ===== src/Supervision/Targets.antt =====
-- impl/aicash/supervision.py: the rows that a route names are there.
use ai_cash.Supervision.Moves.Transfer.{find_agent-eq-some}
use ai_cash.Supervision.Rows.{Rows-self, Rows-map, Rows}
use ai_cash.Codec.Value.{Value}
use ai_cash.Supervision.Accounts.{find_agent, operator_agent}
use ai_cash.Prelude.Text.{text_eq, Text}
use ai_cash.Supervision.Administration.{
  or_unknown, or_unknown-eq-ok, is_all, freeze_targets, to_change, of_operator,
}
use ai_cash.Ledger.Table.{IsUnique, lookup, insert_row, Table}
use ai_cash.Prelude.{
  some_eq, not, ◌≡◌, refl, sym, ◌∙◌, ap, subst, Bool, true, false, Option, none, some, List, [],
  ◌∷◌, arith, is_some, All, Bool-cases, inl, inr, if◌then◌else◌, Option-cases,
}
use ai_cash.Supervision.{internal, >>=-eq-ok, ok-injective, Unicode, Agent, Answer, ok}

abbrev There : Table Agent → Text → Type 0
There agents id = is_some (lookup id agents) ≡ true

of_operator-There :
    (operator_id : Text) (t agents : Table Agent)
    → Rows (λ k a. There agents k) t
    → All (λ (row : Text × Agent). There agents row.0) (of_operator operator_id t)
unfolding of_operator
of_operator-There operator_id [] agents r = tt
of_operator-There operator_id ((k, a) ∷ t) agents (p, r) =
    elim (Bool-cases (text_eq a.operator_id operator_id)) [
      | inl e ↦ rw e (p, of_operator-There operator_id t agents r)
      | inr e ↦ rw e (of_operator-There operator_id t agents r)
    ]

pub to_change-There :
    (frozen : Bool) (rows : List (Text × Agent)) (agents : Table Agent)
    → All (λ (row : Text × Agent). There agents row.0) rows
    → All (There agents) (to_change frozen rows)
unfolding to_change
to_change-There frozen [] agents r = tt
to_change-There frozen ((id, a) ∷ rows) agents (p, r) =
    elim (Bool-cases (if frozen then a.frozen else not a.frozen)) [
      | inl e ↦ rw e (to_change-There frozen rows agents r)
      | inr e ↦ rw e (p, to_change-There frozen rows agents r)
    ]

pub insert_row-eq-some :
    {V : Type 0} (k : Text) (v : V) (t t' : Table V)
    → insert_row k v t ≡ some t'
    → (lookup k t ≡ none) × (t' ≡ (k, v) ∷ t)
unfolding insert_row
insert_row-eq-some k v t t' h = elim (Option-cases (lookup k t)) [
  | inl e ↦ (e, some_eq (sym h ∙ rw e refl))
  | inr (w, e) ↦ cc
]

module _ ⦃unicode : Unicode⦄ where
  pub operator_agent-eq-some :
      (operator_id : Text) (v : Option Value) (agents : Table Agent) (row : Text × Agent)
      → operator_agent operator_id v agents ≡ some row
      → lookup row.0 agents ≡ some row.1
  unfolding operator_agent
  operator_agent-eq-some operator_id v agents row h = elim (Option-cases (find_agent v agents)) [
    | inl e ↦ absurd (ground (arith, e))
    | inr (found, e) ↦ elim (Bool-cases (text_eq found.1.operator_id operator_id)) [
      | inl f ↦
          let same : found ≡ row = ground (arith, e, f) in
          (find_agent-eq-some v agents row.0 row.1 (e ∙ ap some same)).1
      | inr f ↦ absurd (ground (arith, e, f))
    ]
  ]

  pub freeze_targets-There :
      (operator_id : Text) (target : Option Value) (agents : Table Agent)
      (rows : List (Text × Agent))
      → IsUnique agents
      → freeze_targets operator_id target agents ≡ ok rows
      → All (λ (row : Text × Agent). There agents row.0) rows
  unfolding freeze_targets
  freeze_targets-There operator_id target agents rows u h = elim (Bool-cases (is_all target)) [
    | inl e ↦
        subst (λ r. All (λ (row : Text × Agent). There agents row.0) r) (ok-injective (rw e at h))
          (of_operator-There operator_id agents agents (
            Rows-map (λ k a. lookup k agents ≡ some a) (λ k a. There agents k) agents
              (λ k a f. ap is_some f) (Rows-self agents u)))
    | inr e ↦
        let (row, f, g) =
          >>=-eq-ok (or_unknown (operator_agent operator_id target agents)) _ (rw e at h) in
        subst (λ r. All (λ (row : Text × Agent). There agents row.0) r) (ok-injective g)
          (
            ap is_some (
                operator_agent-eq-some operator_id target agents row
                  (or_unknown-eq-ok (operator_agent operator_id target agents) f)),
            tt,
          )
  ]

pub not_internal {ℓ} :
    {A : Type ℓ} (t : Bool) (m : Answer A) {a : A} → (if t then internal else m) ≡ ok a → m ≡ ok a
not_internal true m h = cc
not_internal false m h = h
