-- ===== src/Supervision/Statement/Sums.antt =====
-- impl/aicash/supervision.py, `op_statement`: the sums over the journal, by period and by account.
use ai_cash.Supervision.Booking.{IsBooked, credits_lifetime}
use ai_cash.Supervision.Statement.{
  ids_of, sum_balances, before, through, always, through, in_span, debits_of, credits_of,
  add_period_lines,
}
use ai_cash.Supervision.Accounts.{debits_lifetime, sum_lines}
use ai_cash.Prelude.Text.{text_ne_symm, text_eq_iff, text_eq, text_mem, Text}
use ai_cash.Prelude.{
  not, ℕ, ◌+◌, ◌≤◌, ◌≡◌, refl, ◌∙◌, subst, Bool, true, false, List, [], ◌∷◌, arith, ◌&&◌, leb, All,
  Bool-cases, inl, inr,
}
use ai_cash.Prelude.Int.{pos_part, neg_part, +ℤ_parts}
use ai_cash.Supervision.{is_debit, is_credit, Agent, Line}

abbrev in_period : List Text → ℕ → ℕ → Line → Bool
in_period ids from to l = text_mem l.agent_id ids && (leb from l.t && leb l.t to)

pub sum-add_period_lines :
    (test : Line → Bool) (ids : List Text) (from to : ℕ) (lines out : List Line)
    → sum_lines test (add_period_lines ids from to lines out)
      ≡ sum_lines (λ (l : Line). in_period ids from to l && test l) lines + sum_lines test out
unfolding add_period_lines sum_lines
sum-add_period_lines test ids from to [] out = omega arith
sum-add_period_lines test ids from to (l ∷ ls) out = elim (Bool-cases (in_period ids from to l)) [
  | inl e ↦ rw e (sum-add_period_lines test ids from to ls (l ∷ out) ∙ omega arith)
  | inr e ↦ rw e (sum-add_period_lines test ids from to ls out ∙ omega arith)
]

pub sum_nil : (test : Line → Bool) → sum_lines test [] ≡ 0
unfolding sum_lines
sum_nil test = refl

-- What there was before a period, with the period, is what there is at its end.
pub credits_of-period :
    (ids : List Text) (from to : ℕ) (lines : List Line)
    → from ≤ to
    → credits_of ids (through to) lines
      ≡ credits_of ids (before from) lines
        + sum_lines (λ (l : Line). in_period ids from to l && is_credit l.kind) lines
unfolding credits_of sum_lines in_span
credits_of-period ids from to [] le = refl
credits_of-period ids from to (l ∷ ls) le = ground (arith, credits_of-period ids from to ls le)

pub debits_of-period :
    (ids : List Text) (from to : ℕ) (lines : List Line)
    → from ≤ to
    → debits_of ids (through to) lines
      ≡ debits_of ids (before from) lines
        + sum_lines (λ (l : Line). in_period ids from to l && is_debit l.kind) lines
unfolding debits_of sum_lines in_span
debits_of-period ids from to [] le = refl
debits_of-period ids from to (l ∷ ls) le = ground (arith, debits_of-period ids from to ls le)

-- The lines of an account, and those of the others.
sum_lines-mem :
    (test : Line → Bool) (k : Text) (ids : List Text) (lines : List Line)
    → text_mem k ids ≡ false
    → sum_lines (λ (l : Line). text_mem l.agent_id (k ∷ ids) && test l) lines
      ≡ sum_lines (λ (l : Line). text_eq k l.agent_id && test l) lines
        + sum_lines (λ (l : Line). text_mem l.agent_id ids && test l) lines
unfolding sum_lines text_mem
sum_lines-mem test k ids [] absent = refl
sum_lines-mem test k ids (l ∷ ls) absent = elim (Bool-cases (text_eq k l.agent_id)) [
  | inl e ↦
      let same : k ≡ l.agent_id = (text_eq_iff k l.agent_id).0 e in
      let mem = subst (λ i. text_mem i ids ≡ false) same absent in
      ground (arith, mem, text_eq_iff l.agent_id k, sum_lines-mem test k ids ls absent)
  | inr e ↦ ground (arith, text_ne_symm k l.agent_id e, sum_lines-mem test k ids ls absent)
]

credits_of-cons :
    (k : Text) (ids : List Text) (lines : List Line)
    → text_mem k ids ≡ false
    → credits_of (k ∷ ids) always lines ≡ credits_lifetime k lines + credits_of ids always lines
unfolding credits_of credits_lifetime in_span
credits_of-cons k ids lines absent =
    sum_lines-mem (λ (l : Line). is_credit l.kind) k ids lines absent

debits_of-cons :
    (k : Text) (ids : List Text) (lines : List Line)
    → text_mem k ids ≡ false
    → debits_of (k ∷ ids) always lines ≡ debits_lifetime k lines + debits_of ids always lines
unfolding debits_of debits_lifetime in_span
debits_of-cons k ids lines absent = sum_lines-mem (λ (l : Line). is_debit l.kind) k ids lines absent

no_ids :
    (test : Line → Bool) (lines : List Line)
    → sum_lines (λ (l : Line). text_mem l.agent_id [] && test l) lines ≡ 0
unfolding sum_lines text_mem
no_ids test [] = refl
no_ids test (l ∷ ls) = omega (arith, no_ids test ls)

-- Each id stands once among the rows.
unfoldable pub distinct_ids : List (Text × Agent) → Bool
distinct_ids [] = true
distinct_ids ((k, a) ∷ rows) = not (text_mem k (ids_of rows)) && distinct_ids rows

-- The stored balances of booked accounts add up to what the journal says of them together.
pub booked_sum :
    (rows : List (Text × Agent)) (lines : List Line)
    → distinct_ids rows ≡ true
    → All (λ (row : Text × Agent). IsBooked lines row.0 row.1) rows
    → pos_part (sum_balances rows) + debits_of (ids_of rows) always lines
      ≡ neg_part (sum_balances rows) + credits_of (ids_of rows) always lines
unfolding sum_balances ids_of distinct_ids debits_of credits_of in_span
booked_sum [] lines d r = omega (
  arith,
  no_ids (λ (l : Line). is_debit l.kind) lines,
  no_ids (λ (l : Line). is_credit l.kind) lines,
)
booked_sum ((k, a) ∷ rows) lines d (p, r) =
    let absent : text_mem k (ids_of rows) ≡ false = ground arith in
    rw (credits_of-cons k (ids_of rows) lines absent, debits_of-cons k (ids_of rows) lines absent)
      (omega (
        arith,
        p,
        booked_sum rows lines (ground arith) r,
        +ℤ_parts a.balance_mc (sum_balances rows),
      ))
