-- ===== src/Supervision/Booking.antt =====
-- impl/aicash/supervision.py: the journal explains every balance. What a booking of one line keeps.
use ai_cash.Prelude.{ℕ, ◌+◌, ◌≡◌, true, false, List, ◌∷◌, arith, All, is_some, ◌&&◌}
use ai_cash.Prelude.Int.{pos, pos_part, neg_part, ◌≤ℤ◌, +ℤ_parts, -ℤ_parts}
use ai_cash.Prelude.Text.{Text, text_eq, text_eq_refl, text_ne_symm}
use ai_cash.Ledger.Table.{Table, lookup, IsUnique}
use ai_cash.Supervision.{Agent, Line, is_debit, is_credit, Books, empty_books}
use ai_cash.Supervision.Accounts.{sum_lines, of_agent, debits_lifetime, take_from, give_to}
use ai_cash.Supervision.Rows.{Rows}

unfoldable pub credits_lifetime : Text → List Line → ℕ
credits_lifetime id = sum_lines (λ (l : Line). of_agent id l && is_credit l.kind)

-- The balance is the credits of the journal less its debits.
abbrev pub IsBooked : List Line → Text → Agent → Type 0
IsBooked lines id a =
    pos_part a.balance_mc + debits_lifetime id lines
    ≡ neg_part a.balance_mc + credits_lifetime id lines

abbrev pub IsSolvent : Text → Agent → Type 0
IsSolvent id a = pos 0 ≤ℤ a.balance_mc

abbrev pub IsOwned : Table Agent → Line → Type 0
IsOwned agents l = is_some (lookup l.agent_id agents) ≡ true

-- What holds of the tables between calls: the ids are unique, every balance is what the journal says
-- and not below zero, and every line is that of an agent.
pub record IsSound (b : Books) : Type 0 where
  pub unique : IsUnique b.agents
  pub booked : Rows (IsBooked b.lines) b.agents
  pub solvent : Rows IsSolvent b.agents
  pub owned : All (IsOwned b.agents) b.lines

pub empty_books-IsSound : IsSound empty_books
empty_books-IsSound = record { unique = tt; booked = tt; solvent = tt; owned = tt }

-- A line of another agent.
pub IsBooked-other :
    (l : Line) (lines : List Line) (j : Text) (a : Agent)
    → text_eq l.agent_id j ≡ false
    → IsBooked lines j a
    → IsBooked (l ∷ lines) j a
unfolding debits_lifetime credits_lifetime sum_lines
IsBooked-other l lines j a ne h = ground (arith, text_ne_symm l.agent_id j ne)

pub IsBooked-take_from :
    (l : Line) (lines : List Line) (a : Agent)
    → is_debit l.kind ≡ true
    → is_credit l.kind ≡ false
    → IsBooked lines l.agent_id a
    → IsBooked (l ∷ lines) l.agent_id (take_from l.amount_mc a)
unfolding debits_lifetime credits_lifetime sum_lines take_from
IsBooked-take_from l lines a d c h =
    ground (arith, text_eq_refl l.agent_id, -ℤ_parts a.balance_mc (pos l.amount_mc))

pub IsBooked-give_to :
    (l : Line) (lines : List Line) (a : Agent)
    → is_debit l.kind ≡ false
    → is_credit l.kind ≡ true
    → IsBooked lines l.agent_id a
    → IsBooked (l ∷ lines) l.agent_id (give_to l.amount_mc a)
unfolding debits_lifetime credits_lifetime sum_lines give_to
IsBooked-give_to l lines a d c h =
    ground (arith, text_eq_refl l.agent_id, +ℤ_parts a.balance_mc (pos l.amount_mc))

-- A line with no amount books nothing.
pub IsBooked-zero :
    (l : Line) (lines : List Line) (j : Text) (a : Agent)
    → l.amount_mc ≡ 0
    → IsBooked lines j a
    → IsBooked (l ∷ lines) j a
unfolding debits_lifetime credits_lifetime sum_lines
IsBooked-zero l lines j a z h = ground arith
