-- ===== src/Supervision/Withdrawal/Sound.antt =====
-- impl/aicash/supervision.py: what a withdrawal that is finalized leaves of the accounts and the
-- journal.
use ai_cash.Prelude.{
  [], none, ◌+◌, ◌≡◌, refl, ◌∙◌, ap, false, some, List, arith, All, All-map, is_some, Bool-cases,
  inl, inr, ◌==◌,
}
use ai_cash.Prelude.Int.{pos, ◌≤ℤ◌, -ℤ_parts}
use ai_cash.Prelude.Text.{Text, text_eq, text_eq_refl, text_ne_symm}
use ai_cash.Ledger.Table.{lookup}
use ai_cash.Supervision.{Agent, Line, Books, is_debit, is_credit, withdrawal, burn}
use ai_cash.Supervision.Accounts.{line, take_from, debits_lifetime, sum_lines}
use ai_cash.Supervision.Booking.{IsBooked, IsSolvent, IsOwned, IsSound, credits_lifetime}
use ai_cash.Supervision.Rows.{
  Rows-update, Rows-update_found, update_row, update-IsUnique, is_some-update,
}
use ai_cash.Supervision.Moves.Sound.{take_from-IsSolvent}
use ai_cash.Supervision.Custody.{Bridge, WithdrawDetails}
use ai_cash.Supervision.Withdrawal.{withdraw_lines, finalize_withdraw, Planned}

withdraw_lines-IsBooked :
    (id : Text) (d : WithdrawDetails) (lines : List Line) (a : Agent)
    → d.gross_mc ≡ d.total_out_mc + d.burn_mc
    → IsBooked lines id a
    → IsBooked (withdraw_lines id d lines) id (take_from d.gross_mc a)
unfolding withdraw_lines debits_lifetime credits_lifetime sum_lines take_from is_debit is_credit
withdraw_lines-IsBooked id d lines a g h =
    ground (arith, text_eq_refl id, -ℤ_parts a.balance_mc (pos d.gross_mc))

withdraw_lines-other :
    (id : Text) (d : WithdrawDetails) (lines : List Line) (j : Text) (a : Agent)
    → text_eq id j ≡ false
    → IsBooked lines j a
    → IsBooked (withdraw_lines id d lines) j a
unfolding withdraw_lines debits_lifetime credits_lifetime sum_lines
withdraw_lines-other id d lines j a ne h = ground (arith, text_ne_symm id j ne)

withdraw_lines-IsOwned :
    (id : Text) (d : WithdrawDetails) (P : Line → Type 0) (lines : List Line)
    → ((l : Line) → l.agent_id ≡ id → P l)
    → All P lines
    → All P (withdraw_lines id d lines)
unfolding withdraw_lines
withdraw_lines-IsOwned id d P lines own rest = elim (Bool-cases (d.burn_mc == 0)) [
  | inl e ↦ rw e (own (line id d.t withdrawal d.total_out_mc none []) refl, rest)
  | inr e ↦ rw e (
    own (line id d.t burn d.burn_mc none []) refl,
    (own (line id d.t withdrawal d.total_out_mc none []) refl, rest),
  )
]

-- What a plan has to say for the withdrawal that it prices to be sound.
pub record Covered (b : Books) (caller : Text) (p : Planned) : Type 0 where
  pub found : lookup caller b.agents ≡ some p.agent
  pub gross : p.details.gross_mc ≡ p.details.total_out_mc + p.details.burn_mc
  pub funded : pos p.details.gross_mc ≤ℤ p.agent.balance_mc

pub finalize_withdraw-IsSound :
    (op_id caller : Text) (p : Planned) (s : Bridge)
    → Covered s.books caller p
    → IsSound s.books
    → IsSound (finalize_withdraw op_id caller p.details s).books
unfolding finalize_withdraw
finalize_withdraw-IsSound op_id caller p s c sound =
    let f = take_from p.details.gross_mc in
    let b = s.books in
    let there = λ (j : Text). is_some-update j caller f b.agents in
    record {
      unique = update-IsUnique caller f b.agents sound.unique;
      booked =
          Rows-update (IsBooked b.lines) (IsBooked (withdraw_lines caller p.details b.lines)) caller
            f b.agents (λ v h. withdraw_lines-IsBooked caller p.details b.lines v c.gross h)
            (λ j v ne h. withdraw_lines-other caller p.details b.lines j v ne h) sound.booked;
      solvent =
          Rows-update_found IsSolvent IsSolvent caller f b.agents p.agent sound.unique c.found
            (λ h. take_from-IsSolvent caller p.agent p.details.gross_mc c.funded) (λ j v ne h. h)
            sound.solvent;
      owned =
          withdraw_lines-IsOwned caller p.details (IsOwned (update_row caller f b.agents)) b.lines
            (λ l same.
              there l.agent_id ∙ ap (λ k. is_some (lookup k b.agents)) same ∙ ap is_some c.found)
            (All-map (IsOwned b.agents) (IsOwned (update_row caller f b.agents)) b.lines
              (λ k h. there k.agent_id ∙ h) sound.owned);
    }
