-- ===== src/Supervision/Moves/Sound.antt =====
-- impl/aicash/supervision.py: a move of value between two accounts keeps the tables sound.
use ai_cash.Prelude.{ℕ, ◌≡◌, ◌∙◌, ap, true, false, some, ◌∷◌, arith, All-map, is_some}
use ai_cash.Prelude.Int.{pos, ◌≤ℤ◌, +ℤ_parts, -ℤ_parts}
use ai_cash.Prelude.Text.{Text}
use ai_cash.Ledger.Table.{lookup}
use ai_cash.Supervision.{Agent, Line, LineKind, is_debit, is_credit, Books}
use ai_cash.Supervision.Accounts.{line, take_from, give_to, move_agents, move_lines}
use ai_cash.Supervision.Booking.{
  IsBooked, IsSolvent, IsOwned, IsSound, IsBooked-other, IsBooked-take_from, IsBooked-give_to,
}
use ai_cash.Supervision.Moves.{move}
use ai_cash.Supervision.Rows.{
  Rows, Rows-update, Rows-update_found, update_row, update-IsUnique, is_some-update,
}

pub take_from-IsSolvent :
    (k : Text) (a : Agent) (amount : ℕ)
    → pos amount ≤ℤ a.balance_mc
    → IsSolvent k (take_from amount a)
unfolding take_from
take_from-IsSolvent k a amount h = omega (arith, h, -ℤ_parts a.balance_mc (pos amount))

pub give_to-IsSolvent :
    (k : Text) (a : Agent) (amount : ℕ) → IsSolvent k a → IsSolvent k (give_to amount a)
unfolding give_to
give_to-IsSolvent k a amount h = omega (arith, h, +ℤ_parts a.balance_mc (pos amount))

module _ (b : Books) (now : ℕ) (out in_ : LineKind) (from to : Text) (amount : ℕ) (ref : Text)
    (sender target : Agent) (debits : is_debit out ≡ true) (no_credit : is_credit out ≡ false)
    (no_debit : is_debit in_ ≡ false) (credits : is_credit in_ ≡ true)
    (sent : lookup from b.agents ≡ some sender) (received : lookup to b.agents ≡ some target)
    (funded : pos amount ≤ℤ sender.balance_mc) (s : IsSound b) where
  l_from : Line
  l_from = line from now out amount (some to) ref

  l_to : Line
  l_to = line to now in_ amount (some from) ref

  move_agents-IsBooked :
      Rows
        (IsBooked (move_lines now out in_ from to amount ref b.lines))
        (move_agents from to amount b.agents)
  unfolding move_agents move_lines l_from l_to
  move_agents-IsBooked =
      Rows-update (IsBooked (l_from ∷ b.lines)) (IsBooked (l_to ∷ l_from ∷ b.lines)) to
        (give_to amount) (update_row from (take_from amount) b.agents)
        (λ v h. IsBooked-give_to l_to (l_from ∷ b.lines) v no_debit credits h)
        (λ j v ne h. IsBooked-other l_to (l_from ∷ b.lines) j v ne h)
        (Rows-update (IsBooked b.lines) (IsBooked (l_from ∷ b.lines)) from (take_from amount)
          b.agents (λ v h. IsBooked-take_from l_from b.lines v debits no_credit h)
          (λ j v ne h. IsBooked-other l_from b.lines j v ne h) s.booked)

  move_agents-IsSolvent : Rows IsSolvent (move_agents from to amount b.agents)
  unfolding move_agents
  move_agents-IsSolvent =
      Rows-update IsSolvent IsSolvent to (give_to amount)
        (update_row from (take_from amount) b.agents) (λ v h. give_to-IsSolvent to v amount h)
        (λ j v ne h. h)
        (Rows-update_found IsSolvent IsSolvent from (take_from amount) b.agents sender s.unique sent
          (λ h. take_from-IsSolvent from sender amount funded) (λ j v ne h. h) s.solvent)

  is_some-move_agents :
      (j : Text)
      → is_some (lookup j (move_agents from to amount b.agents)) ≡ is_some (lookup j b.agents)
  unfolding move_agents
  is_some-move_agents j =
      is_some-update j to (give_to amount) (update_row from (take_from amount) b.agents)
      ∙ is_some-update j from (take_from amount) b.agents

  pub move-IsSound : IsSound (move b now out in_ from to amount ref)
  unfolding move
  move-IsSound = record {
    unique =
        unfold move_agents in
        update-IsUnique to (give_to amount) (update_row from (take_from amount) b.agents)
          (update-IsUnique from (take_from amount) b.agents s.unique);
    booked = move_agents-IsBooked;
    solvent = move_agents-IsSolvent;
    owned =
        unfold move_lines in
        (
          is_some-move_agents to ∙ ap is_some received,
          (
            is_some-move_agents from ∙ ap is_some sent,
            All-map (IsOwned b.agents) (IsOwned (move_agents from to amount b.agents)) b.lines
                (λ l h. is_some-move_agents l.agent_id ∙ h) s.owned,
          ),
        );
  }
