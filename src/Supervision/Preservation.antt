-- ===== src/Supervision/Preservation.antt =====
-- impl/aicash/supervision.py: the routes that move no value keep the tables sound.
use ai_cash.Prelude.Int.{◌≤ℤ◌, pos, neg_part, pos_part}
use ai_cash.Supervision.Rows.{
  update-IsUnique, is_some-update, Rows-update, Rows, update_row, Rows-map,
}
use ai_cash.Ledger.Table.{lookup, IsUnique, Table}
use ai_cash.Supervision.Booking.{
  credits_lifetime, IsSolvent, IsBooked-zero, IsBooked, IsSound, IsOwned,
}
use ai_cash.Supervision.Accounts.{of_agent, debits_lifetime, sum_lines}
use ai_cash.Prelude.Text.{text_eq_iff, text_eq, Text}
use ai_cash.Prelude.{
  ◌&&◌, ◌+◌, ◌≡◌, refl, sym, ◌∙◌, subst, Bool, true, none, List, [], ◌∷◌, arith, All, All-map,
  Bool-cases, inl, inr,
}
use ai_cash.Supervision.{is_credit, is_debit, Agent, Line, Books}

pub same-IsSound :
    (b b' : Books) → b'.agents ≡ b.agents → b'.lines ≡ b.lines → IsSound b → IsSound b'
same-IsSound b b' p q s =
    let (agents, lines) : Table Agent × List Line = (b.agents, b.lines) in
    record {
      unique = subst IsUnique (sym p) s.unique;
      booked =
          subst (λ t. Rows (IsBooked b'.lines) t) (sym p)
            (subst (λ ls. Rows (IsBooked ls) b.agents) (sym q) s.booked);
      solvent = subst (Rows IsSolvent) (sym p) s.solvent;
      owned =
          subst (λ t. All (IsOwned t) b'.lines) (sym p)
            (subst (λ ls. All (IsOwned b.agents) ls) (sym q) s.owned);
    }

-- An update of a row that leaves its balance.
pub update-IsSound :
    (b : Books) (i : Text) (f : Agent → Agent)
    → ((a : Agent) → (f a).balance_mc ≡ a.balance_mc)
    → IsSound b
    → IsSound (record b { agents = update_row i f b.agents })
update-IsSound b i f same s = record {
  unique = update-IsUnique i f b.agents s.unique;
  booked =
      Rows-update (IsBooked b.lines) (IsBooked b.lines) i f b.agents
        (λ a h.
          subst
            (λ n. pos_part n + debits_lifetime i b.lines ≡ neg_part n + credits_lifetime i b.lines)
            (sym (same a)) h)
        (λ j a ne h. h) s.booked;
  solvent =
      Rows-update IsSolvent IsSolvent i f b.agents (λ a h. subst (λ n. pos 0 ≤ℤ n) (sym (same a)) h)
        (λ j a ne h. h) s.solvent;
  owned =
      All-map (IsOwned b.agents) (IsOwned (update_row i f b.agents)) b.lines
        (λ l h. is_some-update l.agent_id i f b.agents ∙ h) s.owned;
}

-- A line with no amount, of an agent.
pub mark-IsSound :
    (b : Books) (l : Line)
    → l.amount_mc ≡ 0
    → IsOwned b.agents l
    → IsSound b
    → IsSound (record b { lines = l ∷ b.lines })
mark-IsSound b l z o s = record {
  unique = s.unique;
  booked =
      Rows-map (IsBooked b.lines) (IsBooked (l ∷ b.lines)) b.agents
        (λ j a h. IsBooked-zero l b.lines j a z h) s.booked;
  solvent = s.solvent;
  owned = (o, s.owned);
}

no_lines :
    (test : Line → Bool) (id : Text) (agents : Table Agent) (lines : List Line)
    → ((l : Line) → test l ≡ true → l.agent_id ≡ id)
    → lookup id agents ≡ none
    → All (IsOwned agents) lines
    → sum_lines test lines ≡ 0
unfolding sum_lines
no_lines test id agents [] own absent o = refl
no_lines test id agents (l ∷ ls) own absent (o, os) = elim (Bool-cases (test l)) [
  | inl e ↦ absurd (ground (arith, rw (own l e, absent) at o))
  | inr e ↦ rw e (omega (arith, no_lines test id agents ls own absent os))
]

-- A new account, under an id that no row has.
pub insert-IsSound :
    (b : Books) (id : Text) (a : Agent)
    → lookup id b.agents ≡ none
    → a.balance_mc ≡ pos 0
    → IsSound b
    → IsSound (record b { agents = (id, a) ∷ b.agents })
unfolding debits_lifetime credits_lifetime
insert-IsSound b id a absent zero_balance s =
    let own =
      λ (l : Line) (e : text_eq id l.agent_id ≡ true). sym ((text_eq_iff id l.agent_id).0 e) in
    let no_debits =
      no_lines (λ (l : Line). of_agent id l && is_debit l.kind) id b.agents b.lines
        (λ l h. own l (ground arith)) absent s.owned in
    let no_credits =
      no_lines (λ (l : Line). of_agent id l && is_credit l.kind) id b.agents b.lines
        (λ l h. own l (ground arith)) absent s.owned in
    record {
      unique = (absent, s.unique);
      booked = (rw (zero_balance, no_debits, no_credits) refl, s.booked);
      solvent = (rw zero_balance (omega arith), s.solvent);
      owned =
          All-map (IsOwned b.agents) (IsOwned ((id, a) ∷ b.agents)) b.lines
            (λ l h. unfold lookup in ground (arith, h)) s.owned;
    }
