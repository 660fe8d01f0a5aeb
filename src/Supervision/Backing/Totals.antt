-- ===== src/Supervision/Backing/Totals.antt =====
-- impl/aicash/supervision.py: the calls over the accounts alone keep the sum of the balances.
use ai_cash.Prelude.{
  ℕ, ◌≡◌, refl, sym, ◌∙◌, ap, true, some, [], ◌∷◌, is_some, Option-cases, Bool-cases, inl, inr,
  arith,
}
use ai_cash.Prelude.Int.{ℤ, pos, pos_part, neg_part, ◌+ℤ◌, ◌-ℤ◌, +ℤ_parts, -ℤ_parts, eq_of_parts}
use ai_cash.Prelude.Text.{Text, text_eq}
use ai_cash.Ledger.Table.{Table, lookup, IsUnique}
use ai_cash.Supervision.{Agent, Books, empty_books}
use ai_cash.Supervision.Accounts.{move_agents, take_from, give_to}
use ai_cash.Supervision.Backing.{IsBacked, total_balance, total-update}
use ai_cash.Supervision.Booking.{IsSound, empty_books-IsSound}
use ai_cash.Supervision.Custody.{Bridge}
use ai_cash.Supervision.Custody.Held.{held}
use ai_cash.Supervision.Kept.{Kept}
use ai_cash.Supervision.Moves.{move}
use ai_cash.Supervision.Moves.Sound.{move-IsSound}
use ai_cash.Supervision.Preservation.{same-IsSound, update-IsSound, mark-IsSound, insert-IsSound}
use ai_cash.Supervision.Rows.{update_row, update-IsUnique, is_some-update}

abbrev pub empty_bridge : Bridge
empty_bridge = record { books = empty_books; custody = []; pending_ops = []; absorbed_mc = pos 0 }

pub empty_bridge-IsBacked : IsBacked empty_bridge
unfolding held total_balance ◌+ℤ◌
empty_bridge-IsBacked = record { sound = empty_books-IsSound; unique = tt; backed = refl }

abbrev pub HasTotal : ℤ → Books → Type 0
HasTotal n b = IsSound b × (total_balance b.agents ≡ n)

total-same :
    (k : Text) (f : Agent → Agent) (t : Table Agent)
    → ((a : Agent) → (f a).balance_mc ≡ a.balance_mc)
    → total_balance (update_row k f t) ≡ total_balance t
unfolding total_balance update_row
total-same k f [] same = refl
total-same k f ((j, a) ∷ t) same = elim (Bool-cases (text_eq k j)) [
  | inl e ↦ rw (e, same a, total-same k f t same) refl
  | inr e ↦ rw (e, total-same k f t same) refl
]

-- What one account loses the other gains.
moved_sum :
    (t t' t'' a b : ℤ) (n : ℕ)
    → t' +ℤ a ≡ t +ℤ (a -ℤ pos n)
    → t'' +ℤ b ≡ t' +ℤ (b +ℤ pos n)
    → t'' ≡ t
moved_sum t t' t'' a b n h k = eq_of_parts t'' t (
    omega (
      arith,
      ap pos_part h,
      ap neg_part h,
      ap pos_part k,
      ap neg_part k,
      +ℤ_parts t' a,
      +ℤ_parts t (a -ℤ pos n),
      -ℤ_parts a (pos n),
      +ℤ_parts t'' b,
      +ℤ_parts t' (b +ℤ pos n),
      +ℤ_parts b (pos n),
    ))

total-move :
    (from to : Text) (n : ℕ) (t : Table Agent) (sender target : Agent)
    → IsUnique t
    → lookup from t ≡ some sender
    → lookup to t ≡ some target
    → total_balance (move_agents from to n t) ≡ total_balance t
unfolding move_agents take_from give_to
total-move from to n t sender target u sent received =
    let taken = update_row from (take_from n) t in
    let there : is_some (lookup to taken) ≡ true =
      is_some-update to from (take_from n) t ∙ ap is_some received in
    elim (Option-cases (lookup to taken)) [
      | inl e ↦ absurd (ground (arith, e, there))
      | inr (payee, e) ↦
          moved_sum (total_balance t) (total_balance taken)
            (total_balance (update_row to (give_to n) taken)) sender.balance_mc payee.balance_mc n
            (total-update from (take_from n) t sender u sent)
            (total-update to (give_to n) taken payee (update-IsUnique from (take_from n) t u) e)
    ]

added_nothing : (x t : ℤ) → x ≡ pos 0 → x +ℤ t ≡ t
added_nothing x t h =
    eq_of_parts (x +ℤ t) t (omega (arith, +ℤ_parts x t, ap pos_part h, ap neg_part h))

pub HasTotal-Kept : (n : ℤ) → Kept (HasTotal n)
unfolding move total_balance
HasTotal-Kept n = record {
  sound = λ b s. s.0;
  same = λ b b' p q s. (same-IsSound b b' p q s.0, ap total_balance p ∙ s.1);
  updated = λ b i f same s. (update-IsSound b i f same s.0, total-same i f b.agents same ∙ s.1);
  marked = λ b l z o s. (mark-IsSound b l z o s.0, s.1);
  inserted = λ b id a absent zero_balance s. (
    insert-IsSound b id a absent zero_balance s.0,
    added_nothing a.balance_mc (total_balance b.agents) zero_balance ∙ s.1,
  );
  moved = λ b now out in_ from to amount ref sender target d nc nd c sent received funded s. (
    move-IsSound b now out in_ from to amount ref sender target d nc nd c sent received funded s.0,
    total-move from to amount b.agents sender target s.0.unique sent received ∙ s.1,
  );
}

pub books-IsBacked :
    (s : Bridge) (b : Books)
    → IsBacked s
    → HasTotal (total_balance s.books.agents) b
    → IsBacked (record s { books = b })
books-IsBacked s b k h = record { sound = h.0; unique = k.unique; backed = k.backed ∙ sym h.1 }
