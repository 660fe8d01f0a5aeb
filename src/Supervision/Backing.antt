-- ===== src/Supervision/Backing.antt =====
-- impl/aicash/supervision.py: the custody of the mint backs the balances of its agents. The schema
-- says so of the table `sup_mint`: custody is the balances less what the mint has absorbed.
pub mod Withdrawals
pub mod Deposits
pub mod Totals
use ai_cash.Prelude.{
  ℕ, ◌+◌, ◌≡◌, refl, sym, ◌∙◌, ap, subst, Bool, true, false, Option, none, some, some_eq, List, [],
  ◌∷◌, arith, Bool-cases, inl, inr, leb,
}
use ai_cash.Prelude.Int.{ℤ, pos, pos_part, neg_part, ◌+ℤ◌, ◌-ℤ◌, +ℤ_parts, -ℤ_parts, eq_of_parts}
use ai_cash.Prelude.Text.{Text, text_eq, text_eq_iff, Bytes}
use ai_cash.Ledger.State.{max_amount_mc}
use ai_cash.Ledger.Table.{Table, lookup, IsUnique, lookup_self, lookup_ne, insert_row}
use ai_cash.Supervision.{Agent}
use ai_cash.Supervision.Accounts.{take_from, give_to}
use ai_cash.Supervision.Booking.{IsSound}
use ai_cash.Supervision.Custody.{Bridge, Custody}
use ai_cash.Supervision.Custody.Held.{held}
use ai_cash.Supervision.Rows.{update_row}

unfoldable pub total_balance : Table Agent → ℤ
total_balance [] = pos 0
total_balance ((k, a) ∷ t) = a.balance_mc +ℤ total_balance t

-- What a mint keeps true over its tables: the accounts are sound, a custody row has one hash, and
-- the spendable and reserved custody is the sum of the balances less what the mint has absorbed.
pub record IsBacked (s : Bridge) : Type 0 where
  pub sound : IsSound s.books
  pub unique : IsUnique s.custody
  pub backed : pos (held s.custody) +ℤ s.absorbed_mc ≡ total_balance s.books.agents

total-update_absent :
    (k : Text) (f : Agent → Agent) (t : Table Agent)
    → lookup k t ≡ none
    → total_balance (update_row k f t) ≡ total_balance t
unfolding total_balance update_row lookup
total-update_absent k f [] absent = refl
total-update_absent k f ((j, a) ∷ t) absent = elim (Bool-cases (text_eq k j)) [
  | inl e ↦ cc
  | inr e ↦ rw e (ap (λ x. a.balance_mc +ℤ x) (total-update_absent k f t (rw e at absent)))
]

sum_swap : (x t y : ℤ) → x +ℤ t +ℤ y ≡ y +ℤ t +ℤ x
sum_swap x t y =
    eq_of_parts (x +ℤ t +ℤ y) (y +ℤ t +ℤ x)
      (omega (arith, +ℤ_parts (x +ℤ t) y, +ℤ_parts x t, +ℤ_parts (y +ℤ t) x, +ℤ_parts y t))

sum_both : (b t t' x y : ℤ) → t' +ℤ x ≡ t +ℤ y → b +ℤ t' +ℤ x ≡ b +ℤ t +ℤ y
sum_both b t t' x y h = eq_of_parts (b +ℤ t' +ℤ x) (b +ℤ t +ℤ y) (
    omega (
      arith,
      ap pos_part h,
      ap neg_part h,
      +ℤ_parts t' x,
      +ℤ_parts t y,
      +ℤ_parts (b +ℤ t') x,
      +ℤ_parts b t',
      +ℤ_parts (b +ℤ t) y,
      +ℤ_parts b t,
    ))

-- The change of one balance is that of the sum.
pub total-update :
    (k : Text) (f : Agent → Agent) (t : Table Agent) (a : Agent)
    → IsUnique t
    → lookup k t ≡ some a
    → total_balance (update_row k f t) +ℤ a.balance_mc ≡ total_balance t +ℤ (f a).balance_mc
unfolding total_balance update_row lookup
total-update k f [] a u found = cc
total-update k f ((j, b) ∷ t) a (absent, u) found = elim (Bool-cases (text_eq k j)) [
  | inl e ↦
      let same : b ≡ a = some_eq (rw e at found) in
      let gone : lookup k t ≡ none = ap (λ i. lookup i t) ((text_eq_iff k j).0 e) ∙ absent in
      rw (e, total-update_absent k f t gone, same)
        (sum_swap (f a).balance_mc (total_balance t) a.balance_mc)
  | inr e ↦ rw e (
      sum_both b.balance_mc (total_balance t) (total_balance (update_row k f t)) a.balance_mc
        (f a).balance_mc (total-update k f t a u (rw e at found)))
]

-- A balance that is debited, and the money that is held for it.
pub backed-take :
    (m m' : ℕ) (x y bal t t' : ℤ) (n : ℕ)
    → pos m +ℤ x ≡ t
    → t' +ℤ bal ≡ t +ℤ (bal -ℤ pos n)
    → pos m' +ℤ y +ℤ pos n ≡ pos m +ℤ x
    → pos m' +ℤ y ≡ t'
backed-take m m' x y bal t t' n h k e = eq_of_parts (pos m' +ℤ y) t' (
    omega (
      arith,
      ap pos_part h,
      ap neg_part h,
      ap pos_part k,
      ap neg_part k,
      ap pos_part e,
      ap neg_part e,
      +ℤ_parts t' bal,
      +ℤ_parts t (bal -ℤ pos n),
      -ℤ_parts bal (pos n),
      +ℤ_parts (pos m' +ℤ y) (pos n),
    ))

pub backed-give :
    (m m' : ℕ) (x bal t t' : ℤ) (n : ℕ)
    → pos m +ℤ x ≡ t
    → t' +ℤ bal ≡ t +ℤ (bal +ℤ pos n)
    → m' ≡ m + n
    → pos m' +ℤ x ≡ t'
backed-give m m' x bal t t' n h k e = eq_of_parts (pos m' +ℤ x) t' (
    omega (
      arith,
      ap pos_part h,
      ap neg_part h,
      ap pos_part k,
      ap neg_part k,
      e,
      +ℤ_parts t' bal,
      +ℤ_parts t (bal +ℤ pos n),
      +ℤ_parts bal (pos n),
      +ℤ_parts (pos m') x,
      +ℤ_parts (pos m) x,
    ))
