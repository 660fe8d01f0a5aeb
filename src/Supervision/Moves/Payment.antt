-- ===== src/Supervision/Moves/Payment.antt =====
-- impl/aicash/supervision.py: a payment between abstract accounts, each of which holds a number or
-- does not exist, and the tables seen as such accounts.
use ai_cash.Prelude.{
  Option-cases, ℕ, ◌≡◌, refl, sym, ◌∙◌, ap, subst, Bool, false, Option, none, some, arith,
  if◌then◌else◌, Bool-cases, inl, inr,
}
use ai_cash.Prelude.Int.{ -ℤ_parts, +ℤ_parts, eq_of_parts, ℤ, pos, ◌-ℤ◌, ◌+ℤ◌}
use ai_cash.Prelude.Text.{Text, text_eq, text_eq_iff, text_eq_refl}
use ai_cash.Codec.Value.{Value}
use ai_cash.Ledger.Table.{Table, lookup}
use ai_cash.Supervision.{Agent, LineKind, pull_out, pull_in, Books}
use ai_cash.Supervision.Accounts.{take_from, give_to, move_agents}
use ai_cash.Supervision.Moves.{move, add_use, is_self}
use ai_cash.Supervision.Rows.{lookup-update_none, lookup-update_self, lookup-update_ne, update_row}

unfoldable pub held_in : Table Agent → Text → Option ℤ
held_in agents k = elim (lookup k agents) [ none ↦ none | some a ↦ some a.balance_mc ]

-- The abstract view of the tables.
abbrev pub bank : Books → Text → Option ℤ
bank b = held_in b.agents

-- A change of what is held, at one account.
abbrev pub changed : Bool → (ℤ → ℤ) → Option ℤ → Option ℤ
changed at g none = none
changed at g (some n) = some (if at then g n else n)

-- The payment that a transfer and a pull stand for.
unfoldable pub payment : Text → Text → ℕ → (Text → Option ℤ) → Text → Option ℤ
payment from to amount holds k =
    changed (text_eq to k) (λ n. n +ℤ pos amount)
      (changed (text_eq from k) (λ n. n -ℤ pos amount) (holds k))

held_in-none : (agents : Table Agent) (k : Text) → lookup k agents ≡ none → held_in agents k ≡ none
unfolding held_in
held_in-none agents k h = rw (h, held_in) refl

pub held_in-some :
    (agents : Table Agent) (k : Text) (a : Agent)
    → lookup k agents ≡ some a
    → held_in agents k ≡ some a.balance_mc
unfolding held_in
held_in-some agents k a h = rw (h, held_in) refl

held_in_update_found :
    (i : Text) (f : Agent → Agent) (g : ℤ → ℤ) (agents : Table Agent) (k : Text) (a : Agent)
    → ((a : Agent) → (f a).balance_mc ≡ g a.balance_mc)
    → lookup k agents ≡ some a
    → held_in (update_row i f agents) k ≡ changed (text_eq i k) g (some a.balance_mc)
held_in_update_found i f g agents k a same h = elim (Bool-cases (text_eq i k)) [
  | inl e ↦
      let own =
        subst (λ j. lookup k (update_row j f agents) ≡ some (f a)) (sym ((text_eq_iff i k).0 e))
          (lookup-update_self k f agents a h) in
      held_in-some (update_row i f agents) k (f a) own ∙ ap some (same a) ∙ rw e refl
  | inr e ↦
      held_in-some (update_row i f agents) k a (lookup-update_ne k i f agents e ∙ h) ∙ rw e refl
]

held_in-update :
    (i : Text) (f : Agent → Agent) (g : ℤ → ℤ) (agents : Table Agent) (k : Text)
    → ((a : Agent) → (f a).balance_mc ≡ g a.balance_mc)
    → held_in (update_row i f agents) k ≡ changed (text_eq i k) g (held_in agents k)
held_in-update i f g agents k same = elim (Option-cases (lookup k agents)) [
  | inl h ↦
      held_in-none (update_row i f agents) k (lookup-update_none k i f agents h)
      ∙ sym (ap (changed (text_eq i k) g) (held_in-none agents k h))
  | inr (a, h) ↦
      held_in_update_found i f g agents k a same h
      ∙ sym (ap (changed (text_eq i k) g) (held_in-some agents k a h))
]

held_in-move_agents :
    (from to : Text) (amount : ℕ) (agents : Table Agent) (k : Text)
    → held_in (move_agents from to amount agents) k ≡ payment from to amount (held_in agents) k
unfolding move_agents payment
held_in-move_agents from to amount agents k =
    held_in-update to (give_to amount) (λ n. n +ℤ pos amount)
      (update_row from (take_from amount) agents) k (λ a. unfold give_to in refl)
    ∙ ap (changed (text_eq to k) (λ n. n +ℤ pos amount)) (
        held_in-update from (take_from amount) (λ n. n -ℤ pos amount) agents k
          (λ a. unfold take_from in refl))

bank-move :
    (b : Books) (now : ℕ) (out in_ : LineKind) (from to : Text) (amount : ℕ) (ref : Text) (k : Text)
    → bank (move b now out in_ from to amount ref) k ≡ payment from to amount (bank b) k
unfolding move
bank-move b now out in_ from to amount ref k = held_in-move_agents from to amount b.agents k

pub moved_bank :
    (b b' : Books) (now : ℕ) (out in_ : LineKind) (from to : Text) (amount : ℕ) (ref : Text)
    (k : Text)
    → b' ≡ move b now out in_ from to amount ref
    → bank b' k ≡ payment from to amount (bank b) k
moved_bank b b' now out in_ from to amount ref k moved =
    ap (λ x. bank x k) moved ∙ bank-move b now out in_ from to amount ref k

pub pulled_bank :
    (b : Books) (now : ℕ) (auth_id from to : Text) (amount : ℕ) (ref : Text) (k : Text)
    → bank (add_use auth_id now amount (move b now pull_out pull_in from to amount ref)) k
      ≡ payment from to amount (bank b) k
unfolding add_use
pulled_bank b now auth_id from to amount ref k =
    bank-move b now pull_out pull_in from to amount ref k

pub payment_sender :
    (from to : Text) (amount : ℕ) (holds : Text → Option ℤ) (n : ℤ)
    → text_eq to from ≡ false
    → holds from ≡ some n
    → payment from to amount holds from ≡ some (n -ℤ pos amount)
unfolding payment
payment_sender from to amount holds n ne h = rw (ne, text_eq_refl from, h) refl

back : (n : ℤ) (amount : ℕ) → (n -ℤ pos amount) +ℤ pos amount ≡ n
back n amount =
    eq_of_parts ((n -ℤ pos amount) +ℤ pos amount) n
      (omega (arith, +ℤ_parts (n -ℤ pos amount) (pos amount), -ℤ_parts n (pos amount)))

pub payment_self :
    (at : Text) (amount : ℕ) (holds : Text → Option ℤ) (k : Text)
    → payment at at amount holds k ≡ holds k
unfolding payment
payment_self at amount holds k = elim (Option-cases (holds k)) [
  | inl e ↦ rw e refl
  | inr (n, e) ↦ elim (Bool-cases (text_eq at k)) [
    | inr f ↦ rw (e, f) refl
    | inl f ↦ rw (e, f) (ap some (back n amount))
  ]
]

pub is_self-ne :
    (v : Option Value) (from to : Text)
    → v ≡ some (Value.str to)
    → is_self v from ≡ false
    → text_eq to from ≡ false
unfolding is_self
is_self-ne v from to asked h = rw asked at h
