-- ===== src/Supervision/Kept.antt =====
-- impl/aicash/supervision.py: what the routes over the accounts keep, whatever it is, if the changes
-- that they are made of keep it.
use ai_cash.Prelude.{
  ℕ, ◌≡◌, refl, ◌∙◌, Bool, true, false, some, none, List, [], ◌∷◌, is_some, All, All-map,
  if◌then◌else◌,
}
use ai_cash.Prelude.Int.{pos, ◌≤ℤ◌}
use ai_cash.Prelude.Text.{Text}
use ai_cash.Ledger.Table.{lookup}
use ai_cash.Supervision.{Agent, Line, LineKind, Books, is_debit, is_credit, freeze, unfreeze}
use ai_cash.Supervision.Accounts.{line}
use ai_cash.Supervision.Administration.{freeze_rows}
use ai_cash.Supervision.Booking.{IsSound, IsOwned}
use ai_cash.Supervision.Moves.{move}
use ai_cash.Supervision.Moves.Sound.{move-IsSound}
use ai_cash.Supervision.Preservation.{same-IsSound, update-IsSound, mark-IsSound, insert-IsSound}
use ai_cash.Supervision.Rows.{update_row, is_some-update}

-- The changes: of other tables, of a row that keeps its balance, of the journal by a line with no
-- amount, a new account with nothing, and a move of value between two accounts.
pub record Kept (P : Books → Type 0) : Type 0 where
  pub sound : (b : Books) → P b → IsSound b
  pub same : (b b' : Books) → b'.agents ≡ b.agents → b'.lines ≡ b.lines → P b → P b'
  pub updated :
      (b : Books) (i : Text) (f : Agent → Agent)
      → ((a : Agent) → (f a).balance_mc ≡ a.balance_mc)
      → P b
      → P (record b { agents = update_row i f b.agents })
  pub marked :
      (b : Books) (l : Line)
      → l.amount_mc ≡ 0
      → IsOwned b.agents l
      → P b
      → P (record b { lines = l ∷ b.lines })
  pub inserted :
      (b : Books) (id : Text) (a : Agent)
      → lookup id b.agents ≡ none
      → a.balance_mc ≡ pos 0
      → P b
      → P (record b { agents = (id, a) ∷ b.agents })
  pub moved :
      (b : Books) (now : ℕ) (out in_ : LineKind) (from to : Text) (amount : ℕ) (ref : Text)
      (sender target : Agent)
      → is_debit out ≡ true
      → is_credit out ≡ false
      → is_debit in_ ≡ false
      → is_credit in_ ≡ true
      → lookup from b.agents ≡ some sender
      → lookup to b.agents ≡ some target
      → pos amount ≤ℤ sender.balance_mc
      → P b
      → P (move b now out in_ from to amount ref)

pub IsSound-Kept : Kept IsSound
IsSound-Kept = record {
  sound = λ b s. s;
  same = same-IsSound;
  updated = update-IsSound;
  marked = mark-IsSound;
  inserted = insert-IsSound;
  moved = move-IsSound;
}

-- A freeze changes rows that are there.
pub freeze_rows-Kept :
    (P : Books → Type 0) (k : Kept P) (frozen : Bool) (now : ℕ) (ids : List Text) (b : Books)
    → All (λ id. is_some (lookup id b.agents) ≡ true) ids
    → P b
    → P (freeze_rows frozen now ids b)
unfolding freeze_rows
freeze_rows-Kept P k frozen now [] b found s = s
freeze_rows-Kept P k frozen now (id ∷ ids) b (f, fs) s =
    let set = λ (a : Agent). record a { frozen = frozen } in
    let there = λ (j : Text). is_some-update j id set b.agents in
    freeze_rows-Kept P k frozen now ids
      (record b {
        agents = update_row id set b.agents;
        lines = line id now (if frozen then freeze else unfreeze) 0 none [] ∷ b.lines;
      })
      (All-map (λ j. is_some (lookup j b.agents) ≡ true)
        (λ j. is_some (lookup j (update_row id set b.agents)) ≡ true) ids (λ j h. there j ∙ h) fs)
      (k.marked (record b { agents = update_row id set b.agents })
        (line id now (if frozen then freeze else unfreeze) 0 none []) refl (there id ∙ f)
        (k.updated b id set (λ a. refl) s))
