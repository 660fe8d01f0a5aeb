-- ===== src/Escrow.antt =====
-- impl/aicash/escrow.py: the deadlines of a milestone, the schedule that an offer states, and the
-- denominations of a set of rungs.
pub mod Deadlines
pub mod Rungs
use ai_cash.Prelude.{
  ℕ, ◌+◌, ◌-◌, ◌*◌, ◌/◌, ◌%◌, Bool, true, false, ◌&&◌, not, Option, none, some, List, [], ◌∷◌, ◌++◌,
  replicate, is_some, ltb, leb, ◌==◌, if◌then◌else◌,
}
use ai_cash.Prelude.Int.{ℤ, pos, pos_part, ◌+ℤ◌, ltb_ℤ, leb_ℤ}
use ai_cash.Prelude.Text.{codes}
use ai_cash.Codec.Value
use ai_cash.Codec.Value.{Value, Values, Fields, get}
use ai_cash.Lock.{as_int}

-- `DeadlineError`, and any other `EscrowError`.
pub data EscrowError : Type 0 where
  deadline_error escrow_error : EscrowError

pub data Checked {ℓ} (A : Type ℓ) : Type ℓ where
  ok : A → Checked A
  raised : EscrowError → Checked A

infixl 5 ◌>>=◌
abbrev pub ◌>>=◌ {ℓ κ} : {A : Type ℓ} {B : Type κ} → Checked A → (A → Checked B) → Checked B
ok a >>= f = f a
raised e >>= f = raised e

-- `_require_ms` of a value that is a plain int.
unfoldable pub require_ms : ℤ → ℤ → Checked ℤ
require_ms value minimum = if ltb_ℤ value minimum then raised deadline_error else ok value

unfoldable pub compute_deadlines : ℤ → ℤ → ℤ → ℤ → Checked ℤ
compute_deadlines evidence_deadline decision_deadline grace_ms settlement_margin = do
  evidence ← require_ms evidence_deadline (pos 0)
  decision ← require_ms decision_deadline (pos 0)
  grace ← require_ms grace_ms (pos 0)
  margin ← require_ms settlement_margin (pos 1)
  if leb_ℤ decision evidence then raised deadline_error else ok (decision +ℤ grace +ℤ margin)

-- A key that is there, with a plain int from 0 on.
abbrev pub natural_field : Option Value → Checked ℕ
natural_field none = raised deadline_error
natural_field (some v) = elim (as_int v) [
  | none ↦ raised deadline_error
  | some n ↦ if ltb_ℤ n (pos 0) then raised deadline_error else ok (pos_part n)
]

-- A row of the schedule: the milestone and its two deadlines.
abbrev pub Schedule : Type 0
Schedule = List (ℕ × ℕ × ℕ)

unfoldable pub scheduled : ℕ → Schedule → Bool
scheduled m [] = false
scheduled m ((k, ev, de) ∷ out) = if m == k then true else scheduled m out

-- The entry is a dict with the three keys, and others may stand beside them.
abbrev pub read_milestone : Value → Checked (ℕ × ℕ × ℕ)
read_milestone (Value.dict fs) = do
  m ← natural_field (get (codes "m") fs)
  evidence ← natural_field (get (codes "evidence_deadline") fs)
  decision ← natural_field (get (codes "decision_deadline") fs)
  ok (m, evidence, decision)
read_milestone _ = raised deadline_error

abbrev pub add_milestone : ℕ × ℕ × ℕ → Schedule → Checked Schedule
add_milestone (m, ev, de) out =
    if scheduled m out then raised deadline_error else ok ((m, ev, de) ∷ out)

-- The loop; the newest row is in front.
unfoldable pub read_milestones : List Value → Schedule → Checked Schedule
read_milestones [] out = ok out
read_milestones (v ∷ vs) out = do
  row ← read_milestone v
  out' ← add_milestone row out
  read_milestones vs out'

abbrev pub non_empty_schedule : Schedule → Checked Schedule
non_empty_schedule [] = raised deadline_error
non_empty_schedule (r ∷ rs) = ok (r ∷ rs)

unfoldable pub milestone_schedule : List Value → Checked Schedule
milestone_schedule milestones = do out ← read_milestones milestones []; non_empty_schedule out

-- `sorted({…}, reverse=True)`: descending, each once. Denominations and the total are taken as
-- natural numbers; a denomination below zero is refused as zero is.
unfoldable pub insert_rung : ℕ → List ℕ → List ℕ
insert_rung d [] = d ∷ []
insert_rung d (e ∷ ds) =
    let rest = insert_rung d ds in
    if d == e then e ∷ ds else if ltb e d then d ∷ e ∷ ds else e ∷ rest

unfoldable pub sorted_rungs : List ℕ → List ℕ
sorted_rungs [] = []
sorted_rungs (d ∷ ds) = insert_rung d (sorted_rungs ds)

unfoldable pub any_zero : List ℕ → Bool
any_zero [] = false
any_zero (d ∷ ds) = if d == 0 then true else any_zero ds

-- `counts[d], remaining = divmod(remaining, d)` for each denomination, and the remainder.
unfoldable pub divide_rungs : ℕ → List ℕ → List (ℕ × ℕ) × ℕ
divide_rungs remaining [] = ([], remaining)
divide_rungs remaining (d ∷ ds) =
    let (counts, rest) = divide_rungs (remaining % d) ds in ((d, remaining / d) ∷ counts, rest)

-- One coin of each denomination but the smallest becomes coins of the next one down. The first
-- denomination and its count stand apart.
unfoldable pub break_rungs : ℕ → ℕ → List (ℕ × ℕ) → Checked (List (ℕ × ℕ))
break_rungs d c [] = ok ((d, c) ∷ [])
break_rungs d c ((e, k) ∷ counts) = do
  let broken = break_rungs e (k + d / e) counts
  let whole = break_rungs e k counts
  if d % e == 0
      then (if ltb 0 c
          then (broken >>= λ rest. ok ((d, c - 1) ∷ rest))
          else (whole >>= λ rest. ok ((d, c) ∷ rest)))
      else raised escrow_error

unfoldable pub coins_of : List (ℕ × ℕ) → List ℕ
coins_of [] = []
coins_of ((d, c) ∷ counts) = replicate c d ++ coins_of counts

abbrev pub break_all : List (ℕ × ℕ) × ℕ → Checked (List (ℕ × ℕ))
break_all ([], remaining) = raised escrow_error
break_all ((d, c) ∷ counts, remaining) =
    if remaining == 0 then break_rungs d c counts else raised escrow_error

unfoldable pub rung_composition : ℕ → List ℕ → Checked (List ℕ)
rung_composition total_mc denoms_desc =
    let denoms = sorted_rungs denoms_desc in
    if any_zero denoms
    then raised escrow_error
    else break_all (divide_rungs total_mc denoms) >>= λ counts. ok (coins_of counts)
