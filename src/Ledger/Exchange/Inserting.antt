-- ===== src/Ledger/Exchange/Inserting.antt =====
-- impl/aicash/ledgerstore.py, the outputs of a call: that each `INSERT` finds its key free, and what
-- the insertions do to the rows.
use ai_cash.Prelude.{◌∙◌, ℕ, ◌+◌, ◌<◌, ◌≡◌, refl, false, Option, none, List, [], ◌∷◌, arith}
use ai_cash.Prelude.Text.{not_mem_tail, ne_of_not_mem, Text, text_mem}
use ai_cash.Lock.{Lock}
use ai_cash.Lock.Paths.{IsValidLock, OptionAll}
use ai_cash.Ledger.Exchange.{insert_entry, insert_entries}
use ai_cash.Ledger.Rows.{unspent_sum, AreValid, IsValidEntry}
use ai_cash.Ledger.State.{Entry, done}
use ai_cash.Ledger.Table.{Table, lookup, IsUnique, insert_row, lookup_ne}

abbrev pub OutRecord : Type 0
OutRecord = Text × ℕ × Option Lock

-- Each record has value, a valid lock or none, and a key that is free and not in `seen`.
abbrev pub Insertable : Table Entry → List Text → List OutRecord → Type 0
Insertable t seen [] = Unit
Insertable t seen ((k, a, l) ∷ rs) =
    (text_mem k seen ≡ false)
    × (lookup k t ≡ none)
    × (0 < a)
    × OptionAll IsValidLock l
    × Insertable t (k ∷ seen) rs

abbrev pub values : List OutRecord → ℕ
values [] = 0
values ((k, a, l) ∷ rs) = a + values rs

-- The row of a new output.
abbrev pub new_entry : ℕ → Option Lock → ℕ → Entry
new_entry amount lock now = record {
  amount_mc = amount;
  spent = false;
  lock = lock;
  created_at = now;
  spent_at = none;
  claim_witness = none;
}

-- Records stay insertable in a table whose new keys are all in `seen`.
pub Insertable-grow :
    (t t' : Table Entry) (seen : List Text) (rs : List OutRecord)
    → ((j : Text) → text_mem j seen ≡ false → lookup j t ≡ none → lookup j t' ≡ none)
    → Insertable t seen rs
    → Insertable t' seen rs
Insertable-grow t t' seen [] free s = tt
Insertable-grow t t' seen ((k, a, l) ∷ rs) free (fresh, absent, pos, valid, rest) = (
  fresh,
  free k fresh absent,
  pos,
  valid,
  Insertable-grow t t' (k ∷ seen) rs (λ j m. free j (not_mem_tail j k seen m)) rest,
)

insert_entry_free :
    (t : Table Entry) (k : Text) (a : ℕ) (l : Option Lock) (now : ℕ)
    → lookup k t ≡ none
    → insert_entry t k a l now ≡ done ((k, new_entry a l now) ∷ t)
unfolding insert_entry insert_row
insert_entry_free t k a l now h = rw h

-- The insertions end with no fault. The rows stay unique and well formed, and the unspent sum grows
-- by the values.
pub insert_entries_lem :
    (now : ℕ) (rs : List OutRecord) (seen : List Text) (t : Table Entry)
    → IsUnique t
    → AreValid t
    → Insertable t seen rs
    → (t' : Table Entry) × (insert_entries now rs t ≡ done t')
      × IsUnique t'
      × AreValid t'
      × (unspent_sum t' ≡ unspent_sum t + values rs)
unfolding insert_entries unspent_sum
insert_entries_lem now [] seen t u v s = (t, refl, u, v, omega arith)
insert_entries_lem now ((k, a, l) ∷ rs) seen t u v (fresh, absent, pos, valid, rest) =
    let t₁ : Table Entry = (k, new_entry a l now) ∷ t in
    let row : IsValidEntry (new_entry a l now) = record {
      positive = pos;
      lock_valid = valid;
      spent_stamped = refl;
    } in
    let (t', eq, u', v', sum) =
      insert_entries_lem now rs (k ∷ seen) t₁ (absent, u) (row, v)
        (Insertable-grow t t₁ (k ∷ seen) rs
          (λ j m h. lookup_ne j k (new_entry a l now) t (ne_of_not_mem j k seen m) ∙ h) rest) in
    (t', rw (insert_entry_free t k a l now absent) eq, u', v', omega (arith, sum))
