-- ===== src/Ledger/Exchange/Effects.antt =====
-- impl/aicash/ledgerstore.py, the writes of a call: what each key holds after them.
use ai_cash.Prelude.{
  ◌+◌, length, sym, ℕ, ◌≡◌, refl, ap, ◌∙◌, true, false, Option, none, some, List, [], ◌∷◌, arith,
  All, if◌then◌else◌, Option-cases, Bool-cases, inl, inr,
}
use ai_cash.Prelude.Text.{Text, text_eq, text_eq_iff}
use ai_cash.Lock.{Lock}
use ai_cash.Ledger.Exchange.{update_spent, mark_spent, one_row, insert_entry, insert_entries}
use ai_cash.Ledger.Exchange.Inserting.{OutRecord, new_entry}
use ai_cash.Ledger.Exchange.Marking.{marked, lookup-update}
use ai_cash.Ledger.Exchange.Spending.{InRecord}
use ai_cash.Ledger.State.{Entry, done, >>=-eq-done}
use ai_cash.Ledger.Table.{Table, lookup, insert_row, lookup_ne, lookup_self}

-- What a key holds after the inputs are marked, from what it held before.
abbrev pub marked_all : ℕ → List InRecord → Text → Option Entry → Option Entry
marked_all now [] j o = o
marked_all now ((k, a, w) ∷ rs) j o =
    marked_all now rs j (if text_eq k j then marked now w o else o)

one_row-eq-done : (p : Table Entry × ℕ) (t : Table Entry) → one_row p ≡ done t → p.0 ≡ t
one_row-eq-done (t', n) t h = ground arith

pub mark_spent-lookup :
    (now : ℕ) (rs : List InRecord) (j : Text) (t t' : Table Entry)
    → mark_spent now rs t ≡ done t'
    → lookup j t' ≡ marked_all now rs j (lookup j t)
unfolding mark_spent
mark_spent-lookup now [] j t t' h = let e : t' ≡ t = cc in ap (lookup j) e
mark_spent-lookup now ((k, a, w) ∷ rs) j t t' h =
    let (t₁, e, e') = >>=-eq-done (one_row (update_spent now k w t)) _ h in
    mark_spent-lookup now rs j t₁ t' e'
    ∙ ap (marked_all now rs j) (
        ap (lookup j) (sym (one_row-eq-done (update_spent now k w t) t₁ e))
        ∙ lookup-update now k j w t)

-- A free key stays free.
pub marked_all-none : (now : ℕ) (rs : List InRecord) (j : Text) → marked_all now rs j none ≡ none
marked_all-none now [] j = refl
marked_all-none now ((k, a, w) ∷ rs) j = elim (Bool-cases (text_eq k j)) [
  | inl e ↦ rw e (marked_all-none now rs j)
  | inr e ↦ rw e (marked_all-none now rs j)
]

marked-spent :
    (now : ℕ) (w : Option Text) (e : Entry) → e.spent ≡ true → marked now w (some e) ≡ some e
marked-spent now w e s = ground arith

-- A spent entry stays as it is.
pub marked_all-spent :
    (now : ℕ) (rs : List InRecord) (j : Text) (e : Entry)
    → e.spent ≡ true
    → marked_all now rs j (some e) ≡ some e
marked_all-spent now [] j e s = refl
marked_all-spent now ((k, a, w) ∷ rs) j e s = elim (Bool-cases (text_eq k j)) [
  | inl q ↦ rw (q, marked-spent now w e s) (marked_all-spent now rs j e s)
  | inr q ↦ rw q (marked_all-spent now rs j e s)
]

-- A key that is named by no record keeps its entry.
abbrev pub Unnamed : Text → List InRecord → Type 0
Unnamed j = All (λ r. text_eq r.0 j ≡ false)

pub marked_all-Unnamed :
    (now : ℕ) (rs : List InRecord) (j : Text) (o : Option Entry)
    → Unnamed j rs
    → marked_all now rs j o ≡ o
marked_all-Unnamed now [] j o u = refl
marked_all-Unnamed now ((k, a, w) ∷ rs) j o (differ, u) =
    rw differ (marked_all-Unnamed now rs j o u)

none-some : {e : Entry} → none ≡ some e → ⊥
none-some h = cc

insert_entry-eq-done :
    (t t' : Table Entry) (k : Text) (a : ℕ) (l : Option Lock) (now : ℕ)
    → insert_entry t k a l now ≡ done t'
    → (lookup k t ≡ none) × (t' ≡ (k, new_entry a l now) ∷ t)
unfolding insert_entry insert_row
insert_entry-eq-done t t' k a l now h = elim (Option-cases (lookup k t)) [
  | inl e ↦ (e, ground arith)
  | inr (f, e) ↦ absurd (ground arith)
]

insert_entry-keeps :
    (t t' : Table Entry) (k j : Text) (a : ℕ) (l : Option Lock) (now : ℕ) (e : Entry)
    → insert_entry t k a l now ≡ done t'
    → lookup j t ≡ some e
    → lookup j t' ≡ some e
insert_entry-keeps t t' k j a l now e h f =
    let (absent, eq) = insert_entry-eq-done t t' k a l now h in
    rw eq (elim (Bool-cases (text_eq j k)) [
      | inl same ↦
          let p : j ≡ k = (text_eq_iff j k).0 same in
          absurd (none-some (sym absent ∙ ap (λ i. lookup i t) (sym p) ∙ f))
      | inr differ ↦ lookup_ne j k (new_entry a l now) t differ ∙ f
    ])

-- An entry that is there stays as it is.
pub insert_entries-keeps :
    (now : ℕ) (rs : List OutRecord) (j : Text) (t t' : Table Entry) (e : Entry)
    → insert_entries now rs t ≡ done t'
    → lookup j t ≡ some e
    → lookup j t' ≡ some e
unfolding insert_entries
insert_entries-keeps now [] j t t' e h f = cc
insert_entries-keeps now ((k, a, l) ∷ rs) j t t' e h f =
    let (t₁, q, q') = >>=-eq-done (insert_entry t k a l now) _ h in
    insert_entries-keeps now rs j t₁ t' e q' (insert_entry-keeps t t₁ k j a l now e q f)

-- Every record is a row afterwards.
pub insert_entries-found :
    (now : ℕ) (rs : List OutRecord) (t t' : Table Entry)
    → insert_entries now rs t ≡ done t'
    → All (λ r. lookup r.0 t' ≡ some (new_entry r.1 r.2 now)) rs
unfolding insert_entries
insert_entries-found now [] t t' h = tt
insert_entries-found now ((k, a, l) ∷ rs) t t' h =
    let (t₁, q, q') = >>=-eq-done (insert_entry t k a l now) _ h in
    (
      insert_entries-keeps now rs k t₁ t' (new_entry a l now) q'
          (rw (insert_entry-eq-done t t₁ k a l now q).1 (lookup_self k (new_entry a l now) t)),
      insert_entries-found now rs t₁ t' q',
    )

update_spent-length :
    (now : ℕ) (k : Text) (w : Option Text) (t : Table Entry)
    → length (update_spent now k w t).0 ≡ length t
unfolding update_spent
update_spent-length now k w [] = refl
update_spent-length now k w ((j, e) ∷ t) = ground (arith, update_spent-length now k w t)

mark_spent-length :
    (now : ℕ) (rs : List InRecord) (t t' : Table Entry)
    → mark_spent now rs t ≡ done t'
    → length t' ≡ length t
unfolding mark_spent
mark_spent-length now [] t t' h = let e : t' ≡ t = cc in ap length e
mark_spent-length now ((k, a, w) ∷ rs) t t' h =
    let (t₁, e, e') = >>=-eq-done (one_row (update_spent now k w t)) _ h in
    mark_spent-length now rs t₁ t' e'
    ∙ ap length (sym (one_row-eq-done (update_spent now k w t) t₁ e))
    ∙ update_spent-length now k w t

insert_entries-length :
    (now : ℕ) (rs : List OutRecord) (t t' : Table Entry)
    → insert_entries now rs t ≡ done t'
    → length t' ≡ length t + length rs
unfolding insert_entries
insert_entries-length now [] t t' h = let e : t' ≡ t = cc in omega (arith, ap length e)
insert_entries-length now ((k, a, l) ∷ rs) t t' h =
    let (t₁, q, q') = >>=-eq-done (insert_entry t k a l now) _ h in
    let more = ap length (insert_entry-eq-done t t₁ k a l now q).1 in
    omega (arith, insert_entries-length now rs t₁ t' q', more)

-- Every input keeps its row, and every output has one more.
pub rows_after :
    (now : ℕ) (ins : List InRecord) (outs : List OutRecord) (t t₁ t₂ : Table Entry)
    → mark_spent now ins t ≡ done t₁
    → insert_entries now outs t₁ ≡ done t₂
    → length t₂ ≡ length t + length outs
rows_after now ins outs t t₁ t₂ m i =
    omega (arith, mark_spent-length now ins t t₁ m, insert_entries-length now outs t₁ t₂ i)
