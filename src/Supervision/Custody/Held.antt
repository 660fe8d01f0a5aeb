-- ===== src/Supervision/Custody/Held.antt =====
-- impl/aicash/supervision.py: the bearer money that the mint holds for the balances.
use ai_cash.Prelude.{
  ℕ, ◌+◌, ◌≡◌, refl, ◌∙◌, ap, subst, Bool, none, some, some_eq, [], ◌∷◌, arith, Bool-cases, inl,
  inr, if◌then◌else◌, ◌||◌,
}
use ai_cash.Prelude.Text.{Text, text_eq, text_eq_iff}
use ai_cash.Ledger.Table.{Table, lookup, IsUnique}
use ai_cash.Supervision.Rows.{update_row}
use ai_cash.Supervision.Custody.{
  Custody, is_unspent, is_reserved, is_pending, delete_row, reserve, release,
}

-- What a row counts: the money that can be spent, the reserved included.
abbrev pub held_of : Custody → ℕ
held_of c = if is_unspent c || is_reserved c then c.amount_mc else 0

unfoldable pub held : Table Custody → ℕ
held [] = 0
held ((h, c) ∷ t) = held_of c + held t

pub reserve-held_of : (c : Custody) → held_of (reserve c) ≡ held_of c
reserve-held_of c = ground arith

pub release-held_of : (c : Custody) → held_of (release c) ≡ held_of c
release-held_of c = ground arith

pub held-update_same :
    (k : Text) (f : Custody → Custody) (t : Table Custody)
    → ((c : Custody) → held_of (f c) ≡ held_of c)
    → held (update_row k f t) ≡ held t
unfolding held update_row
held-update_same k f [] same = refl
held-update_same k f ((j, c) ∷ t) same =
    let rest = held-update_same k f t same in
    elim (Bool-cases (text_eq k j)) [
      | inl e ↦ rw e (omega (arith, same c, rest))
      | inr e ↦ rw e (omega (arith, rest))
    ]

held-update_absent :
    (k : Text) (f : Custody → Custody) (t : Table Custody)
    → lookup k t ≡ none
    → held (update_row k f t) ≡ held t
unfolding held update_row lookup
held-update_absent k f [] absent = refl
held-update_absent k f ((j, c) ∷ t) absent = ground (arith, held-update_absent k f t)

-- An update of one row.
pub held-update :
    (k : Text) (f : Custody → Custody) (t : Table Custody) (c : Custody)
    → IsUnique t
    → lookup k t ≡ some c
    → held (update_row k f t) + held_of c ≡ held t + held_of (f c)
unfolding held update_row lookup
held-update k f [] c u found = cc
held-update k f ((j, d) ∷ t) c (absent, u) found = elim (Bool-cases (text_eq k j)) [
  | inl e ↦
      let same : d ≡ c = some_eq (rw e at found) in
      let gone : lookup k t ≡ none = ap (λ i. lookup i t) ((text_eq_iff k j).0 e) ∙ absent in
      rw e (
        subst
          (λ x.
            held_of (f d) + held (update_row k f t) + held_of x
            ≡ held_of d + held t + held_of (f x))
          same (omega (arith, held-update_absent k f t gone)))
  | inr e ↦ rw e (omega (arith, held-update k f t c u (rw e at found)))
]

pub held-delete : (k : Text) (t : Table Custody) → held (delete_row k is_pending t) ≡ held t
unfolding held delete_row
held-delete k [] = refl
held-delete k ((j, c) ∷ t) = ground (arith, held-delete k t)

lookup-delete_row :
    (j k : Text) (test : Custody → Bool) (t : Table Custody)
    → lookup j t ≡ none
    → lookup j (delete_row k test t) ≡ none
unfolding lookup delete_row
lookup-delete_row j k test [] absent = refl
lookup-delete_row j k test ((i, c) ∷ t) absent = ground (arith, lookup-delete_row j k test t)

pub delete-IsUnique_row :
    (k : Text) (test : Custody → Bool) (t : Table Custody)
    → IsUnique t
    → IsUnique (delete_row k test t)
unfolding delete_row
delete-IsUnique_row k test [] u = tt
delete-IsUnique_row k test ((j, c) ∷ t) (absent, u) =
    ground (arith, delete-IsUnique_row k test t u, lookup-delete_row j k test t absent)
