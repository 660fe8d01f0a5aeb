-- ===== src/Supervision/Selection/Covering.antt =====
-- impl/aicash/supervision.py: the rows of the custody that a withdrawal selects.
use ai_cash.Prelude.{
  ℕ, ◌+◌, ◌≡◌, refl, ap, subst, true, false, none, some, [], ◌∷◌, ◌++◌, arith, Bool-cases, inl, inr,
  if◌then◌else◌, leb,
}
use ai_cash.Prelude.Int.{pos}
use ai_cash.Prelude.Text.{Text, text_eq, text_ne_symm}
use ai_cash.Burn.{BurnPolicy, compute_burn}
use ai_cash.Ledger.Table.{Table, lookup, IsUnique}
use ai_cash.Supervision.{ok, Answer, >>=-eq-ok, ok-injective}
use ai_cash.Supervision.Bridge.{or_raised}
use ai_cash.Supervision.Rows.{absent_parts, Rows, Rows-self, Rows-zip}
use ai_cash.Supervision.Custody.{Custody, is_unspent}
use ai_cash.Supervision.Selection.{insert_by_amount, unspent_custody, select_custody, comes_before}

unfoldable pub amount_of : Table Custody → ℕ
amount_of [] = 0
amount_of ((h, c) ∷ rows) = c.amount_mc + amount_of rows

-- Unspent rows of a table, each once.
pub record IsDrawn (t sel : Table Custody) : Type 0 where
  pub rows : Rows (λ h c. (lookup h t ≡ some c) × (is_unspent c ≡ true)) sel
  pub unique : IsUnique sel

module _ (P : Text → Custody → Type 0) where
  Rows-insert :
      (h : Text) (c : Custody) (t : Table Custody)
      → P h c
      → Rows P t
      → Rows P (insert_by_amount (h, c) t)
  unfolding insert_by_amount
  Rows-insert h c [] p r = (p, tt)
  Rows-insert h c ((j, d) ∷ t) p (q, r) =
      let rest = Rows-insert h c t p r in
      elim (Bool-cases (comes_before (h, c) (j, d))) [
        | inl e ↦ rw e (p, (q, r))
        | inr e ↦ rw e (q, rest)
      ]

  Rows-unspent : (t : Table Custody) → Rows P t → Rows P (unspent_custody t)
  unfolding unspent_custody
  Rows-unspent [] r = tt
  Rows-unspent ((h, c) ∷ t) (p, r) =
      let rest = Rows-unspent t r in
      elim (Bool-cases (is_unspent c)) [
        | inl e ↦ rw e (Rows-insert h c (unspent_custody t) p rest)
        | inr e ↦ rw e rest
      ]

  Rows-left : (s t : Table Custody) → Rows P (s ++ t) → Rows P s
  Rows-left [] t r = tt
  Rows-left ((h, c) ∷ s) t (p, r) = (p, Rows-left s t r)

lookup-insert_none :
    (j h : Text) (c : Custody) (t : Table Custody)
    → text_eq j h ≡ false
    → lookup j t ≡ none
    → lookup j (insert_by_amount (h, c) t) ≡ none
unfolding insert_by_amount lookup
lookup-insert_none j h c [] ne absent = rw ne refl
lookup-insert_none j h c ((i, d) ∷ t) ne absent = ground (arith, lookup-insert_none j h c t ne)

insert-IsUnique :
    (h : Text) (c : Custody) (t : Table Custody)
    → lookup h t ≡ none
    → IsUnique t
    → IsUnique (insert_by_amount (h, c) t)
unfolding insert_by_amount
insert-IsUnique h c [] absent u = (absent, tt)
insert-IsUnique h c ((j, d) ∷ t) absent (q, u) =
    let (ne, gone) = absent_parts h j d t absent in
    let rest = insert-IsUnique h c t gone u in
    elim (Bool-cases (comes_before (h, c) (j, d))) [
      | inl e ↦ rw e (absent, (q, u))
      | inr e ↦ rw e (lookup-insert_none j h c t (text_ne_symm h j ne) q, rest)
    ]

lookup-unspent_none :
    (j : Text) (t : Table Custody) → lookup j t ≡ none → lookup j (unspent_custody t) ≡ none
unfolding unspent_custody
lookup-unspent_none j [] absent = absent
lookup-unspent_none j ((h, c) ∷ t) absent =
    let (ne, gone) = absent_parts j h c t absent in
    let rest = lookup-unspent_none j t gone in
    elim (Bool-cases (is_unspent c)) [
      | inl e ↦ rw e (lookup-insert_none j h c (unspent_custody t) ne rest)
      | inr e ↦ rw e rest
    ]

unspent-IsUnique : (t : Table Custody) → IsUnique t → IsUnique (unspent_custody t)
unfolding unspent_custody
unspent-IsUnique [] u = tt
unspent-IsUnique ((h, c) ∷ t) (absent, u) =
    let rest = unspent-IsUnique t u in
    elim (Bool-cases (is_unspent c)) [
      | inl e ↦ rw e (insert-IsUnique h c (unspent_custody t) (lookup-unspent_none h t absent) rest)
      | inr e ↦ rw e rest
    ]

unspent_custody-unspent :
    (t : Table Custody) → Rows (λ j d. is_unspent d ≡ true) (unspent_custody t)
unfolding unspent_custody
unspent_custody-unspent [] = tt
unspent_custody-unspent ((h, c) ∷ t) =
    let rest = unspent_custody-unspent t in
    elim (Bool-cases (is_unspent c)) [
      | inl e ↦ rw e (Rows-insert (λ j d. is_unspent d ≡ true) h c (unspent_custody t) e rest)
      | inr e ↦ rw e rest
    ]

lookup-left : (j : Text) (s t : Table Custody) → lookup j (s ++ t) ≡ none → lookup j s ≡ none
unfolding lookup
lookup-left j [] t absent = refl
lookup-left j ((h, c) ∷ s) t absent = ground (arith, lookup-left j s t)

IsUnique-left : (s t : Table Custody) → IsUnique (s ++ t) → IsUnique s
IsUnique-left [] t u = tt
IsUnique-left ((h, c) ∷ s) t (absent, u) = (lookup-left h s t absent, IsUnique-left s t u)

-- The rows that are taken are the first ones.
pub record Selected (rows : Table Custody) (start : ℕ) (sel : Table Custody) (sum : ℕ)
    : Type 0 where
  pub left : Table Custody
  pub first : rows ≡ sel ++ left
  pub sums : sum ≡ start + amount_of sel

pub select_custody-Selected :
    (policy : BurnPolicy) (total : ℕ) (rows : Table Custody) (start : ℕ) (sel : Table Custody)
    (sum : ℕ)
    → select_custody policy total rows start ≡ ok (sel, sum)
    → Selected rows start sel sum
unfolding select_custody amount_of
select_custody-Selected policy total [] start sel sum h =
    subst (λ (x : Table Custody × ℕ). Selected [] start x.0 x.1) (ok-injective h)
      (record { left = []; first = refl; sums = omega arith })
select_custody-Selected policy total ((h, c) ∷ rows) start sel sum e =
    let now = start + c.amount_mc in
    let again = λ (s : Table Custody) (n : ℕ). select_custody-Selected policy total rows now s n in
    let (b, _, e1) = >>=-eq-ok (or_raised (compute_burn (pos now) policy)) _ e in
    let more : Answer (Table Custody × ℕ) =
      if leb (total + b) now then ok ([], now) else select_custody policy total rows now in
    let (r, f, e2) = >>=-eq-ok more _ e1 in
    let below : Selected rows now r.0 r.1 = elim (Bool-cases (leb (total + b) now)) [
      | inl d ↦
          let found : ◌≡◌ {A = Answer (Table Custody × ℕ)} (ok ([], now)) (ok r) = rw d at f in
          subst (λ (x : Table Custody × ℕ). Selected rows now x.0 x.1) (ok-injective found)
            (record { left = rows; first = refl; sums = omega arith })
      | inr d ↦ again r.0 r.1 (rw d at f)
    ] in
    subst (λ (x : Table Custody × ℕ). Selected ((h, c) ∷ rows) start x.0 x.1) (ok-injective e2)
      (record {
        left = below.left;
        first = ap (λ x. (h, c) ∷ x) below.first;
        sums = omega (arith, below.sums);
      })

unspent-IsDrawn : (t : Table Custody) → IsUnique t → IsDrawn t (unspent_custody t)
unspent-IsDrawn t u = record {
  rows =
      Rows-zip (λ h c. lookup h t ≡ some c) (λ h c. is_unspent c ≡ true) (unspent_custody t)
        (Rows-unspent (λ h c. lookup h t ≡ some c) t (Rows-self t u)) (unspent_custody-unspent t);
  unique = unspent-IsUnique t u;
}

-- What is selected are unspent rows, each once.
pub Selected-IsDrawn :
    (t : Table Custody) (start : ℕ) (sel : Table Custody) (sum : ℕ)
    → IsUnique t
    → Selected (unspent_custody t) start sel sum
    → IsDrawn t sel
Selected-IsDrawn t start sel sum u s =
    let all = unspent-IsDrawn t u in
    record {
      rows =
          Rows-left (λ h c. (lookup h t ≡ some c) × (is_unspent c ≡ true)) sel s.left
            (subst (Rows (λ h c. (lookup h t ≡ some c) × (is_unspent c ≡ true))) s.first all.rows);
      unique = IsUnique-left sel s.left (subst IsUnique s.first all.unique);
    }
