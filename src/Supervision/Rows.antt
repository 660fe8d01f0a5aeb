-- ===== src/Supervision/Rows.antt =====
-- impl/aicash/supervision.py: the rows that an `UPDATE` changes, and what that leaves of a property
-- of the rows.
use ai_cash.Prelude.{
  ◌≡◌, refl, false, none, some, [], ◌∷◌, arith, Bool-cases, inl, inr, if◌then◌else◌, some_eq,
  none-some, is_some, sym, ap, ◌∙◌, subst,
}
use ai_cash.Prelude.Text.{Text, text_eq, text_eq_iff}
use ai_cash.Ledger.Table.{Table, lookup, IsUnique, lookup_self, lookup_ne}

module _ {V : Type 0} where
  -- `UPDATE … SET … WHERE key = ?`
  unfoldable pub update_row : Text → (V → V) → Table V → Table V
  update_row k f [] = []
  update_row k f ((j, v) ∷ t) = (j, if text_eq k j then f v else v) ∷ update_row k f t

  -- A property of every row.
  abbrev pub Rows : (Text → V → Type 0) → Table V → Type 0
  Rows P [] = Unit
  Rows P ((k, v) ∷ t) = P k v × Rows P t

  pub Rows-lookup :
      (P : Text → V → Type 0) (k : Text) (v : V) (t : Table V)
      → Rows P t
      → lookup k t ≡ some v
      → P k v
  unfolding lookup
  Rows-lookup P k v [] r h = cc
  Rows-lookup P k v ((j, w) ∷ t) (p, r) h = elim (Bool-cases (text_eq k j)) [
    | inl e ↦ subst (λ i. P i v) (sym ((text_eq_iff k j).0 e)) (subst (P j) (some_eq (rw e at h)) p)
    | inr e ↦ Rows-lookup P k v t r (rw e at h)
  ]

  pub Rows-map :
      (P Q : Text → V → Type 0) (t : Table V)
      → ((j : Text) (v : V) → P j v → Q j v)
      → Rows P t
      → Rows Q t
  Rows-map P Q [] f r = tt
  Rows-map P Q ((k, v) ∷ t) f (p, r) = (f k v p, Rows-map P Q t f r)

  -- An update keeps a property of the rows, if it does so at its own row and the others keep theirs.
  pub Rows-update :
      (P Q : Text → V → Type 0) (k : Text) (f : V → V) (t : Table V)
      → ((v : V) → P k v → Q k (f v))
      → ((j : Text) (v : V) → text_eq k j ≡ false → P j v → Q j v)
      → Rows P t
      → Rows Q (update_row k f t)
  unfolding update_row
  Rows-update P Q k f [] own others r = tt
  Rows-update P Q k f ((j, v) ∷ t) own others (p, r) = elim (Bool-cases (text_eq k j)) [
    | inl e ↦
        let same = (text_eq_iff k j).0 e in
        rw e (
          subst (λ i. Q i (f v)) same (own v (subst (λ i. P i v) (sym same) p)),
          Rows-update P Q k f t own others r,
        )
    | inr e ↦ rw e (others j v e p, Rows-update P Q k f t own others r)
  ]

  pub absent_parts :
      (j i : Text) (w : V) (t : Table V)
      → lookup j ((i, w) ∷ t) ≡ none
      → (text_eq j i ≡ false) × (lookup j t ≡ none)
  unfolding lookup
  absent_parts j i w t h = ground arith

  pub lookup-update_none :
      (j k : Text) (f : V → V) (t : Table V)
      → lookup j t ≡ none
      → lookup j (update_row k f t) ≡ none
  unfolding lookup update_row
  lookup-update_none j k f [] h = refl
  lookup-update_none j k f ((i, v) ∷ t) h = ground (arith, lookup-update_none j k f t)

  pub update-IsUnique :
      (k : Text) (f : V → V) (t : Table V) → IsUnique t → IsUnique (update_row k f t)
  unfolding update_row
  update-IsUnique k f [] u = tt
  update-IsUnique k f ((j, v) ∷ t) (absent, u) =
      (lookup-update_none j k f t absent, update-IsUnique k f t u)

  pub lookup-update_self :
      (k : Text) (f : V → V) (t : Table V) (v : V)
      → lookup k t ≡ some v
      → lookup k (update_row k f t) ≡ some (f v)
  unfolding lookup update_row
  lookup-update_self k f [] v h = cc
  lookup-update_self k f ((j, w) ∷ t) v h = ground (arith, lookup-update_self k f t v)

  pub lookup-update_ne :
      (j k : Text) (f : V → V) (t : Table V)
      → text_eq k j ≡ false
      → lookup j (update_row k f t) ≡ lookup j t
  unfolding lookup update_row
  lookup-update_ne j k f [] h = refl
  lookup-update_ne j k f ((i, w) ∷ t) h =
      ground (arith, text_eq_iff k j, text_eq_iff k i, text_eq_iff j i, lookup-update_ne j k f t h)

  pub absent_ne :
      (j k : Text) (w : V) (t : Table V)
      → lookup k t ≡ none
      → lookup j t ≡ some w
      → text_eq j k ≡ false
  absent_ne j k w t absent h = elim (Bool-cases (text_eq j k)) [
    | inr e ↦ e
    | inl e ↦
        let same : none ≡ some w =
          sym absent ∙ ap (λ i. lookup i t) (sym ((text_eq_iff j k).0 e)) ∙ h in
        absurd (none-some same)
  ]

  -- Under unique keys each row is the one that its key finds.
  pub Rows-self : (t : Table V) → IsUnique t → Rows (λ k v. lookup k t ≡ some v) t
  Rows-self [] u = tt
  Rows-self ((k, v) ∷ t) (absent, u) = (
    lookup_self k v t,
    Rows-map (λ j w. lookup j t ≡ some w) (λ j w. lookup j ((k, v) ∷ t) ≡ some w) t
        (λ j w h. lookup_ne j k v t (absent_ne j k w t absent h) ∙ h) (Rows-self t u),
  )

  pub Rows-zip :
      (P Q : Text → V → Type 0) (t : Table V) → Rows P t → Rows Q t → Rows (λ k v. P k v × Q k v) t
  Rows-zip P Q [] p q = tt
  Rows-zip P Q ((k, v) ∷ t) (p, ps) (q, qs) = ((p, q), Rows-zip P Q t ps qs)

  -- So too, where the row that is updated is known.
  pub Rows-update_found :
      (P Q : Text → V → Type 0) (k : Text) (f : V → V) (t : Table V) (v : V)
      → IsUnique t
      → lookup k t ≡ some v
      → (P k v → Q k (f v))
      → ((j : Text) (w : V) → text_eq k j ≡ false → P j w → Q j w)
      → Rows P t
      → Rows Q (update_row k f t)
  Rows-update_found P Q k f t v u found own others r =
      Rows-update (λ j w. P j w × (lookup j t ≡ some w)) Q k f t
        (λ w (p, h).
          let same : v ≡ w = some_eq (sym found ∙ h) in
          subst (λ x. Q k (f x)) same (own (subst (P k) (sym same) p)))
        (λ j w ne (p, h). others j w ne p)
        (Rows-zip P (λ j w. lookup j t ≡ some w) t r (Rows-self t u))

  pub is_some-update :
      (j k : Text) (f : V → V) (t : Table V)
      → is_some (lookup j (update_row k f t)) ≡ is_some (lookup j t)
  unfolding lookup update_row
  is_some-update j k f [] = refl
  is_some-update j k f ((i, v) ∷ t) = ground (arith, is_some-update j k f t)
