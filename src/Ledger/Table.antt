-- ===== src/Ledger/Table.antt =====
-- The sqlite tables of impl/aicash/ledgerstore.py: rows under a unique text key. The order of the
-- rows is never read.
use ai_cash.Prelude.{
  length, ℕ, ◌+◌, ◌≡◌, refl, Bool, false, Option, none, some, List, [], ◌∷◌, arith, is_some,
  if◌then◌else◌,
}
use ai_cash.Prelude.Text.{Text, text_eq, text_eq_iff}

abbrev pub Table {ℓ} : Type ℓ → Type ℓ
Table V = List (Text × V)

module _ {ℓ} {V : Type ℓ} where
  -- `SELECT … WHERE key = ?`, then `fetchone`
  unfoldable pub lookup : Text → Table V → Option V
  lookup k [] = none
  lookup k ((j, v) ∷ t) = if text_eq k j then some v else lookup k t

  -- The primary key.
  abbrev pub IsUnique : Table V → Type ℓ
  IsUnique [] = Unit
  IsUnique ((k, v) ∷ t) = (lookup k t ≡ none) × IsUnique t

  -- `INSERT`; `none` is `sqlite3.IntegrityError`.
  unfoldable pub insert_row : Text → V → Table V → Option (Table V)
  unfolding lookup
  insert_row k v t = if is_some (lookup k t) then none else some ((k, v) ∷ t)

  -- `DELETE … WHERE drop`
  unfoldable pub delete_where : (V → Bool) → Table V → Table V
  delete_where drop [] = []
  delete_where drop ((k, v) ∷ t) =
      let rest = delete_where drop t in if drop v then rest else (k, v) ∷ rest

  -- The row count of a `DELETE`.
  unfoldable pub count_where : (V → Bool) → Table V → ℕ
  count_where drop [] = 0
  count_where drop ((k, v) ∷ t) = (if drop v then 1 else 0) + count_where drop t

  pub lookup_self : (k : Text) (v : V) (t : Table V) → lookup k ((k, v) ∷ t) ≡ some v
  unfolding lookup
  lookup_self k v t = ground (arith, text_eq_iff k k)

  pub lookup_ne :
      (j k : Text) (v : V) (t : Table V) → text_eq j k ≡ false → lookup j ((k, v) ∷ t) ≡ lookup j t
  unfolding lookup
  lookup_ne j k v t h = rw h

  pub lookup-delete_none :
      (drop : V → Bool) (k : Text) (t : Table V)
      → lookup k t ≡ none
      → lookup k (delete_where drop t) ≡ none
  unfolding lookup delete_where
  lookup-delete_none drop k [] h = refl
  lookup-delete_none drop k ((j, v) ∷ t) h = ground (arith, lookup-delete_none drop k t)

  pub delete-IsUnique :
      (drop : V → Bool) (t : Table V) → IsUnique t → IsUnique (delete_where drop t)
  unfolding delete_where
  delete-IsUnique drop [] u = tt
  delete-IsUnique drop ((j, v) ∷ t) (absent, u) =
      ground (arith, delete-IsUnique drop t u, lookup-delete_none drop j t absent)

  -- The rows that stay and the rows counted are all the rows.
  pub length-delete :
      (drop : V → Bool) (t : Table V) → length (delete_where drop t) + count_where drop t ≡ length t
  unfolding delete_where count_where
  length-delete drop [] = refl
  length-delete drop ((k, v) ∷ t) = ground (arith, length-delete drop t)

  -- What a deletion keeps and what it drops.
  pub lookup-delete :
      (drop : V → Bool) (k : Text) (v : V) (t : Table V)
      → IsUnique t
      → lookup k t ≡ some v
      → lookup k (delete_where drop t) ≡ (if drop v then none else some v)
  unfolding lookup delete_where
  lookup-delete drop k v [] u h = cc
  lookup-delete drop k v ((j, w) ∷ t) (absent, u) h =
      ground (arith, text_eq_iff k j, lookup-delete drop k v t u, lookup-delete_none drop k t)
