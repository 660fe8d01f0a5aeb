-- ===== src/Channel/Chunks.antt =====
-- impl/aicash/channels.py, `_chunks`: the batches of a long list.
use ai_cash.Prelude.{
  ℕ, zero, suc, ◌-◌, ◌≤◌, ◌≡◌, refl, ap, ◌∙◌, max, List, [], ◌∷◌, ◌++◌, length, take, drop, All,
  arith,
}

-- The slices from each multiple of the step on; the fuel is the number of items, since a slice takes
-- one at least.
unfoldable pub slices : {A : Type 0} → ℕ → List A → ℕ → List (List A)
slices zero items step = []
slices (suc fuel) [] step = []
slices (suc fuel) (x ∷ xs) step = take step (x ∷ xs) ∷ slices fuel (drop step (x ∷ xs)) step

unfoldable pub chunks : {A : Type 0} → List A → ℕ → List (List A)
chunks items size = slices (length items) items (max 1 size)

abbrev pub concat : {A : Type 0} → List (List A) → List A
concat [] = []
concat (xs ∷ xss) = xs ++ concat xss

take-drop : {A : Type 0} (n : ℕ) (xs : List A) → take n xs ++ drop n xs ≡ xs
take-drop zero xs = refl
take-drop (suc n) [] = refl
take-drop (suc n) (x ∷ xs) = ap (λ ys. x ∷ ys) (take-drop n xs)

length-take_le : {A : Type 0} (n : ℕ) (xs : List A) → length (take n xs) ≤ n
length-take_le zero xs = omega arith
length-take_le (suc n) [] = omega arith
length-take_le (suc n) (x ∷ xs) = omega (arith, length-take_le n xs)

length-drop_le : {A : Type 0} (n : ℕ) (xs : List A) → length (drop n xs) ≤ length xs
length-drop_le zero xs = omega arith
length-drop_le (suc n) [] = omega arith
length-drop_le (suc n) (x ∷ xs) = omega (arith, length-drop_le n xs)

slices_lem :
    {A : Type 0} (fuel : ℕ) (items : List A) (n : ℕ)
    → length items ≤ fuel
    → (concat (slices fuel items (suc n)) ≡ items)
      × All (λ xs. length xs ≤ suc n) (slices fuel items (suc n))
unfolding slices
slices_lem zero [] n h = (refl, tt)
slices_lem zero (x ∷ xs) n h = absurd (omega (arith, h))
slices_lem (suc fuel) [] n h = (refl, tt)
slices_lem (suc fuel) (x ∷ xs) n h =
    let (e, a) = slices_lem fuel (drop n xs) n (omega (arith, h, length-drop_le n xs)) in
    (
      ap (λ ys. x ∷ (take n xs ++ ys)) e ∙ ap (λ ys. x ∷ ys) (take-drop n xs),
      (length-take_le (suc n) (x ∷ xs), a),
    )

some_step : (n : ℕ) → (m : ℕ) × (max 1 n ≡ suc m)
some_step n = (max 1 n - 1, omega arith)

-- The chunks make up the list in its order, and none is longer than the size, or than one where that
-- is zero.
pub chunks_lem :
    {A : Type 0} (items : List A) (size : ℕ)
    → (concat (chunks items size) ≡ items) × All (λ xs. length xs ≤ max 1 size) (chunks items size)
unfolding chunks
chunks_lem items size =
    let (m, e) = some_step size in rw e (slices_lem (length items) items m (omega arith))
