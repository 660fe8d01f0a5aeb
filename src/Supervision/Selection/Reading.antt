-- ===== src/Supervision/Selection/Reading.antt =====
-- impl/aicash/supervision.py: what a withdrawal asks for is not nothing.
use ai_cash.Prelude.{
  ℕ, ◌<◌, ◌≡◌, sym, subst, Option, some, some_eq, List, ◌∷◌, arith, Bool-cases, Option-cases, inl,
  inr, none-some, ◌∙◌, ap,
}
use ai_cash.Prelude.Text.{Text, codes}
use ai_cash.Codec.Value.{Value, Values, get}
use ai_cash.Lock.{only_keys}
use ai_cash.Supervision.{positive_int}
use ai_cash.Supervision.Bridge.{non_empty_list}
use ai_cash.Supervision.Moves.Transfer.{positive_int-pos}
use ai_cash.Supervision.Selection.{
  is_output_key, checked_hash_text, read_withdraw_output, read_withdraw_outputs, total_out,
}

read_withdraw_output-pos : (v : Value) (o : ℕ × Text) → read_withdraw_output v ≡ some o → 0 < o.0
unfolding read_withdraw_output
read_withdraw_output-pos (Value.dict fs) o e =
    let amount = positive_int (get (codes "amount_mc") fs) in
    let key = checked_hash_text (get (codes "secret_hash") fs) in
    elim (Bool-cases (only_keys is_output_key fs)) [
      | inr f ↦ absurd (none-some (rw f at e))
      | inl f ↦ elim (Option-cases amount) [
        | inl g ↦ absurd (none-some (rw (f, g) at e))
        | inr (n, g) ↦ elim (Option-cases key) [
          | inl k ↦ absurd (none-some (rw (f, g, k) at e))
          | inr (h, k) ↦
              let same : (n, h) ≡ o = some_eq (rw (f, g, k) at e) in
              subst (λ (x : ℕ × Text). 0 < x.0) same
                (positive_int-pos (get (codes "amount_mc") fs) n g)
        ]
      ]
    ]
read_withdraw_output-pos _ o e = cc

non_empty_list-cons :
    (v : Option Value) (vs : Values)
    → non_empty_list v ≡ some vs
    → (x : Value) × (xs : Values) × (vs ≡ Values.cons x xs)
unfolding non_empty_list
non_empty_list-cons (some (Value.arr (Values.cons x xs))) vs e = (x, xs, some_eq (sym e))
non_empty_list-cons _ vs e = cc

outputs-pos :
    (x : Value) (xs : Values) (wanted : List (ℕ × Text))
    → read_withdraw_outputs (Values.cons x xs) ≡ some wanted
    → 0 < total_out wanted
unfolding read_withdraw_outputs total_out
outputs-pos x xs wanted e = elim (Option-cases (read_withdraw_output x)) [
  | inl f ↦ absurd (none-some (rw (f, read_withdraw_outputs) at e))
  | inr (o, f) ↦ elim (Option-cases (read_withdraw_outputs xs)) [
    | inl g ↦ absurd (none-some (rw (f, g, read_withdraw_outputs) at e))
    | inr (os, g) ↦
        let is : o ∷ os ≡ wanted = some_eq (rw (f, g, read_withdraw_outputs) at e) in
        subst (λ (w : List (ℕ × Text)). 0 < total_out w) is
          (omega (arith, read_withdraw_output-pos x o f))
  ]
]

pub wanted-pos :
    (v : Option Value) (vs : Values) (wanted : List (ℕ × Text))
    → non_empty_list v ≡ some vs
    → read_withdraw_outputs vs ≡ some wanted
    → 0 < total_out wanted
wanted-pos v vs wanted given e =
    let (x, xs, same) = non_empty_list-cons v vs given in
    outputs-pos x xs wanted (ap read_withdraw_outputs (sym same) ∙ e)
