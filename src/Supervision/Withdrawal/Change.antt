-- ===== src/Supervision/Withdrawal/Change.antt =====
-- impl/aicash/supervision.py: what the custody of the mint holds while a withdrawal is staged, after
-- it is finalized and after it is unwound.
use ai_cash.Prelude.{
  ℕ, ◌+◌, ◌≡◌, refl, sym, ◌∙◌, subst, Option, none, some, some_eq, ◌∷◌, arith, Bool-cases, inl, inr,
  leb, none-some,
}
use ai_cash.Prelude.Text.{Text, Bytes}
use ai_cash.Codec.Base64.{b64u_encode}
use ai_cash.Ledger.State.{max_amount_mc}
use ai_cash.Ledger.Table.{Table, lookup, IsUnique, lookup_self, lookup_ne}
use ai_cash.Supervision.Rows.{Rows, Rows-map, update-IsUnique, absent_ne}
use ai_cash.Supervision.Targets.{insert_row-eq-some}
use ai_cash.Supervision.Custody.{Custody, pending, reserve, release, consume, activate, is_pending}
use ai_cash.Supervision.Custody.Held.{
  held, held-update, held-delete, reserve-held_of, release-held_of, delete-IsUnique_row,
}
use ai_cash.Supervision.Selection.{hashes_of}
use ai_cash.Supervision.Selection.Covering.{amount_of, IsDrawn}
use ai_cash.Supervision.Withdrawal.{update_inputs, add_change, drop_change, activate_change}
use ai_cash.Supervision.Withdrawal.Inputs.{
  Finds, held_back, held-inputs_same, inputs-IsUnique, reserve_inputs-Finds, held-consumed,
  absent-sel, lookup-inputs_ne,
}

abbrev pub change_row : Bytes → ℕ → Custody
change_row secret change = record {
  secret_b64u = b64u_encode secret;
  amount_mc = change;
  state = pending;
}

-- What the custody has once the inputs are reserved and the change is in.
pub data IsStaged (secret : Bytes) (change : ℕ) (t : Table Custody)
    : Option Text → Table Custody → Type 0 where
  bare : IsStaged secret change t none t
  with_change :
      {h : Text}
      → lookup h t ≡ none
      → IsStaged secret change t (some h) ((h, change_row secret change) ∷ t)

pub add_change-IsStaged :
    (ch : Option Text) (secret : Bytes) (change : ℕ) (t staged : Table Custody)
    → add_change ch secret change t ≡ some staged
    → IsStaged secret change t ch staged
unfolding add_change
add_change-IsStaged none secret change t staged h =
    subst (IsStaged secret change t none) (some_eq h) bare
add_change-IsStaged (some k) secret change t staged h =
    elim (Bool-cases (leb change max_amount_mc)) [
      | inl e ↦
          let (gone, is_row) =
            insert_row-eq-some k (change_row secret change) t staged (rw e at h) in
          subst (IsStaged secret change t (some k)) (sym is_row) (with_change gone)
      | inr e ↦ absurd (none-some (rw e at h))
    ]

pub IsStaged-IsUnique :
    (secret : Bytes) (change : ℕ) (t : Table Custody) (ch : Option Text) (staged : Table Custody)
    → IsStaged secret change t ch staged
    → IsUnique t
    → IsUnique staged
IsStaged-IsUnique secret change t none _ bare u = u
IsStaged-IsUnique secret change t (some h) _ (with_change gone) u = (gone, u)

pub IsStaged-held :
    (secret : Bytes) (change : ℕ) (t : Table Custody) (ch : Option Text) (staged : Table Custody)
    → IsStaged secret change t ch staged
    → held staged ≡ held t
unfolding held
IsStaged-held secret change t none _ bare = refl
IsStaged-held secret change t (some h) _ (with_change gone) = omega arith

IsStaged-Finds :
    (f : Custody → Custody) (secret : Bytes) (change : ℕ) (t : Table Custody) (ch : Option Text)
    (staged sel : Table Custody)
    → IsStaged secret change t ch staged
    → Rows (Finds f t) sel
    → Rows (Finds f staged) sel
IsStaged-Finds f secret change t none _ sel bare r = r
IsStaged-Finds f secret change t (some k) _ sel (with_change gone) r =
    Rows-map (Finds f t) (Finds f ((k, change_row secret change) ∷ t)) sel
      (λ j d found.
        lookup_ne j k (change_row secret change) t (absent_ne j k (f d) t gone found) ∙ found)
      r

-- The change is spendable once the inputs are consumed.
activate-held :
    (f : Custody → Custody) (secret : Bytes) (change : ℕ) (t : Table Custody) (ch : Option Text)
    (staged sel : Table Custody)
    → IsStaged secret change t ch staged
    → (ch ≡ none → change ≡ 0)
    → Rows (Finds f t) sel
    → IsUnique staged
    → held (activate_change ch (update_inputs consume (hashes_of sel) staged))
      ≡ held (update_inputs consume (hashes_of sel) staged) + change
unfolding activate_change
activate-held f secret change t none _ sel bare zero r u = omega (arith, zero refl)
activate-held f secret change t (some k) _ sel (with_change gone) zero r u =
    let row = change_row secret change in
    let after = update_inputs consume (hashes_of sel) ((k, row) ∷ t) in
    let found =
      lookup-inputs_ne k consume sel ((k, row) ∷ t) (absent-sel k f sel t gone r)
      ∙ lookup_self k row t in
    omega (
      arith,
      held-update k activate after row (inputs-IsUnique consume (hashes_of sel) ((k, row) ∷ t) u)
          found,
    )

pub activate-IsUnique :
    (ch : Option Text) (t : Table Custody) → IsUnique t → IsUnique (activate_change ch t)
unfolding activate_change
activate-IsUnique none t u = u
activate-IsUnique (some h) t u = update-IsUnique h activate t u

pub drop-IsUnique :
    (ch : Option Text) (t : Table Custody) → IsUnique t → IsUnique (drop_change ch t)
unfolding drop_change
drop-IsUnique none t u = u
drop-IsUnique (some h) t u = delete-IsUnique_row h is_pending t u

drop-held : (ch : Option Text) (t : Table Custody) → held (drop_change ch t) ≡ held t
unfolding drop_change
drop-held none t = refl
drop-held (some h) t = held-delete h t

module _ (secret : Bytes) (change : ℕ) (t : Table Custody) (ch : Option Text)
    (staged : Table Custody) (sel : Table Custody) (u : IsUnique t)
    (s : IsStaged secret change (update_inputs reserve (hashes_of sel) t) ch staged) where
  pub staged-IsUnique : IsUnique staged
  staged-IsUnique =
      IsStaged-IsUnique secret change (update_inputs reserve (hashes_of sel) t) ch staged s
        (inputs-IsUnique reserve (hashes_of sel) t u)

  pub staged-held : held staged ≡ held t
  staged-held =
      IsStaged-held secret change (update_inputs reserve (hashes_of sel) t) ch staged s
      ∙ held-inputs_same reserve (hashes_of sel) t reserve-held_of

  -- Consumed and unwound.
  pub consumed-held :
      IsDrawn t sel
      → (ch ≡ none → change ≡ 0)
      → held (activate_change ch (update_inputs consume (hashes_of sel) staged)) + amount_of sel
        ≡ held t + change
  consumed-held d zero =
      let reserved_rows = reserve_inputs-Finds sel t d.rows d.unique in
      let found =
        IsStaged-Finds held_back secret change (update_inputs reserve (hashes_of sel) t) ch staged
          sel s reserved_rows in
      omega (
        arith,
        activate-held held_back secret change (update_inputs reserve (hashes_of sel) t) ch staged
            sel s zero reserved_rows staged-IsUnique,
        held-consumed sel staged found d.unique staged-IsUnique,
        staged-held,
      )

  pub unwound-held : held (drop_change ch (update_inputs release (hashes_of sel) staged)) ≡ held t
  unwound-held =
      drop-held ch (update_inputs release (hashes_of sel) staged)
      ∙ held-inputs_same release (hashes_of sel) staged release-held_of
      ∙ staged-held
