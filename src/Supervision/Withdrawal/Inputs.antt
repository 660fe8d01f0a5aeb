-- ===== src/Supervision/Withdrawal/Inputs.antt =====
-- impl/aicash/supervision.py: the rows of the custody that pay a withdrawal, reserved and consumed.
use ai_cash.Prelude.{◌+◌, ◌≡◌, refl, ◌∙◌, ap, true, false, none, some, List, [], ◌∷◌, arith}
use ai_cash.Prelude.Text.{Text, text_eq, text_ne_symm}
use ai_cash.Ledger.Table.{Table, lookup, IsUnique}
use ai_cash.Supervision.Rows.{
  absent_parts, Rows, update_row, update-IsUnique, lookup-update_self, lookup-update_ne, absent_ne,
}
use ai_cash.Supervision.Custody.{Custody, reserved, is_unspent, reserve, consume}
use ai_cash.Supervision.Custody.Held.{held, held_of, held-update, held-update_same}
use ai_cash.Supervision.Selection.{hashes_of}
use ai_cash.Supervision.Selection.Covering.{amount_of}
use ai_cash.Supervision.Withdrawal.{update_inputs}

pub held-inputs_same :
    (f : Custody → Custody) (hs : List Text) (t : Table Custody)
    → ((c : Custody) → held_of (f c) ≡ held_of c)
    → held (update_inputs f hs t) ≡ held t
unfolding update_inputs
held-inputs_same f [] t same = refl
held-inputs_same f (h ∷ hs) t same =
    held-inputs_same f hs (update_row h f t) same ∙ held-update_same h f t same

pub inputs-IsUnique :
    (f : Custody → Custody) (hs : List Text) (t : Table Custody)
    → IsUnique t
    → IsUnique (update_inputs f hs t)
unfolding update_inputs
inputs-IsUnique f [] t u = u
inputs-IsUnique f (h ∷ hs) t u = inputs-IsUnique f hs (update_row h f t) (update-IsUnique h f t u)

pub lookup-inputs_ne :
    (j : Text) (f : Custody → Custody) (sel t : Table Custody)
    → lookup j sel ≡ none
    → lookup j (update_inputs f (hashes_of sel) t) ≡ lookup j t
unfolding update_inputs hashes_of
lookup-inputs_ne j f [] t absent = refl
lookup-inputs_ne j f ((h, c) ∷ sel) t absent =
    let (ne, gone) = absent_parts j h c sel absent in
    lookup-inputs_ne j f sel (update_row h f t) gone
    ∙ lookup-update_ne j h f t (text_ne_symm j h ne)

-- A property of the rows that are not under a key.
Rows-apart :
    (P Q : Text → Custody → Type 0) (h : Text) (t : Table Custody)
    → lookup h t ≡ none
    → ((j : Text) (c : Custody) → text_eq h j ≡ false → P j c → Q j c)
    → Rows P t
    → Rows Q t
Rows-apart P Q h [] absent f r = tt
Rows-apart P Q h ((j, c) ∷ t) absent f (p, r) =
    let (ne, gone) = absent_parts h j c t absent in (f j c ne p, Rows-apart P Q h t gone f r)

abbrev pub Finds : (Custody → Custody) → Table Custody → Text → Custody → Type 0
Finds f t h c = lookup h t ≡ some (f c)

abbrev pub held_back : Custody → Custody
held_back c = record c { state = reserved }

reserve-held_back : (c : Custody) → is_unspent c ≡ true → reserve c ≡ held_back c
reserve-held_back c e = rw e refl

pub reserve_inputs-Finds :
    (sel t : Table Custody)
    → Rows (λ h c. (lookup h t ≡ some c) × (is_unspent c ≡ true)) sel
    → IsUnique sel
    → Rows (Finds held_back (update_inputs reserve (hashes_of sel) t)) sel
unfolding update_inputs hashes_of
reserve_inputs-Finds [] t r u = tt
reserve_inputs-Finds ((h, c) ∷ sel) t ((found, e), r) (absent, u) =
    let t' = update_row h reserve t in
    (
      lookup-inputs_ne h reserve sel t' absent
          ∙ lookup-update_self h reserve t c found
          ∙ ap some (reserve-held_back c e),
      reserve_inputs-Finds sel t'
          (Rows-apart (λ j d. (lookup j t ≡ some d) × (is_unspent d ≡ true))
            (λ j d. (lookup j t' ≡ some d) × (is_unspent d ≡ true)) h sel absent
            (λ j d ne (f, k). (lookup-update_ne j h reserve t ne ∙ f, k)) r)
          u,
    )

pub held-consumed :
    (sel t : Table Custody)
    → Rows (Finds held_back t) sel
    → IsUnique sel
    → IsUnique t
    → held (update_inputs consume (hashes_of sel) t) + amount_of sel ≡ held t
unfolding update_inputs hashes_of amount_of
held-consumed [] t r us ut = omega arith
held-consumed ((h, c) ∷ sel) t (found, r) (absent, us) ut =
    let t' = update_row h consume t in
    let rest =
      held-consumed sel t'
        (Rows-apart (Finds held_back t) (Finds held_back t') h sel absent
          (λ j d ne f. lookup-update_ne j h consume t ne ∙ f) r)
        us (update-IsUnique h consume t ut) in
    omega (arith, rest, held-update h consume t (held_back c) ut found)

-- A key that a table does not have is not under the rows that it has.
pub absent-sel :
    (k : Text) (f : Custody → Custody) (sel t : Table Custody)
    → lookup k t ≡ none
    → Rows (Finds f t) sel
    → lookup k sel ≡ none
unfolding lookup
absent-sel k f [] t absent r = refl
absent-sel k f ((h, c) ∷ sel) t absent (found, r) =
    rw (text_ne_symm h k (absent_ne h k (f c) t absent found)) (absent-sel k f sel t absent r)
