-- ===== src/Supervision/Selection.antt =====
-- impl/aicash/supervision.py, `agent_withdraw`: the request of a withdrawal, and the custody that
-- pays it.
pub mod Covering
pub mod Reading
use ai_cash.Ledger.Table.{Table}
use ai_cash.Codec.Base64.{b64u_decode}
use ai_cash.Prelude.{
  ℕ, ◌+◌, Bool, ◌&&◌, ◌||◌, Option, none, some, List, [], ◌∷◌, ltb, leb, ◌==◌, is_some,
  if◌then◌else◌,
}
use ai_cash.Prelude.Int.{pos}
use ai_cash.Prelude.Text.{Text, text_eq, codes, text_ltb}
use ai_cash.Burn.{BurnPolicy, compute_burn}
use ai_cash.Codec.Value.{Value, Values, get}
use ai_cash.Lock.{InputForm, plain, only_keys}
use ai_cash.Ledger.Outputs.{OutputArg, no_lock, spec}
use ai_cash.Supervision.{Answer, ok, ◌>>=◌, positive_int}
use ai_cash.Supervision.Bridge.{or_raised}
use ai_cash.Supervision.Custody.{Custody, is_unspent}

abbrev pub is_output_key : Text → Bool
is_output_key k = text_eq k (codes "amount_mc") || text_eq k (codes "secret_hash")

abbrev pub checked_hash_text : Option Value → Option Text
checked_hash_text (some (Value.str h)) = if is_some (b64u_decode h (some 32)) then some h else none
checked_hash_text _ = none

-- An output is by hash only: an amount and the hash of a secret that the mint never sees.
unfoldable pub read_withdraw_output : Value → Option (ℕ × Text)
read_withdraw_output (Value.dict fs) =
    if only_keys is_output_key fs
    then elim (positive_int (get (codes "amount_mc") fs)) [
      | none ↦ none
      | some n ↦ elim (checked_hash_text (get (codes "secret_hash") fs)) [
        | none ↦ none
        | some h ↦ some (n, h)
      ]
    ]
    else none
read_withdraw_output _ = none

unfoldable pub read_withdraw_outputs : Values → Option (List (ℕ × Text))
read_withdraw_outputs Values.nil = some []
read_withdraw_outputs (Values.cons v vs) = elim (read_withdraw_output v) [
  | none ↦ none
  | some o ↦ elim (read_withdraw_outputs vs) [ none ↦ none | some os ↦ some (o ∷ os) ]
]

unfoldable pub total_out : List (ℕ × Text) → ℕ
total_out [] = 0
total_out ((n, h) ∷ os) = n + total_out os

abbrev pub by_hash_spec : ℕ → Text → OutputArg
by_hash_spec n h = spec (record {
  amount_mc = Value.int (pos n);
  secret_hash = Value.str h;
  secret = Value.null;
  lock = no_lock;
})

-- The outputs asked for, and the change where there is any.
unfoldable pub withdraw_outputs : List (ℕ × Text) → ℕ → Option Text → List OutputArg
withdraw_outputs [] change none = []
withdraw_outputs [] change (some h) = by_hash_spec change h ∷ []
withdraw_outputs ((n, h) ∷ os) change change_hash =
    by_hash_spec n h ∷ withdraw_outputs os change change_hash

-- `ORDER BY amount_mc ASC, hash ASC`
abbrev comes_before : Text × Custody → Text × Custody → Bool
comes_before (h, c) (j, d) =
    ltb c.amount_mc d.amount_mc || (c.amount_mc == d.amount_mc && text_ltb h j)

unfoldable pub insert_by_amount : Text × Custody → Table Custody → Table Custody
insert_by_amount r [] = r ∷ []
insert_by_amount r (q ∷ rows) =
    let rest = insert_by_amount r rows in if comes_before r q then r ∷ q ∷ rows else q ∷ rest

-- The rows that are neither staged nor spent, in that order.
unfoldable pub unspent_custody : Table Custody → Table Custody
unspent_custody [] = []
unspent_custody ((h, c) ∷ rows) =
    let rest = unspent_custody rows in if is_unspent c then insert_by_amount (h, c) rest else rest

-- Rows are taken until they cover the outputs and their own burn, or there are no more.
unfoldable pub select_custody : BurnPolicy → ℕ → Table Custody → ℕ → Answer (Table Custody × ℕ)
select_custody policy total [] in_sum = ok ([], in_sum)
select_custody policy total ((h, c) ∷ rows) in_sum = do
  ledger_burn ← or_raised (compute_burn (pos (in_sum + c.amount_mc)) policy)
  (rest, sum) ←
      (if leb (total + ledger_burn) (in_sum + c.amount_mc)
        then ok ([], in_sum + c.amount_mc)
        else select_custody policy total rows (in_sum + c.amount_mc))
  ok ((h, c) ∷ rest, sum)

unfoldable pub hashes_of : Table Custody → List Text
hashes_of [] = []
hashes_of ((h, c) ∷ rows) = h ∷ hashes_of rows

unfoldable pub custody_forms : Text → Table Custody → Option (List (Option InputForm))
custody_forms mint_id [] = some []
custody_forms mint_id ((h, c) ∷ rows) = elim (b64u_decode c.secret_b64u (some 32)) [
  | none ↦ none
  | some secret ↦ elim (custody_forms mint_id rows) [
    | none ↦ none
    | some forms ↦ some (
        some (record {
          kind = plain;
          token = some (record {
            mint_id = mint_id;
            amount_mc = Value.int (pos c.amount_mc);
            secret = Value.bytes secret;
          });
          hash = none;
          witness = none;
        })
        ∷ forms)
  ]
]
