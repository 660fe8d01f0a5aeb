-- ===== src/Ledger/Exchange/Totals.antt =====
-- impl/aicash/ledgerstore.py: the sums of a confirmed call, read off the call itself, and the rows of
-- its outputs.
use ai_cash.Prelude.{
  suc, subst, ℕ, ◌+◌, ◌≡◌, refl, ap, Option, none, some, List, [], ◌∷◌, arith, All, length,
}
use ai_cash.Prelude.Text.{Text}
use ai_cash.Codec.Key.{Hash}
use ai_cash.Lock.{Lock, InputForm}
use ai_cash.Ledger.Inputs.{InputResult, form_key}
use ai_cash.Ledger.Outputs.{
  OutputResult, OutputArg, OutputSpec, spec, wire, output_amount, output_key, resolve_lock,
}
use ai_cash.Ledger.Exchange.{in_records, out_records}
use ai_cash.Ledger.Exchange.Accepted.{AllPass, pass_nil, pass_cons}
use ai_cash.Ledger.Exchange.Inputs.{in_records-cons}
use ai_cash.Ledger.Exchange.Inserting.{OutRecord, values, new_entry}
use ai_cash.Ledger.Exchange.Outgoing.{AllPlaced, placed_nil, placed_cons}
use ai_cash.Ledger.Exchange.Spending.{amounts}
use ai_cash.Ledger.State.{Entry, Config}
use ai_cash.Ledger.Table.{Table, lookup}

abbrev amount_at : Option Entry → ℕ
amount_at none = 0
amount_at (some e) = e.amount_mc

abbrev amount_named : Table Entry → Option Text → ℕ
amount_named t none = 0
amount_named t (some k) = amount_at (lookup k t)

abbrev or_zero : Option ℕ → ℕ
or_zero none = 0
or_zero (some a) = a

-- What the outputs ask for.
abbrev pub output_total : List OutputArg → ℕ
output_total [] = 0
output_total (wire v ∷ os) = output_total os
output_total (spec s ∷ os) = or_zero (output_amount s.amount_mc) + output_total os

pub out_records-cons :
    (r : OutputResult) (rs : List OutputResult) (k : Text) (a : ℕ)
    → r.reason ≡ none
    → r.key ≡ some k
    → r.amount ≡ some a
    → out_records (r ∷ rs) ≡ (k, a, r.lock) ∷ out_records rs
unfolding out_records
out_records-cons r rs k a n rk ra = ground arith

module _ ⦃hash : Hash⦄ where
  abbrev pub form_amount : Table Entry → Option InputForm → ℕ
  form_amount t none = 0
  form_amount t (some form) = amount_named t (form_key form)

  -- What the entries that the inputs name hold.
  abbrev pub input_total : Table Entry → List (Option InputForm) → ℕ
  input_total t [] = 0
  input_total t (f ∷ fs) = form_amount t f + input_total t fs

  pub AllPass-input_total :
      (t : Table Entry) (now : ℕ) {fs : List (Option InputForm)} {seen : List Text}
      {rs : List InputResult}
      → AllPass t now fs seen rs
      → amounts (in_records rs) ≡ input_total t fs
  unfolding in_records
  AllPass-input_total t now pass_nil = refl
  AllPass-input_total t now (pass_cons {r = r} {rs = rs} p n ps) =
      rw
        (
          in_records-cons r rs p.at p.entry.amount_mc n p.result_key p.result_amount,
          p.form_given,
          form_amount,
          p.key_of_form,
          amount_named,
          p.found,
        )
        (ap (λ (m : ℕ). p.entry.amount_mc + m) (AllPass-input_total t now ps))

  -- The output asks for an amount, a key and a lock, or none. There was no row of that key, and now
  -- its row is just that, unspent and made at this instant.
  pub record Creates (cfg : Config) (t t' : Table Entry) (now : ℕ) (o : OutputArg) : Type 0 where
    pub asked : OutputSpec
    pub at : Text
    pub amount : ℕ
    pub lock : Option Lock
    pub given : o ≡ spec asked
    pub amount_asked : output_amount asked.amount_mc ≡ some amount
    pub key_asked : output_key asked.secret_hash asked.secret ≡ some at
    pub lock_asked : resolve_lock cfg asked.lock now ≡ some lock
    pub was_absent : lookup at t ≡ none
    pub created : lookup at t' ≡ some (new_entry amount lock now)

  pub AllPlaced-Creates :
      (cfg : Config) (t t' : Table Entry) (now : ℕ) {os : List OutputArg} {seen : List Text}
      {rs : List OutputResult}
      → AllPlaced cfg t now os seen rs
      → All (λ (r : OutRecord). lookup r.0 t' ≡ some (new_entry r.1 r.2 now)) (out_records rs)
      → All (Creates cfg t t' now) os
  AllPlaced-Creates cfg t t' now placed_nil h = tt
  AllPlaced-Creates cfg t t' now (placed_cons {r = r} {rs = rs} p n ps) h =
      let (row, rest) =
        subst (All (λ (x : OutRecord). lookup x.0 t' ≡ some (new_entry x.1 x.2 now)))
          (out_records-cons r rs p.at p.amount n p.result_key p.result_amount) h in
      (
        record {
          asked = p.asked;
          at = p.at;
          amount = p.amount;
          lock = r.lock;
          given = p.o_given;
          amount_asked = p.amount_asked;
          key_asked = p.key_asked;
          lock_asked = p.lock_asked;
          was_absent = p.absent;
          created = row;
        },
        AllPlaced-Creates cfg t t' now ps rest,
      )

  pub AllPlaced-output_total :
      (cfg : Config) (t : Table Entry) (now : ℕ) {os : List OutputArg} {seen : List Text}
      {rs : List OutputResult}
      → AllPlaced cfg t now os seen rs
      → (values (out_records rs) ≡ output_total os) × (length (out_records rs) ≡ length os)
  unfolding out_records
  AllPlaced-output_total cfg t now placed_nil = (refl, refl)
  AllPlaced-output_total cfg t now (placed_cons {r = r} {rs = rs} p n ps) =
      let (e, l) = AllPlaced-output_total cfg t now ps in
      rw
        (
          out_records-cons r rs p.at p.amount n p.result_key p.result_amount,
          p.o_given,
          output_total,
          p.amount_asked,
        )
        (ap (λ (m : ℕ). p.amount + m) e, ap suc l)
