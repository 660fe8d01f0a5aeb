-- ===== src/Ledger/Exchange/Outgoing.antt =====
-- impl/aicash/ledgerstore.py, the output loop when it found no error: the outputs can be inserted and
-- their amounts are known.
use ai_cash.Prelude.{subst, ℕ, ◌+◌, ◌≡◌, refl, none, some, List, [], ◌∷◌, arith}
use ai_cash.Prelude.Text.{Text}
use ai_cash.Codec.Key.{Hash}
use ai_cash.Ledger.Outputs.{OutputResult, OutputArg, resolve_output, resolve_outputs}
use ai_cash.Ledger.Exchange.{output_errors, out_records, sum_out}
use ai_cash.Ledger.Exchange.Inserting.{Insertable, values}
use ai_cash.Ledger.Exchange.Placing.{Placed, Placed-positive, resolve_output-Placed}
use ai_cash.Ledger.State.{Entry, Config}
use ai_cash.Ledger.Table.{Table}

pub no_error :
    (j : ℕ) (r : OutputResult) (rs : List OutputResult)
    → output_errors j (r ∷ rs) ≡ []
    → (r.reason ≡ none) × (output_errors (j + 1) rs ≡ [])
unfolding output_errors
no_error j r rs h = ground arith

module _ ⦃hash : Hash⦄ where
  -- Every output is placed, each with the keys of those before it taken.
  pub data AllPlaced (cfg : Config) (t : Table Entry) (now : ℕ)
      : List OutputArg → List Text → List OutputResult → Type 0 where
    placed_nil : {seen : List Text} → AllPlaced cfg t now [] seen []
    placed_cons :
        {o : OutputArg} {os : List OutputArg} {seen seen' : List Text} {r : OutputResult}
        {rs : List OutputResult}
        → Placed cfg t o now seen r seen'
        → r.reason ≡ none
        → AllPlaced cfg t now os seen' rs
        → AllPlaced cfg t now (o ∷ os) seen (r ∷ rs)

  pub resolve_outputs-AllPlaced :
      (cfg : Config) (t : Table Entry) (now : ℕ) (os : List OutputArg) (seen : List Text) (j : ℕ)
      → output_errors j (resolve_outputs cfg t now os seen) ≡ []
      → AllPlaced cfg t now os seen (resolve_outputs cfg t now os seen)
  unfolding resolve_outputs
  resolve_outputs-AllPlaced cfg t now [] seen j n = placed_nil
  resolve_outputs-AllPlaced cfg t now (o ∷ os) seen j n =
      let (r, seen') = resolve_output cfg t o now seen in
      let (passed, later) = no_error j r (resolve_outputs cfg t now os seen') n in
      placed_cons (resolve_output-Placed cfg t o now seen seen' r refl passed) passed
        (resolve_outputs-AllPlaced cfg t now os seen' (j + 1) later)

  pub AllPlaced-Insertable :
      (cfg : Config) (t : Table Entry) (now : ℕ) {os : List OutputArg} {seen : List Text}
      {rs : List OutputResult}
      → AllPlaced cfg t now os seen rs
      → Insertable t seen (out_records rs)
  unfolding out_records
  AllPlaced-Insertable cfg t now placed_nil = tt
  AllPlaced-Insertable cfg t now
        (placed_cons {o = o} {seen = seen} {seen' = seen'} {r = r} {rs = rs} p n ps) =
      let (low, high, valid) = Placed-positive cfg t o now seen r seen' p in
      rw (n, p.result_key, p.result_amount, out_records)
        (
          p.is_fresh,
          p.absent,
          low,
          valid,
          subst (λ s. Insertable t s (out_records rs)) p.seen_after
              (AllPlaced-Insertable cfg t now ps),
        )

  pub AllPlaced-sum_out :
      (cfg : Config) (t : Table Entry) (now : ℕ) {os : List OutputArg} {seen : List Text}
      {rs : List OutputResult}
      → AllPlaced cfg t now os seen rs
      → sum_out rs ≡ some (values (out_records rs))
  unfolding sum_out out_records
  AllPlaced-sum_out cfg t now placed_nil = refl
  AllPlaced-sum_out cfg t now (placed_cons p n ps) =
      ground (arith, p.result_key, p.result_amount, n, AllPlaced-sum_out cfg t now ps)
