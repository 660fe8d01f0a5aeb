-- ===== src/Ledger/Exchange/Accepted.antt =====
-- impl/aicash/ledgerstore.py, the input loop when it found no error: the inputs name distinct unspent
-- entries, their amounts are known, and no key is double counted.
use ai_cash.Prelude.{subst, ℕ, ◌+◌, ◌≡◌, ◌≢◌, refl, false, Option, none, some, List, [], ◌∷◌, arith}
use ai_cash.Prelude.Text.{Text}
use ai_cash.Codec.Key.{Hash}
use ai_cash.Lock.{InputForm}
use ai_cash.Ledger.Inputs.{InputResult, resolve_input, resolve_inputs}
use ai_cash.Ledger.Exchange.{input_errors, in_records, sum_in, duplicate_input}
use ai_cash.Ledger.Exchange.Resolving.{Passes, resolve_input-Passes}
use ai_cash.Ledger.Exchange.Spending.{Spendable, amounts}
use ai_cash.Ledger.State.{Entry, done, >>=-eq-done}
use ai_cash.Ledger.Table.{Table}

no_error :
    (i : ℕ) (r : InputResult) (rs : List InputResult)
    → input_errors i (r ∷ rs) ≡ []
    → (r.reason ≡ none) × (input_errors (i + 1) rs ≡ [])
unfolding input_errors
no_error i r rs h = ground arith

module _ ⦃hash : Hash⦄ where
  -- Every form passes, each with the keys of those before it used.
  pub data AllPass (t : Table Entry) (now : ℕ)
      : List (Option InputForm) → List Text → List InputResult → Type 0 where
    pass_nil : {seen : List Text} → AllPass t now [] seen []
    pass_cons :
        {f : Option InputForm} {fs : List (Option InputForm)} {seen seen' : List Text}
        {r : InputResult} {rs : List InputResult}
        → Passes t f now seen r seen'
        → r.reason ≡ none
        → AllPass t now fs seen' rs
        → AllPass t now (f ∷ fs) seen (r ∷ rs)

  resolve_inputs-step :
      (t : Table Entry) (now : ℕ) (f : Option InputForm) (fs : List (Option InputForm))
      (seen : List Text) (r : InputResult) (rs : List InputResult)
      → resolve_inputs t now (f ∷ fs) seen ≡ done (r ∷ rs)
      → (seen' : List Text) × (resolve_input t f now seen ≡ done (r, seen'))
        × (resolve_inputs t now fs seen' ≡ done rs)
  unfolding resolve_inputs
  resolve_inputs-step t now f fs seen r rs h =
      let ((r', seen'), e, h') = >>=-eq-done (resolve_input t f now seen) _ h in
      let (rs', e', h'') = >>=-eq-done (resolve_inputs t now fs seen') _ h' in (seen', cc, cc)

  resolve_inputs-short :
      (t : Table Entry) (now : ℕ) (f : Option InputForm) (fs : List (Option InputForm))
      (seen : List Text)
      → resolve_inputs t now (f ∷ fs) seen ≢ done []
  unfolding resolve_inputs
  resolve_inputs-short t now f fs seen h =
      let ((r, seen'), e, h') = >>=-eq-done (resolve_input t f now seen) _ h in
      let (rs, e', h'') = >>=-eq-done (resolve_inputs t now fs seen') _ h' in cc

  resolve_inputs-long :
      (t : Table Entry) (now : ℕ) (seen : List Text) (r : InputResult) (rs : List InputResult)
      → resolve_inputs t now [] seen ≢ done (r ∷ rs)
  unfolding resolve_inputs
  resolve_inputs-long t now seen r rs h = cc

  pub resolve_inputs-AllPass :
      (t : Table Entry) (now : ℕ) (fs : List (Option InputForm)) (seen : List Text) (i : ℕ)
      (rs : List InputResult)
      → resolve_inputs t now fs seen ≡ done rs
      → input_errors i rs ≡ []
      → AllPass t now fs seen rs
  resolve_inputs-AllPass t now [] seen i [] h n = pass_nil
  resolve_inputs-AllPass t now [] seen i (r ∷ rs) h n =
      absurd (resolve_inputs-long t now seen r rs h)
  resolve_inputs-AllPass t now (f ∷ fs) seen i [] h n =
      absurd (resolve_inputs-short t now f fs seen h)
  resolve_inputs-AllPass t now (f ∷ fs) seen i (r ∷ rs) h n =
      let (seen', e, e') = resolve_inputs-step t now f fs seen r rs h in
      let (passed, later) = no_error i r rs n in
      pass_cons (resolve_input-Passes t f now seen seen' r e passed) passed
        (resolve_inputs-AllPass t now fs seen' (i + 1) rs e' later)

  pub AllPass-Spendable :
      (t : Table Entry) (now : ℕ) {fs : List (Option InputForm)} {seen : List Text}
      {rs : List InputResult}
      → AllPass t now fs seen rs
      → Spendable t seen (in_records rs)
  unfolding in_records
  AllPass-Spendable t now pass_nil = tt
  AllPass-Spendable t now (pass_cons {rs = rs} p n ps) =
      rw (n, p.result_key, p.result_amount, in_records)
        (
          p.is_fresh,
          (p.entry, p.found, p.unspent, refl),
          subst (λ s. Spendable t s (in_records rs)) p.seen_after (AllPass-Spendable t now ps),
        )

  pub AllPass-sum_in :
      (t : Table Entry) (now : ℕ) {fs : List (Option InputForm)} {seen : List Text}
      {rs : List InputResult}
      → AllPass t now fs seen rs
      → sum_in rs ≡ some (amounts (in_records rs))
  unfolding sum_in in_records
  AllPass-sum_in t now pass_nil = refl
  AllPass-sum_in t now (pass_cons p n ps) =
      ground (arith, p.result_key, p.result_amount, n, AllPass-sum_in t now ps)

  pub AllPass-duplicate_input :
      (t : Table Entry) (now : ℕ) {fs : List (Option InputForm)} {seen : List Text}
      {rs : List InputResult}
      → AllPass t now fs seen rs
      → duplicate_input seen rs ≡ false
  unfolding duplicate_input
  AllPass-duplicate_input t now pass_nil = refl
  AllPass-duplicate_input t now (pass_cons {rs = rs} p n ps) =
      rw (p.result_key, p.is_fresh, duplicate_input)
        (subst (λ s. duplicate_input s rs ≡ false) p.seen_after (AllPass-duplicate_input t now ps))
