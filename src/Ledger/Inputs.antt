-- ===== src/Ledger/Inputs.antt =====
-- impl/aicash/ledgerstore.py, `_resolve_input`: one input against the entries, and the input loop.
use ai_cash.Prelude.{
  ℕ, Bool, true, false, Option, none, some, List, [], ◌∷◌, is_some, if◌then◌else◌,
}
use ai_cash.Prelude.Int.{ℤ, pos, eqb_ℤ}
use ai_cash.Prelude.Text.{Text, Bytes, text_mem}
use ai_cash.Codec.Base64.{b64u_encode, b64u_decode}
use ai_cash.Codec.Key.{Hash, ledger_key}
use ai_cash.Lock.{
  Lock, Token, InputForm, plain, claim, refund, other, Reason, bad_format, unknown, spent, Verdict,
  accepted, refused, raised, evaluate, as_int,
}
use ai_cash.Ledger.State.{Entry, Run, done, fault, lock_error, ◌>>=◌}
use ai_cash.Ledger.Table.{Table, lookup}

-- `(key, amount_mc, reason, claim_witness_b64u)`
pub record InputResult : Type 0 where
  pub key : Option Text
  pub amount : Option ℕ
  pub reason : Option Reason
  pub witness : Option Text

abbrev pub input_failed : Option Text → Option ℕ → Reason → InputResult
input_failed key amount reason = record {
  key = key;
  amount = amount;
  reason = some reason;
  witness = none;
}

module _ ⦃hash : Hash⦄ where
  abbrev token_key : Option Token → Option Text
  token_key none = none
  token_key (some token) = ledger_key token.secret

  abbrev refund_key : Option Text → Option Text
  refund_key none = none
  refund_key (some h) = if is_some (b64u_decode h (some 32)) then some h else none

  -- The key that a form names; `none` is `bad_format`.
  unfoldable pub form_key : InputForm → Option Text
  form_key form = elim form.kind [
    | plain ↦ token_key form.token
    | claim ↦ token_key form.token
    | refund ↦ refund_key form.hash
    | other _ ↦ none
  ]

abbrev pub amount_is : Option ℤ → ℕ → Bool
amount_is none amount = false
amount_is (some n) amount = eqb_ℤ n (pos amount)

abbrev pub token_amount : Option Token → Option ℤ
token_amount none = none
token_amount (some token) = as_int token.amount_mc

-- The claim binding: a presented token states the amount of its entry.
unfoldable pub token_agrees : InputForm → ℕ → Bool
token_agrees form amount = elim form.kind [
  | plain ↦ amount_is (token_amount form.token) amount
  | claim ↦ amount_is (token_amount form.token) amount
  | _ ↦ true
]

abbrev encoded : Option Bytes → Option Text
encoded none = none
encoded (some w) = some (b64u_encode w)

unfoldable pub claim_witness_of : InputForm → Option Lock → Option Text
claim_witness_of form none = none
claim_witness_of form (some l) = elim form.kind [ claim ↦ encoded form.witness | _ ↦ none ]

module _ ⦃hash : Hash⦄ where
  unfoldable pub judge : InputForm → Text → Entry → Verdict → Run InputResult
  judge form key entry accepted = done (record {
    key = some key;
    amount = some entry.amount_mc;
    reason = none;
    witness = claim_witness_of form entry.lock;
  })
  judge form key entry (refused reason) =
      done (input_failed (some key) (some entry.amount_mc) reason)
  judge form key entry raised = fault lock_error

  -- An entry that was found and that this call has not used yet.
  unfoldable pub check_entry : InputForm → Text → Entry → ℕ → Run InputResult
  check_entry form key entry now =
      if entry.spent
      then done (input_failed (some key) (some entry.amount_mc) spent)
      else if token_agrees form entry.amount_mc
      then judge form key entry (evaluate entry.lock form now)
      else done (input_failed (some key) (some entry.amount_mc) bad_format)

  -- The result, and `seen_keys` after it.
  unfoldable pub resolve_at :
      InputForm → Text → Option Entry → ℕ → List Text → Run (InputResult × List Text)
  resolve_at form key none now seen = done (input_failed (some key) none unknown, seen)
  resolve_at form key (some entry) now seen =
      if text_mem key seen
      then done (input_failed (some key) (some entry.amount_mc) spent, seen)
      else do r ← check_entry form key entry now; done (r, key ∷ seen)

  abbrev pub resolve_form :
      Table Entry → InputForm → ℕ → List Text → Option Text → Run (InputResult × List Text)
  resolve_form t form now seen none = done (input_failed none none bad_format, seen)
  resolve_form t form now seen (some key) = resolve_at form key (lookup key t) now seen

  -- `none` for the form is an object of another class.
  unfoldable pub resolve_input :
      Table Entry → Option InputForm → ℕ → List Text → Run (InputResult × List Text)
  resolve_input t none now seen = done (input_failed none none bad_format, seen)
  resolve_input t (some form) now seen = resolve_form t form now seen (form_key form)

  unfoldable pub resolve_inputs :
      Table Entry → ℕ → List (Option InputForm) → List Text → Run (List InputResult)
  resolve_inputs t now [] seen = done []
  resolve_inputs t now (f ∷ fs) seen = do
    (r, seen') ← resolve_input t f now seen
    rs ← resolve_inputs t now fs seen'
    done (r ∷ rs)
