-- ===== src/Ledger/Exchange/Resolving.antt =====
-- impl/aicash/ledgerstore.py, `_resolve_input` and the input loop: that they answer, and what an
-- input that passes them is.
use ai_cash.Prelude.{
  ℕ, ◌≡◌, ◌≢◌, refl, true, false, Option, none, some, List, [], ◌∷◌, arith, Option-cases, inl, inr,
}
use ai_cash.Prelude.Text.{Text, text_mem}
use ai_cash.Codec.Key.{Hash}
use ai_cash.Lock.{InputForm, Verdict, accepted, refused, raised, evaluate}
use ai_cash.Lock.Paths.{OptionAll, evaluate-ne-raised}
use ai_cash.Ledger.Inputs.{
  claim_witness_of, resolve_form, InputResult, form_key, resolve_input, resolve_inputs, resolve_at,
  check_entry, judge, token_agrees,
}
use ai_cash.Ledger.Rows.{AreValid, IsValidEntry, found-IsValidEntry}
use ai_cash.Ledger.State.{done_of, is_done, Entry, done}
use ai_cash.Ledger.Table.{Table, lookup}

module _ ⦃hash : Hash⦄ where
  judge-is_done :
      (form : InputForm) (key : Text) (e : Entry) (v : Verdict)
      → v ≢ raised
      → is_done (judge form key e v) ≡ true
  unfolding judge
  judge-is_done form key e accepted h = refl
  judge-is_done form key e (refused reason) h = refl
  judge-is_done form key e raised h = absurd (h refl)

  check_entry-is_done :
      (form : InputForm) (key : Text) (e : Entry) (now : ℕ)
      → IsValidEntry e
      → is_done (check_entry form key e now) ≡ true
  unfolding check_entry
  check_entry-is_done form key e now v = ground (
    arith,
    judge-is_done form key e (evaluate e.lock form now)
        (evaluate-ne-raised e.lock form now v.lock_valid),
  )

  resolve_at-is_done :
      (form : InputForm) (key : Text) (o : Option Entry) (now : ℕ) (seen : List Text)
      → OptionAll IsValidEntry o
      → is_done (resolve_at form key o now seen) ≡ true
  unfolding resolve_at
  resolve_at-is_done form key none now seen v = refl
  resolve_at-is_done form key (some e) now seen v =
      ground (arith, check_entry-is_done form key e now v)

  -- Over well-formed rows no exception leaves the resolution of an input.
  resolve_input-is_done :
      (t : Table Entry) (f : Option InputForm) (now : ℕ) (seen : List Text)
      → AreValid t
      → is_done (resolve_input t f now seen) ≡ true
  unfolding resolve_input
  resolve_input-is_done t none now seen v = refl
  resolve_input-is_done t (some form) now seen v = elim (Option-cases (form_key form)) [
    | inl e ↦ rw (e, resolve_form)
    | inr (k, e) ↦
        rw (e, resolve_form)
          (resolve_at-is_done form k (lookup k t) now seen (found-IsValidEntry k t v))
  ]

  pub resolve_inputs-is_done :
      (t : Table Entry) (now : ℕ) (fs : List (Option InputForm)) (seen : List Text)
      → AreValid t
      → is_done (resolve_inputs t now fs seen) ≡ true
  unfolding resolve_inputs
  resolve_inputs-is_done t now [] seen v = refl
  resolve_inputs-is_done t now (f ∷ fs) seen v =
      let ((r, seen'), e) =
        done_of (resolve_input t f now seen) (resolve_input-is_done t f now seen v) in
      let (rs, es) =
        done_of (resolve_inputs t now fs seen') (resolve_inputs-is_done t now fs seen' v) in
      rw (e, es)

  -- An input that passed: an unspent entry that this call has not used before, whose lock accepts
  -- the form. `seen'` is the set of used keys after it.
  pub record Passes (t : Table Entry) (f : Option InputForm) (now : ℕ) (seen : List Text)
      (r : InputResult) (seen' : List Text) : Type 0 where
    pub form : InputForm
    pub at : Text
    pub entry : Entry
    pub form_given : f ≡ some form
    pub key_of_form : form_key form ≡ some at
    pub is_fresh : text_mem at seen ≡ false
    pub found : lookup at t ≡ some entry
    pub unspent : entry.spent ≡ false
    pub agrees : token_agrees form entry.amount_mc ≡ true
    pub evaluated : evaluate entry.lock form now ≡ accepted
    pub result_key : r.key ≡ some at
    pub result_amount : r.amount ≡ some entry.amount_mc
    pub result_witness : r.witness ≡ claim_witness_of form entry.lock
    pub seen_after : seen' ≡ at ∷ seen

  judge-accepted :
      (form : InputForm) (key : Text) (e : Entry) (v : Verdict) (r : InputResult)
      → judge form key e v ≡ done r
      → r.reason ≡ none
      → (v ≡ accepted)
        × (r.key ≡ some key)
        × (r.amount ≡ some e.amount_mc)
        × (r.witness ≡ claim_witness_of form e.lock)
  unfolding judge
  judge-accepted form key e accepted r h n = ground arith
  judge-accepted form key e (refused reason) r h n = ground arith
  judge-accepted form key e raised r h n = cc

  check_entry-passes :
      (form : InputForm) (key : Text) (e : Entry) (now : ℕ) (r : InputResult)
      → check_entry form key e now ≡ done r
      → r.reason ≡ none
      → (e.spent ≡ false)
        × (token_agrees form e.amount_mc ≡ true)
        × (evaluate e.lock form now ≡ accepted)
        × (r.key ≡ some key)
        × (r.amount ≡ some e.amount_mc)
        × (r.witness ≡ claim_witness_of form e.lock)
  unfolding check_entry
  check_entry-passes form key e now r h n =
      ground (arith, judge-accepted form key e (evaluate e.lock form now) r)

  resolve_at-passes :
      (form : InputForm) (key : Text) (e : Entry) (now : ℕ) (seen seen' : List Text)
      (r : InputResult)
      → resolve_at form key (some e) now seen ≡ done (r, seen')
      → r.reason ≡ none
      → (text_mem key seen ≡ false) × (check_entry form key e now ≡ done r) × (seen' ≡ key ∷ seen)
  unfolding resolve_at
  resolve_at-passes form key e now seen seen' r h n = ground arith

  resolve_at-missing :
      (form : InputForm) (key : Text) (now : ℕ) (seen seen' : List Text) (r : InputResult)
      → resolve_at form key none now seen ≡ done (r, seen')
      → r.reason ≢ none
  unfolding resolve_at
  resolve_at-missing form key now seen seen' r h n = ground arith

  resolve_at-Passes :
      (t : Table Entry) (form : InputForm) (key : Text) (now : ℕ) (seen seen' : List Text)
      (r : InputResult) (o : Option Entry)
      → form_key form ≡ some key
      → lookup key t ≡ o
      → resolve_at form key o now seen ≡ done (r, seen')
      → r.reason ≡ none
      → Passes t (some form) now seen r seen'
  resolve_at-Passes t form key now seen seen' r none k f h n =
      absurd (resolve_at-missing form key now seen seen' r h n)
  resolve_at-Passes t form key now seen seen' r (some e) k f h n =
      let (fresh, checked, after) = resolve_at-passes form key e now seen seen' r h n in
      let (unspent, agrees, evaluated, rk, ra, rw_) =
        check_entry-passes form key e now r checked n in
      record {
        form = form;
        at = key;
        entry = e;
        form_given = refl;
        key_of_form = k;
        is_fresh = fresh;
        found = f;
        unspent = unspent;
        agrees = agrees;
        evaluated = evaluated;
        result_key = rk;
        result_amount = ra;
        result_witness = rw_;
        seen_after = after;
      }

  pub resolve_input-Passes :
      (t : Table Entry) (f : Option InputForm) (now : ℕ) (seen seen' : List Text) (r : InputResult)
      → resolve_input t f now seen ≡ done (r, seen')
      → r.reason ≡ none
      → Passes t f now seen r seen'
  unfolding resolve_input
  resolve_input-Passes t none now seen seen' r h n = absurd (ground arith)
  resolve_input-Passes t (some form) now seen seen' r h n = elim (Option-cases (form_key form)) [
    | inl e ↦ absurd (ground arith)
    | inr (k, e) ↦
        resolve_at-Passes t form k now seen seen' r (lookup k t) e refl (rw (e, resolve_form) at h)
          n
  ]
