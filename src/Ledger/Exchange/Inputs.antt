-- ===== src/Ledger/Exchange/Inputs.antt =====
-- impl/aicash/ledgerstore.py: what a confirmed call does to the entry of each of its inputs.
use ai_cash.Prelude.{
  subst, arith, ℕ, ◌≡◌, refl, ap, ◌∙◌, false, true, Option, none, some, List, [], ◌∷◌, All,
}
use ai_cash.Prelude.Text.{
  text_eq_refl, text_ne_symm, Text, text_eq, text_mem, ne_of_not_mem, not_mem_tail,
}
use ai_cash.Codec.Key.{Hash}
use ai_cash.Lock.{InputForm}
use ai_cash.Lock.Paths.{Allowed, evaluate_iff}
use ai_cash.Ledger.Inputs.{InputResult, form_key, token_agrees, claim_witness_of}
use ai_cash.Ledger.Exchange.{in_records, spend}
use ai_cash.Ledger.Exchange.Accepted.{AllPass, pass_nil, pass_cons}
use ai_cash.Ledger.Exchange.Effects.{marked_all, marked_all-spent}
use ai_cash.Ledger.Exchange.Marking.{marked}
use ai_cash.Ledger.Exchange.Spending.{InRecord}
use ai_cash.Ledger.State.{Entry}
use ai_cash.Ledger.Table.{Table, lookup}

marked-unspent :
    (now : ℕ) (w : Option Text) (e : Entry)
    → e.spent ≡ false
    → marked now w (some e) ≡ some (spend now w e)
marked-unspent now w e u = ground arith

pub in_records-cons :
    (r : InputResult) (rs : List InputResult) (k : Text) (a : ℕ)
    → r.reason ≡ none
    → r.key ≡ some k
    → r.amount ≡ some a
    → in_records (r ∷ rs) ≡ (k, a, r.witness) ∷ in_records rs
unfolding in_records
in_records-cons r rs k a n rk ra = ground arith

marked_first :
    (now : ℕ) (k : Text) (a : ℕ) (w : Option Text) (rs : List InRecord) (e : Entry)
    → e.spent ≡ false
    → marked_all now ((k, a, w) ∷ rs) k (some e) ≡ some (spend now w e)
marked_first now k a w rs e u =
    rw (text_eq_refl k, marked-unspent now w e u) (marked_all-spent now rs k (spend now w e) refl)

marked_later :
    (now : ℕ) (k j : Text) (a : ℕ) (w : Option Text) (rs : List InRecord) (o : Option Entry)
    → text_eq k j ≡ false
    → marked_all now ((k, a, w) ∷ rs) j o ≡ marked_all now rs j o
marked_later now k j a w rs o h = rw h

module _ ⦃hash : Hash⦄ where
  -- The form names an entry that was unspent, with the amount that the form states and a lock that
  -- allows the form; the entry is spent afterwards, at this instant.
  pub record Spends (t t' : Table Entry) (now : ℕ) (f : Option InputForm) : Type 0 where
    pub form : InputForm
    pub at : Text
    pub before : Entry
    pub after : Entry
    pub given : f ≡ some form
    pub named : form_key form ≡ some at
    pub found : lookup at t ≡ some before
    pub was_unspent : before.spent ≡ false
    pub amount_agrees : token_agrees form before.amount_mc ≡ true
    pub allowed : Allowed before.lock form now
    pub found_after : lookup at t' ≡ some after
    pub is_spent : after.spent ≡ true
    pub stamped : after.spent_at ≡ some now
    pub same_amount : after.amount_mc ≡ before.amount_mc
    pub witness_published : after.claim_witness ≡ claim_witness_of form before.lock

  pub AllPass-Spends :
      (t m : Table Entry) (now : ℕ) {fs : List (Option InputForm)} {seen : List Text}
      {rs : List InputResult}
      → AllPass t now fs seen rs
      → ((j : Text)
          → text_mem j seen ≡ false
          → lookup j m ≡ marked_all now (in_records rs) j (lookup j t))
      → All (Spends t m now) fs
  AllPass-Spends t m now pass_nil e = tt
  AllPass-Spends t m now (pass_cons {seen = seen} {r = r} {rs = rs} p n ps) e =
      let same = in_records-cons r rs p.at p.entry.amount_mc n p.result_key p.result_amount in
      let e' = λ (j : Text) (fresh : text_mem j seen ≡ false).
        e j fresh ∙ ap (λ q. marked_all now q j (lookup j t)) same in
      let later = λ (j : Text) (fresh : text_mem j (p.at ∷ seen) ≡ false).
        e' j (not_mem_tail j p.at seen fresh)
        ∙ marked_later now p.at j p.entry.amount_mc r.witness (in_records rs) (lookup j t)
            (text_ne_symm j p.at (ne_of_not_mem j p.at seen fresh)) in
      (
        record {
          form = p.form;
          at = p.at;
          before = p.entry;
          after = spend now r.witness p.entry;
          given = p.form_given;
          named = p.key_of_form;
          found = p.found;
          was_unspent = p.unspent;
          amount_agrees = p.agrees;
          allowed = (evaluate_iff p.entry.lock p.form now).0 p.evaluated;
          found_after =
              e' p.at p.is_fresh
              ∙ ap (marked_all now ((p.at, p.entry.amount_mc, r.witness) ∷ in_records rs) p.at)
                  p.found
              ∙ marked_first now p.at p.entry.amount_mc r.witness (in_records rs) p.entry p.unspent;
          is_spent = refl;
          stamped = refl;
          same_amount = refl;
          witness_published = p.result_witness;
        },
        AllPass-Spends t m now ps
            (λ j fresh. later j (subst (λ s. text_mem j s ≡ false) p.seen_after fresh)),
      )

  -- What later writes leave alone stays spent.
  pub Spends-later :
      (t m t' : Table Entry) (now : ℕ) (fs : List (Option InputForm))
      → ((j : Text) (e : Entry) → lookup j m ≡ some e → lookup j t' ≡ some e)
      → All (Spends t m now) fs
      → All (Spends t t' now) fs
  Spends-later t m t' now [] keeps s = tt
  Spends-later t m t' now (f ∷ fs) keeps (s, ss) = (
    record {
      form = s.form;
      at = s.at;
      before = s.before;
      after = s.after;
      given = s.given;
      named = s.named;
      found = s.found;
      was_unspent = s.was_unspent;
      amount_agrees = s.amount_agrees;
      allowed = s.allowed;
      found_after = keeps s.at s.after s.found_after;
      is_spent = s.is_spent;
      stamped = s.stamped;
      same_amount = s.same_amount;
      witness_published = s.witness_published;
    },
    Spends-later t m t' now fs keeps ss,
  )
