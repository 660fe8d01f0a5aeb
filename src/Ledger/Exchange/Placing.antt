-- ===== src/Ledger/Exchange/Placing.antt =====
-- impl/aicash/ledgerstore.py, `_resolve_output` and the output loop: what an output that passes is.
use ai_cash.Prelude.{
  subst, ℕ, ◌≤◌, ◌<◌, ◌≡◌, refl, false, Option, none, some, List, ◌∷◌, arith, Option-cases, inl,
  inr,
}
use ai_cash.Prelude.Text.{Text, text_mem}
use ai_cash.Codec.Key.{Hash}
use ai_cash.Codec.Value.{Value}
use ai_cash.Lock.{Lock, validate_lock, as_int}
use ai_cash.Lock.Paths.{IsValidLock, OptionAll, validate_lock-IsValidLock}
use ai_cash.Ledger.Outputs.{
  lock_dict, OutputResult, OutputArg, OutputSpec, LockArg, no_lock, lock_object, lock_value, spec,
  wire, output_amount, output_key, resolve_lock, bounded_lock, place_output, resolve_spec,
  resolve_output,
}
use ai_cash.Ledger.State.{Entry, Config, storable_int, max_amount_mc}
use ai_cash.Ledger.Table.{Table, lookup}

output_amount_bounds :
    (v : Value) (a : ℕ) → output_amount v ≡ some a → (0 < a) × (a ≤ max_amount_mc)
unfolding output_amount storable_int
output_amount_bounds v a h = elim (Option-cases (as_int v)) [
  | inl e ↦ absurd (ground arith)
  | inr (n, e) ↦ ground arith
]

bounded_lock-valid :
    (cfg : Config) (now : ℕ) (v : Value) (l : Option Lock)
    → bounded_lock cfg now (validate_lock v) ≡ some l
    → OptionAll IsValidLock l
bounded_lock-valid cfg now v l h = elim (Option-cases (validate_lock v)) [
  | inl e ↦ absurd (ground arith)
  | inr (m, e) ↦
      let p : some m ≡ l = ground arith in
      subst (OptionAll IsValidLock) p (validate_lock-IsValidLock v m e)
]

resolve_lock-valid :
    (cfg : Config) (arg : LockArg) (now : ℕ) (l : Option Lock)
    → resolve_lock cfg arg now ≡ some l
    → OptionAll IsValidLock l
unfolding resolve_lock
resolve_lock-valid cfg no_lock now l h =
    let p : none ≡ l = ground arith in subst (OptionAll IsValidLock) p tt
resolve_lock-valid cfg (lock_object m) now l h = bounded_lock-valid cfg now (lock_dict m) l h
resolve_lock-valid cfg (lock_value v) now l h = bounded_lock-valid cfg now v l h

-- The output passed: a fresh key, a positive amount that a column holds, and no lock or a valid one.
module _ ⦃hash : Hash⦄ where
  pub record Placed (cfg : Config) (t : Table Entry) (o : OutputArg) (now : ℕ) (seen : List Text)
      (r : OutputResult) (seen' : List Text) : Type 0 where
    pub asked : OutputSpec
    pub at : Text
    pub amount : ℕ
    pub o_given : o ≡ spec asked
    pub amount_asked : output_amount asked.amount_mc ≡ some amount
    pub key_asked : output_key asked.secret_hash asked.secret ≡ some at
    pub lock_asked : resolve_lock cfg asked.lock now ≡ some r.lock
    pub is_fresh : text_mem at seen ≡ false
    pub absent : lookup at t ≡ none
    pub result_key : r.key ≡ some at
    pub result_amount : r.amount ≡ some amount
    pub seen_after : seen' ≡ at ∷ seen

  place_output-passes :
      (t : Table Entry) (amount : ℕ) (key : Text) (seen seen' : List Text)
      (l : Option (Option Lock)) (r : OutputResult)
      → place_output t amount key seen l ≡ (r, seen')
      → r.reason ≡ none
      → (l ≡ some r.lock)
        × (text_mem key seen ≡ false)
        × (lookup key t ≡ none)
        × (r.key ≡ some key)
        × (r.amount ≡ some amount)
        × (seen' ≡ key ∷ seen)
  place_output-passes t amount key seen seen' none r h n = absurd (ground arith)
  place_output-passes t amount key seen seen' (some l) r h n = ground arith

  resolve_spec-Placed :
      (cfg : Config) (t : Table Entry) (s : OutputSpec) (now : ℕ) (seen seen' : List Text)
      (r : OutputResult)
      → resolve_spec cfg t s now seen ≡ (r, seen')
      → r.reason ≡ none
      → Placed cfg t (spec s) now seen r seen'
  unfolding resolve_spec
  resolve_spec-Placed cfg t s now seen seen' r h n =
      elim (Option-cases (output_amount s.amount_mc)) [
        | inl e ↦ absurd (ground arith)
        | inr (a, ea) ↦ elim (Option-cases (output_key s.secret_hash s.secret)) [
          | inl e ↦ absurd (ground arith)
          | inr (k, ek) ↦
              let (l, f, b, rk, ra, sa) =
                place_output-passes t a k seen seen' (resolve_lock cfg s.lock now) r
                  (rw (ea, ek, resolve_spec) at h) n in
              record {
                asked = s;
                at = k;
                amount = a;
                o_given = refl;
                amount_asked = ea;
                key_asked = ek;
                lock_asked = l;
                is_fresh = f;
                absent = b;
                result_key = rk;
                result_amount = ra;
                seen_after = sa;
              }
        ]
      ]

  pub resolve_output-Placed :
      (cfg : Config) (t : Table Entry) (o : OutputArg) (now : ℕ) (seen seen' : List Text)
      (r : OutputResult)
      → resolve_output cfg t o now seen ≡ (r, seen')
      → r.reason ≡ none
      → Placed cfg t o now seen r seen'
  unfolding resolve_output
  resolve_output-Placed cfg t (wire v) now seen seen' r h n = absurd (ground arith)
  resolve_output-Placed cfg t (spec s) now seen seen' r h n =
      resolve_spec-Placed cfg t s now seen seen' r h n

  pub Placed-positive :
      (cfg : Config) (t : Table Entry) (o : OutputArg) (now : ℕ) (seen : List Text)
      (r : OutputResult) (seen' : List Text) (p : Placed cfg t o now seen r seen')
      → (0 < p.amount) × (p.amount ≤ max_amount_mc) × OptionAll IsValidLock r.lock
  Placed-positive cfg t o now seen r seen' p =
      let (low, high) = output_amount_bounds p.asked.amount_mc p.amount p.amount_asked in
      (low, high, resolve_lock-valid cfg p.asked.lock now r.lock p.lock_asked)
