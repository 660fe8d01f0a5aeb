-- ===== src/Lock/Paths.antt =====
-- impl/aicash/lockeval.py, `evaluate`: which forms spend which entries, and when.
use ai_cash.Prelude.{
  ℕ, ◌<◌, ◌≡◌, ◌≢◌, ◌↔◌, ◌⊎◌, inl, inr, ap, true, Option, none, some, arith, length, is_some,
  ==_iff, Bool-cases, Option-cases,
}
use ai_cash.Prelude.Int.{pos, ◌≤ℤ◌, ◌<ℤ◌}
use ai_cash.Prelude.Text.{Text, Bytes, text_eq_iff, text_eq_refl, codes}
use ai_cash.Codec.Base64.{b64u_encode, b64u_decode}
use ai_cash.Codec.Base64.RoundTrip.{b64u_decode_iff}
use ai_cash.Codec.Key.{Hash}
use ai_cash.Codec.Value.{Value, get}
use ai_cash.Lock.{
  Lock, InputForm, plain, claim, refund, accepted, raised, b64u_decode_digest, validate_lock,
  read_lock, witness_matches, evaluate, as_digest, only_keys, is_lock_key,
}

-- The text is the base64url of 32 bytes.
abbrev pub IsDigest : Text → Type 0
IsDigest s = (d : Bytes) × (b64u_decode_digest s ≡ some d)

abbrev pub OptionAll {ℓ κ} : {A : Type ℓ} → (A → Type κ) → Option A → Type κ
OptionAll P none = Unit
OptionAll P (some a) = P a

-- What `validate_lock` establishes of a lock.
pub record IsValidLock (l : Lock) : Type 0 where
  pub expiry_pos : pos 0 <ℤ l.expiry
  pub preimage_digest : IsDigest l.preimage_hash
  pub refund_digest : IsDigest l.refund_hash

as_digest-IsDigest : (v : Value) (s : Text) → as_digest v ≡ some s → IsDigest s
unfolding as_digest
as_digest-IsDigest (Value.str t) s h = elim (Option-cases (b64u_decode_digest t)) [
  | inl e ↦ ground (arith, e)
  | inr (d, e) ↦ (d, ground (arith, e))
]
as_digest-IsDigest Value.null s h = cc
as_digest-IsDigest _ s h = cc

read_lock-parts :
    (p e r : Option Value) (l : Lock)
    → read_lock p e r ≡ some l
    → (v w : Value) × (as_digest v ≡ some l.preimage_hash)
      × (as_digest w ≡ some l.refund_hash)
      × (pos 0 <ℤ l.expiry)
unfolding read_lock
read_lock-parts (some p) (some e) (some r) l h = (p, r, ground arith, ground arith, ground arith)
read_lock-parts none e r l h = cc
read_lock-parts (some p) none r l h = cc
read_lock-parts (some p) (some e) none l h = cc

read_lock-IsValidLock : (p e r : Option Value) (l : Lock) → read_lock p e r ≡ some l → IsValidLock l
read_lock-IsValidLock p e r l h =
    let (v, w, preimage, refund_, positive) = read_lock-parts p e r l h in
    record {
      expiry_pos = positive;
      preimage_digest = as_digest-IsDigest v l.preimage_hash preimage;
      refund_digest = as_digest-IsDigest w l.refund_hash refund_;
    }

none-some : {l : Lock} → none ≡ some l → ⊥
none-some h = cc

-- Every lock that `validate_lock` returns expires after the epoch and has two well-formed digests.
pub validate_lock-IsValidLock : (v : Value) (l : Lock) → validate_lock v ≡ some l → IsValidLock l
unfolding validate_lock
validate_lock-IsValidLock (Value.dict fs) l h = elim (Bool-cases (only_keys is_lock_key fs)) [
  | inl e ↦
      read_lock-IsValidLock (get (codes "preimage_hash") fs) (get (codes "expiry") fs)
        (get (codes "refund_hash") fs) l (rw e at h)
  | inr e ↦ absurd (none-some (rw e at h))
]
validate_lock-IsValidLock Value.null l h = cc
validate_lock-IsValidLock _ l h = cc

module _ ⦃hash : Hash⦄ where
  decode_digest :
      (s : Text) (w : Bytes)
      → b64u_encode (hash.sha256 w) ≡ s
      → b64u_decode s (some 32) ≡ some (hash.sha256 w)
  decode_digest s w e =
      (b64u_decode_iff s (some 32) (hash.sha256 w)).1
        (hash.sha256-IsBytes w, e, (==_iff (length (hash.sha256 w)) 32).1 (hash.length-sha256 w))

  -- A witness matches a digest exactly when the digest is the text of its hash.
  pub witness_matches_iff :
      (w : Bytes) (s : Text) → (witness_matches w s ≡ some true) ↔ (b64u_encode (hash.sha256 w) ≡ s)
  unfolding witness_matches b64u_decode_digest
  witness_matches_iff w s = (
    λ h. elim (Option-cases (b64u_decode s (some 32))) [
      | inl e ↦ ground (arith, e)
      | inr (d, e) ↦
          ground (arith, e, text_eq_iff (hash.sha256 w) d, (b64u_decode_iff s (some 32) d).0 e)
    ],
    λ e. rw (decode_digest s w e, witness_matches) (ap some (text_eq_refl (hash.sha256 w))),
  )

  witness_matches-total : (w : Bytes) (s : Text) → IsDigest s → witness_matches w s ≢ none
  unfolding witness_matches
  witness_matches-total w s (d, e) h = ground (arith, e)

  -- Evaluation of a lock with well-formed digests, or of no lock, gives a verdict.
  pub evaluate-ne-raised :
      (l : Option Lock) (form : InputForm) (now : ℕ)
      → OptionAll IsValidLock l
      → evaluate l form now ≢ raised
  unfolding evaluate
  evaluate-ne-raised none form now v h = ground arith
  evaluate-ne-raised (some l) form now v h = elim (Option-cases form.witness) [
    | inl e ↦ ground arith
    | inr (w, e) ↦ ground (
      arith,
      witness_matches-total w l.preimage_hash v.preimage_digest,
      witness_matches-total w l.refund_hash v.refund_digest,
    )
  ]

  -- The rules of §3.4: who may spend an entry with this lock, with what, and when.
  abbrev pub Allowed : Option Lock → InputForm → ℕ → Type 0
  Allowed none form now =
      (form.kind ≡ plain) × (is_some form.token ≡ true) × (form.hash ≡ none) × (form.witness ≡ none)
  Allowed (some l) form now =
      (w : Bytes) × (form.witness ≡ some w)
      × (length w ≡ 32)
      × ((form.kind ≡ claim)
            × (is_some form.token ≡ true)
            × (form.hash ≡ none)
            × (pos now <ℤ l.expiry)
            × (b64u_encode (hash.sha256 w) ≡ l.preimage_hash)
          ⊎ (form.kind ≡ refund)
            × (form.token ≡ none)
            × (is_some form.hash ≡ true)
            × (l.expiry ≤ℤ pos now)
            × (b64u_encode (hash.sha256 w) ≡ l.refund_hash))

  evaluate-Allowed :
      (l : Option Lock) (form : InputForm) (now : ℕ)
      → evaluate l form now ≡ accepted
      → Allowed l form now
  unfolding evaluate
  evaluate-Allowed none form now h = ground arith
  evaluate-Allowed (some l) form now h = elim (Option-cases form.witness) [
    | inl e ↦ absurd (ground arith)
    | inr (w, e) ↦ (
      w,
      e,
      ground arith,
      ground (arith, witness_matches_iff w l.preimage_hash, witness_matches_iff w l.refund_hash),
    )
  ]

  Allowed-evaluate :
      (l : Option Lock) (form : InputForm) (now : ℕ)
      → Allowed l form now
      → evaluate l form now ≡ accepted
  unfolding evaluate
  Allowed-evaluate none form now h = ground arith
  Allowed-evaluate (some l) form now (w, e, n, h) =
      ground (arith, witness_matches_iff w l.preimage_hash, witness_matches_iff w l.refund_hash)

  -- A form is accepted exactly when the rules allow it.
  pub evaluate_iff :
      (l : Option Lock) (form : InputForm) (now : ℕ)
      → (evaluate l form now ≡ accepted) ↔ Allowed l form now
  evaluate_iff l form now = (evaluate-Allowed l form now, Allowed-evaluate l form now)

  -- Every claim that is accepted comes strictly before every refund of the same lock that is.
  pub claim_before_refund :
      (l : Lock) (f g : InputForm) (t u : ℕ)
      → f.kind ≡ claim
      → g.kind ≡ refund
      → evaluate (some l) f t ≡ accepted
      → evaluate (some l) g u ≡ accepted
      → t < u
  unfolding evaluate
  claim_before_refund l f g t u kf kg hf hg = ground arith
