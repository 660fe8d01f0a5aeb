-- ===== src/Lock.antt =====
-- impl/aicash/lockeval.py: the hash-lock-or-timeout truth table.
pub mod Paths
use ai_cash.Prelude.{
  ℕ, Bool, true, false, ◌&&◌, ◌||◌, not, Option, none, some, length, is_some, ◌==◌, if◌then◌else◌,
}
use ai_cash.Prelude.Int.{ℤ, pos, leb_ℤ, ltb_ℤ}
use ai_cash.Prelude.Text.{Text, Bytes, text_eq, codes}
use ai_cash.Codec.Base64.{b64u_decode}
use ai_cash.Codec.Key.{Hash}
use ai_cash.Codec.Value.{Value, Fields, get}

pub record Lock : Type 0 where
  pub preimage_hash : Text
  pub expiry : ℤ
  pub refund_hash : Text

-- `tokencodec.Token`, as a caller may fill it.
pub record Token : Type 0 where
  pub mint_id : Text
  pub amount_mc : Value
  pub secret : Value

pub data Kind : Type 0 where
  plain claim refund : Kind
  other : Text → Kind

pub record InputForm : Type 0 where
  pub kind : Kind
  pub token : Option Token
  pub hash : Option Text
  pub witness : Option Bytes

-- The reasons of §3.8 that the ledger gives.
pub data Reason : Type 0 where
  bad_format unknown spent output_exists : Reason
  lock_preimage_invalid bad_witness_length lock_expired lock_not_expired refund_invalid : Reason

-- `raised` is a `LockError` or an `AssertionError` that leaves `evaluate`.
pub data Verdict : Type 0 where
  accepted : Verdict
  refused : Reason → Verdict
  raised : Verdict

-- `none` is `LockError`. The pattern wants one character at least, and 32 bytes need 43.
unfoldable pub b64u_decode_digest : Text → Option Bytes
unfolding b64u_decode
b64u_decode_digest s = b64u_decode s (some 32)

-- Python's `int`, but no `bool`
unfoldable pub as_int : Value → Option ℤ
as_int (Value.int n) = some n
as_int _ = none

unfoldable pub as_digest : Value → Option Text
as_digest (Value.str s) = if is_some (b64u_decode_digest s) then some s else none
as_digest _ = none

-- `set(obj.keys()) == names`, both ways
unfoldable pub only_keys : (Text → Bool) → Fields → Bool
only_keys allowed Fields.end = true
only_keys allowed (Fields.field k v fs) = allowed k && only_keys allowed fs

abbrev pub is_lock_key : Text → Bool
is_lock_key k =
    text_eq k (codes "preimage_hash")
    || (text_eq k (codes "expiry") || text_eq k (codes "refund_hash"))

-- `none` is `LockError("bad_format")`.
unfoldable pub read_lock : Option Value → Option Value → Option Value → Option Lock
read_lock (some p) (some e) (some r) = elim (as_digest p) [
  | none ↦ none
  | some preimage_hash ↦ elim (as_digest r) [
    | none ↦ none
    | some refund_hash ↦ elim (as_int e) [
      | none ↦ none
      | some expiry ↦
          if leb_ℤ expiry (pos 0)
          then none
          else some
              (record { preimage_hash = preimage_hash; expiry = expiry; refund_hash = refund_hash })
    ]
  ]
]
read_lock _ _ _ = none

unfoldable pub validate_lock : Value → Option Lock
unfolding only_keys read_lock get text_eq as_digest as_int b64u_decode_digest
validate_lock (Value.dict fs) =
    if only_keys is_lock_key fs
    then read_lock (get (codes "preimage_hash") fs) (get (codes "expiry") fs)
        (get (codes "refund_hash") fs)
    else none
validate_lock _ = none

unfoldable pub form_shape_legal : InputForm → Bool
form_shape_legal form = elim form.kind [
  | plain ↦ is_some form.token && (not (is_some form.hash) && not (is_some form.witness))
  | claim ↦ is_some form.token && (not (is_some form.hash) && is_some form.witness)
  | refund ↦ not (is_some form.token) && (is_some form.hash && is_some form.witness)
  | other _ ↦ false
]

module _ ⦃h : Hash⦄ where
  -- `hmac.compare_digest(sha256(witness), expected)`; `none` is `LockError`.
  unfoldable pub witness_matches : Bytes → Text → Option Bool
  witness_matches witness digest_b64u = elim (b64u_decode_digest digest_b64u) [
    | none ↦ none
    | some expected ↦ some (text_eq (h.sha256 witness) expected)
  ]

  abbrev verdict_of : Option Bool → Reason → Verdict
  verdict_of none reason = raised
  verdict_of (some true) reason = accepted
  verdict_of (some false) reason = refused reason

  -- Past the witness's length: the claim path, and the refund path for what is no claim.
  unfoldable pub evaluate_path : Kind → Lock → Bytes → ℕ → Verdict
  evaluate_path claim lock witness now =
      if leb_ℤ lock.expiry (pos now)
      then refused lock_expired
      else verdict_of (witness_matches witness lock.preimage_hash) lock_preimage_invalid
  evaluate_path _ lock witness now =
      if ltb_ℤ (pos now) lock.expiry
      then refused lock_not_expired
      else verdict_of (witness_matches witness lock.refund_hash) refund_invalid

  -- A locked entry, for a form of legal shape; `none` for the witness fails the assertion.
  unfoldable pub evaluate_locked : Kind → Lock → Option Bytes → ℕ → Verdict
  evaluate_locked plain lock witness now = refused lock_preimage_invalid
  evaluate_locked kind lock none now = raised
  evaluate_locked kind lock (some witness) now =
      if length witness == 32
      then evaluate_path kind lock witness now
      else refused bad_witness_length

  abbrev evaluate_unlocked : Kind → Verdict
  evaluate_unlocked plain = accepted
  evaluate_unlocked _ = refused bad_format

  unfoldable pub evaluate : Option Lock → InputForm → ℕ → Verdict
  unfolding form_shape_legal evaluate_locked evaluate_path witness_matches
  evaluate lock form now =
      if form_shape_legal form
      then elim lock [
        | none ↦ evaluate_unlocked form.kind
        | some l ↦ evaluate_locked form.kind l form.witness now
      ]
      else refused bad_format
