-- ===== src/Ledger/Outputs.antt =====
-- impl/aicash/ledgerstore.py, `parse_output_wire` and `_resolve_output`: the outputs of a call.
use ai_cash.Prelude.{
  ℕ, ◌+◌, Bool, true, ◌&&◌, ◌||◌, Option, none, some, List, [], ◌∷◌, is_some, if◌then◌else◌,
}
use ai_cash.Prelude.Int.{ℤ, pos, pos_part, ltb_ℤ, leb_ℤ}
use ai_cash.Prelude.Text.{Text, text_eq, text_mem, codes}
use ai_cash.Codec.Base64.{b64u_decode}
use ai_cash.Codec.Key.{Hash, ledger_key}
use ai_cash.Codec.Value.{Value, Fields, get}
use ai_cash.Lock.{Lock, Reason, bad_format, output_exists, as_int, validate_lock, only_keys}
use ai_cash.Ledger.State.{Entry, Config, storable_int}
use ai_cash.Ledger.Table.{Table, lookup}

-- `spec.lock`: `None`, a `Lock`, or any other value.
pub data LockArg : Type 0 where
  no_lock : LockArg
  lock_object : Lock → LockArg
  lock_value : Value → LockArg

-- `null` stands for `None`.
pub record OutputSpec : Type 0 where
  pub amount_mc : Value
  pub secret_hash : Value
  pub secret : Value
  pub lock : LockArg

-- An output as a caller passes it: an `OutputSpec`, or a value of another class.
pub data OutputArg : Type 0 where
  spec : OutputSpec → OutputArg
  wire : Value → OutputArg

abbrev lock_arg : Option Value → LockArg
lock_arg none = no_lock
lock_arg (some Value.null) = no_lock
lock_arg (some v) = lock_value v

abbrev is_hash_key : Text → Bool
is_hash_key k =
    text_eq k (codes "amount_mc") || (text_eq k (codes "secret_hash") || text_eq k (codes "lock"))

abbrev is_secret_key : Text → Bool
is_secret_key k =
    text_eq k (codes "amount_mc") || (text_eq k (codes "secret") || text_eq k (codes "lock"))

abbrev decoded_secret : Value → Option Value
decoded_secret (Value.str s) = elim (b64u_decode s (some 32)) [
  | none ↦ none
  | some b ↦ some (Value.bytes b)
]
decoded_secret _ = none

abbrev by_hash : Option Value → Option Value → LockArg → Option OutputSpec
by_hash (some amount) (some h) lock =
    some (record { amount_mc = amount; secret_hash = h; secret = Value.null; lock = lock })
by_hash _ _ lock = none

abbrev by_secret : Option Value → Option Value → LockArg → Option OutputSpec
by_secret (some amount) (some v) lock = elim (decoded_secret v) [
  | none ↦ none
  | some secret ↦
      some (record { amount_mc = amount; secret_hash = Value.null; secret = secret; lock = lock })
]
by_secret _ _ lock = none

-- The form that a dict's keys select: exactly amount and hash, or amount and secret, lock aside.
unfoldable pub read_output : Fields → Option OutputSpec
read_output fs =
    let lock = lock_arg (get (codes "lock") fs) in
    let amount = get (codes "amount_mc") fs in
    if only_keys is_hash_key fs
    then by_hash amount (get (codes "secret_hash") fs) lock
    else if only_keys is_secret_key fs
    then by_secret amount (get (codes "secret") fs) lock
    else none

unfoldable pub parse_output_wire : Value → OutputArg
parse_output_wire (Value.dict fs) = elim (read_output fs) [
  | none ↦ wire (Value.dict fs)
  | some s ↦ spec s
]
parse_output_wire v = wire v

-- `(key, amount_mc, lock_or_None, reason_or_None)`
pub record OutputResult : Type 0 where
  pub key : Option Text
  pub amount : Option ℕ
  pub lock : Option Lock
  pub reason : Option Reason

abbrev pub output_failed : Option Text → Option ℕ → Option Lock → Reason → OutputResult
output_failed key amount lock reason = record {
  key = key;
  amount = amount;
  lock = lock;
  reason = some reason;
}

-- The amount that a value states, if it is a plain int that a column holds and positive.
unfoldable pub output_amount : Value → Option ℕ
output_amount v = elim (as_int v) [
  | none ↦ none
  | some n ↦ if storable_int n && ltb_ℤ (pos 0) n then some (pos_part n) else none
]

abbrev pub lock_dict : Lock → Value
lock_dict l = Value.dict (
    Fields.field (codes "preimage_hash") (Value.str l.preimage_hash) (
      Fields.field (codes "expiry") (Value.int l.expiry)
        (Fields.field (codes "refund_hash") (Value.str l.refund_hash) Fields.end)))

abbrev within_horizon : Option ℕ → ℕ → ℤ → Bool
within_horizon none now expiry = true
within_horizon (some horizon) now expiry = leb_ℤ expiry (pos (now + horizon))

abbrev pub bounded_lock : Config → ℕ → Option Lock → Option (Option Lock)
bounded_lock cfg now none = none
bounded_lock cfg now (some l) =
    if storable_int l.expiry && within_horizon cfg.max_lock_expiry_ms now l.expiry
    then some (some l)
    else none

-- The lock of an output; the outer `none` is `bad_format`.
unfoldable pub resolve_lock : Config → LockArg → ℕ → Option (Option Lock)
resolve_lock cfg no_lock now = some none
resolve_lock cfg (lock_object l) now = bounded_lock cfg now (validate_lock (lock_dict l))
resolve_lock cfg (lock_value v) now = bounded_lock cfg now (validate_lock v)

module _ ⦃hash : Hash⦄ where
  abbrev checked_hash : Value → Option Text
  checked_hash (Value.str s) = if is_some (b64u_decode s (some 32)) then some s else none
  checked_hash _ = none

  -- Exactly one of hash and secret; `none` is `bad_format`.
  unfoldable pub output_key : Value → Value → Option Text
  output_key Value.null Value.null = none
  output_key Value.null secret = ledger_key secret
  output_key secret_hash Value.null = checked_hash secret_hash
  output_key _ _ = none

  abbrev pub place_output :
      Table Entry → ℕ → Text → List Text → Option (Option Lock) → OutputResult × List Text
  place_output t amount key seen none =
      (output_failed (some key) (some amount) none bad_format, seen)
  place_output t amount key seen (some lock) =
      if text_mem key seen || is_some (lookup key t)
      then (output_failed (some key) (some amount) lock output_exists, seen)
      else (record { key = some key; amount = some amount; lock = lock; reason = none }, key ∷ seen)

  -- The result, and `seen_out_keys` after it.
  unfoldable pub resolve_spec :
      Config → Table Entry → OutputSpec → ℕ → List Text → OutputResult × List Text
  resolve_spec cfg t s now seen = elim (output_amount s.amount_mc) [
    | none ↦ (output_failed none none none bad_format, seen)
    | some amount ↦ elim (output_key s.secret_hash s.secret) [
      | none ↦ (output_failed none (some amount) none bad_format, seen)
      | some key ↦ place_output t amount key seen (resolve_lock cfg s.lock now)
    ]
  ]

  unfoldable pub resolve_output :
      Config → Table Entry → OutputArg → ℕ → List Text → OutputResult × List Text
  resolve_output cfg t (wire v) now seen = (output_failed none none none bad_format, seen)
  resolve_output cfg t (spec s) now seen = resolve_spec cfg t s now seen

  unfoldable pub resolve_outputs :
      Config → Table Entry → ℕ → List OutputArg → List Text → List OutputResult
  resolve_outputs cfg t now [] seen = []
  resolve_outputs cfg t now (o ∷ os) seen =
      let (r, seen') = resolve_output cfg t o now seen in r ∷ resolve_outputs cfg t now os seen'
