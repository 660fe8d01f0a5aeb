-- ===== src/Ledger/State.antt =====
-- impl/aicash/ledgerstore.py: the rows of the ledger, its configuration, and what a call answers.
use ai_cash.Prelude.{refl, ◌≡◌, ◌&&◌, ℕ, ◌-◌, ◌^◌, Bool, true, false, Option, none, some, List, []}
use ai_cash.Prelude.Int.{ℤ, pos, negsuc, leb_ℤ}
use ai_cash.Prelude.Text.{Text}
use ai_cash.Burn.{BurnPolicy, Announced}
use ai_cash.Lock.{Lock, Reason}
use ai_cash.Ledger.Table.{Table}

-- `MAX_AMOUNT_MC`, which is also `_SQLITE_INT_MAX`
abbrev pub max_amount_mc : ℕ
max_amount_mc = 2 ^ 63 - 1

-- `_SQLITE_INT_MIN`, -(2 ** 63)
abbrev pub sqlite_int_min : ℤ
sqlite_int_min = negsuc (2 ^ 63 - 1)

-- A row of `entries`; the row's hash is its key.
pub record Entry : Type 0 where
  pub amount_mc : ℕ
  pub spent : Bool
  pub lock : Option Lock
  pub created_at : ℕ
  pub spent_at : Option ℕ
  pub claim_witness : Option Text

-- An item of the `errors` list of §3.8.
pub data ErrorItem : Type 0 where
  input : ℕ → Reason → ErrorItem
  output : ℕ → Reason → ErrorItem
  idempotency_conflict : ErrorItem
  amount_mismatch : ℕ → ErrorItem

-- What `exchange` returns, or the list that its `ExchangeRejected` carries.
pub data Reply : Type 0 where
  confirmed : ℕ → ℕ → Reply
  rejected : List ErrorItem → Reply

-- A row of `idempotency`. The JSON text of the result reads back as the result.
pub record Stored : Type 0 where
  pub body_digest : Text
  pub result : Reply
  pub created_at : ℕ

-- The three tables; `supply` has one row.
pub record Db : Type 0 where
  pub entries : Table Entry
  pub cumulative_issued_mc : ℕ
  pub cumulative_burned_mc : ℕ
  pub idempotency : Table Stored

abbrev pub empty_db : Db
empty_db = record {
  entries = [];
  cumulative_issued_mc = 0;
  cumulative_burned_mc = 0;
  idempotency = [];
}

-- The constructor's arguments, but for the path of the file and the clock.
pub record Config : Type 0 where
  pub burn_policy : BurnPolicy
  pub burn_policy_next : Announced
  pub recovery_window_ms : ℕ
  pub max_lock_expiry_ms : Option ℕ

-- Any exception but `ExchangeRejected`; the transaction is rolled back.
pub data Fault : Type 0 where
  value_error lock_error integrity_error overflow_error input_vanished burn_error assertion : Fault

pub data Run {ℓ} (A : Type ℓ) : Type ℓ where
  done : A → Run A
  fault : Fault → Run A

infixl 5 ◌>>=◌ ◌>>◌
abbrev pub ◌>>=◌ {ℓ κ} : {A : Type ℓ} {B : Type κ} → Run A → (A → Run B) → Run B
done a >>= f = f a
fault e >>= f = fault e

abbrev pub ◌>>◌ {ℓ} : {B : Type ℓ} → Run (Unit {0}) → Run B → Run B
m >> k = m >>= λ _. k

abbrev pub or_fault {ℓ} : {A : Type ℓ} → Option A → Fault → Run A
or_fault (some a) e = done a
or_fault none e = fault e

-- `_storable_int`, on a plain int
unfoldable pub storable_int : ℤ → Bool
storable_int v = leb_ℤ sqlite_int_min v && leb_ℤ v (pos max_amount_mc)

abbrev pub is_done {ℓ} : {A : Type ℓ} → Run A → Bool
is_done (done a) = true
is_done (fault e) = false

pub done_of {ℓ} : {A : Type ℓ} (m : Run A) → is_done m ≡ true → (a : A) × (m ≡ done a)
done_of (done a) h = (a, refl)
done_of (fault e) h = cc

-- Inversion of a bind that ends with no fault.
pub >>=-eq-done {ℓ κ} :
    {A : Type ℓ} {B : Type κ} (m : Run A) (f : A → Run B) {b : B}
    → (m >>= f) ≡ done b
    → (a : A) × (m ≡ done a) × (f a ≡ done b)
>>=-eq-done (done a) f h = (a, refl, h)
>>=-eq-done (fault e) f h = cc

pub done-injective {ℓ} : {A : Type ℓ} {a b : A} → done a ≡ done b → a ≡ b
done-injective h = cc
