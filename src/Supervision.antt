-- ===== src/Supervision.antt =====
-- impl/aicash/supervision.py: the rows of the custodial accounts, what a route answers, and the
-- predicates that a request's fields pass.
pub mod Rows
pub mod Accounts
pub mod Access
pub mod Administration
pub mod Moves
pub mod Statement
pub mod Booking
pub mod Custody
pub mod Bridge
pub mod Selection
pub mod Withdrawal
pub mod Recovery
pub mod Preservation
pub mod Kept
pub mod Targets
pub mod Routes
pub mod Backing
pub mod History
use ai_cash.Prelude.{
  ℕ, ◌≡◌, refl, Bool, true, false, ◌&&◌, ◌||◌, not, Option, none, some, List, [], ◌∷◌, length, ltb,
  leb, if◌then◌else◌,
}
use ai_cash.Prelude.Int.{ℤ, pos, pos_part, ltb_ℤ}
use ai_cash.Prelude.Text.{Text, text_eq}
use ai_cash.Codec.Value
use ai_cash.Codec.Value.{Value}
use ai_cash.Ledger.State.{storable_int}
use ai_cash.Ledger.Table.{Table}
use ai_cash.Lock.{as_int}

abbrev pub hour_ms : ℕ
hour_ms = 3_600_000

abbrev pub day_ms : ℕ
day_ms = 86_400_000

-- The kinds of a journal line; `DEBIT_KINDS` and `CREDIT_KINDS` partition all but the last two.
pub data LineKind : Type 0 where
  debit pull_out withdrawal burn : LineKind
  credit pull_in deposit issuance : LineKind
  freeze unfreeze : LineKind

unfoldable pub is_debit : LineKind → Bool
is_debit debit = true
is_debit pull_out = true
is_debit withdrawal = true
is_debit burn = true
is_debit _ = false

unfoldable pub is_credit : LineKind → Bool
is_credit credit = true
is_credit pull_in = true
is_credit deposit = true
is_credit issuance = true
is_credit _ = false

-- A row of `sup_operators`; the id is its key.
pub record Operator : Type 0 where
  pub name : Text
  pub key_sha256 : Text
  pub created_at : ℕ

-- A row of `sup_agents`; the id is its key.
pub record Agent : Type 0 where
  pub operator_id : Text
  pub name : Text
  pub key_sha256 : Text
  pub balance_mc : ℤ
  pub frozen : Bool
  pub no_bearer_withdrawal : Bool
  pub cap_per_hour_mc : Option ℕ
  pub cap_per_day_mc : Option ℕ
  pub cap_absolute_mc : Option ℕ
  pub created_at : ℕ

-- A row of `sup_lines`.
pub record Line : Type 0 where
  pub agent_id : Text
  pub t : ℕ
  pub kind : LineKind
  pub amount_mc : ℕ
  pub counterparty_account : Option Text
  pub ref : Text

-- A row of `sup_pull_auths`; the id is its key.
pub record PullAuth : Type 0 where
  pub granting_agent_id : Text
  pub payee_account : Text
  pub cap_mc_per_day : ℕ
  pub expires_at : ℕ
  pub revoked : Bool
  pub created_at : ℕ

-- A row of `sup_pull_uses`.
pub record PullUse : Type 0 where
  pub auth_id : Text
  pub t : ℕ
  pub amount_mc : ℕ

-- The tables; the newest line and the newest use stand in front.
pub record Books : Type 0 where
  pub operators : Table Operator
  pub agents : Table Agent
  pub lines : List Line
  pub auths : Table PullAuth
  pub uses : List PullUse

abbrev pub empty_books : Books
empty_books = record { operators = []; agents = []; lines = []; auths = []; uses = [] }

pub data Reason : Type 0 where
  bad_format unknown_account external_transfer_disabled account_frozen agent_cap_exceeded : Reason
  insufficient_balance authorization_missing authorization_revoked authorization_expired : Reason
  pull_cap_exceeded withdrawal_disabled : Reason

-- The answer of a route: 200; 400 with a reason; 404, 403 and 401; and an exception, which the handler
-- answers with 500 after the transaction was rolled back. But for 200 the tables are as they were.
pub data Answer {ℓ} (A : Type ℓ) : Type ℓ where
  ok : A → Answer A
  rejected : Reason → Answer A
  unknown_agent forbidden unauthorized internal : Answer A

-- A guard: the refusal where its test holds.
abbrev pub reject_if : Bool → Reason → Answer (Unit {0})
reject_if refused reason = if refused then rejected reason else ok tt

-- The next step runs after an answer of 200 only.
abbrev pub ◌>>=◌ {ℓ κ} : {X : Type ℓ} {Y : Type κ} → Answer X → (X → Answer Y) → Answer Y
internal >>= next = internal
unauthorized >>= next = unauthorized
forbidden >>= next = forbidden
unknown_agent >>= next = unknown_agent
rejected reason >>= next = rejected reason
ok x >>= next = next x

abbrev pub ◌>>◌ {κ} : {Y : Type κ} → Answer (Unit {0}) → Answer Y → Answer Y
check >> next = check >>= λ _. next

infixl 5 ◌>>=◌ ◌>>◌
-- `None` where a row is asked for its fields is a `TypeError`.
abbrev pub or_internal {ℓ} : {A : Type ℓ} → Option A → Answer A
or_internal none = internal
or_internal (some a) = ok a

abbrev pub or_reject {ℓ} : {A : Type ℓ} → Option A → Reason → Answer A
or_reject none r = rejected r
or_reject (some a) r = ok a

-- `str.isprintable`, by the Unicode tables of the interpreter: whether a code point is printable.
-- Nothing is assumed of it.
pub record Unicode : Type 0 where
  pub printable : ℕ → Bool

abbrev pub max_text_len : ℕ
max_text_len = 256

module _ ⦃unicode : Unicode⦄ where
  -- UTF-8 encodes every code point but the surrogates.
  unfoldable pub all_plain : Text → Bool
  all_plain [] = true
  all_plain (c ∷ s) = (not (leb 0xD800 c && leb c 0xDFFF) && unicode.printable c) && all_plain s

  -- `_plain_text`
  unfoldable pub plain_text : Option Value → Option Text
  plain_text (some (Value.str s)) =
      if leb (length s) max_text_len && all_plain s then some s else none
  plain_text _ = none

  -- `ref`: absent and null are the empty text.
  unfoldable pub read_ref : Option Value → Option Text
  read_ref none = some []
  read_ref (some Value.null) = some []
  read_ref (some v) = plain_text (some v)

-- `_plain_int`
unfoldable pub plain_int : Option Value → Option ℤ
plain_int none = none
plain_int (some v) = elim (as_int v) [
  | none ↦ none
  | some n ↦ if storable_int n then some n else none
]

-- A plain int that is positive, and one that is not negative.
unfoldable pub positive_int : Option Value → Option ℕ
positive_int v = elim (plain_int v) [
  | none ↦ none
  | some n ↦ if ltb_ℤ (pos 0) n then some (pos_part n) else none
]

unfoldable pub natural_int : Option Value → Option ℕ
natural_int v = elim (plain_int v) [
  | none ↦ none
  | some n ↦ if ltb_ℤ n (pos 0) then none else some (pos_part n)
]

-- Inversion of an answer of 200.
pub >>=-eq-ok {ℓ κ} :
    {X : Type ℓ} {Y : Type κ} (first : Answer X) (next : X → Answer Y) {y : Y}
    → first >>= next ≡ ok y
    → (x : X) × (first ≡ ok x) × (next x ≡ ok y)
>>=-eq-ok internal next h = cc
>>=-eq-ok unauthorized next h = cc
>>=-eq-ok forbidden next h = cc
>>=-eq-ok unknown_agent next h = cc
>>=-eq-ok (rejected reason) next h = cc
>>=-eq-ok (ok x) next h = (x, refl, h)

pub or_reject-eq-ok {ℓ} :
    {A : Type ℓ} (o : Option A) (r : Reason) {a : A} → or_reject o r ≡ ok a → o ≡ some a
or_reject-eq-ok none r h = cc
or_reject-eq-ok (some x) r h = cc

pub or_internal-eq-ok {ℓ} : {A : Type ℓ} (o : Option A) {a : A} → or_internal o ≡ ok a → o ≡ some a
or_internal-eq-ok none h = cc
or_internal-eq-ok (some x) h = cc

pub reject_if-eq-ok : (t : Bool) (r : Reason) {u : Unit {0}} → reject_if t r ≡ ok u → t ≡ false
reject_if-eq-ok true r h = cc
reject_if-eq-ok false r h = refl

pub ok-injective {ℓ} : {A : Type ℓ} {a b : A} → ok a ≡ ok b → a ≡ b
ok-injective h = cc
