-- ===== src/Swap.antt =====
-- impl/aicash/swap.py, `compute_margin`: how far apart the two expiries of a swap must stand.
pub mod Margin
use ai_cash.Prelude.{
  ℕ, ◌+◌, ◌-◌, ◌*◌, max, Bool, true, false, ◌||◌, Option, none, some, List, [], ◌∷◌, ltb,
  if◌then◌else◌,
}
use ai_cash.Prelude.Int.{ℤ, pos, pos_part, ltb_ℤ}
use ai_cash.Prelude.Text.{Text, codes}
use ai_cash.Codec.Value
use ai_cash.Codec.Value.{Value, Fields, get}
use ai_cash.Lock.{as_int}

-- `ValueError`, and the refusal to quote.
pub data Quoted (A : Type 0) : Type 0 where
  quoted : A → Quoted A
  value_error : Quoted A
  quote_refused : Quoted A

infixl 5 ◌>>=◌
abbrev pub ◌>>=◌ : {A B : Type 0} → Quoted A → (A → Quoted B) → Quoted B
quoted a >>= f = f a
value_error >>= f = value_error
quote_refused >>= f = quote_refused

abbrev pub latency_safety_factor : ℕ
latency_safety_factor = 10

abbrev pub default_latency_floor_ms : ℕ
default_latency_floor_ms = 60_000

-- The walk down the path.
unfoldable pub descriptor_field : Value → List Text → Option Value
descriptor_field v [] = some v
descriptor_field (Value.dict fs) (part ∷ path) = elim (get part fs) [
  | none ↦ none
  | some w ↦ descriptor_field w path
]
descriptor_field _ (part ∷ path) = none

-- A plain int from 0 on.
unfoldable pub natural : Option Value → Quoted ℕ
natural none = value_error
natural (some v) = elim (as_int v) [
  | none ↦ value_error
  | some n ↦ if ltb_ℤ n (pos 0) then value_error else quoted (pos_part n)
]

-- `_descriptor_int`, with its default minimum, 0.
unfoldable pub descriptor_int : Value → List Text → Quoted ℕ
descriptor_int desc path = natural (descriptor_field desc path)

abbrev pub assumed_latency : Option ℕ → Quoted ℕ
assumed_latency none = quote_refused
assumed_latency (some assumed) = quoted (max default_latency_floor_ms assumed)

abbrev pub attested_latency : Value → Option ℕ → Quoted ℕ
attested_latency Value.null assumed = assumed_latency assumed
attested_latency (Value.dict perf) assumed =
    natural (get (codes "p99_exchange_ms") perf) >>= λ p99. quoted (p99 * latency_safety_factor)
attested_latency _ assumed = value_error

-- `_latency_ms`; the fields were read before, so the descriptor is a dict.
unfoldable pub latency_ms : Value → Option ℕ → Quoted ℕ
latency_ms (Value.dict fs) assumed = elim (get (codes "performance") fs) [
  | none ↦ assumed_latency assumed
  | some perf ↦ attested_latency perf assumed
]
latency_ms _ assumed = value_error

-- `assumed_latency_ms`: `None`, or 1 and more.
abbrev pub check_assumed : Option ℤ → Quoted (Option ℕ)
check_assumed none = quoted none
check_assumed (some n) = if ltb_ℤ n (pos 1) then value_error else quoted (some (pos_part n))

abbrev pub check_polling : ℤ → Quoted ℕ
check_polling n = if ltb_ℤ n (pos 1) then value_error else quoted (pos_part n)

-- The window of the second mint covers the margin.
abbrev pub retained : ℕ → ℕ → Quoted ℕ
retained recovery_window margin =
    if ltb recovery_window margin then quote_refused else quoted margin

abbrev pub distance : ℕ → ℕ → ℕ
distance a b = (a - b) + (b - a)

unfoldable pub compute_margin : Value → Value → ℤ → Option ℤ → Quoted ℕ
compute_margin desc1 desc2 polling_interval_ms assumed_latency_ms = do
  polling ← check_polling polling_interval_ms
  assumed ← check_assumed assumed_latency_ms
  grace1 ← descriptor_int desc1 (codes "lock_params" ∷ codes "grace_ms" ∷ [])
  grace2 ← descriptor_int desc2 (codes "lock_params" ∷ codes "grace_ms" ∷ [])
  prec1 ← descriptor_int desc1 (codes "lock_params" ∷ codes "timestamp_precision_ms" ∷ [])
  prec2 ← descriptor_int desc2 (codes "lock_params" ∷ codes "timestamp_precision_ms" ∷ [])
  mint_time1 ← descriptor_int desc1 (codes "mint_time" ∷ [])
  mint_time2 ← descriptor_int desc2 (codes "mint_time" ∷ [])
  latency1 ← latency_ms desc1 assumed
  latency2 ← latency_ms desc2 assumed
  let latency = max latency1 latency2
  let skew = distance mint_time1 mint_time2
  let margin = grace1 + grace2 + prec1 + prec2 + polling + latency + 2 * latency + skew
  recovery_window ← descriptor_int desc2 (codes "retention" ∷ codes "recovery_window_ms" ∷ [])
  retained recovery_window margin
