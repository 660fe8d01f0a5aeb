-- ===== src/Codec/Value.antt =====
-- The Python values that reach the ledger and the codec unchecked: decoded JSON documents, and
-- the `bytes` that a caller may pass in place of one.
use ai_cash.Prelude.{ℕ, Bool, Option, none, some, if◌then◌else◌}
use ai_cash.Prelude.Int.{ℤ}
use ai_cash.Prelude.Text.{Text, Bytes, text_eq}

mutual
  pub data Value : Type 0 where
    null : Value
    bool : Bool → Value
    int : ℤ → Value
    -- a float, or an object of any other class; nothing reads what it holds
    float : ℕ → Value
    object : ℕ → Value
    str : Text → Value
    bytes : Bytes → Value
    arr : Values → Value
    dict : Fields → Value

  pub data Values : Type 0 where
    nil : Values
    cons : Value → Values → Values

  -- the items of a dict, in insertion order
  pub data Fields : Type 0 where
    end : Fields
    field : Text → Value → Fields → Fields

-- `d.get(k)`
unfoldable pub get : Text → Fields → Option Value
get k end = none
get k (field j v fs) = if text_eq k j then some v else get k fs
