-- ===== src/Codec/Key.antt =====
-- impl/aicash/tokencodec.py, `ledger_key`, over the SHA-256 of the standard library's `hashlib`.
use ai_cash.Prelude.{ℕ, ◌≡◌, Option, none, some, length, ◌==◌, if◌then◌else◌}
use ai_cash.Prelude.Text.{Text, Bytes, IsBytes}
use ai_cash.Codec.Base64.{b64u_encode}
use ai_cash.Codec.Value.{Value}

-- `hashlib.sha256(b).digest()`: compiled code. All that the program relies on is its result's size.
pub record Hash : Type 0 where
  pub sha256 : Bytes → Bytes
  pub sha256-IsBytes : (b : Bytes) → IsBytes (sha256 b)
  pub length-sha256 : (b : Bytes) → length (sha256 b) ≡ 32

abbrev pub secret_len : ℕ
secret_len = 32

module _ ⦃hash : Hash⦄ where
  -- `none` is `TokenError`: no bytes, or not 32 of them.
  unfoldable pub ledger_key : Value → Option Text
  ledger_key (Value.bytes b) =
      if length b == secret_len then some (b64u_encode (hash.sha256 b)) else none
  ledger_key _ = none
