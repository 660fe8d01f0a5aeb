-- ===== src/Codec/Base64.antt =====
-- impl/aicash/tokencodec.py, `b64u_encode` and `b64u_decode`: base64url with no padding, strict.
-- The standard library's `urlsafe_b64encode` and `urlsafe_b64decode` are written out as what they
-- do on the inputs that reach them: the padding is stripped by the one and restored for the other.
pub mod RoundTrip
use ai_cash.Prelude.{
  ℕ, zero, suc, ◌+◌, ◌-◌, ◌*◌, ◌/◌, ◌%◌, ◌≤◌, ◌<◌, ◌≡◌, refl, ap, inl, inr, Bool, true, false, ◌&&◌,
  ◌||◌, not, Option, none, some, List, [], ◌∷◌, arith, length, All, ltb, leb, ◌==◌, ==_iff,
  Bool-cases, if◌then◌else◌,
}
use ai_cash.Prelude.Text.{Text, Bytes, IsBytes, text_eq, text_eq_iff, text_eq_refl}

-- The character of a six-bit digit, and the digit of a character.
unfoldable pub symbol : ℕ → ℕ
symbol n =
    if ltb n 26
    then b'A' + n
    else if ltb n 52
    then b'a' + (n - 26)
    else if ltb n 62
    then b'0' + (n - 52)
    else if n == 62
    then b'-'
    else b'_'

-- `_B64U_ALPHABET_RE`
unfoldable pub is_symbol : ℕ → Bool
is_symbol c =
    (leb b'A' c && leb c b'Z')
    || (leb b'a' c && leb c b'z')
    || (leb b'0' c && leb c b'9')
    || c == b'-'
    || c == b'_'

unfoldable pub digit : ℕ → ℕ
digit c =
    if leb b'A' c && leb c b'Z'
    then c - b'A'
    else if leb b'a' c && leb c b'z'
    then c - b'a' + 26
    else if leb b'0' c && leb c b'9'
    then c - b'0' + 52
    else if c == b'-'
    then 62
    else 63

pub digit-symbol : (n : ℕ) → n < 64 → digit (symbol n) ≡ n
unfolding digit symbol
digit-symbol n h = ground arith

pub is_symbol-symbol : (n : ℕ) → n < 64 → is_symbol (symbol n) ≡ true
unfolding is_symbol symbol
is_symbol-symbol n h = ground arith

-- `urlsafe_b64encode(b).rstrip(b"=")`: three bytes to four characters
unfoldable pub b64u_encode : Bytes → Text
unfolding symbol
b64u_encode [] = []
b64u_encode (a ∷ []) = symbol (a / 4) ∷ symbol (a % 4 * 16) ∷ []
b64u_encode (a ∷ b ∷ []) = symbol (a / 4) ∷ symbol (a % 4 * 16 + b / 16) ∷ symbol (b % 16 * 4) ∷ []
b64u_encode (a ∷ b ∷ c ∷ rest) =
    symbol (a / 4)
    ∷ symbol (a % 4 * 16 + b / 16)
    ∷ symbol (b % 16 * 4 + c / 64)
    ∷ symbol (c % 64)
    ∷ b64u_encode rest

-- `urlsafe_b64decode(s + "=" * pad)`: four characters to three bytes, the spare bits dropped
unfoldable pub b64_groups : Text → Bytes
unfolding digit
b64_groups [] = []
b64_groups (a ∷ []) = []
b64_groups (a ∷ b ∷ []) = (digit a * 4 + digit b / 16) ∷ []
b64_groups (a ∷ b ∷ c ∷ []) = (digit a * 4 + digit b / 16) ∷ (digit b % 16 * 16 + digit c / 4) ∷ []
b64_groups (a ∷ b ∷ c ∷ d ∷ rest) =
    (digit a * 4 + digit b / 16)
    ∷ (digit b % 16 * 16 + digit c / 4)
    ∷ (digit c % 4 * 64 + digit d)
    ∷ b64_groups rest

unfoldable pub all_symbols : Text → Bool
unfolding is_symbol
all_symbols [] = true
all_symbols (c ∷ s) = is_symbol c && all_symbols s

-- `expect_len`: `None` accepts every length
abbrev pub length_accepted : Option ℕ → Bytes → Bool
length_accepted none raw = true
length_accepted (some n) raw = length raw == n

-- `none` is `TokenError("bad_format")`
unfoldable pub b64u_decode : Text → Option ℕ → Option Bytes
unfolding all_symbols b64u_encode b64_groups text_eq
b64u_decode s expect_len =
    let raw = b64_groups s in
    if all_symbols s
      && not (length s % 4 == 1)
      && (text_eq (b64u_encode raw) s && length_accepted expect_len raw)
    then some raw
    else none
