-- ===== src/Codec/Base64/RoundTrip.antt =====
-- impl/aicash/tokencodec.py, `b64u_encode` and `b64u_decode`: each byte string has one encoding.
use ai_cash.Prelude.{
  ℕ, ◌+◌, ◌*◌, ◌/◌, ◌%◌, ◌<◌, ◌≡◌, ◌↔◌, refl, true, not, Option, some, [], ◌∷◌, arith, length, ◌==◌,
}
use ai_cash.Prelude.Text.{Text, Bytes, IsBytes, text_eq_iff, text_eq_refl}
use ai_cash.Codec.Base64.{
  digit, digit-symbol, is_symbol-symbol, b64u_encode, b64u_decode, b64_groups, all_symbols,
  length_accepted,
}

groups-encode : (b : Bytes) → IsBytes b → b64_groups (b64u_encode b) ≡ b
unfolding b64_groups b64u_encode
groups-encode [] h = refl
groups-encode (a ∷ []) h = ground (arith, digit-symbol (a / 4), digit-symbol (a % 4 * 16))
groups-encode (a ∷ b ∷ []) h =
    ground
      (arith, digit-symbol (a / 4), digit-symbol (a % 4 * 16 + b / 16), digit-symbol (b % 16 * 4))
groups-encode (a ∷ b ∷ c ∷ rest) h = ground (
  arith,
  digit-symbol (a / 4),
  digit-symbol (a % 4 * 16 + b / 16),
  digit-symbol (b % 16 * 4 + c / 64),
  digit-symbol (c % 64),
  groups-encode rest h.1.1.1,
)

pub all_symbols-encode : (b : Bytes) → IsBytes b → all_symbols (b64u_encode b) ≡ true
unfolding all_symbols b64u_encode
all_symbols-encode [] h = refl
all_symbols-encode (a ∷ []) h =
    ground (arith, is_symbol-symbol (a / 4), is_symbol-symbol (a % 4 * 16))
all_symbols-encode (a ∷ b ∷ []) h = ground (
  arith,
  is_symbol-symbol (a / 4),
  is_symbol-symbol (a % 4 * 16 + b / 16),
  is_symbol-symbol (b % 16 * 4),
)
all_symbols-encode (a ∷ b ∷ c ∷ rest) h = ground (
  arith,
  is_symbol-symbol (a / 4),
  is_symbol-symbol (a % 4 * 16 + b / 16),
  is_symbol-symbol (b % 16 * 4 + c / 64),
  is_symbol-symbol (c % 64),
  all_symbols-encode rest h.1.1.1,
)

length-encode : (b : Bytes) → not (length (b64u_encode b) % 4 == 1) ≡ true
unfolding b64u_encode
length-encode [] = refl
length-encode (a ∷ []) = refl
length-encode (a ∷ b ∷ []) = refl
length-encode (a ∷ b ∷ c ∷ rest) = ground (arith, length-encode rest)

-- Decoding an encoding gives the bytes back, where their length is accepted.
pub decode-encode :
    (b : Bytes) (expect_len : Option ℕ)
    → IsBytes b
    → length_accepted expect_len b ≡ true
    → b64u_decode (b64u_encode b) expect_len ≡ some b
unfolding b64u_decode
decode-encode b n h e =
    rw (all_symbols-encode b h, length-encode b, groups-encode b h, text_eq_refl (b64u_encode b), e)

-- What decodes is the encoding of what it decodes to, and its length is accepted.
pub encode-decode :
    (s : Text) (expect_len : Option ℕ) (b : Bytes)
    → b64u_decode s expect_len ≡ some b
    → (b64u_encode b ≡ s) × (length_accepted expect_len b ≡ true)
unfolding b64u_decode
encode-decode s n b h = ground (arith, text_eq_iff (b64u_encode (b64_groups s)) s)

digit-lt : (c : ℕ) → digit c < 64
unfolding digit
digit-lt c = ground arith

groups-IsBytes : (s : Text) → IsBytes (b64_groups s)
unfolding b64_groups
groups-IsBytes [] = tt
groups-IsBytes (a ∷ []) = tt
groups-IsBytes (a ∷ b ∷ []) = ground (arith, digit-lt a, digit-lt b)
groups-IsBytes (a ∷ b ∷ c ∷ []) = ground (arith, digit-lt a, digit-lt b, digit-lt c)
groups-IsBytes (a ∷ b ∷ c ∷ d ∷ rest) =
    ground (arith, digit-lt a, digit-lt b, digit-lt c, digit-lt d, groups-IsBytes rest)

pub decode-IsBytes :
    (s : Text) (expect_len : Option ℕ) (b : Bytes) → b64u_decode s expect_len ≡ some b → IsBytes b
unfolding b64u_decode
decode-IsBytes s n b h = ground (arith, groups-IsBytes s)

-- A text decodes to `b` exactly when `b` is a string of bytes whose encoding is that text and whose
-- length is accepted: no byte string has two texts, and no text two byte strings.
pub b64u_decode_iff :
    (s : Text) (expect_len : Option ℕ) (b : Bytes)
    → (b64u_decode s expect_len ≡ some b)
      ↔ (IsBytes b × (b64u_encode b ≡ s) × (length_accepted expect_len b ≡ true))
b64u_decode_iff s n b = (
  λ h. (decode-IsBytes s n b h, (encode-decode s n b h).0, (encode-decode s n b h).1),
  λ (k, e, l). rw (← e) (decode-encode b n k l),
)
