-- ===== src/Codec/TokenText.antt =====
-- impl/aicash/tokencodec.py: `format_token` and `parse_token`. `none` is `TokenError`.
pub mod Fields
pub mod RoundTrip
use ai_cash.Prelude.{
  ℕ, ◌+◌, ◌-◌, ◌^◌, Bool, true, false, ◌&&◌, ◌||◌, not, Option, none, some, List, [], ◌∷◌, ◌++◌,
  length, ltb, leb, ◌==◌, if◌then◌else◌,
}
use ai_cash.Prelude.Int.{ℤ, pos, pos_part, ltb_ℤ}
use ai_cash.Prelude.Text.{Text, Bytes, text_eq, codes}
use ai_cash.Codec.Base64.{b64u_encode, b64u_decode}
use ai_cash.Codec.Decimal.{is_amount, value_from, decimal}
use ai_cash.Codec.Key.{secret_len}

abbrev pub token_prefix : Text
token_prefix = codes "aicash"

abbrev pub token_version : Text
token_version = codes "v3"

-- `MAX_AMOUNT_MC`
abbrev pub max_token_mc : ℕ
max_token_mc = 2 ^ 63 - 1

-- What a token text says.
pub record TokenParts : Type 0 where
  pub mint_id : Text
  pub amount_mc : ℕ
  pub secret : Bytes

unfoldable pub is_mint_char : ℕ → Bool
is_mint_char c = (leb b'a' c && leb c b'z') || ((leb b'0' c && leb c b'9') || c == b'-')

unfoldable pub all_mint_chars : Text → Bool
all_mint_chars [] = true
all_mint_chars (c ∷ s) = is_mint_char c && all_mint_chars s

-- `MINT_ID_RE`
unfoldable pub is_mint_id : Text → Bool
is_mint_id s = all_mint_chars s && (leb 1 (length s) && leb (length s) 64)

-- `s.split(sep)`
abbrev pub put_in_front : ℕ → List Text → List Text
put_in_front c [] = (c ∷ []) ∷ []
put_in_front c (p ∷ ps) = (c ∷ p) ∷ ps

unfoldable pub split_on : ℕ → Text → List Text
split_on sep [] = [] ∷ []
split_on sep (c ∷ s) =
    let rest = split_on sep s in if c == sep then [] ∷ rest else put_in_front c rest

-- A field, and a colon before what follows.
abbrev pub colon : Text → Text → Text
colon p s = p ++ (b':' ∷ s)

unfoldable pub format_token : Text → ℤ → Bytes → Option Text
format_token mint_id amount_mc secret =
    if is_mint_id mint_id
      && (ltb_ℤ (pos 0) amount_mc
          && (not (ltb_ℤ (pos max_token_mc) amount_mc) && length secret == secret_len))
    then some (
        colon token_prefix (
          colon token_version
            (colon mint_id (colon (decimal (pos_part amount_mc)) (b64u_encode secret)))))
    else none

-- The amount, then the secret.
unfoldable pub read_token_fields : Text → Text → Text → Option TokenParts
read_token_fields mint_id amount_str secret_str =
    if is_amount amount_str && leb (value_from 0 amount_str) max_token_mc
    then elim (b64u_decode secret_str (some secret_len)) [
      | none ↦ none
      | some secret ↦
          some (record { mint_id = mint_id; amount_mc = value_from 0 amount_str; secret = secret })
    ]
    else none

-- Exactly five fields.
unfoldable pub parse_fields : List Text → Option TokenParts
parse_fields (prefix ∷ version ∷ mint_id ∷ amount_str ∷ secret_str ∷ []) =
    if text_eq prefix token_prefix && (text_eq version token_version && is_mint_id mint_id)
    then read_token_fields mint_id amount_str secret_str
    else none
parse_fields _ = none

unfoldable pub parse_token : Text → Option TokenParts
parse_token s = parse_fields (split_on b':' s)
