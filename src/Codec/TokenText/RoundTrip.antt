-- ===== src/Codec/TokenText/RoundTrip.antt =====
-- impl/aicash/tokencodec.py: a token text and what it says determine each other.
use ai_cash.Codec.Key.{secret_len}
use ai_cash.Codec.Base64.RoundTrip.{
  decode-IsBytes, all_symbols-encode, encode-decode, decode-encode,
}
use ai_cash.Prelude.{
  leb→le, le→leb, ==_iff, ℕ, ◌≤◌, ◌<◌, ◌≡◌, ◌↔◌, refl, sym, ◌∙◌, ap, subst, true, some, some_eq,
  List, [], ◌∷◌, length, leb, arith, Option-cases, inl, inr,
}
use ai_cash.Prelude.Int.{pos}
use ai_cash.Prelude.Text.{Text, IsBytes, text_eq, text_eq_iff, text_eq_refl}
use ai_cash.Codec.Base64.{b64u_encode, b64u_decode}
use ai_cash.Codec.Decimal.{
  decimal-value, value-pos, all_digits-decimal, value-decimal, is_amount-decimal, is_amount,
  value_from, decimal, limit, max_amount_digits,
}
use ai_cash.Codec.TokenText.{
  parse_fields, parse_token, is_mint_id, format_token, read_token_fields, split_on, all_mint_chars,
  token_prefix, token_version, max_token_mc, TokenParts,
}
use ai_cash.Codec.TokenText.Fields.{
  mint_id-lacks, digits-lacks, symbols-lacks, token_text, split-token_text, of_fields,
}

amount_fits : (n : ℕ) → n ≤ max_token_mc → n < limit max_amount_digits
unfolding limit
amount_fits n h = omega (arith, h)

read_formatted :
    (t : TokenParts)
    → 0 < t.amount_mc
    → t.amount_mc ≤ max_token_mc
    → IsBytes t.secret
    → length t.secret ≡ 32
    → read_token_fields t.mint_id (decimal t.amount_mc) (b64u_encode t.secret) ≡ some t
unfolding read_token_fields
read_formatted t p fits bytes len =
    let exact = value-decimal t.amount_mc (amount_fits t.amount_mc fits) in
    let fits_value = ap (λ n. leb n max_token_mc) exact ∙ le→leb t.amount_mc max_token_mc fits in
    rw
      (
        is_amount-decimal t.amount_mc p (amount_fits t.amount_mc fits),
        fits_value,
        decode-encode t.secret (some secret_len) bytes ((==_iff (length t.secret) 32).1 len),
      )
      (ap (λ n. some (record { mint_id = t.mint_id; amount_mc = n; secret = t.secret })) exact)

-- What a format asks for.
record Formats (t : TokenParts) (s : Text) : Type 0 where
  named : is_mint_id t.mint_id ≡ true
  positive : 0 < t.amount_mc
  fits : t.amount_mc ≤ max_token_mc
  secret_size : length t.secret ≡ 32
  printed : s ≡ token_text t.mint_id (decimal t.amount_mc) (b64u_encode t.secret)

format_token-Formats :
    (t : TokenParts) (s : Text)
    → format_token t.mint_id (pos t.amount_mc) t.secret ≡ some s
    → Formats t s
unfolding format_token
format_token-Formats t s h = record {
  named = ground (arith, h);
  positive = ground (arith, h);
  fits = ground (arith, h);
  secret_size = ground (arith, h);
  printed = ground (arith, h);
}

Formats-format_token :
    (t : TokenParts) (s : Text)
    → Formats t s
    → format_token t.mint_id (pos t.amount_mc) t.secret ≡ some s
unfolding format_token
Formats-format_token t s f = ground (arith, f.named, f.positive, f.fits, f.secret_size, f.printed)

mint_id_chars : (s : Text) → is_mint_id s ≡ true → all_mint_chars s ≡ true
unfolding is_mint_id
mint_id_chars s h = ground arith

parse-Formats :
    (t : TokenParts) (s : Text) → IsBytes t.secret → Formats t s → parse_token s ≡ some t
unfolding parse_token parse_fields
parse-Formats t s bytes f =
    let split =
      split-token_text t.mint_id (decimal t.amount_mc) (b64u_encode t.secret)
        (mint_id-lacks t.mint_id (mint_id_chars t.mint_id f.named))
        (digits-lacks (decimal t.amount_mc) (all_digits-decimal t.amount_mc))
        (symbols-lacks (b64u_encode t.secret) (all_symbols-encode t.secret bytes)) in
    rw (f.printed, split, text_eq_refl token_prefix, text_eq_refl token_version, f.named)
      (read_formatted t f.positive f.fits bytes f.secret_size)

read_token_fields-Formats :
    (mint_id amount_str secret_str s : Text) (t : TokenParts)
    → is_mint_id mint_id ≡ true
    → s ≡ token_text mint_id amount_str secret_str
    → read_token_fields mint_id amount_str secret_str ≡ some t
    → IsBytes t.secret × Formats t s
unfolding read_token_fields
read_token_fields-Formats mint_id amount_str secret_str s t named text h =
    elim (Option-cases (b64u_decode secret_str (some secret_len))) [
      | inl e ↦ absurd (ground (arith, e, h))
      | inr (secret, e) ↦
          let (printed, size) = encode-decode secret_str (some secret_len) secret e in
          let valid : is_amount amount_str ≡ true = ground (arith, e, h) in
          let fits : leb (value_from 0 amount_str) max_token_mc ≡ true = ground (arith, e, h) in
          let read : ◌≡◌ {A = TokenParts}
              (record { mint_id = mint_id; amount_mc = value_from 0 amount_str; secret = secret })
              t =
            some_eq (sym (rw (valid, fits, e) refl) ∙ h) in
          subst (λ (x : TokenParts). IsBytes x.secret × Formats x s) read
            (
              decode-IsBytes secret_str (some secret_len) secret e,
              record {
                named = named;
                positive = value-pos amount_str valid;
                fits = leb→le (value_from 0 amount_str) max_token_mc fits;
                secret_size = (==_iff (length secret) 32).0 size;
                printed =
                    text
                    ∙ ap (λ x. token_text mint_id x secret_str)
                        (sym (decimal-value amount_str valid))
                    ∙ ap (token_text mint_id (decimal (value_from 0 amount_str))) (sym printed);
              },
            )
    ]

parse_fields-Formats :
    (s : Text) (ps : List Text) (t : TokenParts)
    → split_on b':' s ≡ ps
    → parse_fields ps ≡ some t
    → IsBytes t.secret × Formats t s
unfolding parse_fields
parse_fields-Formats s (p ∷ v ∷ mint_id ∷ amount_str ∷ secret_str ∷ []) t e h =
    let prefixed : text_eq p token_prefix ≡ true = ground (arith, h) in
    let versioned : text_eq v token_version ≡ true = ground (arith, h) in
    let named : is_mint_id mint_id ≡ true = ground (arith, h) in
    read_token_fields-Formats mint_id amount_str secret_str s t named
      (of_fields s p v mint_id amount_str secret_str e ((text_eq_iff p token_prefix).0 prefixed)
        ((text_eq_iff v token_version).0 versioned))
      (ground (arith, h))
parse_fields-Formats s _ t e h = cc

-- A text parses to given parts exactly when they are printed as that text and their secret is a
-- string of bytes: no token has two texts, and no text two tokens.
pub parse_token_iff :
    (s : Text) (t : TokenParts)
    → (parse_token s ≡ some t)
      ↔ (IsBytes t.secret × (format_token t.mint_id (pos t.amount_mc) t.secret ≡ some s))
unfolding parse_token
parse_token_iff s t = (
  λ h.
      let (bytes, f) = parse_fields-Formats s (split_on b':' s) t refl h in
      (bytes, Formats-format_token t s f),
  λ (bytes, h). parse-Formats t s bytes (format_token-Formats t s h),
)
