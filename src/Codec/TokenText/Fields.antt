-- ===== src/Codec/TokenText/Fields.antt =====
-- impl/aicash/tokencodec.py: the fields of a token text, taken apart and put together.
use ai_cash.Prelude.{
  ==_iff, ℕ, ◌≡◌, refl, sym, ◌∙◌, ap, Bool, true, ◌&&◌, not, List, [], ◌∷◌, ◌++◌, ◌==◌, arith,
  Bool-cases, inl, inr,
}
use ai_cash.Prelude.Text.{Text}
use ai_cash.Codec.Base64.{is_symbol, all_symbols}
use ai_cash.Codec.Decimal.{is_decimal_digit, all_decimal_digits}
use ai_cash.Codec.TokenText.{
  colon, is_mint_char, split_on, all_mint_chars, token_prefix, token_version, put_in_front,
}

unfoldable pub lacks : ℕ → Text → Bool
lacks sep [] = true
lacks sep (c ∷ s) = not (c == sep) && lacks sep s

split_at_sep :
    (sep : ℕ) (p s : Text) → lacks sep p ≡ true → split_on sep (p ++ sep ∷ s) ≡ p ∷ split_on sep s
unfolding split_on lacks
split_at_sep sep [] s h = ground arith
split_at_sep sep (c ∷ p) s h = rw (split_at_sep sep p s (ground arith)) (ground arith)

split_last : (sep : ℕ) (p : Text) → lacks sep p ≡ true → split_on sep p ≡ p ∷ []
unfolding split_on lacks
split_last sep [] h = refl
split_last sep (c ∷ p) h = rw (split_last sep p (ground arith)) (ground arith)

-- The text that parts make up with the separator between them.
unfoldable join_on : ℕ → List Text → Text
join_on sep [] = []
join_on sep (p ∷ []) = p
join_on sep (p ∷ q ∷ ps) = p ++ sep ∷ join_on sep (q ∷ ps)

join-put_in_front :
    (sep c : ℕ) (ps : List Text) → join_on sep (put_in_front c ps) ≡ c ∷ join_on sep ps
unfolding join_on
join-put_in_front sep c [] = refl
join-put_in_front sep c (p ∷ []) = refl
join-put_in_front sep c (p ∷ q ∷ ps) = refl

split_cons : (sep : ℕ) (s : Text) → (q : Text) × (qs : List Text) × (split_on sep s ≡ q ∷ qs)
unfolding split_on
split_cons sep [] = ([], [], refl)
split_cons sep (c ∷ s) = elim (Bool-cases (c == sep)) [
  | inl e ↦ ([], split_on sep s, rw e refl)
  | inr e ↦ let (q, qs, f) = split_cons sep s in (c ∷ q, qs, rw (e, f) refl)
]

join_empty :
    (sep : ℕ) (ps : List Text) (q : Text) (qs : List Text)
    → ps ≡ q ∷ qs
    → join_on sep ([] ∷ ps) ≡ sep ∷ join_on sep ps
unfolding join_on
join_empty sep [] q qs h = cc
join_empty sep (p ∷ ps) q qs h = refl

join-split : (sep : ℕ) (s : Text) → join_on sep (split_on sep s) ≡ s
unfolding split_on
join-split sep [] = unfold join_on in refl
join-split sep (c ∷ s) =
    let rest = join-split sep s in
    elim (Bool-cases (c == sep)) [
      | inl e ↦
          let (q, qs, f) = split_cons sep s in
          rw e (
            join_empty sep (split_on sep s) q qs f
            ∙ ap (λ x. sep ∷ x) rest
            ∙ ap (λ x. x ∷ s) (sym ((==_iff c sep).0 e)))
      | inr e ↦ rw e (join-put_in_front sep c (split_on sep s) ∙ ap (λ x. c ∷ x) rest)
    ]

-- None of the fields holds a colon.
pub mint_id-lacks : (s : Text) → all_mint_chars s ≡ true → lacks b':' s ≡ true
unfolding all_mint_chars is_mint_char lacks
mint_id-lacks [] h = refl
mint_id-lacks (c ∷ s) h = ground (arith, mint_id-lacks s)

pub digits-lacks : (s : Text) → all_decimal_digits s ≡ true → lacks b':' s ≡ true
unfolding all_decimal_digits is_decimal_digit lacks
digits-lacks [] h = refl
digits-lacks (c ∷ s) h = ground (arith, digits-lacks s)

pub symbols-lacks : (s : Text) → all_symbols s ≡ true → lacks b':' s ≡ true
unfolding all_symbols is_symbol lacks
symbols-lacks [] h = refl
symbols-lacks (c ∷ s) h = ground (arith, symbols-lacks s)

-- The text of the fields, in the one place where both directions take it apart.
abbrev pub token_text : Text → Text → Text → Text
token_text mint_id amount_str secret_str =
    colon token_prefix (colon token_version (colon mint_id (colon amount_str secret_str)))

split-colon :
    (p s : Text) (ps : List Text)
    → lacks b':' p ≡ true
    → split_on b':' s ≡ ps
    → split_on b':' (colon p s) ≡ p ∷ ps
split-colon p s ps h e = split_at_sep b':' p s h ∙ ap (λ x. p ∷ x) e

pub split-token_text :
    (mint_id amount_str secret_str : Text)
    → lacks b':' mint_id ≡ true
    → lacks b':' amount_str ≡ true
    → lacks b':' secret_str ≡ true
    → split_on b':' (token_text mint_id amount_str secret_str)
      ≡ token_prefix ∷ token_version ∷ mint_id ∷ amount_str ∷ secret_str ∷ []
unfolding lacks
split-token_text mint_id amount_str secret_str m a s = split-colon token_prefix _ _ refl (
    split-colon token_version _ _ refl
      (split-colon mint_id _ _ m (split-colon amount_str _ _ a (split_last b':' secret_str s))))

-- A text of five fields.
pub of_fields :
    (s p v mint_id amount_str secret_str : Text)
    → split_on b':' s ≡ p ∷ v ∷ mint_id ∷ amount_str ∷ secret_str ∷ []
    → p ≡ token_prefix
    → v ≡ token_version
    → s ≡ token_text mint_id amount_str secret_str
unfolding join_on
of_fields s p v mint_id amount_str secret_str h hp hv =
    let rest = colon mint_id (colon amount_str secret_str) in
    let joined : join_on b':' (split_on b':' s) ≡ colon p (colon v rest) = ap (join_on b':') h in
    sym (join-split b':' s)
    ∙ joined
    ∙ ap (λ x. colon x (colon v rest)) hp
    ∙ ap (λ x. colon token_prefix (colon x rest)) hv
