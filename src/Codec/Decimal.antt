-- ===== src/Codec/Decimal.antt =====
-- impl/aicash/tokencodec.py: the decimal amount of a token, `%d` and `int` within nineteen digits.
use ai_cash.Prelude.{
  inr, inl, ◌⊎◌, ℕ, zero, suc, ◌+◌, ◌-◌, ◌*◌, ◌/◌, ◌%◌, ◌≤◌, ◌<◌, ◌≡◌, refl, ◌∙◌, ap, Bool, true,
  false, ◌&&◌, [], ◌∷◌, ◌++◌, append-nil, arith, length, leb, ◌==◌, if◌then◌else◌,
}
use ai_cash.Prelude.Text.{Text}

-- `MAX_AMOUNT_DIGITS`
abbrev pub max_amount_digits : ℕ
max_amount_digits = 19

-- The digits of a number in front of a text; a number of at most `fuel` digits needs no more of it.
unfoldable pub decimal_from : ℕ → ℕ → Text → Text
decimal_from zero n out = out
decimal_from (suc fuel) n out =
    let rest = decimal_from fuel (n / 10) ((b'0' + n % 10) ∷ out) in if n == 0 then out else rest

-- `"%d" % n`, for a positive number of at most nineteen digits
unfoldable pub decimal : ℕ → Text
decimal n = decimal_from max_amount_digits n []

unfoldable pub is_decimal_digit : ℕ → Bool
is_decimal_digit c = leb b'0' c && leb c b'9'

unfoldable pub all_decimal_digits : Text → Bool
all_decimal_digits [] = true
all_decimal_digits (c ∷ s) = is_decimal_digit c && all_decimal_digits s

-- The number that digits spell behind `n`.
unfoldable pub value_from : ℕ → Text → ℕ
value_from n [] = n
value_from n (c ∷ s) = value_from (n * 10 + (c - b'0')) s

-- `_AMOUNT_RE`
unfoldable pub is_amount : Text → Bool
is_amount [] = false
is_amount (c ∷ s) =
    (leb b'1' c && leb c b'9') && (all_decimal_digits s && leb (length s) (max_amount_digits - 1))

-- The first number of more digits.
unfoldable pub limit : ℕ → ℕ
limit zero = 1
limit (suc digits) = 10 * limit digits

decimal_from_zero : (fuel : ℕ) (out : Text) → decimal_from fuel 0 out ≡ out
unfolding decimal_from
decimal_from_zero zero out = refl
decimal_from_zero (suc fuel) out = refl

decimal_from_pos :
    (fuel n : ℕ) (out : Text)
    → 0 < n
    → decimal_from (suc fuel) n out ≡ decimal_from fuel (n / 10) ((b'0' + n % 10) ∷ out)
unfolding decimal_from
decimal_from_pos fuel n out h = ground (arith, h)

value_step : (n : ℕ) (out : Text) → value_from (n / 10) ((b'0' + n % 10) ∷ out) ≡ value_from n out
unfolding value_from
value_step n out = ap (λ m. value_from m out) (omega arith)

zero_or_pos : (n : ℕ) → (n ≡ 0) ⊎ (0 < n)
zero_or_pos zero = inl refl
zero_or_pos (suc n) = inr (omega arith)

-- Reading what was printed.
value-decimal_from :
    (fuel n : ℕ) (out : Text)
    → n < limit fuel
    → value_from 0 (decimal_from fuel n out) ≡ value_from n out
unfolding decimal_from limit
value-decimal_from zero n out h = ap (λ m. value_from m out) (omega arith)
value-decimal_from (suc fuel) n out h = elim (zero_or_pos n) [
  | inl e ↦ rw (e, decimal_from_zero (suc fuel) out) refl
  | inr p ↦
      ap (value_from 0) (decimal_from_pos fuel n out p)
      ∙ (value-decimal_from fuel (n / 10) ((b'0' + n % 10) ∷ out) (omega arith) ∙ value_step n out)
]

-- Every digit that is printed is one, the first is not zero, and they are as many as they need to be.
all_digits-decimal_from :
    (fuel n : ℕ) (out : Text)
    → all_decimal_digits out ≡ true
    → all_decimal_digits (decimal_from fuel n out) ≡ true
unfolding decimal_from
all_digits-decimal_from zero n out h = h
all_digits-decimal_from (suc fuel) n out h = elim (zero_or_pos n) [
  | inl e ↦ rw (e, decimal_from_zero (suc fuel) out) h
  | inr p ↦ rw (decimal_from_pos fuel n out p) (
      all_digits-decimal_from fuel (n / 10) ((b'0' + n % 10) ∷ out)
        (unfold all_decimal_digits in unfold is_decimal_digit in ground (arith, h)))
]

length-decimal_from :
    (fuel n : ℕ) (out : Text) → length (decimal_from fuel n out) ≤ fuel + length out
unfolding decimal_from
length-decimal_from zero n out = omega arith
length-decimal_from (suc fuel) n out = elim (zero_or_pos n) [
  | inl e ↦ rw (e, decimal_from_zero (suc fuel) out) (omega arith)
  | inr p ↦
      rw (decimal_from_pos fuel n out p)
        (omega (arith, length-decimal_from fuel (n / 10) ((b'0' + n % 10) ∷ out)))
]

abbrev starts_positive : Text → Bool
starts_positive [] = false
starts_positive (c ∷ s) = leb b'1' c && leb c b'9'

starts-decimal_from :
    (fuel n : ℕ) (out : Text)
    → 0 < n
    → n < limit fuel
    → starts_positive (decimal_from fuel n out) ≡ true
unfolding limit
starts-decimal_from zero n out p h = absurd (omega arith)
starts-decimal_from (suc fuel) n out p h =
    rw (decimal_from_pos fuel n out p) (elim (zero_or_pos (n / 10)) [
      | inl e ↦ rw (e, decimal_from_zero fuel ((b'0' + n % 10) ∷ out)) (ground arith)
      | inr q ↦ starts-decimal_from fuel (n / 10) ((b'0' + n % 10) ∷ out) q (omega arith)
    ])

is_amount_of :
    (s : Text)
    → starts_positive s ≡ true
    → all_decimal_digits s ≡ true
    → length s ≤ max_amount_digits
    → is_amount s ≡ true
unfolding is_amount all_decimal_digits
is_amount_of [] p d l = cc
is_amount_of (c ∷ s) p d l = ground arith

pub is_amount-decimal : (n : ℕ) → 0 < n → n < limit max_amount_digits → is_amount (decimal n) ≡ true
unfolding decimal
is_amount-decimal n p h =
    is_amount_of (decimal_from max_amount_digits n [])
      (starts-decimal_from max_amount_digits n [] p h)
      (all_digits-decimal_from max_amount_digits n [] (unfold all_decimal_digits in refl))
      (omega (arith, length-decimal_from max_amount_digits n []))

pub all_digits-decimal : (n : ℕ) → all_decimal_digits (decimal n) ≡ true
unfolding decimal all_decimal_digits
all_digits-decimal n = all_digits-decimal_from max_amount_digits n [] refl

pub value-decimal : (n : ℕ) → n < limit max_amount_digits → value_from 0 (decimal n) ≡ n
unfolding decimal value_from
value-decimal n h = value-decimal_from max_amount_digits n [] h

digits_cons :
    (c : ℕ) (s : Text)
    → all_decimal_digits (c ∷ s) ≡ true
    → (b'0' ≤ c) × (c ≤ b'9') × (all_decimal_digits s ≡ true)
unfolding all_decimal_digits is_decimal_digit
digits_cons c s h = ground (arith, h)

length_next : (fuel c : ℕ) (s : Text) → fuel + length (c ∷ s) ≡ suc fuel + length s
length_next fuel c s = omega arith

last_dropped : (n c : ℕ) → b'0' ≤ c → c ≤ b'9' → (n * 10 + (c - b'0')) / 10 ≡ n
last_dropped n c low high = omega arith

last_digit : (n c : ℕ) → b'0' ≤ c → c ≤ b'9' → b'0' + (n * 10 + (c - b'0')) % 10 ≡ c
last_digit n c low high = omega arith

-- Printing what was read.
decimal-value_from :
    (fuel n : ℕ) (s out : Text)
    → 0 < n
    → all_decimal_digits s ≡ true
    → decimal_from (fuel + length s) (value_from n s) out ≡ decimal_from fuel n (s ++ out)
unfolding value_from
decimal-value_from fuel n [] out p d = ap (λ f. decimal_from f n out) (omega arith)
decimal-value_from fuel n (c ∷ s) out p d =
    let m = n * 10 + (c - b'0') in
    let (low, high, rest) = digits_cons c s d in
    let m_pos : 0 < m = omega arith in
    ap (λ f. decimal_from f (value_from m s) out) (length_next fuel c s)
    ∙ decimal-value_from (suc fuel) m s out m_pos rest
    ∙ decimal_from_pos fuel m (s ++ out) m_pos
    ∙ ap (λ k. decimal_from fuel k ((b'0' + m % 10) ∷ (s ++ out))) (last_dropped n c low high)
    ∙ ap (λ k. decimal_from fuel n (k ∷ (s ++ out))) (last_digit n c low high)

amount_cons :
    (c : ℕ) (s : Text)
    → is_amount (c ∷ s) ≡ true
    → (b'1' ≤ c) × (c ≤ b'9') × (all_decimal_digits s ≡ true) × (length s ≤ max_amount_digits - 1)
unfolding is_amount
amount_cons c s h = ground (arith, h)

one_digit :
    (fuel c : ℕ) (s : Text)
    → b'1' ≤ c
    → c ≤ b'9'
    → decimal_from (suc fuel) (0 * 10 + (c - b'0')) s ≡ c ∷ s
one_digit fuel c s low high =
    let m = 0 * 10 + (c - b'0') in
    decimal_from_pos fuel m s (omega arith)
    ∙ ap (λ k. decimal_from fuel k ((b'0' + m % 10) ∷ s)) (omega arith)
    ∙ decimal_from_zero fuel ((b'0' + m % 10) ∷ s)
    ∙ ap (λ k. k ∷ s) (last_digit 0 c (omega arith) high)

-- Printing an amount that was read gives its text back.
pub decimal-value : (s : Text) → is_amount s ≡ true → decimal (value_from 0 s) ≡ s
unfolding decimal value_from
decimal-value [] h = unfold is_amount in cc
decimal-value (c ∷ s) h =
    let (low, high, rest, short) = amount_cons c s h in
    let m = 0 * 10 + (c - b'0') in
    let fuel = max_amount_digits - 1 - length s in
    ap (λ f. decimal_from f (value_from m s) []) (omega (arith, short))
    ∙ decimal-value_from (suc fuel) m s [] (omega arith) rest
    ∙ ap (decimal_from (suc fuel) m) (append-nil s)
    ∙ one_digit fuel c s low high

le-value_from : (n : ℕ) (s : Text) → n ≤ value_from n s
unfolding value_from
le-value_from n [] = omega arith
le-value_from n (c ∷ s) = omega (arith, le-value_from (n * 10 + (c - b'0')) s)

pub value-pos : (s : Text) → is_amount s ≡ true → 0 < value_from 0 s
unfolding value_from
value-pos [] h = unfold is_amount in cc
value-pos (c ∷ s) h = omega (arith, amount_cons c s h, le-value_from (0 * 10 + (c - b'0')) s)
