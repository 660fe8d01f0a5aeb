-- ===== src/Prelude/Text.antt =====
-- Python's `str` and `bytes` as lists of code points and of byte values, and equality of them.
use Prim.Native.Nat.{ℕ, ◌<◌}
use Prim.Native.Char.{code}
use Prim.Native.String.{String}
use mathlib.Core.Path.{◌≡◌, refl}
use mathlib.Core.Logic.{◌≢◌, ◌↔◌}
use mathlib.Core.Bool.{Bool, true, false, ◌&&◌, ◌||◌}
use mathlib.Core.List.{List, [], ◌∷◌}
use native.Mathlib.Omega.{arith}
use ai_cash.Prelude.Lists.{All}
use ai_cash.Prelude.Tests.{ltb, ◌==◌, if◌then◌else◌}

abbrev pub Text : Type 0
Text = List ℕ

abbrev pub Bytes : Type 0
Bytes = List ℕ

-- Each item is a byte.
abbrev pub IsBytes : Bytes → Type 0
IsBytes = All (λ b. b < 256)

abbrev pub codes : String → Text
codes String.[] = []
codes (String.◌∷◌ c s) = code c ∷ codes s

-- `s == t`, on texts and on bytes
unfoldable pub text_eq : Text → Text → Bool
text_eq [] [] = true
text_eq (x ∷ xs) (y ∷ ys) = x == y && text_eq xs ys
text_eq _ _ = false

text_eq_sound : (s t : Text) → text_eq s t ≡ true → s ≡ t
unfolding text_eq
text_eq_sound [] [] h = refl
text_eq_sound [] (y ∷ t) h = cc
text_eq_sound (x ∷ s) [] h = cc
text_eq_sound (x ∷ s) (y ∷ t) h = ground (arith, text_eq_sound s t)

pub text_eq_refl : (s : Text) → text_eq s s ≡ true
unfolding text_eq
text_eq_refl [] = refl
text_eq_refl (x ∷ s) = ground (arith, text_eq_refl s)

pub text_eq_iff : (s t : Text) → (text_eq s t ≡ true) ↔ (s ≡ t)
text_eq_iff s t = (text_eq_sound s t, λ e. rw e (text_eq_refl t))

-- `t in ts`, for a list or a set of texts
unfoldable pub text_mem : Text → List Text → Bool
text_mem t [] = false
text_mem t (s ∷ ts) = if text_eq t s then true else text_mem t ts

pub mem-cons : (t s : Text) (ts : List Text) → text_mem t ts ≡ true → text_mem t (s ∷ ts) ≡ true
unfolding text_mem
mem-cons t s ts h = ground arith

pub mem-cons_self : (t : Text) (ts : List Text) → text_mem t (t ∷ ts) ≡ true
unfolding text_mem
mem-cons_self t ts = ground (arith, text_eq_refl t)

-- A member and a non-member of one list differ.
pub mem_ne :
    (j k : Text) (ts : List Text)
    → text_mem k ts ≡ true
    → text_mem j ts ≡ false
    → text_eq k j ≡ false
unfolding text_mem
mem_ne j k [] hk hj = cc
mem_ne j k (s ∷ ts) hk hj =
    ground (arith, mem_ne j k ts, text_eq_iff k j, text_eq_iff k s, text_eq_iff j s)

pub not_mem_tail :
    (j k : Text) (ts : List Text) → text_mem j (k ∷ ts) ≡ false → text_mem j ts ≡ false
unfolding text_mem
not_mem_tail j k ts h = ground arith

pub ne_of_not_mem :
    (j k : Text) (ts : List Text) → text_mem j (k ∷ ts) ≡ false → text_eq j k ≡ false
unfolding text_mem
ne_of_not_mem j k ts h = ground arith

pub text_ne_symm : (s t : Text) → text_eq s t ≡ false → text_eq t s ≡ false
text_ne_symm s t h = ground (arith, text_eq_iff s t, text_eq_iff t s)

pub text_eq-ne : (s t : Text) → s ≢ t → text_eq s t ≡ false
text_eq-ne s t h = ground (arith, text_eq_iff s t)

-- The order of code points, that of `str` and of the database's text.
unfoldable pub text_ltb : Text → Text → Bool
text_ltb s [] = false
text_ltb [] (d ∷ t) = true
text_ltb (c ∷ s) (d ∷ t) = ltb c d || (c == d && text_ltb s t)
