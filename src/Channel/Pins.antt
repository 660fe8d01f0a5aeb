-- ===== src/Channel/Pins.antt =====
-- impl/aicash/channels.py: what a draw leaves of a tranche, and the links of a derived chain.
use ai_cash.Prelude.{
  ℕ, zero, suc, ◌+◌, ◌-◌, ◌<◌, ◌≡◌, refl, subst, ◌&&◌, some, List, [], ◌∷◌, arith, length,
  get_elem?, All, leb, ltb, ◌==◌, Bool-cases, Option-cases, inl, inr, some_eq, none-some,
}
use ai_cash.Prelude.Text.{Bytes, IsBytes, text_eq}
use ai_cash.Codec.Key.{Hash}
use ai_cash.Channel.{
  Tranche, WalkEnd, joined, mismatched, out_of_range, chain_step, grow_chain, derive_chain,
  witness_at, walk_down, keep, redelivered, draw_tranche,
}
use ai_cash.Channel.Payer.{PayerTranche}

-- What a draw leaves of a tranche but its witnesses.
pub record SamePins (t t' : Tranche) : Type 0 where
  pub start_is : t'.start ≡ t.start
  pub count_is : t'.count ≡ t.count
  pub locks_are : t'.lock_hashes ≡ t.lock_hashes

pub keep-SamePins :
    (t : Tranche) (walked : List (ℕ × Bytes)) (stop : WalkEnd)
    → SamePins t (keep t (walked, stop)).1
keep-SamePins t walked joined = record { start_is = refl; count_is = refl; locks_are = refl }
keep-SamePins t walked mismatched = record { start_is = refl; count_is = refl; locks_are = refl }
keep-SamePins t walked out_of_range = record { start_is = refl; count_is = refl; locks_are = refl }

redelivered-SamePins : (t : Tranche) (x w : Bytes) → SamePins t (redelivered t x w).1
redelivered-SamePins t x w = elim (Bool-cases (text_eq x w)) [
  | inl e ↦ rw e (record { start_is = refl; count_is = refl; locks_are = refl })
  | inr e ↦ rw e (record { start_is = refl; count_is = refl; locks_are = refl })
]

pub located_iff :
    (t : Tranche) (p : PayerTranche) (k : ℕ)
    → t.start ≡ p.start
    → t.count ≡ p.count
    → (leb t.start k && ltb k (t.start + t.count)) ≡ (leb p.start k && ltb k (p.start + p.count))
located_iff t p k e f = rw (e, f) refl

pub get_elem?-lt :
    {A : Type 0} (xs : List A) (i : ℕ) → i < length xs → (x : A) × (get_elem? xs i ≡ some x)
get_elem?-lt [] i h = absurd (omega (arith, h))
get_elem?-lt (x ∷ xs) zero h = (x, refl)
get_elem?-lt (x ∷ xs) (suc i) h = get_elem?-lt xs i (omega (arith, h))

abbrev pub IsWitness : Bytes → Type 0
IsWitness x = IsBytes x × (length x ≡ 32)

module _ ⦃hash : Hash⦄ where
  pub draw_tranche-SamePins : (t : Tranche) (j : ℕ) (x : Bytes) → SamePins t (draw_tranche t j x).1
  unfolding draw_tranche
  draw_tranche-SamePins t j x = elim (Option-cases (witness_at j t.verified)) [
    | inr (w, e) ↦ rw (e, draw_tranche) (redelivered-SamePins t x w)
    | inl e ↦
        let walk = walk_down t.lock_hashes t.verified j x in
        rw (e, draw_tranche) (keep-SamePins t walk.0 walk.1)
  ]

  chain_step-IsWitness : (x : Bytes) → IsWitness (chain_step x)
  unfolding chain_step
  chain_step-IsWitness x = (hash.sha256-IsBytes _, hash.length-sha256 _)

  grow_chain-IsWitness :
      (n : ℕ) (x : Bytes) (chain : List Bytes)
      → All IsWitness chain
      → All IsWitness (grow_chain n x chain) × (length (grow_chain n x chain) ≡ n + length chain)
  unfolding grow_chain
  grow_chain-IsWitness zero x chain a = (a, omega arith)
  grow_chain-IsWitness (suc n) x chain a =
      let (all, len) =
        grow_chain-IsWitness n (chain_step x) (chain_step x ∷ chain) (chain_step-IsWitness x, a) in
      (all, omega (arith, len))

  pub derive_chain-IsWitness :
      (x_n : Bytes) (n : ℕ) (chain : List Bytes)
      → IsBytes x_n
      → derive_chain x_n n ≡ some chain
      → All IsWitness chain × (length chain ≡ n)
  unfolding derive_chain
  derive_chain-IsWitness x n chain b h = elim (Bool-cases (length x == 32 && ltb 0 n)) [
    | inr e ↦ absurd (none-some (rw (e, derive_chain) at h))
    | inl e ↦
        let same : grow_chain (n - 1) x (x ∷ []) ≡ chain = some_eq (rw (e, derive_chain) at h) in
        let long : (length x ≡ 32) × (0 < n) = ground (arith, e) in
        let (all, len) = grow_chain-IsWitness (n - 1) x (x ∷ []) ((b, long.0), tt) in
        subst (λ c. All IsWitness c × (length c ≡ n)) same (all, omega (arith, len, long.1))
  ]
