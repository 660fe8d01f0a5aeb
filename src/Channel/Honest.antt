-- ===== src/Channel/Honest.antt =====
-- impl/aicash/channels.py: a payer who draws from the chain that its locks were made of.
use ai_cash.Prelude.{
  ℕ, zero, suc, ◌-◌, ◌≡◌, refl, sym, ap, subst, ◌∙◌, true, none, some, List, [], ◌∷◌, arith,
  get_elem?, map, All, All-append, ◌==◌, ==_iff, Bool-cases, Option-cases, inl, inr, some_eq,
}
use ai_cash.Prelude.Text.{Bytes, text_eq, text_eq_refl}
use ai_cash.Codec.Key.{Hash}
use ai_cash.Channel.{
  Tranche, WalkEnd, joined, chain_step, lock_hash, grow_chain, derive_chain, witness_at, opens,
  walk_down, keep, redelivered, draw_tranche,
}

module _ ⦃hash : Hash⦄ where
  -- Each link is one step from the next.
  abbrev IsLinked : List Bytes → Type 0
  IsLinked [] = Unit
  IsLinked (x ∷ []) = Unit
  IsLinked (x ∷ y ∷ chain) = (x ≡ chain_step y) × IsLinked (y ∷ chain)

  grow_chain-IsLinked :
      (n : ℕ) (x : Bytes) (chain : List Bytes)
      → IsLinked (x ∷ chain)
      → IsLinked (grow_chain n x (x ∷ chain))
  unfolding grow_chain
  grow_chain-IsLinked zero x chain l = l
  grow_chain-IsLinked (suc n) x chain l = grow_chain-IsLinked n (chain_step x) (x ∷ chain) (refl, l)

  derive_chain-IsLinked :
      (x_n : Bytes) (n : ℕ) (chain : List Bytes) → derive_chain x_n n ≡ some chain → IsLinked chain
  unfolding derive_chain
  derive_chain-IsLinked x n chain h =
      let p : grow_chain (n - 1) x (x ∷ []) ≡ chain = ground arith in
      subst IsLinked p (grow_chain-IsLinked (n - 1) x [] tt)

  link_before :
      (chain : List Bytes) (i : ℕ) (x : Bytes)
      → IsLinked chain
      → get_elem? chain (suc i) ≡ some x
      → get_elem? chain i ≡ some (chain_step x)
  link_before [] i x l h = cc
  link_before (y ∷ []) i x l h = cc
  link_before (y ∷ z ∷ chain) zero x (e, l) h = ap some (e ∙ ap chain_step (some_eq h))
  link_before (y ∷ z ∷ chain) (suc i) x (e, l) h = link_before (z ∷ chain) i x l h

  -- The witness is the chain's link of its index.
  abbrev IsLink : List Bytes → ℕ × Bytes → Type 0
  IsLink chain (i, w) = (j : ℕ) × (i ≡ suc j) × (get_elem? chain j ≡ some w)

  -- Every verified witness is.
  abbrev pub AreLinks : List Bytes → Tranche → Type 0
  AreLinks chain t = All (IsLink chain) t.verified

  opens_own :
      (chain : List Bytes) (i : ℕ) (x : Bytes)
      → get_elem? chain i ≡ some x
      → opens x (get_elem? (map lock_hash chain) i) ≡ some true
  unfolding opens
  opens_own [] i x h = cc
  opens_own (y ∷ chain) zero x h =
      ap some
        (ap (λ w. text_eq (lock_hash x) (lock_hash w)) (some_eq h) ∙ text_eq_refl (lock_hash x))
  opens_own (y ∷ chain) (suc i) x h = opens_own chain i x h

  walk_down_own :
      (chain : List Bytes) (known : List (ℕ × Bytes)) (i : ℕ) (x : Bytes)
      → IsLinked chain
      → get_elem? chain i ≡ some x
      → ((walk_down (map lock_hash chain) known (suc i) x).1 ≡ joined)
        × All (IsLink chain) (walk_down (map lock_hash chain) known (suc i) x).0
  unfolding walk_down
  walk_down_own chain known zero x l h = elim (Option-cases (witness_at 1 known)) [
    | inr (w, e) ↦ rw (e, walk_down) (refl, tt)
    | inl e ↦ rw (e, opens_own chain 0 x h, walk_down) (refl, ((0, refl, h), tt))
  ]
  walk_down_own chain known (suc i) x l h = elim (Option-cases (witness_at (suc (suc i)) known)) [
    | inr (w, e) ↦ rw (e, walk_down) (refl, tt)
    | inl e ↦
        let (stop, links) =
          walk_down_own chain known i (chain_step x) l (link_before chain i x l h) in
        rw (e, opens_own chain (suc i) x h, walk_down) (stop, ((suc i, refl, h), links))
  ]

  known-IsLink :
      (chain : List Bytes) (v : List (ℕ × Bytes)) (i : ℕ) (w : Bytes)
      → All (IsLink chain) v
      → witness_at (suc i) v ≡ some w
      → get_elem? chain i ≡ some w
  unfolding witness_at
  known-IsLink chain [] i w a h = cc
  known-IsLink chain ((j, u) ∷ v) i w ((k, e, g), a) h = elim (Bool-cases (suc i == j)) [
    | inl z ↦
        let at : i ≡ k = omega (arith, (==_iff (suc i) j).0 z, e) in
        ap (get_elem? chain) at ∙ g ∙ rw (z, witness_at) at h
    | inr z ↦ known-IsLink chain v i w a (rw (z, witness_at) at h)
  ]

  -- What is verified after the draw, by how it ended and what its first link is.
  keep_joined :
      (chain : List Bytes) (t : Tranche) (i : ℕ) (x : Bytes) (walked rest : List (ℕ × Bytes))
      (stop : WalkEnd)
      → stop ≡ joined
      → walked ≡ (suc i, x) ∷ rest
      → All (IsLink chain) walked
      → AreLinks chain t
      → ((keep t (walked, stop)).0 ≡ none)
        × AreLinks chain (keep t (walked, stop)).1
        × (witness_at (suc i) (keep t (walked, stop)).1.verified ≡ some x)
  unfolding witness_at
  keep_joined chain t i x walked rest stop s w a b = rw s (
    refl,
    All-append (IsLink chain) walked t.verified a b,
    rw (w, witness_at, (==_iff (suc i) (suc i)).1 refl) refl,
  )

  walk_down_first :
      (chain : List Bytes) (known : List (ℕ × Bytes)) (i : ℕ) (x : Bytes)
      → get_elem? chain i ≡ some x
      → witness_at (suc i) known ≡ none
      → (rest : List (ℕ × Bytes)) × ((walk_down (map lock_hash chain) known (suc i) x).0
          ≡ (suc i, x) ∷ rest)
  unfolding walk_down
  walk_down_first chain known i x h e = (
    (walk_down (map lock_hash chain) known i (chain_step x)).0,
    rw (e, opens_own chain i x h, walk_down) refl,
  )

  redelivered_same :
      (chain : List Bytes) (t : Tranche) (i : ℕ) (x w : Bytes)
      → x ≡ w
      → AreLinks chain t
      → witness_at (suc i) t.verified ≡ some w
      → ((redelivered t x w).0 ≡ none)
        × AreLinks chain (redelivered t x w).1
        × (witness_at (suc i) (redelivered t x w).1.verified ≡ some x)
  redelivered_same chain t i x w same a e =
      let eq : text_eq x w ≡ true = ap (text_eq x) (sym same) ∙ text_eq_refl x in
      rw eq (refl, a, e ∙ ap some (sym same))

  -- A tranche pinned the hashes of a derived chain, and holds links of it only. Then the link of any
  -- index is accepted as the draw of that index, whichever draws were missed or come again; it is held
  -- afterwards, and so are links of the chain only.
  pub draw_tranche-AreLinks :
      (x_n : Bytes) (n : ℕ) (chain : List Bytes) (t : Tranche) (i : ℕ) (x : Bytes)
      → derive_chain x_n n ≡ some chain
      → t.lock_hashes ≡ map lock_hash chain
      → AreLinks chain t
      → get_elem? chain i ≡ some x
      → ((draw_tranche t (suc i) x).0 ≡ none)
        × AreLinks chain (draw_tranche t (suc i) x).1
        × (witness_at (suc i) (draw_tranche t (suc i) x).1.verified ≡ some x)
  unfolding draw_tranche
  draw_tranche-AreLinks x_n n chain t i x d pinned a h =
      elim (Option-cases (witness_at (suc i) t.verified)) [
        | inr (w, e) ↦
            let same : x ≡ w = some_eq (sym h ∙ known-IsLink chain t.verified i w a e) in
            rw (e, draw_tranche) (redelivered_same chain t i x w same a e)
        | inl e ↦
            let (stop, links) =
              walk_down_own chain t.verified i x (derive_chain-IsLinked x_n n chain d) h in
            let (rest, first) = walk_down_first chain t.verified i x h e in
            let walk = walk_down t.lock_hashes t.verified (suc i) x in
            rw (e, draw_tranche)
              (keep_joined chain t i x walk.0 rest walk.1
                (subst (λ ls. (walk_down ls t.verified (suc i) x).1 ≡ joined) (sym pinned) stop)
                (subst (λ ls. (walk_down ls t.verified (suc i) x).0 ≡ (suc i, x) ∷ rest)
                  (sym pinned) first)
                (subst (λ ls. All (IsLink chain) (walk_down ls t.verified (suc i) x).0) (sym pinned)
                  links)
                a)
      ]
