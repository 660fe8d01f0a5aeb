-- ===== src/Channel/Draws.antt =====
-- impl/aicash/channels.py, `on_draw`: what the payee holds after a draw, accepted or refused.
use ai_cash.Prelude.{
  ℕ, zero, suc, ◌+◌, ◌-◌, ◌≤◌, ◌≡◌, refl, true, false, Option, none, some, List, [], ◌∷◌, arith,
  length, get_elem?, length-append, All, All-append, leb, ltb, ◌&&◌, Bool-cases, Option-cases, inl,
  inr,
}
use ai_cash.Prelude.Text.{Text, Bytes, text_eq}
use ai_cash.Codec.Key.{Hash}
use ai_cash.Codec.Value.{Value}
use ai_cash.Channel.{
  chain_step, Tranche, WalkEnd, joined, mismatched, out_of_range, witness_at, opens, walk_down,
  keep, draw_tranche, draw_at, normalize_witness, cumulative, Accepted, draw_witness, on_draw,
}

module _ ⦃hash : Hash⦄ where
  -- The witness opens the lock hash that was pinned at its index.
  abbrev OpensAt : List Text → ℕ × Bytes → Type 0
  OpensAt locks (i, w) = (j : ℕ) × (i ≡ suc j) × (opens w (get_elem? locks j) ≡ some true)

  -- Every verified witness of the tranche does.
  abbrev pub AreOpened : Tranche → Type 0
  AreOpened t = All (OpensAt t.lock_hashes) t.verified

  walk_down-OpensAt :
      (locks : List Text) (known : List (ℕ × Bytes)) (i : ℕ) (x : Bytes)
      → All (OpensAt locks) (walk_down locks known i x).0
  unfolding walk_down
  walk_down-OpensAt locks known zero x = tt
  walk_down-OpensAt locks known (suc i) x = elim (Option-cases (witness_at (suc i) known)) [
    | inr (w, e) ↦ rw (e, walk_down) tt
    | inl e ↦ elim (Option-cases (opens x (get_elem? locks i))) [
      | inl n ↦ rw (e, n, walk_down) tt
      | inr (false, n) ↦ rw (e, n, walk_down) tt
      | inr (true, n) ↦
          rw (e, n, walk_down) ((i, refl, n), walk_down-OpensAt locks known i (chain_step x))
    ]
  ]

  keep_lem :
      (t : Tranche) (walked : List (ℕ × Bytes)) (stop : WalkEnd)
      → AreOpened t
      → All (OpensAt t.lock_hashes) walked
      → AreOpened (keep t (walked, stop)).1
        × (length t.verified ≤ length (keep t (walked, stop)).1.verified)
  keep_lem t walked joined o w = (
    All-append (OpensAt t.lock_hashes) walked t.verified w o,
    omega (arith, length-append walked t.verified),
  )
  keep_lem t walked mismatched o w = (
    All-append (OpensAt t.lock_hashes) walked t.verified w o,
    omega (arith, length-append walked t.verified),
  )
  keep_lem t walked out_of_range o w = (o, omega arith)

  draw_tranche-AreOpened :
      (t : Tranche) (j : ℕ) (x : Bytes)
      → AreOpened t
      → AreOpened (draw_tranche t j x).1
        × (length t.verified ≤ length (draw_tranche t j x).1.verified)
  unfolding draw_tranche
  draw_tranche-AreOpened t j x o = elim (Option-cases (witness_at j t.verified)) [
    | inr (w, e) ↦ elim (Bool-cases (text_eq x w)) [
      | inl m ↦ rw (e, m, draw_tranche) (o, omega arith)
      | inr m ↦ rw (e, m, draw_tranche) (o, omega arith)
    ]
    | inl e ↦
        let walk = walk_down t.lock_hashes t.verified j x in
        rw (e, draw_tranche)
          (keep_lem t walk.0 walk.1 o (walk_down-OpensAt t.lock_hashes t.verified j x))
  ]

  draw_at-AreOpened :
      (ts : List Tranche) (k : ℕ) (x : Bytes)
      → All AreOpened ts
      → All AreOpened (draw_at ts k x).1 × (cumulative ts ≤ cumulative (draw_at ts k x).1)
  unfolding draw_at cumulative
  draw_at-AreOpened [] k x o = (tt, omega arith)
  draw_at-AreOpened (t ∷ ts) k x (o, os) =
      elim (Bool-cases (leb t.start k && ltb k (t.start + t.count))) [
        | inl e ↦
            let (a, l) = draw_tranche-AreOpened t (k - t.start + 1) x o in
            rw e ((a, os), omega (arith, l))
        | inr e ↦ let (a, l) = draw_at-AreOpened ts k x os in rw e ((o, a), omega (arith, l))
      ]

  draw_witness-AreOpened :
      (channel : Accepted) (k : ℕ) (x : Option Bytes)
      → All AreOpened channel.tranches
      → All AreOpened (draw_witness channel k x).1
        × (cumulative channel.tranches ≤ cumulative (draw_witness channel k x).1)
  draw_witness-AreOpened channel k none o = (o, omega arith)
  draw_witness-AreOpened channel k (some x) o = draw_at-AreOpened channel.tranches k x o

  -- Whatever a draw holds and however it ends, every witness that counts as verified opens the lock
  -- hash pinned at its index, and none that was verified is lost from the count.
  pub on_draw-AreOpened :
      (channel : Accepted) (channel_id : Text) (k : ℕ) (x_k : Value)
      → All AreOpened channel.tranches
      → All AreOpened (on_draw channel channel_id k x_k).1.tranches
        × (cumulative channel.tranches ≤ cumulative (on_draw channel channel_id k x_k).1.tranches)
  unfolding on_draw
  on_draw-AreOpened channel channel_id k x_k o =
      elim (Bool-cases (text_eq channel_id channel.channel_id)) [
        | inr e ↦ rw e (o, omega arith)
        | inl e ↦ elim (Bool-cases (leb 1 k && leb k channel.increments)) [
          | inr b ↦ rw (e, b) (o, omega arith)
          | inl b ↦ rw (e, b) (draw_witness-AreOpened channel k (normalize_witness x_k) o)
        ]
      ]
