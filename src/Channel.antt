-- ===== src/Channel.antt =====
-- impl/aicash/channels.py: the hash chain of a payment channel, its split into tranches, the least
-- gross amount, and a payee's check of a draw.
pub mod Payment
pub mod Draws
pub mod Descriptor
pub mod Payer
pub mod Chunks
pub mod Honest
pub mod Pins
pub mod Delivery
use ai_cash.Prelude.{
  inr, inl, ◌⊎◌, ℕ, zero, suc, ◌+◌, ◌-◌, min, Bool, true, false, ◌&&◌, Option, none, some, List, [],
  ◌∷◌, ◌++◌, length, get_elem?, map, is_some, ltb, leb, ◌==◌, if◌then◌else◌,
}
use ai_cash.Prelude.Int.{ℤ, pos, pos_part}
use ai_cash.Prelude.Text.{Text, Bytes, codes, text_eq}
use ai_cash.Burn
use ai_cash.Burn.{BurnPolicy, compute_burn}
use ai_cash.Codec.Base64.{b64u_encode, b64u_decode}
use ai_cash.Codec.Key.{Hash}
use ai_cash.Codec.Value
use ai_cash.Codec.Value.{Value}

abbrev pub chain_tag : Bytes
chain_tag = codes "aicash-chain"

module _ ⦃hash : Hash⦄ where
  unfoldable pub chain_step : Bytes → Bytes
  chain_step x = hash.sha256 (chain_tag ++ x)

  unfoldable pub lock_hash : Bytes → Text
  lock_hash x = b64u_encode (hash.sha256 x)

  -- The loop; the source appends and reverses at the end, so the newest link is in front here.
  unfoldable pub grow_chain : ℕ → Bytes → List Bytes → List Bytes
  grow_chain zero x chain = chain
  grow_chain (suc n) x chain = grow_chain n (chain_step x) (chain_step x ∷ chain)

  -- `none` is `ValueError`.
  unfoldable pub derive_chain : Bytes → ℕ → Option (List Bytes)
  derive_chain x_n n =
      if length x_n == 32 && ltb 0 n then some (grow_chain (n - 1) x_n (x_n ∷ [])) else none

-- The loop; the fuel is the number of increments, since each round takes one at least.
unfoldable pub split_loop : ℕ → ℕ → ℕ → List ℕ
split_loop zero remaining capacity = []
split_loop (suc fuel) remaining capacity =
    let rest = split_loop fuel (remaining - min capacity remaining) capacity in
    if ltb 0 remaining then min capacity remaining ∷ rest else []

-- `none` is `ValueError`.
unfoldable pub split_tranches : ℕ → ℕ → Option (List ℕ)
split_tranches n capacity =
    if ltb 0 n && ltb 0 capacity then some (split_loop n n capacity) else none

-- `_gross_for_net`: the loop, on fuel; the outer `none` is fuel that ran out.
unfoldable pub gross_loop : ℕ → ℕ → ℕ → BurnPolicy → Option (Burn.Checked ℕ)
gross_loop zero g net policy = none
gross_loop (suc fuel) g net policy = elim (compute_burn (pos g) policy) [
  | Burn.raised e ↦ some (Burn.raised e)
  | Burn.ok burn ↦
      let rest = gross_loop fuel (net + burn) net policy in
      if net + burn == g then some (Burn.ok g) else rest
]

-- `_gross_for_net`. The amount grows in every round but the last, and never past the net by more than
-- the cap, so this fuel is enough.
unfoldable pub gross_for_net : ℕ → BurnPolicy → Option (Burn.Checked ℕ)
gross_for_net net policy = gross_loop (pos_part policy.cap_mc + 2) net net policy

-- The payee's record of a tranche; `verified` is the dict from the local index to the witness.
pub record Tranche : Type 0 where
  pub start : ℕ
  pub count : ℕ
  pub lock_hashes : List Text
  pub verified : List (ℕ × Bytes)

pub data DrawError : Type 0 where
  channel_error draw_invalid index_error : DrawError

unfoldable pub witness_at : ℕ → List (ℕ × Bytes) → Option Bytes
witness_at i [] = none
witness_at i ((j, w) ∷ v) = if i == j then some w else witness_at i v

-- How the walk ended: at a witness that is known or below the first, at a mismatch, out of the list.
pub data WalkEnd : Type 0 where
  joined mismatched out_of_range : WalkEnd

module _ ⦃hash : Hash⦄ where
  -- Whether a witness opens a pinned lock hash; `none` is `IndexError`.
  unfoldable pub opens : Bytes → Option Text → Option Bool
  opens x none = none
  opens x (some h) = some (text_eq (lock_hash x) h)

  -- From local index `i` down, with what was verified before.
  unfoldable pub walk_down : List Text → List (ℕ × Bytes) → ℕ → Bytes → List (ℕ × Bytes) × WalkEnd
  walk_down locks known zero x = ([], joined)
  walk_down locks known (suc i) x =
      let (walked, stop) = walk_down locks known i (chain_step x) in
      elim (witness_at (suc i) known) [
        | some _ ↦ ([], joined)
        | none ↦ elim (opens x (get_elem? locks i)) [
          | none ↦ ([], out_of_range)
          | some false ↦ ([], mismatched)
          | some true ↦ ((suc i, x) ∷ walked, stop)
        ]
      ]

-- The outcome of a draw in its tranche: the error, if one is raised, and the tranche after it.
abbrev pub keep : Tranche → List (ℕ × Bytes) × WalkEnd → Option DrawError × Tranche
keep t (walked, joined) = (none, record t { verified = walked ++ t.verified })
keep t (walked, mismatched) = (some draw_invalid, record t { verified = walked ++ t.verified })
keep t (walked, out_of_range) = (some index_error, t)

abbrev pub redelivered : Tranche → Bytes → Bytes → Option DrawError × Tranche
redelivered t x w = if text_eq x w then (none, t) else (some draw_invalid, t)

module _ ⦃hash : Hash⦄ where
  unfoldable pub draw_tranche : Tranche → ℕ → Bytes → Option DrawError × Tranche
  draw_tranche t j x = elim (witness_at j t.verified) [
    | some w ↦ redelivered t x w
    | none ↦ keep t (walk_down t.lock_hashes t.verified j x)
  ]

  abbrev pub at_front : List Tranche → Option DrawError × Tranche → Option DrawError × List Tranche
  at_front ts (e, t) = (e, t ∷ ts)

  abbrev pub behind : Tranche → Option DrawError × List Tranche → Option DrawError × List Tranche
  behind t (e, ts) = (e, t ∷ ts)

  -- `_locate`, and the draw in the tranche that it finds.
  unfoldable pub draw_at : List Tranche → ℕ → Bytes → Option DrawError × List Tranche
  draw_at [] k x = (some channel_error, [])
  draw_at (t ∷ ts) k x =
      let rest = draw_at ts k x in
      if leb t.start k && ltb k (t.start + t.count)
      then at_front ts (draw_tranche t (k - t.start + 1) x)
      else behind t rest

-- `_normalize_witness`: raw bytes, or base64url; `none` is `DrawInvalid`.
unfoldable pub normalize_witness : Value → Option Bytes
normalize_witness (Value.bytes b) = if length b == 32 then some b else none
normalize_witness (Value.str s) = b64u_decode s (some 32)
normalize_witness _ = none

-- `_cumulative`
unfoldable pub cumulative : List Tranche → ℕ
cumulative [] = 0
cumulative (t ∷ ts) = length t.verified + cumulative ts

-- What the payee pinned when it accepted the channel.
pub record Accepted : Type 0 where
  pub channel_id : Text
  pub increments : ℕ
  pub tranches : List Tranche

abbrev pub answer : Option DrawError → List Tranche → ℕ ⊎ DrawError
answer none ts = inl (cumulative ts)
answer (some e) ts = inr e

module _ ⦃hash : Hash⦄ where
  abbrev pub draw_witness : Accepted → ℕ → Option Bytes → Option DrawError × List Tranche
  draw_witness channel k none = (some draw_invalid, channel.tranches)
  draw_witness channel k (some x) = draw_at channel.tranches k x

  abbrev pub drawn : Accepted → Option DrawError × List Tranche → (ℕ ⊎ DrawError) × Accepted
  drawn channel (e, ts) = (answer e ts, record channel { tranches = ts })

  -- `on_draw` of an accepted channel, with the three fields of the draw and a plain int index.
  unfoldable pub on_draw : Accepted → Text → ℕ → Value → (ℕ ⊎ DrawError) × Accepted
  on_draw channel channel_id k x_k =
      if text_eq channel_id channel.channel_id
      then (if leb 1 k && leb k channel.increments
          then drawn channel (draw_witness channel k (normalize_witness x_k))
          else (inr draw_invalid, channel))
      else (inr channel_error, channel)
