-- ===== src/Channel/Delivery.antt =====
-- impl/aicash/channels.py: a draw that `ChannelPayer.draw` makes, delivered to the payee's `on_draw`.
use ai_cash.Prelude.{
  ℕ, suc, ◌+◌, ◌-◌, ◌≤◌, ◌<◌, ◌≡◌, refl, sym, ap, subst, ◌∙◌, true, false, ◌&&◌, Option, none, some,
  List, [], ◌∷◌, arith, length, map, All-get_elem?, leb, ltb, ==_iff, Bool-cases, inl, inr,
  none-some, if◌then◌else◌,
}
use ai_cash.Prelude.Int.{pos}
use ai_cash.Prelude.Text.{Bytes, IsBytes, text_eq, text_eq_refl, codes}
use ai_cash.Codec.Base64.{b64u_encode, b64u_decode}
use ai_cash.Codec.Base64.RoundTrip.{decode-encode}
use ai_cash.Codec.Key.{Hash}
use ai_cash.Codec.Value.{Value, Fields, get}
use ai_cash.Channel.{
  Tranche, lock_hash, derive_chain, witness_at, draw_tranche, draw_at, behind, normalize_witness,
  cumulative, Accepted, on_draw, drawn, DrawError,
}
use ai_cash.Channel.Honest.{AreLinks, draw_tranche-AreLinks}
use ai_cash.Channel.Payer.{PayerTranche, link_at, draw, draw_document}
use ai_cash.Channel.Pins.{
  located_iff, get_elem?-lt, IsWitness, draw_tranche-SamePins, derive_chain-IsWitness,
}

module _ ⦃hash : Hash⦄ where
  -- The two sides of a tranche: the payer has the chain of a seed, and the payee has pinned its
  -- hashes and holds links of it only.
  pub record Twin (p : PayerTranche) (t : Tranche) : Type 0 where
    pub seed : Bytes
    pub seed_bytes : IsBytes seed
    pub derived : derive_chain seed p.count ≡ some p.chain
    pub start_is : t.start ≡ p.start
    pub count_is : t.count ≡ p.count
    pub pinned : t.lock_hashes ≡ map lock_hash p.chain
    pub honest : AreLinks p.chain t

  abbrev pub Twins : List PayerTranche → List Tranche → Type 0
  Twins [] [] = Unit
  Twins (p ∷ ps) (t ∷ ts) = Twin p t × Twins ps ts
  Twins _ _ = ⊥

  -- The tranches take the increments from `from` up to `end` in their order.
  abbrev pub Consecutive : ℕ → List PayerTranche → ℕ → Type 0
  Consecutive from [] end = from ≡ end
  Consecutive from (p ∷ ps) end = (p.start ≡ from) × Consecutive (from + p.count) ps end

  -- The witness that the payee holds of an increment.
  abbrev pub held_at : List Tranche → ℕ → Option Bytes
  held_at [] k = none
  held_at (t ∷ ts) k =
      if leb t.start k && ltb k (t.start + t.count)
      then witness_at (k - t.start + 1) t.verified
      else held_at ts k

  record Delivered (ps : List PayerTranche) (ts : List Tranche) (k : ℕ) : Type 0 where
    link : Bytes
    found : link_at ps k ≡ some link
    is_witness : IsWitness link
    taken : (draw_at ts k link).0 ≡ none
    still : Twins ps (draw_at ts k link).1
    holds : held_at (draw_at ts k link).1 k ≡ some link

  located_lt :
      (start count k : ℕ)
      → (leb start k && ltb k (start + count)) ≡ true
      → (start ≤ k) × (k < start + count)
  located_lt start count k e = ground (arith, e)

  deliver_here :
      (p : PayerTranche) (ps : List PayerTranche) (t : Tranche) (ts : List Tranche) (k : ℕ)
      → Twin p t
      → Twins ps ts
      → (leb p.start k && ltb k (p.start + p.count)) ≡ true
      → Delivered (p ∷ ps) (t ∷ ts) k
  unfolding link_at draw_at
  deliver_here p ps t ts k w rest here =
      let (from, to) = located_lt p.start p.count k here in
      let (all, len) = derive_chain-IsWitness w.seed p.count p.chain w.seed_bytes w.derived in
      let (x, at) = get_elem?-lt p.chain (k - p.start) (omega (arith, from, to, len)) in
      let there : (leb t.start k && ltb k (t.start + t.count)) ≡ true =
        located_iff t p k w.start_is w.count_is ∙ here in
      let index : suc (k - p.start) ≡ k - t.start + 1 = omega (arith, w.start_is) in
      let accepted =
        draw_tranche-AreLinks w.seed p.count p.chain t (k - p.start) x w.derived w.pinned w.honest
          at in
      let (taken, honest, holds) =
        subst
          (λ j.
            ((draw_tranche t j x).0 ≡ none)
            × AreLinks p.chain (draw_tranche t j x).1
            × (witness_at j (draw_tranche t j x).1.verified ≡ some x))
          index accepted in
      let same = draw_tranche-SamePins t (k - t.start + 1) x in
      let t' = (draw_tranche t (k - t.start + 1) x).1 in
      let after : Twin p t' = record {
        seed = w.seed;
        seed_bytes = w.seed_bytes;
        derived = w.derived;
        start_is = same.start_is ∙ w.start_is;
        count_is = same.count_is ∙ w.count_is;
        pinned = same.locks_are ∙ w.pinned;
        honest = honest;
      } in
      record {
        link = x;
        found = rw (here, link_at) at;
        is_witness = All-get_elem? IsWitness p.chain (k - p.start) x all at;
        taken = rw (there, draw_at) taken;
        still = rw (there, draw_at) (after, rest);
        holds =
            rw
              (
                there,
                draw_at,
                located_iff t' p k after.start_is after.count_is ∙ here,
                same.start_is,
              )
              holds;
      }

  draw_at_later :
      (t : Tranche) (ts : List Tranche) (k : ℕ) (x : Bytes)
      → (leb t.start k && ltb k (t.start + t.count)) ≡ false
      → draw_at (t ∷ ts) k x ≡ behind t (draw_at ts k x)
  unfolding draw_at
  draw_at_later t ts k x there = rw (there, draw_at) refl

  held_at_later :
      (t : Tranche) (ts : List Tranche) (k : ℕ)
      → (leb t.start k && ltb k (t.start + t.count)) ≡ false
      → held_at (t ∷ ts) k ≡ held_at ts k
  held_at_later t ts k there = rw there refl

  deliver_later :
      (p : PayerTranche) (ps : List PayerTranche) (t : Tranche) (ts : List Tranche) (k : ℕ)
      → Twin p t
      → (leb p.start k && ltb k (p.start + p.count)) ≡ false
      → Delivered ps ts k
      → Delivered (p ∷ ps) (t ∷ ts) k
  unfolding link_at draw_at
  deliver_later p ps t ts k w here d =
      let there : (leb t.start k && ltb k (t.start + t.count)) ≡ false =
        located_iff t p k w.start_is w.count_is ∙ here in
      record {
        link = d.link;
        found = rw (here, link_at) d.found;
        is_witness = d.is_witness;
        taken = rw (there, draw_at) d.taken;
        still = rw (there, draw_at) (w, d.still);
        holds =
            ap (λ r. held_at r.1 k) (draw_at_later t ts k d.link there)
            ∙ held_at_later t (draw_at ts k d.link).1 k there
            ∙ d.holds;
      }

  deliver :
      (from end : ℕ) (ps : List PayerTranche) (ts : List Tranche) (k : ℕ)
      → Twins ps ts
      → Consecutive from ps end
      → from ≤ k
      → k < end
      → Delivered ps ts k
  deliver from end [] ts k w c a b = absurd (omega (arith, a, b, c))
  deliver from end (p ∷ ps) [] k w c a b = absurd w
  deliver from end (p ∷ ps) (t ∷ ts) k (w, ws) (at, c) a b =
      elim (Bool-cases (leb p.start k && ltb k (p.start + p.count))) [
        | inl e ↦ deliver_here p ps t ts k w ws e
        | inr e ↦
            let beyond : from + p.count ≤ k = ground (arith, e, at, a) in
            deliver_later p ps t ts k w e (deliver (from + p.count) end ps ts k ws c beyond b)
      ]

  drawn_of :
      (channel : Accepted) (k : ℕ) (x : Bytes)
      → (leb 1 k && leb k channel.increments) ≡ true
      → b64u_decode (b64u_encode x) (some 32) ≡ some x
      → on_draw channel channel.channel_id k (Value.str (b64u_encode x))
        ≡ drawn channel (draw_at channel.tranches k x)
  unfolding on_draw normalize_witness
  drawn_of channel k x inside read =
      rw (text_eq_refl channel.channel_id, inside, read, on_draw, normalize_witness) refl

  answered :
      (channel : Accepted) (r : Option DrawError × List Tranche)
      → r.0 ≡ none
      → (drawn channel r).0 ≡ inl (cumulative (drawn channel r).1.tranches)
  answered channel (none, ts) e = refl
  answered channel (some x, ts) e = absurd (none-some (sym e))

  -- A payer and a payee stand in step: the tranches of the one and of the other are made of the same
  -- chains and take the same increments, the payee holds links only. Then the payer draws every
  -- increment of the channel, and the payee accepts that message, whichever draws were missed or
  -- come again: it answers with the number of links that it holds, it holds the payer's link of that
  -- increment, and the two are in step again.
  pub on_draw-draw :
      (channel : Accepted) (payer : List PayerTranche) (k : ℕ)
      → Twins payer channel.tranches
      → Consecutive 1 payer (channel.increments + 1)
      → 1 ≤ k
      → k ≤ channel.increments
      → (doc : Fields) × (x_k : Value) × (draw channel.channel_id channel.increments payer k
          ≡ some doc)
        × (get (codes "channel_id") doc ≡ some (Value.str channel.channel_id))
        × (get (codes "k") doc ≡ some (Value.int (pos k)))
        × (get (codes "x_k") doc ≡ some x_k)
        × ((on_draw channel channel.channel_id k x_k).0
            ≡ inl (cumulative (on_draw channel channel.channel_id k x_k).1.tranches))
        × Twins payer (on_draw channel channel.channel_id k x_k).1.tranches
        × (held_at (on_draw channel channel.channel_id k x_k).1.tranches k ≡ link_at payer k)
  unfolding draw get text_eq
  on_draw-draw channel payer k w c from to =
      let d =
        deliver 1 (channel.increments + 1) payer channel.tranches k w c from (omega (arith, to)) in
      let inside : (leb 1 k && leb k channel.increments) ≡ true = ground (arith, from, to) in
      let read : b64u_decode (b64u_encode d.link) (some 32) ≡ some d.link =
        decode-encode d.link (some 32) d.is_witness.0
          ((==_iff (length d.link) 32).1 d.is_witness.1) in
      let drawn_is = drawn_of channel k d.link inside read in
      (
        draw_document channel.channel_id k d.link,
        Value.str (b64u_encode d.link),
        rw (inside, d.found, draw) refl,
        refl,
        refl,
        refl,
        ap (λ r. r.0) drawn_is
            ∙ answered channel (draw_at channel.tranches k d.link) d.taken
            ∙ sym (ap (λ r. inl (cumulative r.1.tranches)) drawn_is),
        subst (λ r. Twins payer r.1.tranches) (sym drawn_is) d.still,
        ap (λ r. held_at r.1.tranches k) drawn_is ∙ d.holds ∙ sym d.found,
      )
