-- ===== src/Tests/Payments.antt =====
-- Theorems about channels, escrow deadlines, swaps and coins, at concrete inputs.
use ai_cash.Wallet.Selection.{
  sort_denoms, insert_denom, Coin, selected, select, greedy, round, pop_coin, first_fit, sweep,
  count_of, take_of, sum_coins,
}
use ai_cash.Wallet.Selection.Covering.{Pays, select-Pays}
use ai_cash.Burn.Bounds.{IsValidPolicy}
use ai_cash.Channel.Payer.{link_at, draw, PayerTranche}
use ai_cash.Channel.Delivery.{Twins, held_at, on_draw-draw}
use ai_cash.Channel.Descriptor.{
  policy_from_descriptor_lem, PublishesPolicy, PublishesNotice, announces, policy_at,
  policy_from_descriptor,
}
use ai_cash.Channel.Honest.{draw_tranche-AreLinks, AreLinks}
use ai_cash.Prelude.{
  inl, replicate, map, ℕ, ◌+◌, ◌≤◌, ◌≡◌, ◌≢◌, refl, arith, none, some, List, [], ◌∷◌, All, sum,
}
use ai_cash.Prelude.Int.{pos, ◌≤ℤ◌, ◌+ℤ◌}
use ai_cash.Prelude.Text.{Bytes, codes, text_eq}
use ai_cash.Burn
use ai_cash.Burn.{BurnPolicy, effective_policy, compute_burn, validate_policy}
use ai_cash.Codec.Base64.{b64u_encode}
use ai_cash.Codec.Value.{Value, Fields}
use ai_cash.Channel.{
  witness_at, grow_chain, draw_tranche, derive_chain, Tranche, Accepted, on_draw, cumulative,
  gross_loop, gross_for_net, lock_hash, opens, chain_step,
}
use ai_cash.Channel.Draws.{AreOpened, on_draw-AreOpened}
use ai_cash.Channel.Payment.{gross_for_net_total, gross_for_net_least}
use ai_cash.Escrow
use ai_cash.Escrow.{
  require_ms, compute_deadlines, rung_composition, insert_rung, sorted_rungs, any_zero,
  divide_rungs, break_rungs, coins_of,
}
use ai_cash.Escrow.Deadlines.{no_early_refund}
use ai_cash.Escrow.Rungs.{rung_composition_total}
use ai_cash.Lock.{accepted, evaluate, as_int, refund, InputForm, Lock}
use ai_cash.Swap.{quoted, descriptor_field, natural, descriptor_int, latency_ms, compute_margin}
use ai_cash.Swap.Margin.{Covers, compute_margin-Covers}
use ai_cash.Tests.Sample.{
  sum_hash, secret_one, secret_two, policy, lower_policy, policy-IsValidPolicy, lower-IsValidPolicy,
}
use ai_cash.Codec.Value.{get}

deadline_1150 : compute_deadlines (pos 500) (pos 1000) (pos 100) (pos 50) ≡ Escrow.ok (pos 1150)
unfolding compute_deadlines require_ms ◌+ℤ◌
deadline_1150 = refl

abbrev milestone_lock : Lock
milestone_lock = record {
  preimage_hash = lock_hash secret_one;
  expiry = pos 1150;
  refund_hash = lock_hash secret_two;
}

abbrev refund_form : InputForm
refund_form = record {
  kind = refund;
  token = none;
  hash = some (lock_hash secret_one);
  witness = some secret_two;
}

at_1100 : pos 1100 ≤ℤ pos 1000 +ℤ pos 100
unfolding ◌+ℤ◌
at_1100 = omega arith

no_early_refund_example : evaluate (some milestone_lock) refund_form 1100 ≢ accepted
no_early_refund_example =
    no_early_refund (pos 500) (pos 1000) (pos 100) (pos 50) (pos 1150) milestone_lock refund_form
      1100 deadline_1150 (omega arith) at_1100 refl

abbrev rungs_120 : List ℕ
rungs_120 =
    10 ∷ 10 ∷ 10 ∷ 10 ∷ 10 ∷ 10 ∷ 10 ∷ 10 ∷ 10 ∷ 10 ∷ 10 ∷ 1 ∷ 1 ∷ 1 ∷ 1 ∷ 1 ∷ 1 ∷ 1 ∷ 1 ∷ 1 ∷ 1
    ∷ []

composed_120 : rung_composition 120 (10 ∷ 100 ∷ 1 ∷ []) ≡ Escrow.ok rungs_120
unfolding rung_composition insert_rung sorted_rungs any_zero divide_rungs break_rungs coins_of
composed_120 = refl

rung_composition_total_example : sum rungs_120 ≡ 120
rung_composition_total_example =
    rung_composition_total 120 (10 ∷ 100 ∷ 1 ∷ []) rungs_120 composed_120

-- A mint's descriptor with its clock at `now`.
abbrev descriptor : ℕ → Value
descriptor now = Value.dict (
    Fields.field (codes "mint_time") (Value.int (pos now)) (
      Fields.field (codes "performance")
        (Value.dict (Fields.field (codes "p99_exchange_ms") (Value.int (pos 40)) Fields.end))
        (Fields.field (codes "lock_params")
          (Value.dict (
            Fields.field (codes "grace_ms") (Value.int (pos 2000))
              (Fields.field (codes "timestamp_precision_ms") (Value.int (pos 1)) Fields.end)))
          (Fields.field (codes "retention")
            (Value.dict
              (Fields.field (codes "recovery_window_ms") (Value.int (pos 60_000)) Fields.end))
            Fields.end))))

margin_5709 : compute_margin (descriptor 1000) (descriptor 1007) (pos 500) none ≡ quoted 5709
unfolding compute_margin descriptor_field natural descriptor_int latency_ms get text_eq as_int
margin_5709 = refl

compute_margin-Covers_example : Covers (descriptor 1000) (descriptor 1007) (pos 500) none 5709
compute_margin-Covers_example =
    compute_margin-Covers (descriptor 1000) (descriptor 1007) (pos 500) none 5709 margin_5709

gross_for_net_total_example :
    (r b : ℕ) × (gross_for_net 4995 policy ≡ some (Burn.ok r))
    × (compute_burn (pos r) policy ≡ Burn.ok b)
    × (r ≡ 4995 + b)
gross_for_net_total_example = gross_for_net_total 4995 policy policy-IsValidPolicy

-- 4,999 and 5,000 share a net amount where the burn steps up.
burn_4999 : compute_burn (pos 5000) policy ≡ Burn.ok 5
unfolding compute_burn validate_policy
burn_4999 = refl

gross_4995 : gross_for_net 4995 policy ≡ some (Burn.ok 4999)
unfolding gross_for_net gross_loop compute_burn validate_policy
gross_4995 = refl

gross_for_net_least_example : 4999 ≤ 5000
gross_for_net_least_example = gross_for_net_least 4995 4999 5000 5 policy gross_4995 burn_4999 refl

abbrev channel : Accepted
channel = record {
  channel_id = codes "ch-1";
  increments = 2;
  tranches =
      (record {
        start = 1;
        count = 2;
        lock_hashes = lock_hash (chain_step secret_one) ∷ lock_hash secret_one ∷ [];
        verified = (2, secret_one) ∷ [];
      })
      ∷ [];
}

channel_opened : All AreOpened channel.tranches
unfolding lock_hash opens b64u_encode text_eq
channel_opened = (((1, refl, refl), tt), tt)

on_draw-AreOpened_example :
    All AreOpened
      (on_draw channel (codes "ch-1") 1 (Value.bytes (chain_step secret_one))).1.tranches
    × (cumulative channel.tranches
        ≤ cumulative
            (on_draw channel (codes "ch-1") 1 (Value.bytes (chain_step secret_one))).1.tranches)
on_draw-AreOpened_example =
    on_draw-AreOpened channel (codes "ch-1") 1 (Value.bytes (chain_step secret_one)) channel_opened

-- The sum of one coin is exempt from the burn. The sweep of twenty coins more exceeds the exemption:
-- the burn of 10,020 is 100, and the change would be less than nothing.
abbrev exempt_policy : BurnPolicy
exempt_policy = record { rate_ppm = pos 10_000; cap_mc = pos 1000; exempt_below_mc = pos 10_000 }

exempt-IsValidPolicy : IsValidPolicy exempt_policy
exempt-IsValidPolicy = omega arith

abbrev coin : ℕ → Coin
coin n = record { key = codes "key"; secret_b64u = codes "secret"; amount_mc = n }

abbrev held_coins : List Coin
held_coins = coin 10_000 ∷ replicate 20 (coin 1)

swept_coins :
    select held_coins 10_000 exempt_policy (100 ∷ 10 ∷ 1 ∷ []) ≡ selected held_coins 10_020 []
unfolding select greedy round pop_coin first_fit sweep count_of take_of sum_coins compute_burn
    insert_denom sort_denoms validate_policy
swept_coins = refl

swept_burn : compute_burn (pos 10_020) exempt_policy ≡ Burn.ok 100
unfolding compute_burn validate_policy
swept_burn = refl

select-Pays_example :
    Pays
      (λ c. 1)
      exempt_policy
      10_000
      held_coins
      (select held_coins 10_000 exempt_policy (100 ∷ 10 ∷ 1 ∷ []))
select-Pays_example =
    select-Pays (λ c. 1) held_coins 10_000 exempt_policy (100 ∷ 10 ∷ 1 ∷ []) exempt-IsValidPolicy
      (omega arith, (omega arith, (omega arith, tt)))

abbrev links : List Bytes
links = chain_step secret_one ∷ secret_one ∷ []

derived_links : derive_chain secret_one 2 ≡ some links
unfolding derive_chain grow_chain
derived_links = refl

abbrev pinned_tranche : Tranche
pinned_tranche = record { start = 1; count = 2; lock_hashes = map lock_hash links; verified = [] }

draw_tranche-AreLinks_example :
    ((draw_tranche pinned_tranche 2 secret_one).0 ≡ none)
    × AreLinks links (draw_tranche pinned_tranche 2 secret_one).1
    × (witness_at 2 (draw_tranche pinned_tranche 2 secret_one).1.verified ≡ some secret_one)
draw_tranche-AreLinks_example =
    draw_tranche-AreLinks secret_one 2 links pinned_tranche 1 secret_one derived_links refl tt refl

abbrev payer_tranches : List PayerTranche
payer_tranches = record { start = 1; count = 2; chain = links } ∷ []

abbrev opened : Accepted
opened = record { channel_id = codes "ch-1"; increments = 2; tranches = pinned_tranche ∷ [] }

in_step : Twins payer_tranches opened.tranches
in_step = (
  record {
    seed = secret_one;
    seed_bytes = omega arith;
    derived = derived_links;
    start_is = refl;
    count_is = refl;
    pinned = refl;
    honest = tt;
  },
  tt,
)

on_draw-draw_example :
    (doc : Fields) × (x_k : Value) × (draw (codes "ch-1") 2 payer_tranches 2 ≡ some doc)
    × (get (codes "channel_id") doc ≡ some (Value.str (codes "ch-1")))
    × (get (codes "k") doc ≡ some (Value.int (pos 2)))
    × (get (codes "x_k") doc ≡ some x_k)
    × ((on_draw opened (codes "ch-1") 2 x_k).0
        ≡ inl (cumulative (on_draw opened (codes "ch-1") 2 x_k).1.tranches))
    × Twins payer_tranches (on_draw opened (codes "ch-1") 2 x_k).1.tranches
    × (held_at (on_draw opened (codes "ch-1") 2 x_k).1.tranches 2 ≡ link_at payer_tranches 2)
on_draw-draw_example =
    on_draw-draw opened payer_tranches 2 in_step (refl, refl) (omega arith) (omega arith)

abbrev policy_fields : BurnPolicy → Fields
policy_fields p = Fields.field (codes "exempt_below_mc") (Value.int p.exempt_below_mc) (
    Fields.field (codes "note") Value.null (
      Fields.field (codes "cap_mc") (Value.int p.cap_mc)
        (Fields.field (codes "rate_ppm") (Value.int p.rate_ppm) Fields.end)))

abbrev notice_fields : Fields
notice_fields =
    Fields.field (codes "effective_at") (Value.int (pos 100))
      (Fields.field (codes "policy") (Value.dict (policy_fields lower_policy)) Fields.end)

abbrev published_descriptor : Fields
published_descriptor = Fields.field (codes "mint_time") (Value.int (pos 100)) (
    Fields.field (codes "burn_policy_next") (Value.dict notice_fields)
      (Fields.field (codes "burn_policy") (Value.dict (policy_fields policy)) Fields.end))

current_published : PublishesPolicy (get (codes "burn_policy") published_descriptor) policy
unfolding get text_eq
current_published = record {
  fields = policy_fields policy;
  is_dict = refl;
  rate = refl;
  cap = refl;
  exempt = refl;
}

lower_published : PublishesPolicy (get (codes "policy") notice_fields) lower_policy
unfolding get text_eq
lower_published = record {
  fields = policy_fields lower_policy;
  is_dict = refl;
  rate = refl;
  cap = refl;
  exempt = refl;
}

notice_published :
    PublishesNotice
      (get (codes "burn_policy_next") published_descriptor)
      (some (lower_policy, pos 100))
unfolding get text_eq
notice_published = announces notice_fields refl lower_published refl

time_published : get (codes "mint_time") published_descriptor ≡ some (Value.int (pos 100))
unfolding get text_eq
time_published = refl

policy_from_descriptor_lem_example :
    policy_from_descriptor published_descriptor
    ≡ some (Burn.ok (policy_at policy (some (lower_policy, pos 100)) (pos 100)))
policy_from_descriptor_lem_example =
    policy_from_descriptor_lem published_descriptor policy (some (lower_policy, pos 100)) (pos 100)
      policy-IsValidPolicy lower-IsValidPolicy current_published notice_published time_published
