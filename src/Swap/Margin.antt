-- ===== src/Swap/Margin.antt =====
-- impl/aicash/swap.py, `compute_margin`: what a quoted margin covers.
use ai_cash.Prelude.{max, ℕ, ◌+◌, ◌*◌, ◌≤◌, ◌≡◌, refl, Option, [], ◌∷◌, arith}
use ai_cash.Prelude.Int.{ℤ, pos, pos_part, ◌≤ℤ◌}
use ai_cash.Prelude.Text.{codes}
use ai_cash.Codec.Value.{Value}
use ai_cash.Swap.{
  distance, retained, check_polling, Quoted, quoted, ◌>>=◌, descriptor_int, compute_margin,
  check_assumed, latency_ms,
}

bind_quoted :
    {A B : Type 0} (m : Quoted A) (f : A → Quoted B) {b : B}
    → (m >>= f) ≡ quoted b
    → (a : A) × (m ≡ quoted a) × (f a ≡ quoted b)
bind_quoted (quoted a) f h = (a, refl, h)
bind_quoted Quoted.value_error f h = cc
bind_quoted Quoted.quote_refused f h = cc

check_polling_lem : (n : ℤ) (p : ℕ) → check_polling n ≡ quoted p → (pos 1 ≤ℤ n) × (p ≡ pos_part n)
check_polling_lem n p h = ground arith

retained_lem :
    (window margin m : ℕ) → retained window margin ≡ quoted m → (margin ≡ m) × (m ≤ window)
retained_lem window margin m h = ground arith

margin_terms :
    (g1 g2 p1 p2 p l1 l2 t1 t2 m q : ℕ)
    → g1 + g2 + p1 + p2 + p + max l1 l2 + 2 * max l1 l2 + distance t1 t2 ≡ m
    → p ≡ q
    → (g1 + g2 + q + 3 * l1 + t1 ≤ m + t2) × (g1 + g2 + q + 3 * l2 + t2 ≤ m + t1)
margin_terms g1 g2 p1 p2 p l1 l2 t1 t2 m q e f = (omega (arith, e, f), omega (arith, e, f))

-- What a quoted margin covers: both graces and a polling interval, three times each latency, and the
-- distance of the two clocks; and the witness is still there when it ends.
pub record Covers (desc1 desc2 : Value) (polling : ℤ) (assumed : Option ℤ) (margin : ℕ)
    : Type 0 where
  pub grace1 : ℕ
  pub grace2 : ℕ
  pub time1 : ℕ
  pub time2 : ℕ
  pub latency1 : ℕ
  pub latency2 : ℕ
  pub window : ℕ
  pub estimate : Option ℕ
  pub estimate_given : check_assumed assumed ≡ quoted estimate
  pub grace1_read :
      descriptor_int desc1 (codes "lock_params" ∷ codes "grace_ms" ∷ []) ≡ quoted grace1
  pub grace2_read :
      descriptor_int desc2 (codes "lock_params" ∷ codes "grace_ms" ∷ []) ≡ quoted grace2
  pub time1_read : descriptor_int desc1 (codes "mint_time" ∷ []) ≡ quoted time1
  pub time2_read : descriptor_int desc2 (codes "mint_time" ∷ []) ≡ quoted time2
  pub latency1_read : latency_ms desc1 estimate ≡ quoted latency1
  pub latency2_read : latency_ms desc2 estimate ≡ quoted latency2
  pub window_read :
      descriptor_int desc2 (codes "retention" ∷ codes "recovery_window_ms" ∷ []) ≡ quoted window
  pub polls : pos 1 ≤ℤ polling
  pub covers_first : grace1 + grace2 + pos_part polling + 3 * latency1 + time1 ≤ margin + time2
  pub covers_second : grace1 + grace2 + pos_part polling + 3 * latency2 + time2 ≤ margin + time1
  pub window_covers : margin ≤ window

-- A margin that is quoted covers the graces, the polling, three latencies of either mint and the
-- clocks' distance, and the second mint retains the witness for that long.
pub compute_margin-Covers :
    (desc1 desc2 : Value) (polling : ℤ) (assumed : Option ℤ) (margin : ℕ)
    → compute_margin desc1 desc2 polling assumed ≡ quoted margin
    → Covers desc1 desc2 polling assumed margin
unfolding compute_margin
compute_margin-Covers d1 d2 polling assumed margin h =
    let (p, hp, h) = bind_quoted (check_polling polling) _ h in
    let (est, he, h) = bind_quoted (check_assumed assumed) _ h in
    let (g1, hg1, h) =
      bind_quoted (descriptor_int d1 (codes "lock_params" ∷ codes "grace_ms" ∷ [])) _ h in
    let (g2, hg2, h) =
      bind_quoted (descriptor_int d2 (codes "lock_params" ∷ codes "grace_ms" ∷ [])) _ h in
    let (p1, hp1, h) =
      bind_quoted (descriptor_int d1 (codes "lock_params" ∷ codes "timestamp_precision_ms" ∷ [])) _
        h in
    let (p2, hp2, h) =
      bind_quoted (descriptor_int d2 (codes "lock_params" ∷ codes "timestamp_precision_ms" ∷ [])) _
        h in
    let (t1, ht1, h) = bind_quoted (descriptor_int d1 (codes "mint_time" ∷ [])) _ h in
    let (t2, ht2, h) = bind_quoted (descriptor_int d2 (codes "mint_time" ∷ [])) _ h in
    let (l1, hl1, h) = bind_quoted (latency_ms d1 est) _ h in
    let (l2, hl2, h) = bind_quoted (latency_ms d2 est) _ h in
    let (w, hw, h) =
      bind_quoted (descriptor_int d2 (codes "retention" ∷ codes "recovery_window_ms" ∷ [])) _ h in
    let (total, fits) = retained_lem w _ margin h in
    let polled = (check_polling_lem polling p hp).1 in
    let both = margin_terms g1 g2 p1 p2 p l1 l2 t1 t2 margin (pos_part polling) total polled in
    record {
      grace1 = g1;
      grace2 = g2;
      time1 = t1;
      time2 = t2;
      latency1 = l1;
      latency2 = l2;
      window = w;
      estimate = est;
      estimate_given = he;
      grace1_read = hg1;
      grace2_read = hg2;
      time1_read = ht1;
      time2_read = ht2;
      latency1_read = hl1;
      latency2_read = hl2;
      window_read = hw;
      polls = (check_polling_lem polling p hp).0;
      covers_first = both.0;
      covers_second = both.1;
      window_covers = fits;
    }
