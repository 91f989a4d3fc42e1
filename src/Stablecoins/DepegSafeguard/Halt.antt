-- ===== src/Stablecoins/DepegSafeguard/Halt.antt =====
-- The circuit breaker of src/stablecoins/depeg_safeguard.rs, and the token whose price is recalculated.
use backendofcryptotradingbo.Base.{
  ℕ, zero, suc, ◌-◌, ◌*◌, ◌/◌, ◌%◌, ◌≤◌, ◌<◌, ◌≡◌, ◌≢◌, refl, ◌∙◌, Bool, true, false, List, [], ◌∷◌,
  u64, ltb, leb, get_or, get_or-set_ne, get_or-replicate, All, arith, if_either,
}
use backendofcryptotradingbo.Base.Int.{pos}
use backendofcryptotradingbo.Stablecoins.DepegSafeguard.{
  StablecoinDepegMonitor, new, init_haircut_configs, register_feed, price_sum, update_haircut,
  check_circuit_breaker, recalculate_aggregate, update_price, reset_circuit_breaker, unsigned_abs,
  deviation_of, negative,
}
use backendofcryptotradingbo.Stablecoins.DepegSafeguard.Haircut.{
  Call, configured, registered, priced, reset, apply, run,
}

-- A call that does not lift the halt
abbrev pub KeepsHalt : Call → Type 0
KeepsHalt reset = ⊥
KeepsHalt _ = Unit

abbrev pub IsHalted : StablecoinDepegMonitor → Type 0
IsHalted m = (m.circuit_breaker ≡ true) × (m.trading_halted ≡ true)

check-IsHalted :
    (m : StablecoinDepegMonitor) (bps : ℕ) → IsHalted m → IsHalted (check_circuit_breaker m bps)
unfolding check_circuit_breaker
check-IsHalted m bps h =
    if_either IsHalted (leb 500 bps) _ _ (refl, refl) (if_either IsHalted (leb 200 bps) _ _ h h)

apply-IsHalted :
    (m : StablecoinDepegMonitor) (c : Call) → KeepsHalt c → IsHalted m → IsHalted (apply m c)
unfolding apply init_haircut_configs register_feed update_price recalculate_aggregate update_haircut
apply-IsHalted m configured k h = h
apply-IsHalted m (registered feed) k h =
    if_either (λ (r : StablecoinDepegMonitor × Bool). IsHalted r.0) (leb 64 m.feed_count) _ _ h h
apply-IsHalted m (priced id price bid ask cycles) k h =
    if_either IsHalted (ltb 0 _) _ _ (check-IsHalted _ _ h) h
apply-IsHalted m reset k h = elim k [ ]

run-IsHalted :
    (m : StablecoinDepegMonitor) (cs : List Call)
    → All KeepsHalt cs
    → IsHalted m
    → IsHalted (run m cs)
unfolding run
run-IsHalted m [] k h = h
run-IsHalted m (c ∷ cs) k h = run-IsHalted (apply m c) cs k.1 (apply-IsHalted m c k.0 h)

check-halts :
    (m : StablecoinDepegMonitor) (bps : ℕ) → 500 ≤ bps → IsHalted (check_circuit_breaker m bps)
unfolding check_circuit_breaker
check-halts m bps h = let far : leb 500 bps ≡ true = ground arith in rw far (refl, refl)

abs-negative : (n : ℕ) → 500 ≤ n → 500 ≤ unsigned_abs (negative n)
abs-negative zero h = omega arith
abs-negative (suc n) h = omega arith

far_below : (avg : ℕ) → avg ≤ 950_000 → 500 ≤ unsigned_abs (deviation_of avg)
unfolding deviation_of
far_below avg h =
    let below : leb 1_000_000 avg ≡ false = ground arith in
    let far : 500 ≤ u64 ((1_000_000 - avg) * 10000) / 1_000_000 = omega arith in
    rw below (abs-negative (u64 ((1_000_000 - avg) * 10000) / 1_000_000) far)

-- When the mean of the fresh prices of a token is 5 percent or more below its peg, a recalculation of the
-- token halts the trading, and no prices, feeds or configurations that follow lift the halt.
pub recalculate-IsHalted :
    (m : StablecoinDepegMonitor) (token sum count : ℕ) (cs : List Call)
    → price_sum token 0 0 m.feed_count m.feeds ≡ (sum, count)
    → 0 < count
    → sum / count ≤ 950_000
    → All KeepsHalt cs
    → IsHalted (run (recalculate_aggregate m token) cs)
unfolding recalculate_aggregate
recalculate-IsHalted m token sum count cs e p low k =
    let some_price : ltb 0 count ≡ true = ground (arith, p) in
    run-IsHalted (recalculate_aggregate m token) cs k
      (rw (recalculate_aggregate, e, some_price) (check-halts _ _ (far_below (sum / count) low)))

-- A priced feed whose id does not stand for the token
abbrev pub Misses : ℕ → Call → Type 0
Misses token (priced id price bid ask cycles) = id % 8 ≢ token
Misses token _ = Unit

-- Nothing is known of the token.
pub record IsBlind (token : ℕ) (m : StablecoinDepegMonitor) : Type 0 where
  pub price : get_or m.aggregate_prices token 0 ≡ 0
  pub deviation : get_or m.peg_deviation_bps token (pos 0) ≡ pos 0
  pub haircut : get_or m.current_haircuts_bps token 0 ≡ 0

check-IsBlind :
    (token : ℕ) (m : StablecoinDepegMonitor) (bps : ℕ)
    → IsBlind token m
    → IsBlind token (check_circuit_breaker m bps)
unfolding check_circuit_breaker
check-IsBlind token m bps w =
    if_either (IsBlind token) (leb 500 bps) _ _
      (record { price = w.price; deviation = w.deviation; haircut = w.haircut })
      (if_either (IsBlind token) (leb 200 bps) _ _
        (record { price = w.price; deviation = w.deviation; haircut = w.haircut })
        (record { price = w.price; deviation = w.deviation; haircut = w.haircut }))

recalculate-IsBlind :
    (token other : ℕ) (m : StablecoinDepegMonitor)
    → other ≢ token
    → IsBlind token m
    → IsBlind token (recalculate_aggregate m other)
unfolding recalculate_aggregate update_haircut
recalculate-IsBlind token other m h w =
    if_either (IsBlind token) (ltb 0 (price_sum other 0 0 m.feed_count m.feeds).1) _ _
      (check-IsBlind token _ _ (record {
        price = get_or-set_ne m.aggregate_prices other token _ 0 h ∙ w.price;
        deviation = get_or-set_ne m.peg_deviation_bps other token _ (pos 0) h ∙ w.deviation;
        haircut = get_or-set_ne m.current_haircuts_bps other token _ 0 h ∙ w.haircut;
      }))
      w

apply-IsBlind :
    (token : ℕ) (m : StablecoinDepegMonitor) (c : Call)
    → Misses token c
    → IsBlind token m
    → IsBlind token (apply m c)
unfolding apply init_haircut_configs register_feed update_price reset_circuit_breaker
apply-IsBlind token m configured h w = record {
  price = w.price;
  deviation = w.deviation;
  haircut = w.haircut;
}
apply-IsBlind token m (registered feed) h w =
    if_either (λ (r : StablecoinDepegMonitor × Bool). IsBlind token r.0) (leb 64 m.feed_count) _ _
      (record { price = w.price; deviation = w.deviation; haircut = w.haircut })
      (record { price = w.price; deviation = w.deviation; haircut = w.haircut })
apply-IsBlind token m (priced id price bid ask cycles) h w =
    recalculate-IsBlind token (id % 8) _ h
      (record { price = w.price; deviation = w.deviation; haircut = w.haircut })
apply-IsBlind token m reset h w = record {
  price = w.price;
  deviation = w.deviation;
  haircut = w.haircut;
}

run_from-IsBlind :
    (token : ℕ) (m : StablecoinDepegMonitor) (cs : List Call)
    → All (Misses token) cs
    → IsBlind token m
    → IsBlind token (run m cs)
unfolding run
run_from-IsBlind token m [] h w = w
run_from-IsBlind token m (c ∷ cs) h w =
    run_from-IsBlind token (apply m c) cs h.1 (apply-IsBlind token m c h.0 w)

-- On a new monitor a token keeps price 0, deviation 0 and no haircut as long as the ids of the feeds that
-- are priced do not leave its number modulo 8, whatever feeds of the token there are and whatever prices
-- they report.
pub run-IsBlind : (token : ℕ) (cs : List Call) → All (Misses token) cs → IsBlind token (run new cs)
run-IsBlind token cs h = run_from-IsBlind token new cs h (record {
  price = get_or-replicate 8 0 token;
  deviation = get_or-replicate 8 (pos 0) token;
  haircut = get_or-replicate 8 0 token;
})
