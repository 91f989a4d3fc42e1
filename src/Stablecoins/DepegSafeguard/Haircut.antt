-- ===== src/Stablecoins/DepegSafeguard/Haircut.antt =====
-- The haircuts of src/stablecoins/depeg_safeguard.rs, whatever prices come.

use backendofcryptotradingbo.Base.{
  ℕ, zero, suc, ◌+◌, ◌-◌, ◌*◌, ◌/◌, ◌%◌, ◌^◌, ◌≤◌, ◌<◌, ◌≡◌, refl, ap, ◌∙◌, Bool, List, [], ◌∷◌,
  u64, ltb, leb, get_or, set, All, All-set, All-replicate, arith, if_either,
}
use backendofcryptotradingbo.Stablecoins.DepegSafeguard.{
  StablecoinDepegMonitor, HaircutConfig, PriceFeed, new_config, new, init_haircut_configs,
  register_feed, update_haircut, price_sum, check_circuit_breaker, recalculate_aggregate,
  update_price, reset_circuit_breaker, get_current_haircut_bps, apply_haircut,
}

pub data Call : Type 0 where
  configured : Call
  registered : PriceFeed → Call
  priced : ℕ → ℕ → ℕ → ℕ → ℕ → Call
  reset : Call

unfoldable pub apply : StablecoinDepegMonitor → Call → StablecoinDepegMonitor
apply m configured = init_haircut_configs m
apply m (registered feed) = (register_feed m feed).0
apply m (priced id price bid ask cycles) = update_price m id price bid ask cycles
apply m reset = reset_circuit_breaker m

unfoldable pub run : StablecoinDepegMonitor → List Call → StablecoinDepegMonitor
run m [] = m
run m (c ∷ cs) = run (apply m c) cs

abbrev Capped : HaircutConfig → Type 0
Capped c = c.max_haircut_bps ≡ 5000

record IsCapped (m : StablecoinDepegMonitor) : Type 0 where
  configs : All Capped m.haircut_configs
  haircuts : All (λ h. h ≤ 5000) m.current_haircuts_bps

-- A configuration that is read is capped, also the one that stands for an index out of range.
config-Capped :
    (cs : List HaircutConfig) (i : ℕ) → All Capped cs → Capped (get_or cs i (new_config 0))
config-Capped [] i h = refl
config-Capped (c ∷ cs) zero h = h.0
config-Capped (c ∷ cs) (suc i) h = config-Capped cs i h.1

haircut-le : (hs : List ℕ) (i : ℕ) → All (λ h. h ≤ 5000) hs → get_or hs i 0 ≤ 5000
haircut-le [] i h = omega arith
haircut-le (x ∷ hs) zero h = h.0
haircut-le (x ∷ hs) (suc i) h = haircut-le hs i h.1

update_haircut-IsCapped :
    (m : StablecoinDepegMonitor) (token bps : ℕ)
    → IsCapped m
    → IsCapped (update_haircut m token bps)
unfolding update_haircut
update_haircut-IsCapped m token bps w = record {
  configs = w.configs;
  haircuts =
      All-set (λ h. h ≤ 5000) m.current_haircuts_bps token _ w.haircuts
        (omega (arith, config-Capped m.haircut_configs token w.configs));
}

check-IsCapped :
    (m : StablecoinDepegMonitor) (bps : ℕ) → IsCapped m → IsCapped (check_circuit_breaker m bps)
unfolding check_circuit_breaker
check-IsCapped m bps w =
    if_either IsCapped (leb 500 bps) _ _ (record { configs = w.configs; haircuts = w.haircuts })
      (if_either IsCapped (leb 200 bps) _ _ (record { configs = w.configs; haircuts = w.haircuts })
        (record { configs = w.configs; haircuts = w.haircuts }))

recalculate-IsCapped :
    (m : StablecoinDepegMonitor) (token : ℕ) → IsCapped m → IsCapped (recalculate_aggregate m token)
unfolding recalculate_aggregate
recalculate-IsCapped m token w =
    if_either IsCapped (ltb 0 (price_sum token 0 0 m.feed_count m.feeds).1) _ _
      (check-IsCapped _ _
        (update_haircut-IsCapped _ token _ (record { configs = w.configs; haircuts = w.haircuts })))
      w

apply-IsCapped : (m : StablecoinDepegMonitor) (c : Call) → IsCapped m → IsCapped (apply m c)
unfolding apply init_haircut_configs register_feed update_price reset_circuit_breaker
apply-IsCapped m configured w = record {
  configs =
      All-set Capped (set (set m.haircut_configs 0 (new_config 0)) 1 (new_config 1)) 2
        (new_config 2)
        (All-set Capped (set m.haircut_configs 0 (new_config 0)) 1 (new_config 1)
          (All-set Capped m.haircut_configs 0 (new_config 0) w.configs refl) refl)
        refl;
  haircuts = w.haircuts;
}
apply-IsCapped m (registered feed) w =
    if_either (λ (r : StablecoinDepegMonitor × Bool). IsCapped r.0) (leb 64 m.feed_count) _ _
      (record { configs = w.configs; haircuts = w.haircuts })
      (record { configs = w.configs; haircuts = w.haircuts })
apply-IsCapped m (priced id price bid ask cycles) w =
    recalculate-IsCapped _ (id % 8) (record { configs = w.configs; haircuts = w.haircuts })
apply-IsCapped m reset w = record { configs = w.configs; haircuts = w.haircuts }

run-IsCapped : (m : StablecoinDepegMonitor) (cs : List Call) → IsCapped m → IsCapped (run m cs)
unfolding run
run-IsCapped m [] w = w
run-IsCapped m (c ∷ cs) w = run-IsCapped (apply m c) cs (apply-IsCapped m c w)

new-IsCapped : IsCapped new
new-IsCapped = record {
  configs = All-replicate Capped 8 (new_config 0) refl;
  haircuts = All-replicate (λ h. h ≤ 5000) 8 0 (omega arith);
}

get-le :
    (m : StablecoinDepegMonitor) (token : ℕ) → IsCapped m → get_current_haircut_bps m token ≤ 5000
unfolding get_current_haircut_bps
get-le m token w = ground (arith, haircut-le m.current_haircuts_bps token w.haircuts)

-- Between half and the whole of an amount is left.
rest_bounds :
    (amount rest : ℕ)
    → 5000 ≤ rest
    → rest ≤ 10000
    → (amount * 5000 ≤ amount * rest) × (amount * rest ≤ amount * 10000)
rest_bounds amount rest l h = (grind (arith, l), grind (arith, h))

-- After any calls on a new monitor the haircut of every token is at most half, and an amount whose
-- 10000-fold is a u64 is cut to the rest of it: to no more than the amount, and to no less than half of
-- it.
pub run-haircut :
    (cs : List Call) (token amount : ℕ)
    → amount * 10000 < 2 ^ 64
    → let m = run new cs in
      let h = get_current_haircut_bps m token in
      (h ≤ 5000)
      × (apply_haircut m token amount ≡ amount * (10000 - h) / 10000)
      × (apply_haircut m token amount ≤ amount)
      × (amount ≤ 2 * apply_haircut m token amount + 1)
unfolding apply_haircut
run-haircut cs token amount small =
    let m = run new cs in
    let w = run-IsCapped new cs new-IsCapped in
    let h = get_current_haircut_bps m token in
    let le : h ≤ 5000 = get-le m token w in
    let rest : u64 (10000 + 2 ^ 64 - h) ≡ 10000 - h = omega (arith, le) in
    let (lower, upper) = rest_bounds amount (10000 - h) (omega (arith, le)) (omega arith) in
    let same : u64 (amount * u64 (10000 + 2 ^ 64 - h)) ≡ amount * (10000 - h) =
      ap (λ r. u64 (amount * r)) rest ∙ omega (arith, upper, small) in
    (le, ap (λ n. n / 10000) same, omega (arith, same, upper), omega (arith, same, lower))
