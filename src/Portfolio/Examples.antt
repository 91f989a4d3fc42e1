-- ===== src/Portfolio/Examples.antt =====
-- A concrete portfolio (src/portfolio/rebalancing_engine.rs), on which the theorems are applied.
use backendofcryptotradingbo.Base.{◌≡◌, refl, false, arith}
use backendofcryptotradingbo.Base.Int.{pos, wrap, ◌-ℤ◌}
use backendofcryptotradingbo.Portfolio.Rebalancing.{
  RebalancingEngine, manual, new, abs, set_target_weight, update_current_weight, toggle_shadow_mode,
  current_at, target_at, generate_orders, execute_orders,
}
use backendofcryptotradingbo.Portfolio.Rebalancing.Settled.{picks, rebalance_lem}

-- Two assets, of which the first is at its target of 40 percent, and the second at 50 instead of 60
abbrev engine : RebalancingEngine
engine =
    update_current_weight
      (update_current_weight
        (set_target_weight (set_target_weight (new (pos 50) 1000) 0 (pos 40_000_000)) 1
          (pos 60_000_000))
        0 (pos 40_000_000))
      1 (pos 50_000_000)

abbrev live : RebalancingEngine
live = toggle_shadow_mode engine false

-- The first weight becomes the target of the second asset.
rebalance_lem_example :
    current_at (execute_orders (generate_orders live manual 5).0 6).0 0 ≡ target_at live 1
unfolding set_target_weight update_current_weight picks abs ◌-ℤ◌ wrap
rebalance_lem_example = rebalance_lem live manual 5 6 0 1 refl refl refl refl (omega arith) refl
