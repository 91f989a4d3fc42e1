-- ===== src/Stablecoins/Examples.antt =====
-- A concrete monitor (src/stablecoins/bridge_finality.rs), on which the theorems are applied.
use backendofcryptotradingbo.Base.{ℕ, ◌*◌, ◌+◌, ◌≤◌, ◌≡◌, refl, List, [], ◌∷◌, ltb, arith, ◌/◌, ◌-◌}
use backendofcryptotradingbo.Stablecoins.BridgeFinality.{
  BridgeInfo, TransferRecord, BridgeFinalityMonitor, empty_bridge, empty_asset, empty_transfer, new,
  register_bridge, register_wrapped_asset, update_backing_ratio,
}
use backendofcryptotradingbo.Stablecoins.BridgeFinality.Risk.{update_backing_ratio-risk}
use backendofcryptotradingbo.Stablecoins.BridgeFinality.Pending.{
  IsTracked, Event, began, ended, run, run-IsTracked, register_bridge-IsTracked,
}
use backendofcryptotradingbo.Stablecoins.DepegSafeguard
use backendofcryptotradingbo.Stablecoins.DepegSafeguard.{
  StablecoinDepegMonitor, PriceFeed, empty_feed, register_feed, recalculate_aggregate, price_sum,
  get_current_haircut_bps, apply_haircut,
}
use backendofcryptotradingbo.Stablecoins.DepegSafeguard.Haircut
use backendofcryptotradingbo.Stablecoins.DepegSafeguard.Haircut.{
  Call, configured, registered, priced, run-haircut,
}
use backendofcryptotradingbo.Stablecoins.DepegSafeguard.Halt.{
  IsHalted, IsBlind, recalculate-IsHalted, run-IsBlind,
}

abbrev bridge : BridgeInfo
bridge = record empty_bridge { bridge_id = 7; failed_count = 3 }

abbrev transfer : ℕ → ℕ → TransferRecord
transfer id on = record empty_transfer { transfer_id = id; transfer_bridge = on }

-- Two transfers on the bridge and one on another; the first is finalized.
abbrev events : List Event
events = began (transfer 1 7) ∷ began (transfer 2 9) ∷ ended 1 50 60 ∷ began (transfer 3 7) ∷ []

run-IsTracked_example : IsTracked 7 (run (register_bridge new bridge).0 events)
unfolding register_bridge
run-IsTracked_example =
    run-IsTracked 7 (register_bridge new bridge).0 events (register_bridge-IsTracked bridge refl)
      (omega arith) (omega arith)

abbrev with_asset : BridgeFinalityMonitor
with_asset =
    (register_wrapped_asset (register_bridge new bridge).0 (record empty_asset { asset_id = 4 })).0

update_backing_ratio-risk_example :
    let m' = update_backing_ratio with_asset 4 900_000 in
    (m'.counterparty_risk * with_asset.asset_count
      ≤ 5000 * with_asset.asset_count + 1000 * with_asset.bridge_count)
    × (m'.system_healthy ≡ ltb m'.counterparty_risk 2000)
unfolding register_bridge register_wrapped_asset
update_backing_ratio-risk_example = update_backing_ratio-risk with_asset 4 900_000 (omega arith)

-- A stablecoin of type 3 (src/stablecoins/depeg_safeguard.rs) at half its peg
abbrev feed : PriceFeed
feed = record empty_feed { feed_id = 11; token_type = 3; price_fixed = 500_000 }

abbrev calls : List Call
calls = configured ∷ registered feed ∷ priced 11 400_000 0 0 5 ∷ []

run-haircut_example :
    let m = Haircut.run DepegSafeguard.new calls in
    let h = get_current_haircut_bps m 3 in
    (h ≤ 5000)
    × (apply_haircut m 3 1000 ≡ 1000 * (10000 - h) / 10000)
    × (apply_haircut m 3 1000 ≤ 1000)
    × (1000 ≤ 2 * apply_haircut m 3 1000 + 1)
run-haircut_example = run-haircut calls 3 1000 (omega arith)

abbrev half_peg : StablecoinDepegMonitor
half_peg = (register_feed DepegSafeguard.new feed).0

recalculate-IsHalted_example :
    IsHalted (Haircut.run (recalculate_aggregate half_peg 3) (registered feed ∷ configured ∷ []))
unfolding register_feed price_sum
recalculate-IsHalted_example =
    recalculate-IsHalted half_peg 3 500_000 1 (registered feed ∷ configured ∷ []) refl (omega arith)
      (omega arith) (omega arith)

-- Its feed has the id 12, which stands for type 4.
run-IsBlind_example : IsBlind 3 (
    Haircut.run DepegSafeguard.new
      (registered (record feed { feed_id = 12 }) ∷ priced 12 400_000 0 0 5 ∷ []))
run-IsBlind_example =
    run-IsBlind 3 (registered (record feed { feed_id = 12 }) ∷ priced 12 400_000 0 0 5 ∷ [])
      (omega arith)
