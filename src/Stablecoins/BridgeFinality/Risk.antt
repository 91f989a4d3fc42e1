-- ===== src/Stablecoins/BridgeFinality/Risk.antt =====
-- The risk score of src/stablecoins/bridge_finality.rs.
use Prim.Native.Nat.{max}
use native.Mathlib.Nat.{div-mul-le_self}
use backendofcryptotradingbo.Base.{
  ℕ, zero, suc, ◌+◌, ◌*◌, ◌/◌, ◌≤◌, ◌<◌, ◌≡◌, refl, true, List, [], ◌∷◌, u64, ltb, leb, arith,
}
use backendofcryptotradingbo.Base.Search.{update_first}
use backendofcryptotradingbo.Stablecoins.BridgeFinality.{
  WrappedAsset, BridgeInfo, BridgeFinalityMonitor, fixed_scale, asset_risk, assets_risk,
  bridge_risk, bridges_risk, recalculate_counterparty_risk, update_backing_ratio, has_asset,
}

asset_risk-le : (a : WrappedAsset) → asset_risk a ≤ 5000
unfolding asset_risk
asset_risk-le a = ground arith

bridge_risk-le : (b : BridgeInfo) → bridge_risk b ≤ 1000
unfolding bridge_risk
bridge_risk-le b = ground arith

assets_risk-le : (total n : ℕ) (xs : List WrappedAsset) → assets_risk total n xs ≤ total + 5000 * n
unfolding assets_risk
assets_risk-le total zero xs = omega arith
assets_risk-le total (suc n) [] = omega arith
assets_risk-le total (suc n) (a ∷ xs) =
    omega (arith, assets_risk-le (u64 (total + asset_risk a)) n xs, asset_risk-le a)

bridges_risk-le : (total n : ℕ) (xs : List BridgeInfo) → bridges_risk total n xs ≤ total + 1000 * n
unfolding bridges_risk
bridges_risk-le total zero xs = omega arith
bridges_risk-le total (suc n) [] = omega arith
bridges_risk-le total (suc n) (b ∷ xs) =
    omega (arith, bridges_risk-le (u64 (total + bridge_risk b)) n xs, bridge_risk-le b)

-- After an update of a backing ratio with at least one asset, the score is at most 5000 and the share of
-- 1000 for each bridge, and the system counts as healthy exactly when it is below 2000.
pub update_backing_ratio-risk :
    (m : BridgeFinalityMonitor) (id ratio : ℕ)
    → 0 < m.asset_count
    → let m' = update_backing_ratio m id ratio in
      (m'.counterparty_risk * m.asset_count ≤ 5000 * m.asset_count + 1000 * m.bridge_count)
      × (m'.system_healthy ≡ ltb m'.counterparty_risk 2000)
unfolding update_backing_ratio recalculate_counterparty_risk
update_backing_ratio-risk m id ratio h =
    let changed =
      update_first (has_asset id)
        (λ a. record a {
          backing_ratio_fixed = ratio;
          is_healthy = leb (fixed_scale * 95 / 100) ratio;
        })
        m.asset_count m.wrapped_assets in
    let total = assets_risk 0 m.asset_count changed in
    let total_risk = bridges_risk total m.bridge_count m.bridges in
    let some_asset : ltb 0 m.asset_count ≡ true = ground (arith, h) in
    let count : max m.asset_count 1 ≡ m.asset_count = omega (arith, h) in
    rw (some_asset, count)
      (
        omega (
          arith,
          div-mul-le_self total_risk m.asset_count,
          bridges_risk-le total m.bridge_count m.bridges,
          assets_risk-le 0 m.asset_count changed,
        ),
        refl,
      )
