-- ===== src/Stablecoins/BridgeFinality.antt =====
-- src/stablecoins/bridge_finality.rs: bridges, wrapped assets and transfers in fixed tables, and the risk
-- score over them, used by one thread at a time. The writes through `&self` are modelled as the
-- assignments that they mean. Amounts and times are u64.
pub mod Pending
pub mod Risk
pub mod State
use Prim.Native.Nat.{min, max}
use backendofcryptotradingbo.Base.{
  ℕ, zero, suc, ◌+◌, ◌-◌, ◌*◌, ◌/◌, ◌%◌, ◌^◌, Bool, true, false, not, ◌&&◌, none, some, List, [],
  ◌∷◌, u64, u32, ltb, leb, ◌==◌, if◌then◌else◌, set, replicate,
}
use backendofcryptotradingbo.Base.Search.{update_first, find_first}
unfoldable pub use State.*

abbrev pub new : BridgeFinalityMonitor
new = record {
  bridges = replicate max_bridges empty_bridge;
  wrapped_assets = replicate (max_bridges * max_wrapped_assets) empty_asset;
  transfers = replicate max_transfers empty_transfer;
  bridge_count = 0;
  asset_count = 0;
  transfer_head = 0;
  counterparty_risk = 0;
  system_healthy = true;
}

unfoldable pub register_bridge : BridgeFinalityMonitor → BridgeInfo → BridgeFinalityMonitor × Bool
register_bridge m bridge =
    let idx = m.bridge_count in
    if leb max_bridges idx
    then (record m { bridge_count = u64 (u64 (idx + 1) + 2 ^ 64 - 1) }, false)
    else (record m { bridge_count = u64 (idx + 1); bridges = set m.bridges idx bridge }, true)

unfoldable pub register_wrapped_asset :
    BridgeFinalityMonitor → WrappedAsset → BridgeFinalityMonitor × Bool
register_wrapped_asset m asset =
    let idx = m.asset_count in
    if leb (max_bridges * max_wrapped_assets) idx
    then (record m { asset_count = u64 (u64 (idx + 1) + 2 ^ 64 - 1) }, false)
    else (
      record m { asset_count = u64 (idx + 1); wrapped_assets = set m.wrapped_assets idx asset },
      true,
    )

abbrev pub has_id : ℕ → BridgeInfo → Bool
has_id id b = b.bridge_id == id

-- `update_bridge_pending` is only called with 1.
unfoldable pub update_bridge_pending : BridgeFinalityMonitor → ℕ → BridgeFinalityMonitor
update_bridge_pending m id = record m {
  bridges =
      update_first (has_id id) (λ b. record b { pending_count = u32 (b.pending_count + 1) })
        m.bridge_count m.bridges;
}

unfoldable pub update_bridge_finalized : BridgeFinalityMonitor → ℕ → BridgeFinalityMonitor
update_bridge_finalized m id = record m {
  bridges =
      update_first (has_id id) (λ b. record b { pending_count = b.pending_count - 1 })
        m.bridge_count m.bridges;
}

unfoldable pub record_transfer_init :
    BridgeFinalityMonitor → TransferRecord → BridgeFinalityMonitor × ℕ
record_transfer_init m transfer =
    let idx = m.transfer_head % max_transfers in
    (
      update_bridge_pending
          (record m {
            transfer_head = u64 (m.transfer_head + 1);
            transfers = set m.transfers idx transfer;
          })
          transfer.transfer_bridge,
      idx,
    )

abbrev pub waits : ℕ → TransferRecord → Bool
waits id t = t.transfer_id == id && t.status == 0

unfoldable pub record_transfer_finalize : BridgeFinalityMonitor → ℕ → ℕ → ℕ → BridgeFinalityMonitor
record_transfer_finalize m id finalize_timestamp dest_block =
    let finalized = λ (t : TransferRecord). record t {
      status = 1;
      finalize_timestamp = finalize_timestamp;
      dest_block = dest_block;
    } in
    elim (find_first (waits id) max_transfers m.transfers) [
      | none ↦ m
      | some t ↦
          update_bridge_finalized
            (record m { transfers = update_first (waits id) finalized max_transfers m.transfers })
            t.transfer_bridge
    ]

unfoldable pub asset_risk : WrappedAsset → ℕ
asset_risk a =
    if not a.is_healthy
    then 5000
    else min (u64 ((fixed_scale - a.backing_ratio_fixed) * 10000) / fixed_scale) 1000

unfoldable pub assets_risk : ℕ → ℕ → List WrappedAsset → ℕ
assets_risk total zero xs = total
assets_risk total (suc n) [] = total
assets_risk total (suc n) (a ∷ xs) = assets_risk (u64 (total + asset_risk a)) n xs

unfoldable pub bridge_risk : BridgeInfo → ℕ
bridge_risk b = if ltb 0 b.failed_count then min b.failed_count 1000 else 0

unfoldable pub bridges_risk : ℕ → ℕ → List BridgeInfo → ℕ
bridges_risk total zero xs = total
bridges_risk total (suc n) [] = total
bridges_risk total (suc n) (b ∷ xs) = bridges_risk (u64 (total + bridge_risk b)) n xs

unfoldable pub recalculate_counterparty_risk : BridgeFinalityMonitor → BridgeFinalityMonitor
recalculate_counterparty_risk m =
    let total = assets_risk 0 m.asset_count m.wrapped_assets in
    let total_risk = bridges_risk total m.bridge_count m.bridges in
    let count = m.asset_count in
    record m {
      counterparty_risk = if ltb 0 count then total_risk / count else m.counterparty_risk;
      system_healthy = ltb (total_risk / max count 1) 2000;
    }

abbrev pub has_asset : ℕ → WrappedAsset → Bool
has_asset id a = a.asset_id == id

unfoldable pub update_backing_ratio : BridgeFinalityMonitor → ℕ → ℕ → BridgeFinalityMonitor
update_backing_ratio m id ratio_fixed = recalculate_counterparty_risk (record m {
  wrapped_assets =
      update_first (has_asset id)
        (λ a. record a {
          backing_ratio_fixed = ratio_fixed;
          is_healthy = leb (fixed_scale * 95 / 100) ratio_fixed;
        })
        m.asset_count m.wrapped_assets;
})

unfoldable pub get_avg_finality_ms : BridgeFinalityMonitor → ℕ → ℕ
get_avg_finality_ms m id = elim (find_first (has_id id) m.bridge_count m.bridges) [
  | none ↦ 0
  | some b ↦ b.avg_finality_ms
]

abbrev pub get_counterparty_risk : BridgeFinalityMonitor → ℕ
get_counterparty_risk m = m.counterparty_risk

abbrev pub is_system_healthy : BridgeFinalityMonitor → Bool
is_system_healthy m = m.system_healthy

unfoldable pub get_backing_ratio : BridgeFinalityMonitor → ℕ → ℕ
get_backing_ratio m id = elim (find_first (has_asset id) m.asset_count m.wrapped_assets) [
  | none ↦ 0
  | some a ↦ a.backing_ratio_fixed
]
