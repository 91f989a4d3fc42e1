-- ===== src/Stablecoins/BridgeFinality/State.antt =====
-- src/stablecoins/bridge_finality.rs: bridges, wrapped assets, transfers and the state of the monitor.
use backendofcryptotradingbo.Base.{ℕ, Bool, true, List}

abbrev pub max_bridges : ℕ
max_bridges = 32

abbrev pub max_wrapped_assets : ℕ
max_wrapped_assets = 16

abbrev pub fixed_scale : ℕ
fixed_scale = 1_000_000

abbrev pub max_transfers : ℕ
max_transfers = 1024

pub record BridgeInfo : Type 0 where
  pub bridge_id : ℕ
  pub bridge_type : ℕ
  pub source_chain_id : ℕ
  pub dest_chain_id : ℕ
  pub tvl_fixed : ℕ
  pub volume_24h_fixed : ℕ
  pub pending_count : ℕ
  pub failed_count : ℕ
  pub avg_finality_ms : ℕ
  pub is_operational : Bool

pub record WrappedAsset : Type 0 where
  pub asset_id : ℕ
  pub underlying_type : ℕ
  pub wrapped_type : ℕ
  pub chain_id : ℕ
  pub supply_fixed : ℕ
  pub backing_ratio_fixed : ℕ
  pub custodian_hash : ℕ
  pub last_attestation_cycles : ℕ
  pub is_healthy : Bool

-- `status`: 0 is pending, 1 finalized, 2 failed.
pub record TransferRecord : Type 0 where
  pub transfer_id : ℕ
  pub transfer_bridge : ℕ
  pub amount_fixed : ℕ
  pub init_timestamp : ℕ
  pub finalize_timestamp : ℕ
  pub source_block : ℕ
  pub dest_block : ℕ
  pub status : ℕ

abbrev pub empty_bridge : BridgeInfo
empty_bridge = record {
  bridge_id = 0;
  bridge_type = 0;
  source_chain_id = 0;
  dest_chain_id = 0;
  tvl_fixed = 0;
  volume_24h_fixed = 0;
  pending_count = 0;
  failed_count = 0;
  avg_finality_ms = 0;
  is_operational = true;
}

abbrev pub empty_asset : WrappedAsset
empty_asset = record {
  asset_id = 0;
  underlying_type = 0;
  wrapped_type = 0;
  chain_id = 0;
  supply_fixed = 0;
  backing_ratio_fixed = fixed_scale;
  custodian_hash = 0;
  last_attestation_cycles = 0;
  is_healthy = true;
}

abbrev pub empty_transfer : TransferRecord
empty_transfer = record {
  transfer_id = 0;
  transfer_bridge = 0;
  amount_fixed = 0;
  init_timestamp = 0;
  finalize_timestamp = 0;
  source_block = 0;
  dest_block = 0;
  status = 0;
}

pub record BridgeFinalityMonitor : Type 0 where
  pub bridges : List BridgeInfo  -- 32 of them
  pub wrapped_assets : List WrappedAsset  -- 512 of them
  pub transfers : List TransferRecord  -- 1024 of them
  pub bridge_count : ℕ
  pub asset_count : ℕ
  pub transfer_head : ℕ
  pub counterparty_risk : ℕ
  pub system_healthy : Bool
