-- ===== src/Portfolio/Rebalancing/State.antt =====
-- src/portfolio/rebalancing_engine.rs: orders, the history and the state of the engine.
use backendofcryptotradingbo.Base.{ℕ, Bool, false, List}
use backendofcryptotradingbo.Base.Int.{ℤ, pos}

abbrev pub max_assets : ℕ
max_assets = 64

abbrev pub max_history : ℕ
max_history = 1024

abbrev pub scale : ℕ
scale = 100_000_000

pub data RebalanceTrigger : Type 0 where
  threshold time_based manual risk_event : RebalanceTrigger

pub record RebalanceOrder : Type 0 where
  pub asset_id : ℕ
  pub current_weight : ℤ
  pub target_weight : ℤ
  pub delta : ℤ
  pub order_id : ℕ
  pub timestamp_ns : ℕ
  pub is_buy : Bool
  pub executed : Bool

abbrev pub default_order : RebalanceOrder
default_order = record {
  asset_id = 0;
  current_weight = pos 0;
  target_weight = pos 0;
  delta = pos 0;
  order_id = 0;
  timestamp_ns = 0;
  is_buy = false;
  executed = false;
}

pub record RebalanceHistory : Type 0 where
  pub recorded_ns : ℕ
  pub trigger : RebalanceTrigger
  pub total_drift_bps : ℤ
  pub order_count : ℕ
  pub was_executed : Bool
  pub turnover_bps : ℤ

abbrev pub default_history : RebalanceHistory
default_history = record {
  recorded_ns = 0;
  trigger = threshold;
  total_drift_bps = pos 0;
  order_count = 0;
  was_executed = false;
  turnover_bps = pos 0;
}

pub record RebalancingEngine : Type 0 where
  pub current_weights : List ℤ  -- 64 of them, like the next two
  pub target_weights : List ℤ
  pub pending_orders : List RebalanceOrder
  pub history : List RebalanceHistory  -- 1024 of them
  pub asset_count : ℕ
  pub history_head : ℕ
  pub order_counter : ℕ
  pub drift_threshold_bps : ℤ
  pub rebalance_interval_ns : ℕ
  pub last_rebalance_ns : ℕ
  pub shadow_mode : Bool
  pub rebalance_needed : Bool
  pub circuit_breaker : Bool
