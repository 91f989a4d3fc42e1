-- ===== src/Execution/Iceberg/State.antt =====
-- src/execution/iceberg_handler.rs: iceberg orders, their places in the queue, and the state of the
-- handler.
use backendofcryptotradingbo.Base.{ℕ, ◌+◌, ◌-◌, ◌/◌, Bool, List, u64, ◌==◌, if◌then◌else◌}

abbrev pub max_iceberg_orders : ℕ
max_iceberg_orders = 256

pub data IcebergState : Type 0 where
  pending active partially_filled completed cancelled : IcebergState

-- `state as u8`
abbrev pub state_u8 : IcebergState → ℕ
state_u8 pending = 0
state_u8 active = 1
state_u8 partially_filled = 2
state_u8 completed = 3
state_u8 cancelled = 4

pub record IcebergOrder : Type 0 where
  pub order_id : ℕ
  pub total_qty : ℕ
  pub visible_qty : ℕ
  pub filled_qty : ℕ
  pub remaining_visible : ℕ
  pub price : ℕ
  pub side : ℕ  -- u8
  pub state : ℕ  -- u8
  pub venue_id : ℕ  -- u8
  pub min_display_qty : ℕ
  pub queue_position : ℕ
  pub orders_ahead : ℕ
  pub volume_ahead : ℕ
  pub last_fill_time : ℕ
  pub created_time : ℕ
  pub fill_rate_estimate : ℕ

abbrev pub empty : IcebergOrder
empty = record {
  order_id = 0;
  total_qty = 0;
  visible_qty = 0;
  filled_qty = 0;
  remaining_visible = 0;
  price = 0;
  side = 0;
  state = state_u8 pending;
  venue_id = 0;
  min_display_qty = 0;
  queue_position = 0;
  orders_ahead = 0;
  volume_ahead = 0;
  last_fill_time = 0;
  created_time = 0;
  fill_rate_estimate = 0;
}

abbrev pub remaining_hidden : IcebergOrder → ℕ
remaining_hidden o = o.total_qty - o.filled_qty - o.remaining_visible

abbrev pub remaining_total : IcebergOrder → ℕ
remaining_total o = o.total_qty - o.filled_qty

pub record QueuePosition : Type 0 where
  pub position : ℕ
  pub level_volume : ℕ
  pub queue_volume_ahead : ℕ
  pub recent_fill_volume : ℕ
  pub recent_fill_count : ℕ

abbrev pub new_position : QueuePosition
new_position = record {
  position = 0;
  level_volume = 0;
  queue_volume_ahead = 0;
  recent_fill_volume = 0;
  recent_fill_count = 0;
}

unfoldable pub update_position : QueuePosition → ℕ → ℕ → ℕ → QueuePosition
update_position q pos vol_ahead level_vol = record q {
  position = pos;
  queue_volume_ahead = vol_ahead;
  level_volume = level_vol;
}

unfoldable pub record_fill_at_level : QueuePosition → ℕ → QueuePosition
record_fill_at_level q fill_qty = record q {
  recent_fill_volume = u64 (q.recent_fill_volume + fill_qty);
  recent_fill_count = u64 (q.recent_fill_count + 1);
}

unfoldable pub get_fill_rate : QueuePosition → ℕ
get_fill_rate q = if q.recent_fill_count == 0 then 0 else q.recent_fill_volume / q.recent_fill_count

unfoldable pub reset_recent : QueuePosition → QueuePosition
reset_recent q = record q { recent_fill_volume = 0; recent_fill_count = 0 }

pub record IcebergHandler : Type 0 where
  pub orders : List IcebergOrder  -- 256 of them
  pub num_active : ℕ
  pub queue_positions : List QueuePosition  -- 256 of them
  pub default_display_ratio_bp : ℕ
  pub aggressive_refill_threshold : ℕ
  pub queue_tracking_enabled : Bool
