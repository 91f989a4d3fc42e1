-- ===== src/Execution/Schedule/State.antt =====
-- src/execution/twap_vwap.rs: child orders, the volume profile, the timer wheel and the state of an
-- algorithm.
use backendofcryptotradingbo.Base.{ℕ, ◌+◌, ◌*◌, Bool, false, List, replicate}

abbrev pub max_child_orders : ℕ
max_child_orders = 256

abbrev pub timer_wheel_slots : ℕ
timer_wheel_slots = 65536

pub data AlgoType : Type 0 where
  twap vwap pov : AlgoType

abbrev pub algo_u8 : AlgoType → ℕ
algo_u8 twap = 0
algo_u8 vwap = 1
algo_u8 pov = 2

pub data Side : Type 0 where
  buy sell : Side

abbrev pub side_u8 : Side → ℕ
side_u8 buy = 0
side_u8 sell = 1

pub record ChildOrder : Type 0 where
  pub order_id : ℕ
  pub parent_id : ℕ
  pub quantity : ℕ
  pub price : ℕ
  pub side : ℕ  -- u8
  pub venue_id : ℕ  -- u8
  pub time_slot : ℕ  -- u16
  pub status : ℕ  -- u8: pending, submitted, filled, cancelled
  pub fill_qty : ℕ
  pub fill_price : ℕ
  pub timestamp_cycles : ℕ

abbrev pub empty_child : ChildOrder
empty_child = record {
  order_id = 0;
  parent_id = 0;
  quantity = 0;
  price = 0;
  side = 0;
  venue_id = 0;
  time_slot = 0;
  status = 0;
  fill_qty = 0;
  fill_price = 0;
  timestamp_cycles = 0;
}

pub record VwapBucket : Type 0 where
  pub volume_bp : ℕ  -- u16
  pub start_ms : ℕ  -- u32
  pub end_ms : ℕ  -- u32

-- The entry `i` of `VWAP_PROFILE`
abbrev pub vwap_bucket : ℕ → VwapBucket
vwap_bucket i = record {
  volume_bp = 104;
  start_ms = i * 15 * 60 * 1000;
  end_ms = (i + 1) * 15 * 60 * 1000;
}

pub record TimerSlot : Type 0 where
  pub order_indices : List ℕ  -- 16 of them, u16
  pub count : ℕ
  pub next : ℕ  -- u16

abbrev pub empty_slot : TimerSlot
empty_slot = record { order_indices = replicate 16 65535; count = 0; next = 0 }

pub record ExecutionAlgo : Type 0 where
  pub child_orders : List ChildOrder  -- 256 of them
  pub num_children : ℕ
  pub parent_qty : ℕ
  pub filled_qty : ℕ
  pub avg_fill_price : ℕ
  pub algo_type : ℕ  -- u8
  pub algo_side : ℕ  -- u8
  pub active : Bool
  pub start_time : ℕ
  pub end_time : ℕ
  pub duration_ms : ℕ
  pub num_slices : ℕ  -- u16
  pub current_slice : ℕ
  pub pov_rate_bp : ℕ  -- u16
  pub timer_wheel : List TimerSlot  -- 65536 of them
  pub timer_position : ℕ

-- The constructors differ in the kind, the duration, the slices and the participation rate.
abbrev pub new_algo : ℕ → AlgoType → ℕ → ℕ → ℕ → ExecutionAlgo
new_algo parent_qty algo duration_ms num_slices pov_rate_bp = record {
  child_orders = replicate max_child_orders empty_child;
  num_children = 0;
  parent_qty = parent_qty;
  filled_qty = 0;
  avg_fill_price = 0;
  algo_type = algo_u8 algo;
  algo_side = side_u8 buy;
  active = false;
  start_time = 0;
  end_time = 0;
  duration_ms = duration_ms;
  num_slices = num_slices;
  current_slice = 0;
  pov_rate_bp = pov_rate_bp;
  timer_wheel = replicate timer_wheel_slots empty_slot;
  timer_position = 0;
}
