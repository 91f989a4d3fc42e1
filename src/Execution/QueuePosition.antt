-- ===== src/Execution/QueuePosition.antt =====
-- src/execution/queue/queue_position.rs: the place of an order in its queue, from the trades ahead of it.
-- Quantities are i64, indices, sums and times u64; the clock is an argument. The methods assign through a
-- shared reference, which is modelled as the assignment that it means.
pub mod Window
use Prim.Native.Nat.{min, max}
use backendofcryptotradingbo.Base.{
  ℕ, ◌+◌, ◌-◌, ◌*◌, ◌/◌, ◌%◌, ◌^◌, Bool, true, false, not, ◌&&◌, ◌||◌, List, u64, ltb, leb, ◌==◌,
  if◌then◌else◌, get_or, set, replicate,
}
use backendofcryptotradingbo.Base.Int.{
  ℤ, pos, negsuc, pos_part, neg_part, sub_ℕ, ◌-ℤ◌, ltb_ℤ, of_bits, to_bits,
}

abbrev pub fixed_scale : ℕ
fixed_scale = 100_000_000

abbrev pub max_queue_depth : ℕ
max_queue_depth = 1024

pub record TradeFlowBuffer : Type 0 where
  pub buffer : List ℤ  -- 1024 of them, the source's `data`
  pub head : ℕ
  pub tail : ℕ
  pub sum : ℕ

unfoldable pub new_buffer : TradeFlowBuffer
new_buffer = record { buffer = replicate max_queue_depth (pos 0); head = 0; tail = 0; sum = 0 }

abbrev pub as_u64 : ℤ → ℕ
as_u64 a = to_bits (2 ^ 64) a

-- The oldest element leaves a full buffer; the head and the elements stay as they are.
unfoldable pub evict : TradeFlowBuffer → TradeFlowBuffer
evict b =
    if (b.head + 1) % max_queue_depth == b.tail
    then record b {
      sum = b.sum - as_u64 (get_or b.buffer b.tail (pos 0));
      tail = (b.tail + 1) % max_queue_depth;
    }
    else b

unfoldable pub push : TradeFlowBuffer → ℤ → TradeFlowBuffer
unfolding evict
push b volume =
    let b' = evict b in
    record b' {
      buffer = set b'.buffer b'.head volume;
      sum = min (b'.sum + as_u64 volume) (2 ^ 64 - 1);
      head = (b'.head + 1) % max_queue_depth;
    }

abbrev pub total_flow : TradeFlowBuffer → ℤ
total_flow b = of_bits (2 ^ 64) b.sum

unfoldable pub clear : TradeFlowBuffer → TradeFlowBuffer
clear b = record b { head = 0; tail = 0; sum = 0 }

pub record QueuePositionState : Type 0 where
  pub initial_position : ℤ
  pub current_position : ℤ
  pub queue_size_ahead : ℤ
  pub order_id_hash : ℕ
  pub timestamp_cycles : ℕ
  pub is_active : Bool
  pub was_filled : Bool

abbrev pub default_state : QueuePositionState
default_state = record {
  initial_position = pos 0;
  current_position = pos 0;
  queue_size_ahead = pos 0;
  order_id_hash = 0;
  timestamp_cycles = 0;
  is_active = false;
  was_filled = false;
}

pub record QueuePositionEstimator : Type 0 where
  pub state : QueuePositionState
  pub trade_flow : TradeFlowBuffer
  pub initial_queue_size : ℕ
  pub depletion_rate : ℕ
  pub estimated_fill_time : ℕ
  pub toxicity_flag : Bool

unfoldable pub new : QueuePositionEstimator
unfolding new_buffer
new = record {
  state = default_state;
  trade_flow = new_buffer;
  initial_queue_size = 0;
  depletion_rate = 0;
  estimated_fill_time = 0;
  toxicity_flag = false;
}

unfoldable pub initialize : QueuePositionEstimator → ℕ → ℤ → ℤ → ℕ → QueuePositionEstimator
unfolding clear
initialize e order_id initial_pos queue_size cycles = record e {
  initial_queue_size = as_u64 queue_size;
  state = record {
    order_id_hash = u64 (order_id * 0x517cc1b727220a95);
    initial_position = initial_pos;
    current_position = initial_pos;
    queue_size_ahead = queue_size;
    timestamp_cycles = cycles;
    is_active = true;
    was_filled = false;
  };
  trade_flow = clear e.trade_flow;
  toxicity_flag = false;
}

-- `saturating_sub` of i64
unfoldable pub saturating_sub : ℤ → ℤ → ℤ
saturating_sub a b =
    let d = a -ℤ b in
    if ltb (2 ^ 63 - 1) (pos_part d)
    then pos (2 ^ 63 - 1)
    else if ltb (2 ^ 63) (neg_part d)
    then negsuc (2 ^ 63 - 1)
    else d

-- The rate and the estimated time of fill after an update, of u128 cut to u64
unfoldable pub update_rate : QueuePositionEstimator → ℤ → ℤ → ℕ → QueuePositionEstimator
update_rate e flow position now =
    let elapsed = u64 (now + 2 ^ 64 - e.state.timestamp_cycles) in
    let rate = u64 (pos_part flow * 1_000_000 / max elapsed 1) in
    if ltb 0 (pos_part flow)
    then record e {
      depletion_rate = rate;
      estimated_fill_time =
          if ltb 0 (pos_part position) && ltb 0 rate
          then u64 (pos_part position * 1_000_000 / rate)
          else e.estimated_fill_time;
    }
    else e

-- The place of the order for the flow that the buffer then sums
unfoldable pub move : QueuePositionEstimator → TradeFlowBuffer → QueuePositionEstimator
move e flow_buffer =
    let left = pos_part (saturating_sub e.state.initial_position (total_flow flow_buffer)) in
    record e {
      trade_flow = flow_buffer;
      state = record e.state {
        current_position = pos left;
        was_filled = e.state.was_filled || (left == 0);
        is_active = e.state.is_active && not (left == 0);
      };
    }

-- The mask keeps the volume of a trade ahead of us and makes any other 0.
unfoldable pub update_trade_flow : QueuePositionEstimator → ℤ → Bool → ℕ → QueuePositionEstimator
unfolding push move
update_trade_flow e trade_volume is_ahead now =
    let flow_buffer = push e.trade_flow (if is_ahead then trade_volume else pos 0) in
    let e' = move e flow_buffer in
    if e.state.is_active
    then update_rate e' (total_flow flow_buffer) e'.state.current_position now
    else e

-- The product of two u64 is a u128; the quotient is cut to an i64.
unfoldable pub fill_probability : QueuePositionEstimator → ℕ → ℤ
fill_probability e time_horizon_us =
    let expected = of_bits (2 ^ 64) (u64 (e.depletion_rate * time_horizon_us / 1_000_000)) in
    let remaining = e.state.current_position in
    let scaled = max (pos_part remaining) 1 in
    if not e.state.is_active || e.state.was_filled
    then if e.state.was_filled then pos fixed_scale else pos 0
    else if e.depletion_rate == 0
    then pos 0
    else if ltb_ℤ expected remaining
    then of_bits (2 ^ 64) (
        to_bits (2 ^ 64) (
          sub_ℕ (pos_part expected * fixed_scale / scaled)
            (neg_part expected * fixed_scale / scaled)))
    else pos fixed_scale

unfoldable pub should_cancel_toxic : QueuePositionEstimator → ℤ → Bool
unfolding fill_probability
should_cancel_toxic e threshold = e.toxicity_flag || ltb_ℤ (fill_probability e 1000) threshold

unfoldable pub mark_toxic : QueuePositionEstimator → QueuePositionEstimator
mark_toxic e = record e { toxicity_flag = true }

unfoldable pub cancel : QueuePositionEstimator → QueuePositionEstimator
cancel e = record e { state = record e.state { is_active = false } }
