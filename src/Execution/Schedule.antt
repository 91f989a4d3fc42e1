-- ===== src/Execution/Schedule.antt =====
-- src/execution/twap_vwap.rs: an order cut into child orders over time. Numbers are u64 unless a comment
-- says otherwise; a reading of the cycle counter is an argument.
pub mod Slices
pub mod State
use Prim.Native.Nat.{bit_and, min, max}
use backendofcryptotradingbo.Base.{
  ℕ, zero, suc, ◌+◌, ◌-◌, ◌*◌, ◌/◌, ◌%◌, ◌^◌, Bool, true, false, ◌&&◌, ◌||◌, Option, none, some,
  u64, ltb, leb, ◌==◌, if◌then◌else◌, get_or, set,
}
use backendofcryptotradingbo.Base.Int.{ℤ, pos, ◌-ℤ◌, ◌*ℤ◌, of_bits, wrap, div_ℤ}
unfoldable pub use State.*

unfoldable pub new_twap : ℕ → ℕ → ℕ → ExecutionAlgo
new_twap parent_qty duration_ms num_slices = new_algo parent_qty twap duration_ms num_slices 0

unfoldable pub new_vwap : ℕ → ℕ → ExecutionAlgo
new_vwap parent_qty duration_ms = new_algo parent_qty vwap duration_ms 96 0

unfoldable pub new_pov : ℕ → ℕ → ExecutionAlgo
new_pov parent_qty participation_rate_bp = new_algo parent_qty pov 0 0 participation_rate_bp

unfoldable pub set_side : ExecutionAlgo → Side → ExecutionAlgo
set_side a side = record a { algo_side = side_u8 side }

unfoldable pub add_to_timer_wheel : ExecutionAlgo → ℕ → ℕ → ExecutionAlgo
add_to_timer_wheel a order_idx slot =
    let s = get_or a.timer_wheel slot empty_slot in
    if leb timer_wheel_slots slot
    then a
    else if ltb s.count 16
    then record a {
      timer_wheel =
          set a.timer_wheel slot (record s {
            order_indices = set s.order_indices s.count order_idx;
            count = s.count + 1;
          });
    }
    else a

-- `x & (TIMER_WHEEL_SLOTS - 1)` as a u16
abbrev pub slot_of : ℕ → ℕ
slot_of x = bit_and x (timer_wheel_slots - 1) % 2 ^ 16

abbrev pub child : ℕ → ℕ → ℕ → ℕ → ChildOrder
child i quantity side time_slot = record {
  order_id = i + 1;
  parent_id = 1;
  quantity = quantity;
  price = 0;
  side = side;
  venue_id = 0;
  time_slot = time_slot;
  status = 0;
  fill_qty = 0;
  fill_price = 0;
  timestamp_cycles = 0;
}

abbrev pub put_child : ExecutionAlgo → ℕ → ChildOrder → ExecutionAlgo
put_child a i c =
    add_to_timer_wheel (record a { child_orders = set a.child_orders i c }) i c.time_slot

-- Slice `i` of `generate_twap_slices`
unfoldable pub twap_child : ExecutionAlgo → ℕ → ℕ → ChildOrder
twap_child a cycle_freq i =
    let time_offset_ms = u64 (a.duration_ms * i) / a.num_slices in
    child i (a.parent_qty / a.num_slices + (if ltb i (a.parent_qty % a.num_slices) then 1 else 0))
      a.algo_side (slot_of (u64 (time_offset_ms * cycle_freq)))

-- The loop with `n` rounds left, from slice `i` on; the quantities come from `start`, which the loop
-- leaves as they are.
unfoldable pub twap_loop : ℕ → ℕ → ℕ → ExecutionAlgo → ExecutionAlgo → ExecutionAlgo
twap_loop zero i cycle_freq start a = a
twap_loop (suc n) i cycle_freq start a =
    twap_loop n (suc i) cycle_freq start (put_child a i (twap_child start cycle_freq i))

unfoldable pub generate_twap_slices : ExecutionAlgo → ℕ → ExecutionAlgo
generate_twap_slices a tsc =
    if (a.num_slices == 0) || ltb max_child_orders a.num_slices
    then a
    else record (twap_loop (min a.num_slices max_child_orders) 0 (tsc / 1_000_000) a a) {
      num_children = a.num_slices;
    }

abbrev pub vwap_slice_qty : ℕ → ℕ → ℕ
vwap_slice_qty parent_qty i = u64 (parent_qty * (vwap_bucket i).volume_bp) / 10000

-- The order of bucket `i`, with the quantity that remains before it
unfoldable pub vwap_child : ExecutionAlgo → ℕ → ℕ → ChildOrder
vwap_child start i remaining_qty =
    let slice_qty = vwap_slice_qty start.parent_qty i in
    let remaining = if i == 95 then max slice_qty remaining_qty else remaining_qty in
    child i (min remaining slice_qty) start.algo_side
      (slot_of (u64 ((vwap_bucket i).start_ms * 3_000_000)))

-- The loop with `n` rounds left, from bucket `i` on, with the quantity that remains
unfoldable pub vwap_loop : ℕ → ℕ → ℕ → ExecutionAlgo → ExecutionAlgo → ExecutionAlgo
vwap_loop zero i remaining_qty start a = a
vwap_loop (suc n) i remaining_qty start a =
    let slice_qty = vwap_slice_qty start.parent_qty i in
    let remaining = if i == 95 then max slice_qty remaining_qty else remaining_qty in
    let c = vwap_child start i remaining_qty in
    vwap_loop n (suc i) (remaining - slice_qty) start
      (if ltb i max_child_orders then put_child a i c else a)

unfoldable pub generate_vwap_slices : ExecutionAlgo → ExecutionAlgo
generate_vwap_slices a = record (vwap_loop (min a.num_slices 96) 0 a.parent_qty a a) {
  num_children = a.num_slices;
}

-- `start`; the slices read the clock again, at `later`.
unfoldable pub start : ExecutionAlgo → ℕ → ℕ → ExecutionAlgo
start a now later =
    let a' = record a {
      start_time = now;
      end_time = u64 (now + u64 (a.duration_ms * 3_000_000));
      active = true;
    } in
    if a.algo_type == 0
    then generate_twap_slices a' later
    else if a.algo_type == 1
    then generate_vwap_slices a'
    else a'

abbrev pub current_slot : ExecutionAlgo → ℕ
current_slot a = bit_and a.timer_position (timer_wheel_slots - 1)

unfoldable pub get_next_order : ExecutionAlgo → Option ChildOrder
get_next_order a =
    let s = get_or a.timer_wheel (current_slot a) empty_slot in
    let idx = get_or s.order_indices 0 65535 in
    let c = get_or a.child_orders idx empty_child in
    if a.active
    then if s.count == 0
      then none
      else if ltb idx max_child_orders && ((c.status == 0) && ltb 0 c.quantity)
      then some c
      else none
    else none

unfoldable pub advance_timer : ExecutionAlgo → ExecutionAlgo
advance_timer a =
    let s = get_or a.timer_wheel (current_slot a) empty_slot in
    record a {
      timer_wheel = set a.timer_wheel (current_slot a) (record s { count = 0 });
      timer_position = u64 (a.timer_position + 1);
    }

-- The average is computed in u128.
unfoldable pub new_average : ℕ → ℕ → ℕ → ℕ → ℕ
new_average old_avg old_filled fill_price fill_qty =
    let new_filled = u64 (old_filled + fill_qty) in
    if ltb 0 new_filled
    then u64 ((old_avg * old_filled + fill_price * fill_qty) % 2 ^ 128 / new_filled)
    else 0

unfoldable pub update_fill : ExecutionAlgo → ℕ → ℕ → ℕ → ℕ → ExecutionAlgo
unfolding new_average
update_fill a order_id fill_qty fill_price now =
    let c = get_or a.child_orders (order_id - 1) empty_child in
    if (order_id == 0) || ltb max_child_orders order_id then a else record a {
      child_orders = set a.child_orders (order_id - 1) (record c {
        status = 2;
        fill_qty = fill_qty;
        fill_price = fill_price;
        timestamp_cycles = now;
      });
      filled_qty = u64 (a.filled_qty + fill_qty);
      avg_fill_price = new_average a.avg_fill_price a.filled_qty fill_price fill_qty;
    }

unfoldable pub is_complete : ExecutionAlgo → Bool
is_complete a = leb a.parent_qty a.filled_qty

unfoldable pub get_progress_bp : ExecutionAlgo → ℕ
get_progress_bp a =
    if a.parent_qty == 0 then 0 else u64 (a.filled_qty * 10000) / a.parent_qty % 2 ^ 16

abbrev pub as_i64 : ℕ → ℤ
as_i64 n = of_bits (2 ^ 64) n

unfoldable pub get_slippage_bp : ExecutionAlgo → ℕ → ℤ
get_slippage_bp a arrival_price =
    let avg = as_i64 a.avg_fill_price in
    let arrival = as_i64 arrival_price in
    let diff =
      wrap (2 ^ 64) (if a.algo_side == side_u8 buy then avg -ℤ arrival else arrival -ℤ avg) in
    if (arrival_price == 0) || (a.avg_fill_price == 0)
    then pos 0
    else wrap (2 ^ 16) (div_ℤ (wrap (2 ^ 64) (diff *ℤ pos 10000)) arrival)

unfoldable pub stop : ExecutionAlgo → ExecutionAlgo
stop a = record a { active = false }

unfoldable pub get_remaining_qty : ExecutionAlgo → ℕ
get_remaining_qty a = a.parent_qty - a.filled_qty

unfoldable pub calculate_pov_size : ExecutionAlgo → ℕ → ℕ
calculate_pov_size a market_volume =
    if market_volume == 0 then 0 else u64 (market_volume * a.pov_rate_bp) / 10000
