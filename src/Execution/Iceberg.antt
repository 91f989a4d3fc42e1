-- ===== src/Execution/Iceberg.antt =====
-- src/execution/iceberg_handler.rs: iceberg orders, of which a part is shown, and their places in the
-- queue. Numbers are u64 unless a comment says otherwise; the clock is `now`. A slot whose order id is 0
-- is free.
pub mod Visible
pub mod Simd
pub mod State
use Prim.Native.Nat.{min, max}
use backendofcryptotradingbo.Base.{
  ℕ, suc, ◌+◌, ◌-◌, ◌*◌, ◌/◌, ◌%◌, ◌^◌, Bool, true, false, ◌&&◌, ◌||◌, Option, none, some, List, [],
  ◌∷◌, u64, ltb, leb, ◌==◌, if◌then◌else◌, get_or, set, replicate,
}
unfoldable pub use State.*

unfoldable pub new : IcebergHandler
new = record {
  orders = replicate max_iceberg_orders empty;
  num_active = 0;
  queue_positions = replicate max_iceberg_orders new_position;
  default_display_ratio_bp = 1000;
  aggressive_refill_threshold = 10;
  queue_tracking_enabled = true;
}

abbrev pub order_at : IcebergHandler → ℕ → IcebergOrder
order_at h idx = get_or h.orders idx empty

abbrev pub position_at : IcebergHandler → ℕ → QueuePosition
position_at h idx = get_or h.queue_positions idx new_position

-- The product wraps in the release build.
unfoldable pub calculate_min_display : ℕ → ℕ → ℕ
calculate_min_display total_qty ratio_bp = max (u64 (total_qty * ratio_bp) / 10000) 1

-- The first free slot
unfoldable pub find_empty : List IcebergOrder → Option ℕ
find_empty [] = none
find_empty (o ∷ orders) =
    if o.order_id == 0
    then some 0
    else elim (find_empty orders) [ none ↦ none | some i ↦ some (suc i) ]

unfoldable pub fresh_order : IcebergHandler → ℕ → ℕ → ℕ → ℕ → ℕ → ℕ → IcebergOrder
unfolding calculate_min_display
fresh_order h order_id total_qty price side venue_id now =
    let min_display = calculate_min_display total_qty h.default_display_ratio_bp in
    record {
      order_id = order_id;
      total_qty = total_qty;
      visible_qty = min min_display total_qty;
      filled_qty = 0;
      remaining_visible = min min_display total_qty;
      price = price;
      side = side;
      state = state_u8 active;
      venue_id = venue_id;
      min_display_qty = min_display;
      queue_position = 1;
      orders_ahead = 0;
      volume_ahead = 0;
      last_fill_time = 0;
      created_time = now;
      fill_rate_estimate = 0;
    }

unfoldable pub create_iceberg : IcebergHandler → ℕ → ℕ → ℕ → ℕ → ℕ → ℕ → IcebergHandler × Option ℕ
create_iceberg h order_id total_qty price side venue_id now =
    if total_qty == 0 || price == 0 then (h, none) else elim (find_empty h.orders) [
      | none ↦ (h, none)
      | some idx ↦ (
        record h {
          orders = set h.orders idx (fresh_order h order_id total_qty price side venue_id now);
          num_active = u64 (h.num_active + 1);
        },
        some idx,
      )
    ]

unfoldable pub update_queue_position : IcebergHandler → ℕ → ℕ → ℕ → ℕ → IcebergHandler
unfolding update_position
update_queue_position h idx position volume_ahead level_volume =
    if leb max_iceberg_orders idx then h else record h {
      orders = set h.orders idx (record (order_at h idx) {
        queue_position = position;
        orders_ahead = position - 1;
        volume_ahead = volume_ahead;
      });
      queue_positions =
          if h.queue_tracking_enabled
          then set h.queue_positions idx
              (update_position (position_at h idx) position volume_ahead level_volume)
          else h.queue_positions;
    }

-- `refill_visible` at the order; both branches of the source's test refill the same quantity.
unfoldable pub refill_visible : IcebergOrder → ℕ → IcebergOrder
refill_visible o threshold = if remaining_hidden o == 0 then o else record o {
  remaining_visible =
      if leb o.queue_position threshold
      then min o.min_display_qty (remaining_hidden o)
      else min o.min_display_qty (remaining_hidden o);
}

-- Our fill at the order, and whether the order is now complete
unfoldable pub fill_order : IcebergOrder → ℕ → ℕ → ℕ → IcebergOrder × Bool
unfolding refill_visible
fill_order o fill_qty threshold now =
    let filled = u64 (o.filled_qty + fill_qty) in
    let o' = record o {
      filled_qty = filled;
      remaining_visible = o.remaining_visible - fill_qty;
      last_fill_time = now;
      state =
          if leb o.total_qty filled
          then state_u8 completed
          else if ltb 0 filled
          then state_u8 partially_filled
          else o.state;
    } in
    (
      if (o'.remaining_visible == 0) && ltb filled o.total_qty
          then refill_visible o' threshold
          else o',
      leb o.total_qty filled,
    )

unfoldable pub process_level_fill : IcebergHandler → ℕ → ℕ → Bool → ℕ → IcebergHandler
unfolding record_fill_at_level
process_level_fill h idx fill_qty is_our_fill now =
    if leb max_iceberg_orders idx
    then h
    else let h' = record h {
      queue_positions =
          set h.queue_positions idx (record_fill_at_level (position_at h idx) fill_qty);
    } in
      let (o, done) = fill_order (order_at h idx) fill_qty h.aggressive_refill_threshold now in
      if is_our_fill
      then record h' {
        orders = set h.orders idx o;
        num_active = if done then u64 (h.num_active + 2 ^ 64 - 1) else h.num_active;
      }
      else h'

abbrev pub u64_max : ℕ
u64_max = 2 ^ 64 - 1

unfoldable pub estimate_fill_time_ms : IcebergHandler → ℕ → ℕ
unfolding get_fill_rate
estimate_fill_time_ms h idx =
    if leb max_iceberg_orders idx
    then u64_max
    else if get_fill_rate (position_at h idx) == 0
    then u64_max
    else (order_at h idx).volume_ahead / get_fill_rate (position_at h idx)

unfoldable pub fill_probability_bp : IcebergHandler → ℕ → ℕ → ℕ
unfolding get_fill_rate
fill_probability_bp h idx time_ms =
    let ahead = (order_at h idx).volume_ahead in
    let rate = get_fill_rate (position_at h idx) in
    let expected = u64 (rate * time_ms) in
    if leb max_iceberg_orders idx
    then 0
    else if (rate == 0) || (ahead == 0)
    then 0
    else if leb ahead expected
    then 10000
    else u64 (expected * 10000) / ahead % 2 ^ 16

unfoldable pub cancel_order : IcebergHandler → ℕ → IcebergHandler × Bool
cancel_order h idx =
    let o = order_at h idx in
    if leb max_iceberg_orders idx
    then (h, false)
    else if (o.state == state_u8 completed) || (o.state == state_u8 cancelled)
    then (h, false)
    else (
      record h {
        orders = set h.orders idx (record o { state = state_u8 cancelled });
        num_active = u64 (h.num_active + 2 ^ 64 - 1);
      },
      true,
    )

unfoldable pub get_order : IcebergHandler → ℕ → Option IcebergOrder
get_order h idx = if leb max_iceberg_orders idx then none else some (order_at h idx)

abbrev pub num_active_orders : IcebergHandler → ℕ
num_active_orders h = h.num_active

unfoldable pub set_display_ratio_bp : IcebergHandler → ℕ → IcebergHandler
set_display_ratio_bp h ratio_bp = record h { default_display_ratio_bp = min ratio_bp 10000 }

unfoldable pub set_aggressive_threshold : IcebergHandler → ℕ → IcebergHandler
set_aggressive_threshold h threshold = record h { aggressive_refill_threshold = threshold }

unfoldable pub reset_all : IcebergHandler → IcebergHandler
reset_all h = record h {
  orders = replicate max_iceberg_orders empty;
  queue_positions = replicate max_iceberg_orders new_position;
  num_active = 0;
}
