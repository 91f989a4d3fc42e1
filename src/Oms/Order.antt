-- ===== src/Oms/Order.antt =====
-- src/oms/order_state_machine.rs, `Order`: one order's atomic fields and the methods that change them.
-- An `AtomicU64` field is a number below 2 ^ 64. A method on `&self` returns the new order. Each
-- reading of the cycle counter (`_rdtsc`) is an argument `now`.
pub mod Transitions
pub mod Race
pub mod Fills
use backendofcryptotradingbo.Base.{
  ℕ, ◌+◌, ◌-◌, ◌*◌, ◌/◌, ◌%◌, ◌^◌, Bool, true, false, ◌||◌, u64, u32, u8, ltb, leb, ◌==◌,
  if◌then◌else◌,
}
use Prim.Native.Nat.{bit_and, bit_or, bit_xor}

pub data OrderState : Type 0 where
  pending submitted acknowledged partially_filled filled : OrderState
  cancelled system_cancelled rejected expired : OrderState

-- `new_state as u32`
abbrev pub as_u32 : OrderState → ℕ
as_u32 pending = 0
as_u32 submitted = 1
as_u32 acknowledged = 2
as_u32 partially_filled = 3
as_u32 filled = 4
as_u32 cancelled = 5
as_u32 system_cancelled = 6
as_u32 rejected = 7
as_u32 expired = 8

abbrev pub is_terminal : OrderState → Bool
is_terminal filled = true
is_terminal cancelled = true
is_terminal system_cancelled = true
is_terminal rejected = true
is_terminal expired = true
is_terminal _ = false

abbrev pub allows_fills : OrderState → Bool
allows_fills submitted = true
allows_fills acknowledged = true
allows_fills partially_filled = true
allows_fills _ = false

pub data OrderSide : Type 0 where
  buy sell : OrderSide

abbrev pub side_u8 : OrderSide → ℕ
side_u8 buy = 0
side_u8 sell = 1

pub data TimeInForce : Type 0 where
  day ioc fok gtc gtd : TimeInForce

abbrev pub tif_u8 : TimeInForce → ℕ
tif_u8 day = 0
tif_u8 ioc = 1
tif_u8 fok = 2
tif_u8 gtc = 3
tif_u8 gtd = 4

pub record Order : Type 0 where
  pub client_order_id : ℕ  -- u64
  pub exchange_order_id : ℕ  -- AtomicU64
  pub instrument_id : ℕ  -- u16
  pub strategy_id : ℕ  -- u16
  pub side : ℕ  -- u8
  pub time_in_force : ℕ  -- u8
  pub state : ℕ  -- AtomicU32
  pub quantity : ℕ  -- u64
  pub price : ℕ  -- u64
  pub filled_qty : ℕ  -- AtomicU64
  pub avg_fill_price : ℕ  -- AtomicU64
  pub remaining_qty : ℕ  -- AtomicU64
  pub submit_time : ℕ  -- AtomicU64
  pub last_update_time : ℕ  -- AtomicU64
  pub expire_time : ℕ  -- AtomicU64
  pub venue_id : ℕ  -- u8
  pub priority : ℕ  -- u8
  pub parent_order_id : ℕ  -- u64
  pub fill_count : ℕ  -- AtomicU32
  pub error_code : ℕ  -- AtomicU32
  pub flags : ℕ  -- AtomicU32

-- `Order::new`
unfoldable pub new : ℕ → ℕ → ℕ → OrderSide → ℕ → ℕ → TimeInForce → ℕ → Order
new client_order_id instrument_id strategy_id side quantity price time_in_force venue_id = record {
  client_order_id = client_order_id;
  exchange_order_id = 0;
  instrument_id = instrument_id;
  strategy_id = strategy_id;
  side = side_u8 side;
  time_in_force = tif_u8 time_in_force;
  state = as_u32 pending;
  quantity = quantity;
  price = price;
  filled_qty = 0;
  avg_fill_price = 0;
  remaining_qty = quantity;
  submit_time = 0;
  last_update_time = 0;
  expire_time = 0;
  venue_id = venue_id;
  priority = 0;
  parent_order_id = 0;
  fill_count = 0;
  error_code = 0;
  flags = 0;
}

-- The `match` of `get_state`: a number that is no state reads as `pending`.
abbrev pub state_of : ℕ → OrderState
state_of s =
    if s == 0
    then pending
    else if s == 1
    then submitted
    else if s == 2
    then acknowledged
    else if s == 3
    then partially_filled
    else if s == 4
    then filled
    else if s == 5
    then cancelled
    else if s == 6
    then system_cancelled
    else if s == 7
    then rejected
    else if s == 8
    then expired
    else pending

abbrev pub get_state : Order → OrderState
get_state o = state_of o.state

unfoldable pub is_valid_transition : ℕ → ℕ → Bool
is_valid_transition from to =
    if from == 0
    then leb to 2
    else if from == 1
    then leb to 7
    else if from == 2
    then leb to 7
    else if from == 3
    then to == 3 || to == 4 || leb 5 to
    else false

-- The part of `transition_to` after the load, which gave `seen`: the check of the transition, the
-- compare-and-exchange, and the time stamp of a success.
unfoldable pub transition_from : Order → ℕ → OrderState → ℕ → Order × Bool
transition_from o seen new_state now =
    if is_valid_transition (u8 seen) (u8 (as_u32 new_state))
    then if o.state == seen
      then (record o { state = as_u32 new_state; last_update_time = now }, true)
      else (o, false)
    else (o, false)

-- `transition_to`, with no other thread between its load and its exchange.
unfoldable pub transition_to : Order → OrderState → ℕ → Order × Bool
unfolding transition_from
transition_to o new_state now = transition_from o o.state new_state now

-- The new average: a u128 computation, truncated to u64.
unfoldable pub average_price : ℕ → ℕ → ℕ → ℕ → ℕ → ℕ
average_price old_avg old_filled fill_price fill_qty new_filled =
    let total_value = (old_avg * old_filled + fill_price * fill_qty) % 2 ^ 128 in
    if ltb 0 new_filled then u64 (total_value / new_filled) else 0

-- What `process_fill` stores before it looks at the state again.
unfoldable pub record_fill : Order → ℕ → ℕ → Order
unfolding average_price
record_fill o fill_qty fill_price =
    let new_filled = u64 (o.filled_qty + fill_qty) in
    record o {
      filled_qty = new_filled;
      avg_fill_price = average_price o.avg_fill_price o.filled_qty fill_price fill_qty new_filled;
      remaining_qty = o.quantity - new_filled;
      fill_count = u32 (o.fill_count + 1);
    }

abbrev pub is_partially_filled : OrderState → Bool
is_partially_filled partially_filled = true
is_partially_filled _ = false

-- `process_fill`. The clock is read in `transition_to` (`now`) and again at the end (`later`).
unfoldable pub process_fill : Order → ℕ → ℕ → ℕ → ℕ → Order × Bool
unfolding record_fill transition_to
process_fill o fill_qty fill_price now later =
    let current_state = get_state o in
    let o' = record_fill o fill_qty fill_price in
    let moved =
      if leb o.quantity o'.filled_qty
      then (transition_to o' filled now).0
      else if is_partially_filled current_state
      then o'
      else (transition_to o' partially_filled now).0 in
    if allows_fills current_state
    then (record moved { last_update_time = later }, true)
    else (o, false)

unfoldable pub set_exchange_id : Order → ℕ → Order
set_exchange_id o exchange_id = record o { exchange_order_id = exchange_id }

abbrev pub get_exchange_id : Order → ℕ
get_exchange_id o = o.exchange_order_id

unfoldable pub is_expired : Order → ℕ → Bool
is_expired o now = if o.expire_time == 0 then false else leb o.expire_time now

unfoldable pub set_expire_time : Order → ℕ → Order
set_expire_time o cycles = record o { expire_time = cycles }

unfoldable pub mark_submitted : Order → ℕ → ℕ → Order × Bool
unfolding transition_to
mark_submitted o now later = transition_to (record o { submit_time = now }) submitted later

unfoldable pub mark_acknowledged : Order → ℕ → Order × Bool
unfolding transition_to
mark_acknowledged o now = transition_to o acknowledged now

unfoldable pub cancel : Order → ℕ → Order × Bool
unfolding transition_to
cancel o now = if is_terminal (get_state o) then (o, false) else transition_to o cancelled now

unfoldable pub reject : Order → ℕ → ℕ → Order × Bool
unfolding transition_to
reject o code now = transition_to (record o { error_code = code }) rejected now

abbrev pub get_remaining_qty : Order → ℕ
get_remaining_qty o = o.remaining_qty

abbrev pub get_filled_qty : Order → ℕ
get_filled_qty o = o.filled_qty

-- The flag methods; a shift of the release build takes its distance modulo 32.
abbrev flag_mask : ℕ → ℕ
flag_mask bit = 2 ^ (bit % 32)

unfoldable pub has_flag : Order → ℕ → Bool
has_flag o bit = if bit_and o.flags (flag_mask bit) == 0 then false else true

unfoldable pub set_flag : Order → ℕ → ℕ → Order
set_flag o bit now =
    let o' = record o { flags = bit_or o.flags (flag_mask bit) } in
    if bit_and o.flags (flag_mask bit) == 0 then record o' { last_update_time = now } else o'

unfoldable pub clear_flag : Order → ℕ → Order
clear_flag o bit = record o { flags = bit_and o.flags (bit_xor (2 ^ 32 - 1) (flag_mask bit)) }
