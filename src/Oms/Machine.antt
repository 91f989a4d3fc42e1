-- ===== src/Oms/Machine.antt =====
-- src/oms/order_state_machine.rs, `OrderStateMachine`: the table of orders and the events that it
-- passes on to them. A slot whose client order id is 0 is free.
pub mod Lookup
pub mod Commands
pub mod Timeouts
use backendofcryptotradingbo.Base.{
  ℕ, zero, suc, ◌+◌, ◌^◌, Bool, true, false, ◌||◌, ◌&&◌, Option, none, some, List, [], ◌∷◌, u64,
  ltb, leb, ◌==◌, if◌then◌else◌, set, replicate,
}
use backendofcryptotradingbo.Oms.Order
use backendofcryptotradingbo.Oms.Order.{
  Order, OrderSide, buy, TimeInForce, day, gtc, tif_u8, is_terminal, get_state, system_cancelled,
  transition_to, process_fill, set_exchange_id, set_expire_time, mark_submitted, mark_acknowledged,
  cancel, reject,
}

abbrev pub max_orders : ℕ
max_orders = 4096

pub data OrderEvent : Type 0 where
  submit : OrderEvent
  ack : ℕ → OrderEvent
  fill : ℕ → ℕ → OrderEvent
  cancel_event : OrderEvent
  reject_event : ℕ → OrderEvent

pub record OrderStateMachine : Type 0 where
  pub orders : List Order  -- [Order; MAX_ORDERS]
  pub num_active : ℕ  -- AtomicU64
  pub next_order_id : ℕ  -- AtomicU64
  pub timeout_enabled : Bool
  pub default_timeout_cycles : ℕ  -- AtomicU64

unfoldable pub empty_order : Order
unfolding Order.new
empty_order = Order.new 0 0 0 buy 0 0 day 0

unfoldable pub new : OrderStateMachine
unfolding empty_order
new = record {
  orders = replicate max_orders empty_order;
  num_active = 0;
  next_order_id = 1;
  timeout_enabled = true;
  default_timeout_cycles = 3_000_000_000;
}

-- `fetch_add` returns the old value, and wraps.
unfoldable pub generate_client_order_id : OrderStateMachine → OrderStateMachine × ℕ
generate_client_order_id m =
    (record m { next_order_id = u64 (m.next_order_id + 1) }, m.next_order_id)

-- The first slot whose client order id is `id`, with the order in it: the search for an empty slot
-- (`id` = 0) and the loop of `get_order`.
unfoldable pub find_slot : List Order → ℕ → Option (ℕ × Order)
find_slot [] id = none
find_slot (o ∷ os) id =
    if o.client_order_id == id
    then some (0, o)
    else elim (find_slot os id) [ none ↦ none | some (i, p) ↦ some (suc i, p) ]

abbrev is_gtc : TimeInForce → Bool
is_gtc gtc = true
is_gtc _ = false

-- The order that `create_order` stores.
unfoldable pub fresh_order :
    OrderStateMachine → ℕ → ℕ → OrderSide → ℕ → ℕ → TimeInForce → ℕ → ℕ → ℕ → Order
unfolding Order.new set_expire_time
fresh_order m instrument_id strategy_id side quantity price tif venue_id id now =
    let order = Order.new id instrument_id strategy_id side quantity price tif venue_id in
    if is_gtc tif then order else set_expire_time order (u64 (now + m.default_timeout_cycles))

unfoldable pub create_order :
    OrderStateMachine
    → ℕ
    → ℕ
    → OrderSide
    → ℕ
    → ℕ
    → TimeInForce
    → ℕ
    → ℕ
    → OrderStateMachine × Option ℕ
unfolding generate_client_order_id
create_order m instrument_id strategy_id side quantity price tif venue_id now =
    elim (find_slot m.orders 0) [
      | none ↦ (m, none)
      | some (idx, _) ↦
          let (m', id) = generate_client_order_id m in
          let order =
            fresh_order m instrument_id strategy_id side quantity price tif venue_id id now in
          (
            record m' { orders = set m.orders idx order; num_active = u64 (m.num_active + 1) },
            some id,
          )
    ]

-- `get_order`; a reference into the table is the slot's index, with the order that it holds.
unfoldable pub get_order : OrderStateMachine → ℕ → Option (ℕ × Order)
get_order m client_id =
    if client_id == 0 || ltb m.next_order_id client_id then none else find_slot m.orders client_id

-- One event at the order that it is for. `now` and `later` are two readings of the clock.
unfoldable pub apply_event : Order → OrderEvent → ℕ → ℕ → Order × Bool
apply_event o submit now later = mark_submitted o now later
apply_event o (ack exchange_id) now later = mark_acknowledged (set_exchange_id o exchange_id) now
apply_event o (fill qty price) now later = process_fill o qty price now later
apply_event o cancel_event now later = cancel o now
apply_event o (reject_event code) now later = reject o code now

unfoldable pub process_event : OrderStateMachine → ℕ → OrderEvent → ℕ → ℕ → OrderStateMachine × Bool
process_event m client_id event now later = elim (get_order m client_id) [
  | none ↦ (m, false)
  | some (i, o) ↦
      let (o', done) = apply_event o event now later in
      (record m { orders = set m.orders i o' }, done)
]

-- The body of the loop of `check_timeouts`: the order after it, and whether it is counted. The
-- clock read by `transition_to` is `stamp`.
unfoldable pub check_timeout : Order → ℕ → ℕ → Order × Bool
check_timeout o now stamp =
    if o.client_order_id == 0 || is_terminal (get_state o)
    then (o, false)
    else if ltb 0 o.expire_time && leb o.expire_time now
    then (record (transition_to o system_cancelled stamp).0 { error_code = 1 }, true)
    else (o, false)

-- The loop, with the clock readings of the slots in turn.
pub check_timeouts_loop : List Order → ℕ → (ℕ → ℕ) → List Order × ℕ
check_timeouts_loop [] now stamp = ([], 0)
check_timeouts_loop (o ∷ os) now stamp =
    let (o', counted) = check_timeout o now (stamp 0) in
    let (os', n) = check_timeouts_loop os now (λ i. stamp (suc i)) in
    (o' ∷ os', if counted then n + 1 else n)

-- At most `max_orders` are counted, so the u64 counter does not wrap.
unfoldable pub check_timeouts : OrderStateMachine → ℕ → (ℕ → ℕ) → OrderStateMachine × ℕ
check_timeouts m now stamp =
    if m.timeout_enabled
    then (let (os, n) = check_timeouts_loop m.orders now stamp in (record m { orders = os }, n))
    else (m, 0)

abbrev pub num_active_orders : OrderStateMachine → ℕ
num_active_orders m = m.num_active

unfoldable pub set_default_timeout_cycles : OrderStateMachine → ℕ → OrderStateMachine
set_default_timeout_cycles m cycles = record m { default_timeout_cycles = cycles }

unfoldable pub set_timeout_enabled : OrderStateMachine → Bool → OrderStateMachine
set_timeout_enabled m enabled = record m { timeout_enabled = enabled }

-- `reset_all` leaves the timeout settings alone.
unfoldable pub reset_all : OrderStateMachine → OrderStateMachine
unfolding empty_order
reset_all m = record m {
  orders = replicate max_orders empty_order;
  num_active = 0;
  next_order_id = 1;
}
