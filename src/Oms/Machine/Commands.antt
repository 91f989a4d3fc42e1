-- ===== src/Oms/Machine/Commands.antt =====
-- The calls of a client of `OrderStateMachine`, in any order (src/oms/order_state_machine.rs).
pub mod Known
pub mod Slots
use backendofcryptotradingbo.Base.{
  ℕ, ◌+◌, ◌^◌, ◌≤◌, ◌<◌, ◌≡◌, inl, inr, true, false, some, List, [], ◌∷◌, ◌==◌, if◌then◌else◌, set,
  arith, ==_iff, Bool-cases, Option-cases, length,
}
use backendofcryptotradingbo.Oms.Order
use backendofcryptotradingbo.Oms.Order.{Order, OrderSide, TimeInForce, is_terminal, get_state}
use backendofcryptotradingbo.Oms.Machine.{
  OrderStateMachine, OrderEvent, find_slot, create_order, get_order, apply_event, process_event,
  check_timeout, check_timeouts_loop, check_timeouts,
}
use backendofcryptotradingbo.Oms.Machine.Lookup.{IsValid, create_order_lem, create_order_full}
use backendofcryptotradingbo.Oms.Machine.Commands.Slots.{
  IsFrozen, apply_event-IsFrozen, apply_event_id, check_timeout-IsFrozen, event_used,
  find_slot-timeouts, find_slot-write, find_slot_used, get_order-find_slot, timeouts_state,
  timeouts_used,
}

pub data Command : Type 0 where
  create : ℕ → ℕ → OrderSide → ℕ → ℕ → TimeInForce → ℕ → ℕ → Command
  event : ℕ → OrderEvent → ℕ → ℕ → Command
  timeouts : ℕ → (ℕ → ℕ) → Command

unfoldable pub execute : OrderStateMachine → Command → OrderStateMachine
execute m (create instrument_id strategy_id side quantity price tif venue_id now) =
    (create_order m instrument_id strategy_id side quantity price tif venue_id now).0
execute m (event id ev now later) = (process_event m id ev now later).0
execute m (timeouts now stamp) = (check_timeouts m now stamp).0

unfoldable pub run : OrderStateMachine → List Command → OrderStateMachine
run m [] = m
run m (c ∷ cs) = run (execute m c) cs

timeouts-on :
    (m : OrderStateMachine) (now : ℕ) (stamp : ℕ → ℕ)
    → m.timeout_enabled ≡ true
    → execute m (timeouts now stamp)
      ≡ record m { orders = (check_timeouts_loop m.orders now stamp).0 }
unfolding execute check_timeouts
timeouts-on m now stamp t = ground arith

timeouts-off :
    (m : OrderStateMachine) (now : ℕ) (stamp : ℕ → ℕ)
    → m.timeout_enabled ≡ false
    → execute m (timeouts now stamp) ≡ m
unfolding execute check_timeouts
timeouts-off m now stamp t = ground arith

-- Every command keeps the ids below the next one, which grows by one at most.
execute-IsValid :
    (m : OrderStateMachine) (c : Command)
    → IsValid m
    → m.next_order_id + 1 < 2 ^ 64
    → IsValid (execute m c) × ((execute m c).next_order_id ≤ m.next_order_id + 1)
unfolding execute process_event check_timeouts
execute-IsValid m (create instrument_id strategy_id side quantity price tif venue_id now) v room =
    elim (Option-cases (find_slot m.orders 0)) [
      | inl e ↦
          rw
            (
              create_order_full m instrument_id strategy_id side quantity price tif venue_id now e,
              execute,
            )
            (v, omega arith)
      | inr ((i, free), e) ↦
          let made =
            create_order_lem m instrument_id strategy_id side quantity price tif venue_id now i 0
              free v room e in
          (made.2, omega (arith, made.4))
    ]
execute-IsValid m (event id ev now later) v room = elim (Option-cases (get_order m id)) [
  | inl e ↦ rw (e, execute, process_event) (v, omega arith)
  | inr ((i, o), e) ↦
      rw (e, execute, process_event) (event_used m id i ev now later o v e, omega arith)
]
execute-IsValid m (timeouts now stamp) v room = elim (Bool-cases m.timeout_enabled) [
  | inl e ↦ rw (timeouts-on m now stamp e) (
    record {
      ids_used = timeouts_used m.orders m.next_order_id now stamp v.ids_used;
      next_pos = v.next_pos;
      known_states = timeouts_state m.orders now stamp v.known_states;
    },
    omega arith,
  )
  | inr e ↦ rw (timeouts-off m now stamp e) (v, omega arith)
]

IsFrozen-trans : (o p q : Order) → IsFrozen o p → IsFrozen p q → IsFrozen o q
IsFrozen-trans o p q a b = omega arith

get_order-timeouts :
    (m : OrderStateMachine) (now : ℕ) (stamp : ℕ → ℕ) (id i : ℕ) (o : Order)
    → get_order m id ≡ some (i, o)
    → get_order (record m { orders = (check_timeouts_loop m.orders now stamp).0 }) id
      ≡ some (i, (check_timeout o now (stamp i)).0)
unfolding get_order
get_order-timeouts m now stamp id i o e =
    ground (arith, find_slot-timeouts m.orders id i now stamp o)

-- `get_order` after the order with id `j` was written back.
get_order-write :
    (m : OrderStateMachine) (id j i : ℕ) (o o' : Order)
    → get_order m j ≡ some (i, o)
    → o'.client_order_id ≡ o.client_order_id
    → get_order (record m { orders = set m.orders i o' }) id
      ≡ (if j == id then some (i, o') else get_order m id)
unfolding get_order
get_order-write m id j i o o' e k = ground (arith, find_slot-write m.orders id j i o o')

event-IsFrozen :
    (m : OrderStateMachine) (j k id i now later : ℕ) (ev : OrderEvent) (p o : Order)
    → get_order m j ≡ some (k, p)
    → get_order m id ≡ some (i, o)
    → is_terminal (get_state o) ≡ true
    → (o' : Order) × (get_order
          (record m { orders = set m.orders k (apply_event p ev now later).0 })
          id
        ≡ some (i, o'))
      × IsFrozen o o'
event-IsFrozen m j k id i now later ev p o f e h =
    let written =
      get_order-write m id j k p (apply_event p ev now later).0 f (apply_event_id p ev now later) in
    elim (Bool-cases (j == id)) [
      | inl same ↦ (
        (apply_event o ev now later).0,
        rw (written, same) (let ids : j ≡ id = (==_iff j id).0 same in cc),
        apply_event-IsFrozen o ev now later h,
      )
      | inr other ↦ (o, rw (written, other) e, omega arith)
    ]

-- An ended order is still found after any command, with its outcome as it was.
execute-IsFrozen :
    (m : OrderStateMachine) (c : Command) (id i : ℕ) (o : Order)
    → IsValid m
    → m.next_order_id + 1 < 2 ^ 64
    → get_order m id ≡ some (i, o)
    → is_terminal (get_state o) ≡ true
    → (o' : Order) × (get_order (execute m c) id ≡ some (i, o')) × IsFrozen o o'
unfolding execute process_event check_timeouts
execute-IsFrozen m (create instrument_id strategy_id side quantity price tif venue_id now) id i o v
      room e h =
    let (at_id, below) =
      find_slot_used m.orders id m.next_order_id i o (get_order-find_slot m id i o e).0
        v.ids_used in
    elim (Option-cases (find_slot m.orders 0)) [
      | inl f ↦ (
        o,
        rw
            (
              create_order_full m instrument_id strategy_id side quantity price tif venue_id now f,
              execute,
            )
            e,
        omega arith,
      )
      | inr ((k, free), f) ↦
          let made =
            create_order_lem m instrument_id strategy_id side quantity price tif venue_id now k id
              free v room f in
          (o, ground (arith, made.1, e), omega arith)
    ]
execute-IsFrozen m (event j ev now later) id i o v room e h = elim (Option-cases (get_order m j)) [
  | inl f ↦ (o, rw (f, execute, process_event) e, omega arith)
  | inr ((k, p), f) ↦
      rw (f, execute, process_event) (event-IsFrozen m j k id i now later ev p o f e h)
]
execute-IsFrozen m (timeouts now stamp) id i o v room e h = elim (Bool-cases m.timeout_enabled) [
  | inl t ↦ (
    (check_timeout o now (stamp i)).0,
    rw (timeouts-on m now stamp t) (get_order-timeouts m now stamp id i o e),
    check_timeout-IsFrozen o now (stamp i) h,
  )
  | inr t ↦ (o, rw (timeouts-off m now stamp t) e, omega arith)
]

-- From a valid table with ids left for every command: an order that has ended is found under its id
-- in the same slot after any sequence of creations, events (for any order) and timeout checks, and its
-- state, filled and remaining quantity, average price and number of fills are what they were.
pub run-IsFrozen :
    (m : OrderStateMachine) (cs : List Command) (id i : ℕ) (o : Order)
    → IsValid m
    → m.next_order_id + length cs < 2 ^ 64
    → get_order m id ≡ some (i, o)
    → is_terminal (get_state o) ≡ true
    → (o' : Order) × (get_order (run m cs) id ≡ some (i, o')) × IsFrozen o o'
unfolding run
run-IsFrozen m [] id i o v room e h = (o, e, omega arith)
run-IsFrozen m (c ∷ cs) id i o v room e h =
    let (v', few) = execute-IsValid m c v (omega arith) in
    let (p, at_p, kept) = execute-IsFrozen m c id i o v (omega arith) e h in
    let (q, at_q, still) =
      run-IsFrozen (execute m c) cs id i p v' (omega arith) at_p (rw (kept.same_state) h) in
    (q, at_q, IsFrozen-trans o p q kept still)
