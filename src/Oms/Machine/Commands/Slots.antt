-- ===== src/Oms/Machine/Commands/Slots.antt =====
-- What events and timeouts keep of an order and of the slots of the table
-- (src/oms/order_state_machine.rs, `OrderStateMachine`).
use backendofcryptotradingbo.Base.{
  ℕ, zero, suc, ◌≤◌, ◌<◌, ◌≡◌, ◌≢◌, true, some, List, [], ◌∷◌, ◌==◌, if◌then◌else◌, set, arith, All,
  All-set,
}
use backendofcryptotradingbo.Oms.Order
use backendofcryptotradingbo.Oms.Order.{Order, is_terminal, get_state, is_valid_transition}
use backendofcryptotradingbo.Oms.Machine.{
  OrderStateMachine, OrderEvent, submit, find_slot, get_order, apply_event, check_timeout,
  check_timeouts_loop,
}
use backendofcryptotradingbo.Oms.Machine.Lookup.{IsValid}

-- No event and no timeout changes an order's id.
pub apply_event_id :
    (o : Order) (ev : OrderEvent) (now later : ℕ)
    → (apply_event o ev now later).0.client_order_id ≡ o.client_order_id
unfolding apply_event Order.mark_submitted Order.mark_acknowledged Order.process_fill Order.cancel
    Order.reject Order.set_exchange_id
apply_event_id o submit now later = ground arith
apply_event_id o ev now later = ground arith

check_timeout_id :
    (o : Order) (now stamp : ℕ) → (check_timeout o now stamp).0.client_order_id ≡ o.client_order_id
unfolding check_timeout Order.transition_to
check_timeout_id o now stamp = ground arith

apply_event_state :
    (o : Order) (ev : OrderEvent) (now later : ℕ)
    → o.state ≤ 8
    → (apply_event o ev now later).0.state ≤ 8
unfolding apply_event Order.mark_submitted Order.mark_acknowledged Order.process_fill Order.cancel
    Order.reject Order.set_exchange_id
apply_event_state o submit now later h = ground arith
apply_event_state o ev now later h = ground arith

check_timeout_state :
    (o : Order) (now stamp : ℕ) → o.state ≤ 8 → (check_timeout o now stamp).0.state ≤ 8
unfolding check_timeout Order.transition_to
check_timeout_state o now stamp h = ground arith

-- What an ended order keeps.
pub record IsFrozen (o o' : Order) : Type 0 where
  pub same_state : o'.state ≡ o.state
  pub same_filled : o'.filled_qty ≡ o.filled_qty
  pub same_average : o'.avg_fill_price ≡ o.avg_fill_price
  pub same_remaining : o'.remaining_qty ≡ o.remaining_qty
  pub same_count : o'.fill_count ≡ o.fill_count

pub apply_event-IsFrozen :
    (o : Order) (ev : OrderEvent) (now later : ℕ)
    → is_terminal (get_state o) ≡ true
    → IsFrozen o (apply_event o ev now later).0
unfolding apply_event Order.mark_submitted Order.mark_acknowledged Order.process_fill Order.cancel
    Order.reject Order.set_exchange_id is_valid_transition
apply_event-IsFrozen o submit now later h = ground arith
apply_event-IsFrozen o ev now later h = ground arith

pub check_timeout-IsFrozen :
    (o : Order) (now stamp : ℕ)
    → is_terminal (get_state o) ≡ true
    → IsFrozen o (check_timeout o now stamp).0
unfolding check_timeout
check_timeout-IsFrozen o now stamp h = ground arith

pub find_slot_used :
    (os : List Order) (id n i : ℕ) (o : Order)
    → find_slot os id ≡ some (i, o)
    → All (λ q. q.client_order_id < n) os
    → (o.client_order_id ≡ id) × (id < n)
unfolding find_slot
find_slot_used [] id n i o e h = cc
find_slot_used (q ∷ os) id n zero o e h = ground arith
find_slot_used (q ∷ os) id n (suc i) o e h = ground (arith, find_slot_used os id n i o)

find_slot_state :
    (os : List Order) (id i : ℕ) (o : Order)
    → find_slot os id ≡ some (i, o)
    → All (λ q. q.state ≤ 8) os
    → o.state ≤ 8
unfolding find_slot
find_slot_state [] id i o e h = cc
find_slot_state (q ∷ os) id zero o e h = ground arith
find_slot_state (q ∷ os) id (suc i) o e h = ground (arith, find_slot_state os id i o)

-- Writing back the order that was found, with its id kept.
pub find_slot-write :
    (os : List Order) (id j i : ℕ) (o o' : Order)
    → find_slot os j ≡ some (i, o)
    → o'.client_order_id ≡ o.client_order_id
    → find_slot (set os i o') id ≡ (if j == id then some (i, o') else find_slot os id)
unfolding find_slot
find_slot-write [] id j i o o' e k = cc
find_slot-write (q ∷ os) id j zero o o' e k = ground arith
find_slot-write (q ∷ os) id j (suc i) o o' e k = ground (arith, find_slot-write os id j i o o')

pub find_slot-timeouts :
    (os : List Order) (id i now : ℕ) (stamp : ℕ → ℕ) (o : Order)
    → find_slot os id ≡ some (i, o)
    → find_slot (check_timeouts_loop os now stamp).0 id
      ≡ some (i, (check_timeout o now (stamp i)).0)
unfolding find_slot check_timeouts_loop
find_slot-timeouts [] id i now stamp o e = cc
find_slot-timeouts (q ∷ os) id zero now stamp o e = ground (arith, check_timeout_id q now (stamp 0))
find_slot-timeouts (q ∷ os) id (suc i) now stamp o e =
    ground (
      arith,
      check_timeout_id q now (stamp 0),
      find_slot-timeouts os id i now (λ n. stamp (suc n)) o,
    )

pub timeouts_used :
    (os : List Order) (n now : ℕ) (stamp : ℕ → ℕ)
    → All (λ q. q.client_order_id < n) os
    → All (λ q. q.client_order_id < n) (check_timeouts_loop os now stamp).0
unfolding check_timeouts_loop
timeouts_used [] n now stamp h = tt
timeouts_used (q ∷ os) n now stamp h =
    (rw (check_timeout_id q now (stamp 0)) h.0, timeouts_used os n now (λ i. stamp (suc i)) h.1)

pub timeouts_state :
    (os : List Order) (now : ℕ) (stamp : ℕ → ℕ)
    → All (λ q. q.state ≤ 8) os
    → All (λ q. q.state ≤ 8) (check_timeouts_loop os now stamp).0
unfolding check_timeouts_loop
timeouts_state [] now stamp h = tt
timeouts_state (q ∷ os) now stamp h =
    (check_timeout_state q now (stamp 0) h.0, timeouts_state os now (λ i. stamp (suc i)) h.1)

pub get_order-find_slot :
    (m : OrderStateMachine) (id i : ℕ) (o : Order)
    → get_order m id ≡ some (i, o)
    → (find_slot m.orders id ≡ some (i, o)) × (id ≢ 0)
unfolding get_order
get_order-find_slot m id i o e = (ground arith, ground arith)

pub event_used :
    (m : OrderStateMachine) (id i : ℕ) (ev : OrderEvent) (now later : ℕ) (o : Order)
    → IsValid m
    → get_order m id ≡ some (i, o)
    → IsValid (record m { orders = set m.orders i (apply_event o ev now later).0 })
event_used m id i ev now later o v e =
    let (at_id, below) =
      find_slot_used m.orders id m.next_order_id i o (get_order-find_slot m id i o e).0
        v.ids_used in
    record {
      ids_used =
          All-set (λ q. q.client_order_id < m.next_order_id) m.orders i
            (apply_event o ev now later).0 v.ids_used
            (omega (arith, apply_event_id o ev now later));
      next_pos = v.next_pos;
      known_states =
          All-set (λ q. q.state ≤ 8) m.orders i (apply_event o ev now later).0 v.known_states
            (apply_event_state o ev now later
              (find_slot_state m.orders id i o (get_order-find_slot m id i o e).0 v.known_states));
    }
