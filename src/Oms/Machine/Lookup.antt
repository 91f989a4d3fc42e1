-- ===== src/Oms/Machine/Lookup.antt =====
-- `create_order` against `get_order` (src/oms/order_state_machine.rs).
use backendofcryptotradingbo.Base.{
  ℕ, zero, suc, ◌+◌, ◌^◌, ◌≤◌, ◌<◌, ◌≡◌, ◌≢◌, refl, Option, none, some, List, [], ◌∷◌, u64, ◌==◌,
  if◌then◌else◌, set, arith, All, All-set, All-imp,
}
use backendofcryptotradingbo.Oms.Order.{Order, OrderSide, TimeInForce}
use backendofcryptotradingbo.Oms.Machine.{
  OrderStateMachine, find_slot, fresh_order, create_order, get_order,
}

-- The ids in use lie below the next one, and every stored state is the number of a state.
pub record IsValid (m : OrderStateMachine) : Type 0 where
  pub ids_used : All (λ o. o.client_order_id < m.next_order_id) m.orders
  pub next_pos : 0 < m.next_order_id
  pub known_states : All (λ o. o.state ≤ 8) m.orders

find_slot-absent :
    (os : List Order) (id : ℕ) → All (λ o. o.client_order_id < id) os → find_slot os id ≡ none
unfolding find_slot
find_slot-absent [] id h = refl
find_slot-absent (o ∷ os) id h = ground (arith, find_slot-absent os id h.1)

absent_above :
    (m : OrderStateMachine) (id : ℕ)
    → IsValid m
    → m.next_order_id < id
    → find_slot m.orders id ≡ none
absent_above m id v h = find_slot-absent m.orders id (
    All-imp (λ o. o.client_order_id < m.next_order_id) (λ o. o.client_order_id < id) m.orders
      (λ o k. omega arith) v.ids_used)

-- Writing an order into the first free slot: its id is found there, and any other as before.
find_slot-set_self :
    (os : List Order) (o p : Order) (i : ℕ)
    → find_slot os 0 ≡ some (i, p)
    → All (λ q. q.client_order_id < o.client_order_id) os
    → find_slot (set os i o) o.client_order_id ≡ some (i, o)
unfolding find_slot
find_slot-set_self [] o p i e h = cc
find_slot-set_self (q ∷ os) o p zero e h = ground arith
find_slot-set_self (q ∷ os) o p (suc i) e h = ground (arith, find_slot-set_self os o p i)

find_slot-set_ne :
    (os : List Order) (o p : Order) (i id : ℕ)
    → find_slot os 0 ≡ some (i, p)
    → id ≢ 0
    → id ≢ o.client_order_id
    → find_slot (set os i o) id ≡ find_slot os id
unfolding find_slot
find_slot-set_ne [] o p i id e n d = refl
find_slot-set_ne (q ∷ os) o p zero id e n d = ground arith
find_slot-set_ne (q ∷ os) o p (suc i) id e n d = ground (arith, find_slot-set_ne os o p i id)

next_id :
    (m : OrderStateMachine)
    → m.next_order_id + 1 < 2 ^ 64
    → u64 (m.next_order_id + 1) ≡ m.next_order_id + 1
next_id m h = omega arith

module _ (m : OrderStateMachine) (instrument_id strategy_id : ℕ) (side : OrderSide)
    (quantity price : ℕ) (tif : TimeInForce) (venue_id now : ℕ) where
  abbrev pub created : OrderStateMachine × Option ℕ
  created = create_order m instrument_id strategy_id side quantity price tif venue_id now

  abbrev pub stored : Order
  stored =
      fresh_order m instrument_id strategy_id side quantity price tif venue_id m.next_order_id now

  stored_id : stored.client_order_id ≡ m.next_order_id
  unfolding fresh_order
  stored_id = ground arith

  stored_state : stored.state ≤ 8
  unfolding fresh_order
  stored_state = ground arith

  after : ℕ → OrderStateMachine
  after i = record m {
    orders = set m.orders i stored;
    next_order_id = m.next_order_id + 1;
    num_active = u64 (m.num_active + 1);
  }

  created-eq :
      (i : ℕ) (free : Order)
      → m.next_order_id + 1 < 2 ^ 64
      → find_slot m.orders 0 ≡ some (i, free)
      → created ≡ (after i, some m.next_order_id)
  unfolding create_order after
  created-eq i free room e = rw (e, create_order) (rw (next_id m room))

  after-IsValid : (i : ℕ) → IsValid m → IsValid (after i)
  unfolding after
  after-IsValid i v =
      let grown =
        All-imp (λ o. o.client_order_id < m.next_order_id)
          (λ o. o.client_order_id < m.next_order_id + 1) m.orders (λ o h. omega arith) v.ids_used in
      record {
        ids_used =
            All-set (λ o. o.client_order_id < m.next_order_id + 1) m.orders i stored grown
              (omega (arith, stored_id));
        next_pos = omega arith;
        known_states = All-set (λ o. o.state ≤ 8) m.orders i stored v.known_states stored_state;
      }

  after_found :
      (i : ℕ) (free : Order)
      → IsValid m
      → find_slot m.orders 0 ≡ some (i, free)
      → get_order (after i) m.next_order_id ≡ some (i, stored)
  unfolding get_order after
  after_found i free v e =
      ground
        (arith, find_slot-set_self m.orders stored free i e (rw stored_id v.ids_used), stored_id, v)

  after_others :
      (i : ℕ) (free : Order) (id : ℕ)
      → IsValid m
      → find_slot m.orders 0 ≡ some (i, free)
      → id ≢ m.next_order_id
      → get_order (after i) id ≡ get_order m id
  unfolding get_order after
  after_others i free id v e d =
      ground (arith, stored_id, find_slot-set_ne m.orders stored free i id, absent_above m id v)

  -- With a free slot and ids left, the order is stored under the next id in the first free slot, where
  -- `get_order` finds it; every other id finds what it found before; the ids stay below the next one.
  pub create_order_lem :
      (i id : ℕ) (free : Order)
      → IsValid m
      → m.next_order_id + 1 < 2 ^ 64
      → find_slot m.orders 0 ≡ some (i, free)
      → (created.1 ≡ some m.next_order_id)
        × (get_order created.0 id
            ≡ (if id == m.next_order_id then some (i, stored) else get_order m id))
        × IsValid created.0
        × (created.0.num_active ≡ u64 (m.num_active + 1))
        × (created.0.next_order_id ≡ m.next_order_id + 1)
  create_order_lem i id free v room e = rw (created-eq i free room e) (
    refl,
    ground (arith, after_found i free v e, after_others i free id v e),
    after-IsValid i v,
    unfold after in refl,
    unfold after in refl,
  )

  -- With no free slot nothing changes.
  pub create_order_full : find_slot m.orders 0 ≡ none → created ≡ (m, none)
  unfolding create_order
  create_order_full e = rw (e, create_order)
