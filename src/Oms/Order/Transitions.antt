-- ===== src/Oms/Order/Transitions.antt =====
-- The life cycle that `transition_to` allows (src/oms/order_state_machine.rs), as a relation.
use backendofcryptotradingbo.Base.{ℕ, ◌≡◌, refl, ◌≢◌, ◌↔◌, true, u8, arith, if◌then◌else◌}
use backendofcryptotradingbo.Oms.Order.{
  OrderState, pending, submitted, acknowledged, partially_filled, expired, as_u32, is_terminal,
  state_of, is_valid_transition, Order, transition_from, transition_to,
}

-- The states that an order at the exchange with no fill is in.
pub data IsOpen : OrderState → Type 0 where
  at_exchange : IsOpen submitted
  acked : IsOpen acknowledged

-- The edges of the life cycle.
infix 40 ◌⟶◌
pub data ◌⟶◌ : OrderState → OrderState → Type 0 where
  stay_pending : pending ⟶ pending
  submit : pending ⟶ submitted
  ack : pending ⟶ acknowledged
  leave_open : {s t : OrderState} → IsOpen s → t ≢ expired → s ⟶ t
  fill_again : partially_filled ⟶ partially_filled
  finish : {t : OrderState} → is_terminal t ≡ true → partially_filled ⟶ t

pub ruleset edges = (at_exchange, acked, stay_pending, submit, ack, leave_open, fill_again, finish)

pub state_of-as_u32 : (s : OrderState) → state_of (as_u32 s) ≡ s
state_of-as_u32 pending = refl
state_of-as_u32 _ = refl

-- The table of `is_valid_transition` is the edge relation.
pub valid-edge : (s t : OrderState) → is_valid_transition (as_u32 s) (as_u32 t) ≡ true → s ⟶ t
unfolding is_valid_transition
valid-edge pending t h = grind (arith, edges)
valid-edge s t h = grind (arith, edges)

pub edge-valid : (s t : OrderState) → s ⟶ t → is_valid_transition (as_u32 s) (as_u32 t) ≡ true
unfolding is_valid_transition
edge-valid s t stay_pending = refl
edge-valid s t submit = refl
edge-valid s t ack = refl
edge-valid s t (leave_open at_exchange h) = ground arith
edge-valid s t (leave_open acked h) = ground arith
edge-valid s t fill_again = refl
edge-valid s t (finish h) = ground arith

u8-as_u32 : (s : OrderState) → u8 (as_u32 s) ≡ as_u32 s
u8-as_u32 pending = refl
u8-as_u32 _ = refl

-- From a stored state `s`, and after a load that gave `seen`: the exchange succeeds exactly when
-- the load is not stale and the life cycle has the edge. A success stores the new state and the
-- time and nothing else; a failure changes nothing.
pub transition_from_lem :
    (o : Order) (seen : ℕ) (s t : OrderState) (now : ℕ)
    → o.state ≡ as_u32 s
    → (((transition_from o seen t now).1 ≡ true) ↔ ((seen ≡ as_u32 s) × (s ⟶ t)))
      × ((transition_from o seen t now).0 ≡ (
          if (transition_from o seen t now).1
          then record o { state = as_u32 t; last_update_time = now }
          else o))
unfolding transition_from
transition_from_lem o seen s t now e =
    let from_s = u8-as_u32 s in
    let to_t = u8-as_u32 t in
    (
      (
        λ h. ground (arith, from_s, to_t, valid-edge s t),
        λ h. ground (arith, from_s, to_t, edge-valid s t),
      ),
      ground arith,
    )

-- With no other thread between the load and the exchange, the edge alone decides.
pub transition_to_lem :
    (o : Order) (s t : OrderState) (now : ℕ)
    → o.state ≡ as_u32 s
    → (((transition_to o t now).1 ≡ true) ↔ (s ⟶ t))
      × ((transition_to o t now).0 ≡ (
          if (transition_to o t now).1
          then record o { state = as_u32 t; last_update_time = now }
          else o))
unfolding transition_to
transition_to_lem o s t now e =
    let (iff, stored) = transition_from_lem o o.state s t now e in
    ((λ h. (iff.0 h).1, λ h. iff.1 (e, h)), stored)
