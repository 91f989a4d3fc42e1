-- ===== src/Oms/Machine/Timeouts.antt =====
-- The timeout check, and what an order that was never submitted answers to
-- (src/oms/order_state_machine.rs).
use backendofcryptotradingbo.Base.{
  ℕ, zero, suc, ◌+◌, ◌≤◌, ◌<◌, ◌≡◌, ◌≢◌, refl, ◌⊎◌, inl, inr, Bool, true, ◌&&◌, not, some, List, [],
  ◌∷◌, ltb, leb, ◌==◌, if◌then◌else◌, get_elem?, arith, All, All-replicate,
}
use backendofcryptotradingbo.Oms.Order
use backendofcryptotradingbo.Oms.Order.{
  Order, OrderState, pending, system_cancelled, as_u32, is_terminal, allows_fills, get_state,
  is_valid_transition,
}
use backendofcryptotradingbo.Oms.Machine.{
  OrderStateMachine, OrderEvent, submit, ack, fill, cancel_event, reject_event, empty_order, new,
  max_orders, apply_event, check_timeout, check_timeouts_loop, check_timeouts,
}
use backendofcryptotradingbo.Oms.Machine.Lookup.{IsValid}

-- An order in use, not ended, whose expiration time is set and has come.
abbrev pub timed_out : Order → ℕ → Bool
timed_out o now =
    not (o.client_order_id == 0)
    && not (is_terminal (get_state o))
    && ltb 0 o.expire_time
    && leb o.expire_time now

abbrev pub count_timed_out : List Order → ℕ → ℕ
count_timed_out [] now = 0
count_timed_out (o ∷ os) now = (if timed_out o now then 1 else 0) + count_timed_out os now

-- What the check leaves of an order: it is cancelled only from a state that takes fills.
abbrev pub after_check : Order → ℕ → ℕ → Order
after_check o now stamp =
    if timed_out o now
    then if allows_fills (get_state o)
      then record o { state = as_u32 system_cancelled; last_update_time = stamp; error_code = 1 }
      else record o { error_code = 1 }
    else o

check_timeout_lem :
    (o : Order) (now stamp : ℕ)
    → o.state ≤ 8
    → check_timeout o now stamp ≡ (after_check o now stamp, timed_out o now)
unfolding check_timeout Order.transition_to is_valid_transition
check_timeout_lem o now stamp h = ground arith

loop-count :
    (os : List Order) (now : ℕ) (stamp : ℕ → ℕ)
    → All (λ o. o.state ≤ 8) os
    → (check_timeouts_loop os now stamp).1 ≡ count_timed_out os now
unfolding check_timeouts_loop
loop-count [] now stamp h = refl
loop-count (q ∷ os) now stamp h =
    rw (check_timeout_lem q now (stamp 0) h.0)
      (ground (arith, loop-count os now (λ i. stamp (suc i)) h.1))

loop-get_elem? :
    (os : List Order) (now : ℕ) (stamp : ℕ → ℕ) (i : ℕ) (o : Order)
    → All (λ o. o.state ≤ 8) os
    → get_elem? os i ≡ some o
    → get_elem? (check_timeouts_loop os now stamp).0 i ≡ some (after_check o now (stamp i))
unfolding check_timeouts_loop
loop-get_elem? [] now stamp i o h e = cc
loop-get_elem? (q ∷ os) now stamp zero o h e =
    rw (check_timeout_lem q now (stamp 0) h.0) (let same : q ≡ o = cc in rw same)
loop-get_elem? (q ∷ os) now stamp (suc i) o h e =
    loop-get_elem? os now (λ n. stamp (suc n)) i o h.1 e

-- With the check enabled and every stored state known: the result is the number of orders that
-- timed out; of those, the ones that take fills are cancelled by the system with error code 1, and
-- the others, which are pending, keep their state and get the error code; no other order changes.
pub check_timeouts_lem :
    (m : OrderStateMachine) (now : ℕ) (stamp : ℕ → ℕ) (i : ℕ) (o : Order)
    → m.timeout_enabled ≡ true
    → All (λ o. o.state ≤ 8) m.orders
    → get_elem? m.orders i ≡ some o
    → ((check_timeouts m now stamp).1 ≡ count_timed_out m.orders now)
      × (get_elem? (check_timeouts m now stamp).0.orders i ≡ some (after_check o now (stamp i)))
unfolding check_timeouts
check_timeouts_lem m now stamp i o t h e = (
  ground (arith, loop-count m.orders now stamp h),
  rw (t, check_timeouts) (loop-get_elem? m.orders now stamp i o h e),
)

-- A pending order leaves that state only by a submission or an acknowledgement: fills, cancels and
-- rejections of it all fail.
pub pending_exits :
    (o : Order) (ev : OrderEvent) (now later : ℕ)
    → o.state ≡ as_u32 pending
    → get_state (apply_event o ev now later).0 ≢ pending
    → (ev ≡ submit) ⊎ ((id : ℕ) × (ev ≡ ack id))
unfolding apply_event Order.mark_submitted Order.mark_acknowledged Order.process_fill Order.cancel
    Order.reject Order.set_exchange_id is_valid_transition
pending_exits o submit now later p h = inl refl
pending_exits o (ack id) now later p h = inr (id, refl)
pending_exits o (fill q x) now later p h = absurd (h (ground arith))
pending_exits o cancel_event now later p h = absurd (h (ground arith))
pending_exits o (reject_event c) now later p h = absurd (h (ground arith))

-- A new table is valid.
pub new-IsValid : IsValid new
unfolding new empty_order
new-IsValid = record {
  ids_used = All-replicate (λ o. o.client_order_id < 1) max_orders empty_order (omega arith);
  next_pos = omega arith;
  known_states = All-replicate (λ o. o.state ≤ 8) max_orders empty_order (omega arith);
}
