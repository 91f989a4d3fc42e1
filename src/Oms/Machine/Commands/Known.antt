-- ===== src/Oms/Machine/Commands/Known.antt =====
-- The numbers that stand for the states of the orders of a table (src/oms/order_state_machine.rs).
use backendofcryptotradingbo.Base.{
  ◌+◌, ◌^◌, ◌≤◌, ◌<◌, ◌≡◌, List, [], ◌∷◌, length, arith, All, All-imp,
}
use backendofcryptotradingbo.Oms.Order.{Order, as_u32, get_state}
use backendofcryptotradingbo.Oms.Machine.{OrderStateMachine}
use backendofcryptotradingbo.Oms.Machine.Lookup.{IsValid}
use backendofcryptotradingbo.Oms.Machine.Commands.{Command, execute, run, execute-IsValid}

run-IsValid :
    (m : OrderStateMachine) (cs : List Command)
    → IsValid m
    → m.next_order_id + length cs < 2 ^ 64
    → IsValid (run m cs)
unfolding run
run-IsValid m [] v room = v
run-IsValid m (c ∷ cs) v room =
    let (v', few) = execute-IsValid m c v (omega arith) in
    run-IsValid (execute m c) cs v' (omega (arith, few, room))

state_of_known : (o : Order) → o.state ≤ 8 → as_u32 (get_state o) ≡ o.state
state_of_known o h = ground (arith, h)

-- From a valid table with ids left for every command: after any sequence of creations, events and timeout
-- checks, the number that every slot stores as its state is the number of the state that it is read as,
-- so the reading never falls back to `pending`.
pub run-get_state :
    (m : OrderStateMachine) (cs : List Command)
    → IsValid m
    → m.next_order_id + length cs < 2 ^ 64
    → All (λ o. as_u32 (get_state o) ≡ o.state) (run m cs).orders
run-get_state m cs v room =
    All-imp (λ o. o.state ≤ 8) (λ o. as_u32 (get_state o) ≡ o.state) (run m cs).orders
      (λ o h. state_of_known o h) (run-IsValid m cs v room).known_states
