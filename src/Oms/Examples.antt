-- ===== src/Oms/Examples.antt =====
-- Concrete orders, tables and books (src/oms/), on which the theorems of this folder are applied.
use backendofcryptotradingbo.Base.{
  ◌^◌, ◌%◌, length, length-replicate, ◌+◌, ◌≡◌, refl, inl, true, some, List, [], ◌∷◌, arith,
  get_elem?, All, false, replicate,
}
use backendofcryptotradingbo.Oms.Order
use backendofcryptotradingbo.Oms.Order.{
  Order, OrderState, submitted, filled, cancelled, acknowledged, as_u32, get_state,
}
use backendofcryptotradingbo.Oms.Order.Race.{
  Shared, Access, load, exchange, interleave, ◌⟶*◌, ended, race,
}
use backendofcryptotradingbo.Oms.Order.Fills.{
  Fill, run_fills, absorb, IsFilling, PriceWithin, run_fills_lem, run_fills_price,
}
use backendofcryptotradingbo.Oms.Machine.{
  OrderStateMachine, ack, submit, cancel_event, get_order, apply_event, check_timeouts, find_slot,
}
use backendofcryptotradingbo.Oms.Machine.Lookup.{IsValid}
use backendofcryptotradingbo.Oms.Machine.Commands.{Command, event, timeouts, run, run-IsFrozen}
use backendofcryptotradingbo.Oms.Machine.Commands.Known.{run-get_state}
use backendofcryptotradingbo.Oms.Machine.Commands.Slots.{IsFrozen}
use backendofcryptotradingbo.Oms.Machine.Timeouts.{count_timed_out, after_check, check_timeouts_lem}
use backendofcryptotradingbo.Oms.Idempotency
use backendofcryptotradingbo.Oms.Idempotency.{
  IdempotencyKey, IdempotencyGenerator, clear_old_entries, max_tracked_keys, new_entry, hash_key,
  check_and_mark_used,
}
use backendofcryptotradingbo.Oms.Idempotency.Clearing.{old_before, clear_old_entries-forgets}
use backendofcryptotradingbo.Oms.Idempotency.Dedup.{has_slot}
use backendofcryptotradingbo.Oms.Idempotency.History.{
  Check, run as run_checks, is_marked, check_and_mark_used-again,
}

-- Order 1: buy 10 at 100.
abbrev bought : Order
bought = record {
  client_order_id = 1;
  exchange_order_id = 0;
  instrument_id = 3;
  strategy_id = 0;
  side = 0;
  time_in_force = 3;
  state = 1;
  quantity = 10;
  price = 100;
  filled_qty = 0;
  avg_fill_price = 0;
  remaining_qty = 10;
  submit_time = 5;
  last_update_time = 5;
  expire_time = 50;
  venue_id = 0;
  priority = 0;
  parent_order_id = 0;
  fill_count = 0;
  error_code = 0;
  flags = 0;
}

abbrev waiting_order : Order
waiting_order = record bought { state = 0 }

abbrev ended_order : Order
ended_order = record bought { state = 5 }

abbrev empty_slot : Order
empty_slot = record bought { client_order_id = 0; state = 0; expire_time = 0 }

abbrev table : OrderStateMachine
table = record {
  orders = ended_order ∷ empty_slot ∷ [];
  num_active = 1;
  next_order_id = 2;
  timeout_enabled = true;
  default_timeout_cycles = 100;
}

table-IsValid : IsValid table
table-IsValid = record {
  ids_used = ground arith;
  next_pos = ground arith;
  known_states = ground arith;
}

abbrev two_fills : List Fill
two_fills =
    record { qty = 4; price = 90; now = 6; later = 7 }
    ∷ record { qty = 6; price = 100; now = 8; later = 9 }
    ∷ []

bought-IsFilling : IsFilling bought
bought-IsFilling = ground arith

abbrev shared : Shared
shared = record { order = bought; seen = λ i. 0 }

-- A fill and a cancel load the same state; the second exchange loses.
abbrev fill_against_cancel : List Access
fill_against_cancel = load 0 ∷ load 1 ∷ exchange 1 cancelled 7 ∷ exchange 0 filled 8 ∷ []

race_example :
    (t : OrderState) × ((interleave shared fill_against_cancel).0.order.state ≡ as_u32 t)
    × (submitted ⟶* t)
    × ((interleave shared fill_against_cancel).1 + ended submitted ≡ ended t)
race_example = race shared fill_against_cancel submitted refl

abbrev later_commands : List Command
later_commands = event 1 submit 10 11 ∷ timeouts 60 (λ i. 61) ∷ event 1 cancel_event 70 71 ∷ []

run-IsFrozen_example :
    (o' : Order) × (get_order (run table later_commands) 1 ≡ some (0, o')) × IsFrozen ended_order o'
run-IsFrozen_example =
    run-IsFrozen table later_commands 1 0 ended_order table-IsValid (ground arith)
      (unfold get_order find_slot in refl) refl

run-get_state_example : All (λ o. as_u32 (get_state o) ≡ o.state) (run table later_commands).orders
run-get_state_example = run-get_state table later_commands table-IsValid (ground arith)

run_fills_lem_example :
    ((run_fills bought two_fills).filled_qty ≡ absorb 10 0 two_fills)
    × ((run_fills bought two_fills).quantity ≡ 10)
    × IsFilling (run_fills bought two_fills)
run_fills_lem_example = run_fills_lem bought two_fills bought-IsFilling (ground arith)

run_fills_price_example :
    PriceWithin 90 100
      (run_fills bought two_fills).filled_qty
      (run_fills bought two_fills).avg_fill_price
run_fills_price_example =
    run_fills_price bought two_fills 90 100 bought-IsFilling (ground arith) (ground arith)
      (ground arith) (inl refl)

abbrev late_table : OrderStateMachine
late_table = record table { orders = bought ∷ waiting_order ∷ [] }

check_timeouts_lem_example :
    ((check_timeouts late_table 60 (λ i. 61)).1 ≡ count_timed_out (bought ∷ waiting_order ∷ []) 60)
    × (get_elem? (check_timeouts late_table 60 (λ i. 61)).0.orders 1
        ≡ some (after_check waiting_order 60 61))
check_timeouts_lem_example =
    check_timeouts_lem late_table 60 (λ i. 61) 1 waiting_order refl (ground arith) refl

acked : get_state (apply_event waiting_order (ack 9) 6 7).0 ≡ acknowledged
unfolding apply_event Order.mark_acknowledged Order.set_exchange_id Order.transition_to
    Order.is_valid_transition
acked = refl

abbrev some_key : IdempotencyKey
some_key = record { high = 0; low = 2 ^ 16 }

no_keys : length Idempotency.new.tracked_keys ≡ max_tracked_keys
unfolding Idempotency.new
no_keys = length-replicate max_tracked_keys new_entry

free_slot :
    has_slot 16 0 Idempotency.new.tracked_keys (hash_key some_key % max_tracked_keys) (2 ^ 16)
    ≡ true
unfolding has_slot Idempotency.new hash_key
free_slot = refl

abbrev other_check : Check
other_check = record { key = record { high = 1; low = 5 }; strategy_id = 8; now = 150 }

check_and_mark_used-again_example :
    let after =
      run_checks (check_and_mark_used Idempotency.new some_key 3 100).0 (other_check ∷ []) in
    check_and_mark_used after some_key 4 200 ≡ (after, true)
check_and_mark_used-again_example =
    check_and_mark_used-again Idempotency.new some_key 3 4 100 200 (other_check ∷ []) (ground arith)
      no_keys free_slot

-- The bucket of the key, 0, holds an old entry of another key, and the key's own behind it.
abbrev crowded : IdempotencyGenerator
unfolding Idempotency.new
crowded = record Idempotency.new {
  tracked_keys =
      record { key = 5; timestamp = 10; strategy_id = 1; used = 1 }
      ∷ record { key = 2 ^ 16; timestamp = 900; strategy_id = 1; used = 1 }
      ∷ replicate 65534 new_entry;
}

clear_old_entries-forgets_example :
    (check_and_mark_used crowded some_key 4 1001 ≡ (crowded, true))
    × ((check_and_mark_used (clear_old_entries crowded 500 1000) some_key 4 1001).1 ≡ false)
unfolding hash_key is_marked old_before crowded
clear_old_entries-forgets_example =
    clear_old_entries-forgets crowded some_key 500 1000 4 1001 refl refl
