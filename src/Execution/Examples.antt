-- ===== src/Execution/Examples.antt =====
-- Concrete icebergs, schedules and venues (src/execution/), on which the theorems are applied.

use backendofcryptotradingbo.Base.{
  ℕ, ◌+◌, ◌/◌, ◌≤◌, ◌<◌, ◌≡◌, ◌⊎◌, refl, true, false, not, ◌&&◌, List, [], ◌∷◌, arith,
  length-replicate, ◌-◌, leb,
}
use backendofcryptotradingbo.Base.Int.{ℤ, pos, ltb_ℤ}
use backendofcryptotradingbo.Base.Lanes.{Four}
use backendofcryptotradingbo.Execution.QueuePosition
use backendofcryptotradingbo.Execution.QueuePosition.{
  QueuePositionEstimator, max_queue_depth, new_buffer, clear, initialize, update_trade_flow,
}
use backendofcryptotradingbo.Execution.QueuePosition.Window.{
  IsWindow, slide, total, update_trade_flow_lem,
}
use backendofcryptotradingbo.Execution.Iceberg
use backendofcryptotradingbo.Execution.Iceberg.{
  IcebergHandler, max_iceberg_orders, empty, order_at, create_iceberg, calculate_min_display,
  find_empty, fresh_order, fill_order, refill_visible, process_level_fill, update_queue_position,
  cancel_order,
}
use backendofcryptotradingbo.Execution.Iceberg.Visible.{
  IsSound, Command, create, level_fill, cancel, queue, execute, run, run-IsSound, new-IsSound,
}
use backendofcryptotradingbo.Execution.Schedule.{
  max_child_orders, empty_child, new_twap, generate_twap_slices,
}
use backendofcryptotradingbo.Execution.Schedule.Slices.{
  quantity_of, total_quantity, generate_twap_slices_lem,
}
use backendofcryptotradingbo.Execution.Router
use backendofcryptotradingbo.Execution.Router.{
  SmartRouter, no_venue, venue_at, liquidity_for, change_venue, register_venue,
  update_venue_liquidity, route_order, split_order,
}
use backendofcryptotradingbo.Execution.Router.Choice.{
  eligible, score_of, considered, route_order_lem,
}

-- An iceberg of 1000 that shows 100: its shown part is filled, its queue place is updated, and it is
-- cancelled.
abbrev calls : List Command
calls = create 7 1000 50 0 1 10 ∷ level_fill 0 100 true 20 ∷ queue 0 3 40 90 ∷ cancel 0 ∷ []

run-IsSound_example : IsSound (run Iceberg.new calls)
unfolding Iceberg.new create_iceberg calculate_min_display find_empty fresh_order fill_order
    refill_visible process_level_fill update_queue_position cancel_order execute
run-IsSound_example = run-IsSound Iceberg.new calls new-IsSound (
  ground arith,
  ((refl, omega arith, omega arith), (tt, ((ground arith, ground arith, omega arith), tt))),
)

abbrev positions : Four ℕ
positions = record { at0 = 9; at1 = 4; at2 = 6; at3 = 2 }

-- 100 in 8 slices: four of 13 and four of 12
generate_twap_slices_lem_example :
    let a' = generate_twap_slices (new_twap 100 60000 8) 0 in
    (total_quantity a' a'.num_children ≡ 100)
    × (100 / 8 ≤ quantity_of a' 3)
    × (quantity_of a' 3 ≤ 100 / 8 + 1)
unfolding new_twap
generate_twap_slices_lem_example =
    generate_twap_slices_lem (new_twap 100 60000 8) 0 3
      (length-replicate max_child_orders empty_child) (omega arith) (omega arith) (omega arith)

-- Two venues, of which the second asks for more
abbrev router : SmartRouter
router =
    update_venue_liquidity
      (update_venue_liquidity (register_venue (register_venue Router.new 0 5) 1 6) 0 500 2000 99
        101)
      1 800 7000 99 101

-- A buy of 1500, against the second venue
route_order_lem_example :
    let d = route_order router 1500 true in
    (d.venue_id ≡ no_venue)
      × ((eligible router 1500 true 1 && not (ltb_ℤ (score_of router 1500 true 1) (pos 0))) ≡ false)
    ⊎ (d.venue_id < considered router 1500 true)
      × (eligible router 1500 true d.venue_id ≡ true)
      × (d.available_liquidity ≡ liquidity_for (venue_at router d.venue_id) true)
      × (d.expected_latency_ns ≡ (venue_at router d.venue_id).avg_latency_ns)
      × ((eligible router 1500 true 1
            && ltb_ℤ (score_of router 1500 true d.venue_id) (score_of router 1500 true 1))
          ≡ false)
unfolding Router.new register_venue update_venue_liquidity change_venue
route_order_lem_example = route_order_lem router 1500 true 1 refl (omega arith)

-- An order with 1000 ahead of it
abbrev estimator : QueuePositionEstimator
estimator = initialize QueuePosition.new 12345 (pos 1000) (pos 5000) 7

estimator-IsWindow : IsWindow estimator.trade_flow []
unfolding QueuePosition.new new_buffer initialize clear
estimator-IsWindow = record {
  slots = length-replicate {A = ℤ} max_queue_depth (pos 0);
  tail_bound = omega arith;
  few = omega arith;
  head_is = refl;
  holds = tt;
  summed = refl;
}

-- 500 are traded ahead of it.
update_trade_flow_lem_example :
    let e' = update_trade_flow estimator (pos 500) true 9 in
    IsWindow e'.trade_flow (slide [] 500)
    × (e'.state.current_position ≡ pos (1000 - total (slide [] 500)))
    × (e'.state.was_filled ≡ leb 1000 (total (slide [] 500)))
    × (e'.state.is_active ≡ not (leb 1000 (total (slide [] 500))))
unfolding QueuePosition.new initialize
update_trade_flow_lem_example =
    update_trade_flow_lem estimator [] 1000 500 9 estimator-IsWindow refl refl refl (omega arith)
      (omega arith)
