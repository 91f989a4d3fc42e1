-- ===== src/Risk/Examples.antt =====
-- A concrete bus and queue (src/risk/pre_trade_bus.rs) and sizer (src/risk/position_sizer.rs), on
-- which the theorems are applied.
use backendofcryptotradingbo.Base.{
  true, ℕ, zero, suc, ◌-◌, ◌^◌, ◌≤◌, ◌≡◌, ◌↔◌, refl, Bool, false, some, List, [], ◌∷◌, ◌==◌,
  if◌then◌else◌, arith, length-replicate, get_or, replicate, ◌+◌, ◌*◌, ◌⊎◌,
}
use backendofcryptotradingbo.Risk.PositionSizer
use backendofcryptotradingbo.Risk.PositionSizer.{
  PositionSizer, position_at, unsigned_abs, set_max_position, calculate_kelly_size,
}
use backendofcryptotradingbo.Risk.PositionSizer.Size.{is_exhausted, calculate_kelly_size_lem}
use backendofcryptotradingbo.Risk.PreTradeBus.{
  PreTradeRiskBus, RiskCheckRequest, RiskCheckQueue, approved, new_queue, max_orders_per_window,
  check_order, exceeds_limit, store_rate, approve, process_pending, reduce_exposure,
}
use backendofcryptotradingbo.Risk.PreTradeBus.Exposure.{
  HasTables, IsAllowed, WithinLimits, check_order-IsAllowed,
}
use backendofcryptotradingbo.Risk.PreTradeBus.Exposure.{exposure}
use backendofcryptotradingbo.Risk.PreTradeBus.Limits.{
  Operation, checked, reduced, run, true_exposure, run-WithinLimits,
}
use backendofcryptotradingbo.Risk.PreTradeBus.Race.{
  Access, check, add, step, store_verdict, interleave, value_for,
}
use backendofcryptotradingbo.Risk.PreTradeBus.Race.Overshoot.{idle_threads, interleave-exposure}
use backendofcryptotradingbo.Risk.PreTradeBus.Rate.{Arrival, approvals, approvals_bounded}
use backendofcryptotradingbo.Risk.PreTradeBus.Queue.{QueueIsValid, pending, process_pending_lem}

-- Every strategy may carry 1000 and carries nothing.
abbrev bus : PreTradeRiskBus
bus = record {
  global_kill_switch = false;
  strategy_breakers = replicate 256 false;
  queue = new_queue;
  exposure_limits = replicate 256 1000;
  current_exposure = replicate 256 0;
  rate_counters = replicate 256 0;
  rate_windows = replicate 256 0;
}

bus-HasTables : HasTables bus
bus-HasTables = record {
  breakers_256 = length-replicate {A = Bool} 256 false;
  limits_256 = length-replicate {A = ℕ} 256 1000;
  exposure_256 = length-replicate {A = ℕ} 256 0;
  counters_256 = length-replicate {A = ℕ} 256 0;
  windows_256 = length-replicate {A = ℕ} 256 0;
}

nothing_carried : (n j : ℕ) → get_or {A = ℕ} (replicate n 0) j 0 ≡ 0
nothing_carried zero j = refl
nothing_carried (suc n) zero = refl
nothing_carried (suc n) (suc j) = nothing_carried n j

bus-WithinLimits : WithinLimits bus
bus-WithinLimits j = omega (arith, nothing_carried 256 j)

abbrev order : RiskCheckRequest
order = record {
  strategy_id = 2;
  instrument_id = 0;
  side = 0;
  quantity = 6;
  price = 100;
  timestamp_cycles = 0;
}

abbrev huge : RiskCheckRequest
huge = record order { quantity = 2 ^ 40; price = 2 ^ 24 }

order-IsAllowed : IsAllowed bus order 3_000_000
order-IsAllowed = record {
  trading = refl;
  known_strategy = ground arith;
  breaker_off = refl;
  within_limit = ground arith;
  slow_enough = λ e. ground arith;
}

order_approved : (b' : PreTradeRiskBus) × (check_order bus order 3_000_000 ≡ some (b', approved))
order_approved = (check_order-IsAllowed bus order 3_000_000).1 order-IsAllowed

abbrev after_order : PreTradeRiskBus
after_order = order_approved.0

check_order-IsAllowed_example :
    ((b' : PreTradeRiskBus) × (check_order bus order 3_000_000 ≡ some (b', approved)))
    ↔ IsAllowed bus order 3_000_000
check_order-IsAllowed_example = check_order-IsAllowed bus order 3_000_000

-- An order for 600 passes, a second does not fit, a part is given back, and the second passes then.
abbrev day : List Operation
day =
    checked order 3_000_000 ∷ checked order 3_000_001 ∷ reduced 2 250 ∷ checked order 3_000_002 ∷ []

run-WithinLimits_example : WithinLimits (run bus day) × (exposure (run bus day) 2 ≡ 950)
unfolding true_exposure check_order exceeds_limit store_rate approve reduce_exposure
run-WithinLimits_example = run-WithinLimits 2 bus day bus-HasTables bus-WithinLimits (ground arith)

-- Two threads check an order for 600 each, before either is added: both pass, and 1200 is carried.
abbrev two_threads : List Access
two_threads = check 0 order 3_000_000 ∷ check 1 order 3_000_001 ∷ add 0 ∷ add 1 ∷ []

both_pass : exposure (interleave (idle_threads bus 2) two_threads).bus 2 ≡ 1200
unfolding interleave step store_verdict check_order exceeds_limit store_rate approve
both_pass = refl

interleave-exposure_example :
    exposure (interleave (idle_threads bus 2) two_threads).bus 2 + 600 ≤ 1000 + 2 * 600
unfolding value_for
interleave-exposure_example =
    interleave-exposure bus 2 600 2 two_threads (omega arith) (length-replicate {A = ℕ} 256 0)
      (omega arith) (omega arith) (omega arith) (omega arith)

abbrev two_arrivals : List Arrival
two_arrivals =
    record { request = order; tsc = 3_000_000 } ∷ record { request = huge; tsc = 3_000_001 } ∷ []

approvals_bounded_example : approvals 2 bus two_arrivals ≤ (
    if get_or bus.rate_windows 2 0 == 1
    then max_orders_per_window - get_or bus.rate_counters 2 0
    else max_orders_per_window)
approvals_bounded_example =
    approvals_bounded 2 1 bus two_arrivals bus-HasTables (ground arith) (ground arith)

-- Two requests wait.
abbrev waiting_queue : RiskCheckQueue
waiting_queue = record { buffer = replicate 4096 order; head = 4095; tail = 1 }

waiting-QueueIsValid : QueueIsValid waiting_queue
waiting-QueueIsValid = record {
  slots = length-replicate 4096 order;
  head_in = ground arith;
  tail_in = ground arith;
}

process_pending_lem_example :
    (q' : RiskCheckQueue) × (process_pending 3 waiting_queue ≡ some (q', 2))
    × (pending q' ≡ 0)
    × QueueIsValid q'
process_pending_lem_example =
    process_pending_lem 3 waiting_queue waiting-QueueIsValid (ground arith)

abbrev sizer : PositionSizer
sizer = set_max_position PositionSizer.new 7 500

-- At a win rate of 60 percent and a reward of 1.5 to 1
calculate_kelly_size_lem_example :
    let size = (calculate_kelly_size sizer 7 6000 150 50000).quantity in
    let p = position_at sizer 7 in
    ((size ≡ 0) ⊎ (size + unsigned_abs p.current_qty ≤ p.max_qty))
    × (size * 50000 * 10000 ≤ 10_000_000_000 * 30000)
    × (size * 50000 * 9_000_000_000_000 ≤ 2000 * 150 * 50 * (10_000_000_000 * 200))
    × (is_exhausted sizer 7 6000 150 50000 size ≡ true)
unfolding set_max_position PositionSizer.new
calculate_kelly_size_lem_example = calculate_kelly_size_lem sizer 7 6000 150 50000
