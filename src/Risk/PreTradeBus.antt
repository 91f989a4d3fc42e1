-- ===== src/Risk/PreTradeBus.antt =====
-- src/risk/pre_trade_bus.rs: the checks that an order passes before it is sent, and the queue of
-- approved requests. The two statics (the kill switch and the breakers) are fields of the bus here.
-- Numbers are u64 unless a comment says otherwise; the cycle counter is the argument `tsc`.
pub mod Exposure
pub mod Limits
pub mod Rate
pub mod Queue
pub mod Race
use Prim.Native.Nat.{bit_and}
use backendofcryptotradingbo.Base.{
  ℕ, suc, zero, ◌+◌, ◌-◌, ◌*◌, ◌/◌, ◌^◌, Bool, true, false, Option, none, some, List, u64, ltb, leb,
  ◌==◌, if◌then◌else◌, get_or, set, replicate,
}

abbrev pub max_pending_checks : ℕ
max_pending_checks = 4096

pub data RiskResult : Type 0 where
  approved rejected_kill_switch rejected_strategy_breaker : RiskResult
  rejected_position_limit rejected_margin_limit rejected_rate_limit : RiskResult

pub record RiskCheckRequest : Type 0 where
  pub strategy_id : ℕ  -- u16
  pub instrument_id : ℕ  -- u16
  pub side : ℕ  -- u8
  pub quantity : ℕ
  pub price : ℕ
  pub timestamp_cycles : ℕ

unfoldable pub request : ℕ → ℕ → ℕ → ℕ → ℕ → RiskCheckRequest
request strategy_id instrument_id side quantity price = record {
  strategy_id = strategy_id;
  instrument_id = instrument_id;
  side = side;
  quantity = quantity;
  price = price;
  timestamp_cycles = 0;
}

-- `EMPTY`
abbrev pub empty_request : RiskCheckRequest
empty_request = record {
  strategy_id = 0;
  instrument_id = 0;
  side = 0;
  quantity = 0;
  price = 0;
  timestamp_cycles = 0;
}

pub record RiskCheckQueue : Type 0 where
  pub buffer : List RiskCheckRequest
  pub head : ℕ
  pub tail : ℕ

unfoldable pub new_queue : RiskCheckQueue
new_queue = record { buffer = replicate max_pending_checks empty_request; head = 0; tail = 0 }

-- `(i + 1) & (MAX_PENDING_CHECKS - 1)`
abbrev pub next_slot : ℕ → ℕ
next_slot i = bit_and (u64 (i + 1)) (max_pending_checks - 1)

unfoldable pub push : RiskCheckQueue → RiskCheckRequest → RiskCheckQueue × Bool
push q req =
    if next_slot q.tail == q.head
    then (q, false)
    else (record q { buffer = set q.buffer q.tail req; tail = next_slot q.tail }, true)

unfoldable pub pop : RiskCheckQueue → RiskCheckQueue × Option RiskCheckRequest
pop q =
    if q.head == q.tail
    then (q, none)
    else (record q { head = next_slot q.head }, some (get_or q.buffer q.head empty_request))

pub record PreTradeRiskBus : Type 0 where
  pub global_kill_switch : Bool
  pub strategy_breakers : List Bool  -- 256 of them, as of each list below
  pub queue : RiskCheckQueue
  pub exposure_limits : List ℕ
  pub current_exposure : List ℕ
  pub rate_counters : List ℕ
  pub rate_windows : List ℕ

unfoldable pub new : PreTradeRiskBus
unfolding new_queue
new = record {
  global_kill_switch = false;
  strategy_breakers = replicate 256 false;
  queue = new_queue;
  exposure_limits = replicate 256 0;
  current_exposure = replicate 256 0;
  rate_counters = replicate 256 0;
  rate_windows = replicate 256 0;
}

unfoldable pub set_exposure_limit : PreTradeRiskBus → ℕ → ℕ → PreTradeRiskBus
set_exposure_limit b i limit =
    if ltb i 256 then record b { exposure_limits = set b.exposure_limits i limit } else b

unfoldable pub activate_global_kill_switch : PreTradeRiskBus → PreTradeRiskBus
activate_global_kill_switch b = record b { global_kill_switch = true }

unfoldable pub deactivate_global_kill_switch : PreTradeRiskBus → PreTradeRiskBus
deactivate_global_kill_switch b = record b { global_kill_switch = false }

unfoldable pub activate_strategy_breaker : PreTradeRiskBus → ℕ → PreTradeRiskBus
activate_strategy_breaker b i =
    if ltb i 256 then record b { strategy_breakers = set b.strategy_breakers i true } else b

unfoldable pub reset_strategy_breaker : PreTradeRiskBus → ℕ → PreTradeRiskBus
reset_strategy_breaker b i =
    if ltb i 256 then record b { strategy_breakers = set b.strategy_breakers i false } else b

abbrev pub is_killed : PreTradeRiskBus → Bool
is_killed b = b.global_kill_switch

-- `quantity_u64 * price_u64`, which wraps in the release build
abbrev pub notional : RiskCheckRequest → ℕ
notional req = u64 (req.quantity * req.price)

-- The rate limiter of one strategy: the window and the counter to store, and the orders that the
-- window held before this one.
unfoldable pub rate_step : ℕ → ℕ → ℕ → ℕ × ℕ × ℕ
rate_step tsc stored_window counter =
    let current_window = tsc / 3_000_000 in
    let window_changed = if current_window == stored_window then 0 else 1 in
    let new_counter = counter * (1 - window_changed) in
    (
      stored_window * (1 - window_changed) + current_window * window_changed,
      u64 (new_counter + 1),
      new_counter,
    )

abbrev pub max_orders_per_window : ℕ
max_orders_per_window = 100

-- The rest of `check_order` for a strategy of the tables, in two parts: the rate limiter's stores,
-- and the decision after them.
unfoldable pub store_rate : PreTradeRiskBus → ℕ → ℕ → PreTradeRiskBus × ℕ
unfolding rate_step
store_rate b i tsc =
    let (window, counter, before) =
      rate_step tsc (get_or b.rate_windows i 0) (get_or b.rate_counters i 0) in
    (
      record b {
        rate_windows = set b.rate_windows i window;
        rate_counters = set b.rate_counters i counter;
      },
      before,
    )

unfoldable pub approve : PreTradeRiskBus → ℕ → RiskCheckRequest → PreTradeRiskBus
unfolding push
approve b i req = record b {
  current_exposure = set b.current_exposure i (u64 (get_or b.current_exposure i 0 + notional req));
  queue = (push b.queue req).0;
}

unfoldable pub exceeds_limit : PreTradeRiskBus → ℕ → RiskCheckRequest → Bool
exceeds_limit b i req =
    ltb (get_or b.exposure_limits i 0) (u64 (get_or b.current_exposure i 0 + notional req))

-- `check_order`. An id past the tables passes by the breakers and then indexes out of range: the
-- panic is `none`.
unfoldable pub check_order :
    PreTradeRiskBus → RiskCheckRequest → ℕ → Option (PreTradeRiskBus × RiskResult)
check_order b req tsc =
    let i = req.strategy_id in
    if b.global_kill_switch
    then some (b, rejected_kill_switch)
    else if ltb i 256
    then if get_or b.strategy_breakers i false
      then some (b, rejected_strategy_breaker)
      else if exceeds_limit b i req
      then some (b, rejected_position_limit)
      else if leb max_orders_per_window (store_rate b i tsc).1
      then some ((store_rate b i tsc).0, rejected_rate_limit)
      else some (approve (store_rate b i tsc).0 i req, approved)
    else none

unfoldable pub reduce_exposure : PreTradeRiskBus → ℕ → ℕ → PreTradeRiskBus
reduce_exposure b i amount =
    if ltb i 256
    then record b {
      current_exposure = set b.current_exposure i (get_or b.current_exposure i 0 - amount);
    }
    else b

unfoldable pub get_exposure : PreTradeRiskBus → ℕ → ℕ
get_exposure b i = if ltb i 256 then get_or b.current_exposure i 0 else 0

-- The loop of `process_pending` on fuel; `none` if the fuel runs out before the queue.
unfoldable pub process_pending : ℕ → RiskCheckQueue → Option (RiskCheckQueue × ℕ)
process_pending zero q = none
process_pending (suc fuel) q = elim (pop q).1 [
  | none ↦ some (q, 0)
  | some _ ↦ elim (process_pending fuel (pop q).0) [ none ↦ none | some (q', n) ↦ some (q', n + 1) ]
]
