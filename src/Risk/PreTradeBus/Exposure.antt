-- ===== src/Risk/PreTradeBus/Exposure.antt =====
-- Which orders src/risk/pre_trade_bus.rs approves, and the exposure that it lets a strategy build up.
use backendofcryptotradingbo.Base.{
  ℕ, ◌+◌, ◌*◌, ◌/◌, ◌^◌, ◌≤◌, ◌<◌, ◌≡◌, ◌≢◌, ◌↔◌, Bool, true, false, ◌&&◌, some, u64, ◌==◌, arith,
  if◌then◌else◌, get_or, set, length, get_or-set_self, get_or-set_ne, length-set,
}
use backendofcryptotradingbo.Risk.PreTradeBus.{
  RiskCheckRequest, RiskResult, approved, PreTradeRiskBus, notional, max_orders_per_window,
  store_rate, approve, exceeds_limit, check_order,
}

-- The tables have an entry for each of the 256 strategies.
pub record HasTables (b : PreTradeRiskBus) : Type 0 where
  pub breakers_256 : length b.strategy_breakers ≡ 256
  pub limits_256 : length b.exposure_limits ≡ 256
  pub exposure_256 : length b.current_exposure ≡ 256
  pub counters_256 : length b.rate_counters ≡ 256
  pub windows_256 : length b.rate_windows ≡ 256

-- What an approval needs: trading on, the strategy's breaker off, the limit kept, and fewer than
-- 100 orders before this one in the window of the clock.
pub record IsAllowed (b : PreTradeRiskBus) (req : RiskCheckRequest) (tsc : ℕ) : Type 0 where
  pub trading : b.global_kill_switch ≡ false
  pub known_strategy : req.strategy_id < 256
  pub breaker_off : get_or b.strategy_breakers req.strategy_id false ≡ false
  pub within_limit :
      u64 (get_or b.current_exposure req.strategy_id 0 + notional req)
      ≤ get_or b.exposure_limits req.strategy_id 0
  pub slow_enough :
      get_or b.rate_windows req.strategy_id 0 ≡ tsc / 3_000_000
      → get_or b.rate_counters req.strategy_id 0 < max_orders_per_window

allowed-check_order :
    (b : PreTradeRiskBus) (req : RiskCheckRequest) (tsc : ℕ)
    → IsAllowed b req tsc
    → check_order b req tsc
      ≡ some (approve (store_rate b req.strategy_id tsc).0 req.strategy_id req, approved)
unfolding check_order store_rate approve exceeds_limit
allowed-check_order b req tsc v = ground arith

approved-IsAllowed :
    (b b' : PreTradeRiskBus) (req : RiskCheckRequest) (tsc : ℕ)
    → check_order b req tsc ≡ some (b', approved)
    → IsAllowed b req tsc
unfolding check_order store_rate approve exceeds_limit
approved-IsAllowed b b' req tsc e = ground arith

abbrev pub is_approved : RiskResult → Bool
is_approved approved = true
is_approved _ = false

abbrev pub exposure : PreTradeRiskBus → ℕ → ℕ
exposure b j = get_or b.current_exposure j 0

-- An order is approved exactly when it is allowed: the kill switch and the strategy's breaker are
-- off, the strategy is one of the 256, its exposure with the order's value (the sums and products
-- modulo 2 ^ 64) keeps its limit, and fewer than 100 orders came before in the clock's window.
pub check_order-IsAllowed :
    (b : PreTradeRiskBus) (req : RiskCheckRequest) (tsc : ℕ)
    → ((b' : PreTradeRiskBus) × (check_order b req tsc ≡ some (b', approved))) ↔ IsAllowed b req tsc
check_order-IsAllowed b req tsc = (
  λ (b', e). approved-IsAllowed b b' req tsc e,
  λ a. (
    approve (store_rate b req.strategy_id tsc).0 req.strategy_id req,
    allowed-check_order b req tsc a,
  ),
)

-- Whatever the answer of a check that does not panic, the exposure of the order's strategy grows by
-- the order's value (modulo 2 ^ 64) if it was approved and not otherwise, and that of every other
-- strategy stays.
pub check_order_lem :
    (b b' : PreTradeRiskBus) (req : RiskCheckRequest) (tsc : ℕ) (r : RiskResult) (j : ℕ)
    → HasTables b
    → check_order b req tsc ≡ some (b', r)
    → exposure b' j ≡ (
        if is_approved r && (j == req.strategy_id)
        then u64 (exposure b j + notional req)
        else exposure b j)
unfolding check_order store_rate approve exceeds_limit
check_order_lem b b' req tsc r j v e = ground (
  arith,
  v,
  get_or-set_self b.current_exposure req.strategy_id
      (u64 (exposure b req.strategy_id + notional req)) 0,
  get_or-set_ne b.current_exposure req.strategy_id j
      (u64 (exposure b req.strategy_id + notional req)) 0,
)

-- No strategy is past its limit.
abbrev pub WithinLimits : PreTradeRiskBus → Type 0
WithinLimits b = (j : ℕ) → exposure b j ≤ get_or b.exposure_limits j 0

pub check_limits :
    (b b' : PreTradeRiskBus) (req : RiskCheckRequest) (tsc : ℕ) (r : RiskResult)
    → check_order b req tsc ≡ some (b', r)
    → (b'.exposure_limits ≡ b.exposure_limits)
      × (is_approved r ≡ true
          → u64 (exposure b req.strategy_id + notional req)
            ≤ get_or b.exposure_limits req.strategy_id 0)
unfolding check_order store_rate approve exceeds_limit
check_limits b b' req tsc r e = (ground arith, ground arith)

-- A check keeps the stored exposures, which are modulo 2 ^ 64, within the limits.
pub check_order-WithinLimits :
    (b b' : PreTradeRiskBus) (req : RiskCheckRequest) (tsc : ℕ) (r : RiskResult)
    → HasTables b
    → WithinLimits b
    → check_order b req tsc ≡ some (b', r)
    → WithinLimits b'
check_order-WithinLimits b b' req tsc r v w e =
    let (same, fits) = check_limits b b' req tsc r e in
    λ j. ground (arith, check_order_lem b b' req tsc r j v e, w j, same, fits)

-- An order whose value is a multiple of 2 ^ 64 counts as worth nothing: where any order could pass the
-- breaker and the rate limiter, it is approved whatever the limit, and leaves the exposure as it was.
pub wrapped_value_approved :
    (b : PreTradeRiskBus) (req : RiskCheckRequest) (tsc k : ℕ)
    → HasTables b
    → WithinLimits b
    → exposure b req.strategy_id < 2 ^ 64
    → b.global_kill_switch ≡ false
    → req.strategy_id < 256
    → get_or b.strategy_breakers req.strategy_id false ≡ false
    → get_or b.rate_windows req.strategy_id 0 ≢ tsc / 3_000_000
    → req.quantity * req.price ≡ k * 2 ^ 64
    → (b' : PreTradeRiskBus) × (check_order b req tsc ≡ some (b', approved))
      × (exposure b' req.strategy_id ≡ exposure b req.strategy_id)
wrapped_value_approved b req tsc k v w small on known off fresh value =
    let free : notional req ≡ 0 = omega (arith, value) in
    let allowed : IsAllowed b req tsc = record {
      trading = on;
      known_strategy = known;
      breaker_off = off;
      within_limit = omega (arith, w req.strategy_id);
      slow_enough = λ e. absurd (fresh e);
    } in
    let b' = (approve (store_rate b req.strategy_id tsc).0 req.strategy_id req) in
    let done = allowed-check_order b req tsc allowed in
    (b', done, ground (arith, check_order_lem b b' req tsc approved req.strategy_id v done))

-- The comparison and the addition are two accesses: of two threads that both compare before either
-- adds, both pass when each order fits by itself, and the exposure is then the sum of the two, which
-- is past the limit if the orders do not fit together.
pub racing_checks_overrun :
    (b : PreTradeRiskBus) (req other : RiskCheckRequest)
    → HasTables b
    → req.strategy_id < 256
    → other.strategy_id ≡ req.strategy_id
    → exceeds_limit b req.strategy_id req ≡ false
    → exceeds_limit b req.strategy_id other ≡ false
    → exposure b req.strategy_id + notional req + notional other < 2 ^ 64
    → get_or b.exposure_limits req.strategy_id 0
      < exposure b req.strategy_id + notional req + notional other
    → let b' = approve (approve b req.strategy_id req) req.strategy_id other in
      get_or b'.exposure_limits req.strategy_id 0 < exposure b' req.strategy_id
unfolding approve exceeds_limit
racing_checks_overrun b req other v known same fits fits' small over =
    let i = req.strategy_id in
    let once = u64 (exposure b i + notional req) in
    ground (
      arith,
      v,
      get_or-set_self b.current_exposure i once 0,
      length-set b.current_exposure i once,
      get_or-set_self (set b.current_exposure i once) i (u64 (once + notional other)) 0,
    )
