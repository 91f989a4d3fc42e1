-- ===== src/Risk/PreTradeBus/Rate.antt =====
-- The rate limiter of src/risk/pre_trade_bus.rs over a series of orders in one window of the clock.
use backendofcryptotradingbo.Base.{
  ℕ, ◌+◌, ◌-◌, ◌/◌, ◌^◌, ◌≤◌, ◌<◌, ◌≡◌, ◌≢◌, ◌⊎◌, inl, inr, none, some, List, [], ◌∷◌, u64, ◌==◌,
  arith, if◌then◌else◌, get_or, set, length, All, Option-cases, get_or-set_self, get_or-set_ne,
  length-set,
}
use backendofcryptotradingbo.Risk.PreTradeBus.{
  RiskCheckRequest, RiskResult, approved, PreTradeRiskBus, max_orders_per_window, notional,
  rate_step, store_rate, approve, check_order,
}
use backendofcryptotradingbo.Risk.PreTradeBus.Exposure.{HasTables}

-- A request with the clock at which it is checked.
pub record Arrival : Type 0 where
  pub request : RiskCheckRequest
  pub tsc : ℕ

-- 1 for an approval of an order of strategy `i`.
abbrev pub approval : ℕ → Arrival → RiskResult → ℕ
approval i a approved = if a.request.strategy_id == i then 1 else 0
approval i a _ = 0

-- The approvals of strategy `i` in a series of checks; a panic ends the series.
pub approvals : ℕ → PreTradeRiskBus → List Arrival → ℕ
approvals i b [] = 0
approvals i b (a ∷ as') = elim (check_order b a.request a.tsc) [
  | none ↦ 0
  | some (b', r) ↦ approval i a r + approvals i b' as'
]

-- What the limiter still grants a strategy in window `w`.
abbrev pub allowance : ℕ → ℕ → PreTradeRiskBus → ℕ
allowance i w b =
    if get_or b.rate_windows i 0 == w
    then max_orders_per_window - get_or b.rate_counters i 0
    else max_orders_per_window

set_or :
    (xs : List ℕ) (i j v : ℕ)
    → i < length xs
    → get_or (set xs i v) j 0 ≡ (if j == i then v else get_or xs j 0)
set_or xs i j v h = ground (arith, get_or-set_self xs i v 0, get_or-set_ne xs i j v 0)

store_rate_lem :
    (b : PreTradeRiskBus) (i j tsc : ℕ)
    → HasTables b
    → i < 256
    → let (b', before) = store_rate b i tsc in
      (before
        ≡ (if tsc / 3_000_000 == get_or b.rate_windows i 0 then get_or b.rate_counters i 0 else 0))
      × (get_or b'.rate_windows j 0
          ≡ (if j == i then tsc / 3_000_000 else get_or b.rate_windows j 0))
      × (get_or b'.rate_counters j 0
          ≡ (if j == i then u64 (before + 1) else get_or b.rate_counters j 0))
unfolding store_rate
store_rate_lem b i j tsc v h =
    let (window, counter, before) =
      rate_step tsc (get_or b.rate_windows i 0) (get_or b.rate_counters i 0) in
    ground (arith, v, set_or b.rate_windows i j window, set_or b.rate_counters i j counter)

store_rate-HasTables :
    (b : PreTradeRiskBus) (i tsc : ℕ) → HasTables b → HasTables (store_rate b i tsc).0
unfolding store_rate
store_rate-HasTables b i tsc v =
    let (window, counter, before) =
      rate_step tsc (get_or b.rate_windows i 0) (get_or b.rate_counters i 0) in
    ground (arith, v, length-set b.rate_windows i window, length-set b.rate_counters i counter)

approve_lem :
    (b : PreTradeRiskBus) (i : ℕ) (req : RiskCheckRequest)
    → HasTables b
    → HasTables (approve b i req)
      × ((approve b i req).rate_windows ≡ b.rate_windows)
      × ((approve b i req).rate_counters ≡ b.rate_counters)
unfolding approve
approve_lem b i req v =
    ground (
      arith,
      v,
      length-set b.current_exposure i (u64 (get_or b.current_exposure i 0 + notional req)),
    )

-- A check stores the rate of the order's strategy, or nothing; it approves only below 100.
pub check_order_cases :
    (b b' : PreTradeRiskBus) (req : RiskCheckRequest) (tsc : ℕ) (r : RiskResult)
    → HasTables b
    → check_order b req tsc ≡ some (b', r)
    → HasTables b'
      × ((b'.rate_windows ≡ b.rate_windows) × (b'.rate_counters ≡ b.rate_counters) × (r ≢ approved)
          ⊎ (req.strategy_id < 256)
            × (b'.rate_windows ≡ (store_rate b req.strategy_id tsc).0.rate_windows)
            × (b'.rate_counters ≡ (store_rate b req.strategy_id tsc).0.rate_counters)
            × (r ≡ approved → (store_rate b req.strategy_id tsc).1 < max_orders_per_window))
unfolding check_order
check_order_cases b b' req tsc r v e =
    let i = req.strategy_id in
    let stored = store_rate-HasTables b i tsc v in
    (
      ground (arith, v, stored, approve_lem (store_rate b i tsc).0 i req stored),
      ground (arith, approve_lem (store_rate b i tsc).0 i req stored),
    )

-- One check uses up what it grants, and counts once at most.
check_order-allowance :
    (b b' : PreTradeRiskBus) (a : Arrival) (i w : ℕ) (r : RiskResult)
    → HasTables b
    → a.tsc / 3_000_000 ≡ w
    → get_or b.rate_counters i 0 + 1 < 2 ^ 64
    → check_order b a.request a.tsc ≡ some (b', r)
    → HasTables b'
      × (approval i a r + allowance i w b' ≤ allowance i w b)
      × (get_or b'.rate_counters i 0 ≤ get_or b.rate_counters i 0 + 1)
check_order-allowance b b' a i w r v now small e =
    let (v', how) = check_order_cases b b' a.request a.tsc r v e in
    (
      v',
      ground (arith, how, store_rate_lem b a.request.strategy_id i a.tsc v),
      ground (arith, how, store_rate_lem b a.request.strategy_id i a.tsc v),
    )

approvals-allowance :
    (i w : ℕ) (b : PreTradeRiskBus) (as' : List Arrival)
    → HasTables b
    → All (λ a. a.tsc / 3_000_000 ≡ w) as'
    → get_or b.rate_counters i 0 + length as' < 2 ^ 64
    → approvals i b as' ≤ allowance i w b
unfolding approvals
approvals-allowance i w b [] v now small = omega arith
approvals-allowance i w b (a ∷ as') v now small =
    elim (Option-cases (check_order b a.request a.tsc)) [
      | inl e ↦ rw (e, approvals) (omega arith)
      | inr ((b', r), e) ↦
          let (v', fewer, counted) = check_order-allowance b b' a i w r v now.0 (omega arith) e in
          rw (e, approvals) (omega (arith, approvals-allowance i w b' as' v' now.1 (omega arith)))
    ]

-- Of any series of orders, of this and other strategies, that are checked in one window of three
-- million cycles, at most 100 orders of a strategy are approved, less those that the window held
-- before; provided that the strategy's counter does not pass 2 ^ 64.
pub approvals_bounded :
    (i w : ℕ) (b : PreTradeRiskBus) (as' : List Arrival)
    → HasTables b
    → All (λ a. a.tsc / 3_000_000 ≡ w) as'
    → get_or b.rate_counters i 0 + length as' < 2 ^ 64
    → approvals i b as' ≤ (
        if get_or b.rate_windows i 0 == w
        then max_orders_per_window - get_or b.rate_counters i 0
        else max_orders_per_window)
approvals_bounded i w b as' v now small = approvals-allowance i w b as' v now small
