-- ===== src/Risk/PreTradeBus/Limits.antt =====
-- The limits of src/risk/pre_trade_bus.rs over a series of checks and reductions.
use backendofcryptotradingbo.Base.{
  ℕ, ◌+◌, ◌-◌, ◌*◌, ◌^◌, ◌<◌, ◌≡◌, refl, ◌&&◌, Option, none, some, inl, inr, List, [], ◌∷◌, Bool,
  false, ltb, ◌==◌, All, arith, if◌then◌else◌, get_or, get_or-set_self, get_or-set_ne, length-set,
  Option-cases,
}
use backendofcryptotradingbo.Risk.PreTradeBus.{
  RiskCheckRequest, RiskResult, PreTradeRiskBus, check_order, reduce_exposure,
}
use backendofcryptotradingbo.Risk.PreTradeBus.Exposure.{
  HasTables, WithinLimits, is_approved, exposure, check_order_lem, check_limits,
  check_order-WithinLimits,
}
use backendofcryptotradingbo.Risk.PreTradeBus.Rate.{check_order_cases}

-- A check of an order at a time of the cycle counter, or a reduction of a strategy's exposure
pub data Operation : Type 0 where
  checked : RiskCheckRequest → ℕ → Operation
  reduced : ℕ → ℕ → Operation

-- The bus and the answer after a check. An id past the tables panics before any store.
abbrev pub outcome :
    PreTradeRiskBus → Option (PreTradeRiskBus × RiskResult) → PreTradeRiskBus × Bool
outcome b none = (b, false)
outcome b (some (b', r)) = (b', is_approved r)

abbrev pub apply : PreTradeRiskBus → Operation → PreTradeRiskBus
apply b (checked req tsc) = (outcome b (check_order b req tsc)).0
apply b (reduced i amount) = reduce_exposure b i amount

pub run : PreTradeRiskBus → List Operation → PreTradeRiskBus
run b [] = b
run b (op ∷ ops) = run (apply b op) ops

-- The exposure `e` of strategy `j` after an operation, in whole numbers that do not wrap: an approved
-- order adds its quantity times its price, and a reduction takes its amount, down to 0.
abbrev pub true_step : ℕ → PreTradeRiskBus → ℕ → Operation → ℕ
true_step j b e (checked req tsc) =
    if (outcome b (check_order b req tsc)).1 && (j == req.strategy_id)
    then e + req.quantity * req.price
    else e
true_step j b e (reduced i amount) = if ltb i 256 && (j == i) then e - amount else e

unfoldable pub true_exposure : ℕ → PreTradeRiskBus → ℕ → List Operation → ℕ
true_exposure j b e [] = e
true_exposure j b e (op ∷ ops) = true_exposure j (apply b op) (true_step j b e op) ops

-- The limit of the order's strategy and the order's value sum to less than 2 ^ 64.
abbrev pub Fits : List ℕ → Operation → Type 0
Fits limits (checked req tsc) = get_or limits req.strategy_id 0 + req.quantity * req.price < 2 ^ 64
Fits limits (reduced i amount) = Unit

-- What one operation keeps: the tables, the limits, and every strategy within its limit
record Kept (j : ℕ) (b : PreTradeRiskBus) (op : Operation) : Type 0 where
  tables : HasTables (apply b op)
  limits : (apply b op).exposure_limits ≡ b.exposure_limits
  within : WithinLimits (apply b op)
  same : exposure (apply b op) j ≡ true_step j b (exposure b j) op

check_order-Kept :
    (j : ℕ) (b : PreTradeRiskBus) (req : RiskCheckRequest) (tsc : ℕ)
    → HasTables b
    → WithinLimits b
    → Fits b.exposure_limits (checked req tsc)
    → Kept j b (checked req tsc)
check_order-Kept j b req tsc v w fits = elim (Option-cases (check_order b req tsc)) [
  | inl e ↦ record {
    tables = rw (e, apply, outcome) v;
    limits = rw (e, apply, outcome) refl;
    within = rw (e, apply, outcome) w;
    same = rw (e, apply, outcome, true_step) refl;
  }
  | inr ((b', r), e) ↦
      let (limits, passed) = check_limits b b' req tsc r e in
      record {
        tables = rw (e, apply, outcome) (check_order_cases b b' req tsc r v e).0;
        limits = rw (e, apply, outcome) limits;
        within = rw (e, apply, outcome) (check_order-WithinLimits b b' req tsc r v w e);
        same =
            rw (e, apply, outcome, true_step)
              (ground (arith, check_order_lem b b' req tsc r j v e, w req.strategy_id, fits));
      }
]

reduce_exposure-Kept :
    (j : ℕ) (b : PreTradeRiskBus) (i amount : ℕ)
    → HasTables b
    → WithinLimits b
    → Kept j b (reduced i amount)
unfolding reduce_exposure
reduce_exposure-Kept j b i amount v w =
    let left : ℕ = exposure b i - amount in
    let self = get_or-set_self b.current_exposure i left 0 in
    let other = λ (k : ℕ). get_or-set_ne b.current_exposure i k left 0 in
    let size = length-set b.current_exposure i left in
    record {
      tables = record {
        breakers_256 = ground (arith, v);
        limits_256 = ground (arith, v);
        exposure_256 = ground (arith, v, size);
        counters_256 = ground (arith, v);
        windows_256 = ground (arith, v);
      };
      limits = ground arith;
      within = λ k. ground (arith, w k, v, self, other k);
      same = ground (arith, v, self, other j);
    }

apply-Kept :
    (j : ℕ) (b : PreTradeRiskBus) (op : Operation)
    → HasTables b
    → WithinLimits b
    → Fits b.exposure_limits op
    → Kept j b op
apply-Kept j b (checked req tsc) v w fits = check_order-Kept j b req tsc v w fits
apply-Kept j b (reduced i amount) v w fits = reduce_exposure-Kept j b i amount v w

-- From a bus on which every strategy is within its limit, after any series of checks of orders and
-- reductions of exposures, of this and other strategies, every strategy is still within its limit, and
-- the stored exposure of strategy `j` is its true one: the sum, in whole numbers that do not wrap, of
-- quantity times price over its approved orders, less its reductions, each of which stops at 0. The
-- condition is that each order's quantity times price and the limit of its strategy sum to less than
-- 2 ^ 64: the code's products and sums are modulo 2 ^ 64, and nothing is stated of orders past that. A
-- check that panics, of a strategy past the 256, ends without a change.
pub run-WithinLimits :
    (j : ℕ) (b : PreTradeRiskBus) (ops : List Operation)
    → HasTables b
    → WithinLimits b
    → All (Fits b.exposure_limits) ops
    → WithinLimits (run b ops) × (exposure (run b ops) j ≡ true_exposure j b (exposure b j) ops)
unfolding run true_exposure
run-WithinLimits j b [] v w fits = (w, refl)
run-WithinLimits j b (op ∷ ops) v w fits =
    let k = apply-Kept j b op v w fits.0 in
    let (within, same) =
      run-WithinLimits j (apply b op) ops k.tables k.within (rw k.limits fits.1) in
    (within, rw (← k.same) same)
