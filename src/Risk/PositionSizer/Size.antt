-- ===== src/Risk/PositionSizer/Size.antt =====
-- The sizes that src/risk/position_sizer.rs gives.

use native.Mathlib.Nat.{mul-div-le}
use backendofcryptotradingbo.Base.{
  ℕ, Bool, true, ◌==◌, ◌+◌, ◌-◌, ◌*◌, ◌/◌, ◌%◌, ◌^◌, ◌≤◌, ◌<◌, ◌≡◌, ◌⊎◌, inl, inr, refl, ◌||◌, u64,
  ltb, leb, if◌then◌else◌, arith, Bool-cases,
}
use backendofcryptotradingbo.Risk.PositionSizer.{
  PositionSizer, max_instruments, position_at, unsigned_abs, adjusted_kelly, max_position_value,
  kelly_lookup, risk_adjusted_value, calculate_kelly_size,
}

mul_mono : (a b c : ℕ) → a ≤ b → a * c ≤ b * c
mul_mono a b c h = grind arith

-- The quantity for a value is worth no more than the value.
quantity_of-le :
    (value price : ℕ) → (if ltb 0 price then u64 (value / price) else 0) * price ≤ value
quantity_of-le value price =
    let whole = mul-div-le value price in
    let swap : price * (value / price) ≡ value / price * price = grind arith in
    let cut = mul_mono (u64 (value / price)) (value / price) price (omega arith) in
    elim (Bool-cases (ltb 0 price)) [
      | inl priced ↦ rw priced (omega (arith, whole, swap, cut))
      | inr free ↦ rw free (omega arith)
    ]

-- One unit more than the quantity for a value is worth more than the value, where the quantity is a u64.
quantity_of-lt :
    (value price : ℕ)
    → 0 < price
    → value < 2 ^ 64 * price
    → value < ((if ltb 0 price then u64 (value / price) else 0) + 1) * price
quantity_of-lt value price h small =
    let over : value < (value / price + 1) * price = grind arith in
    let room : value / price < 2 ^ 64 = grind arith in ground (arith, over, room, h)

-- The looked-up fraction (in hundredths of a percent) against the Kelly fraction of a bet at 1.5 to 1
kelly_lookup-le :
    (win_rate_bps : ℕ) → kelly_lookup (win_rate_bps / 100) * 3 ≤ 5 * (win_rate_bps - 4000)
unfolding kelly_lookup
kelly_lookup-le w = omega arith

mul_shift : (a b c : ℕ) → a * b * c ≡ a * c * b
mul_shift a b c = grind arith

adjusted_kelly-le :
    (s : PositionSizer) (win_rate_bps reward_ratio_bps : ℕ)
    → adjusted_kelly s win_rate_bps reward_ratio_bps * 9000
      ≤ (win_rate_bps - 4000) * reward_ratio_bps * s.kelly_multiplier
unfolding adjusted_kelly
adjusted_kelly-le s w r =
    let base = kelly_lookup (w / 100) in
    let k = s.kelly_multiplier in
    let low = mul_mono (base * 3) (5 * (w - 4000)) r (kelly_lookup-le w) in
    let e1 : base * 3 * r ≡ base * r * 3 = grind arith in
    let e2 : 5 * (w - 4000) * r ≡ 5 * ((w - 4000) * r) = grind arith in
    let adj : base * r / 150 * 90 ≤ (w - 4000) * r = omega (arith, low, e1, e2) in
    let next = mul_mono (base * r / 150 * 90) ((w - 4000) * r) k adj in
    let e3 : base * r / 150 * 90 * k ≡ base * r / 150 * k * 90 = grind arith in
    omega (arith, next, e3)

risk_adjusted_value-le :
    (s : PositionSizer) (kelly : ℕ)
    → risk_adjusted_value s kelly * 1_000_000_000 ≤ s.account_equity * s.risk_per_trade_bp * kelly
unfolding risk_adjusted_value
risk_adjusted_value-le s kelly =
    let whole = s.account_equity * s.risk_per_trade_bp in
    let cut = mul_mono (whole % 2 ^ 128) whole kelly (omega arith) in omega (arith, cut)

-- The value by the risk per trade, without the code's intermediate steps
risk_value-le :
    (s : PositionSizer) (win_rate_bps reward_ratio_bps : ℕ)
    → risk_adjusted_value s (adjusted_kelly s win_rate_bps reward_ratio_bps) * 9_000_000_000_000
      ≤ (win_rate_bps - 4000)
        * reward_ratio_bps
        * s.kelly_multiplier
        * (s.account_equity * s.risk_per_trade_bp)
risk_value-le s w r =
    let kelly = adjusted_kelly s w r in
    let whole = s.account_equity * s.risk_per_trade_bp in
    let first = risk_adjusted_value-le s kelly in
    let next =
      mul_mono (kelly * 9000) ((w - 4000) * r * s.kelly_multiplier) whole
        (adjusted_kelly-le s w r) in
    let e : kelly * 9000 * whole ≡ whole * kelly * 9000 = grind arith in
    omega (arith, first, next, e)

-- Why a size is no larger: the call is refused (the instrument or the win rate out of range), the price
-- is 0, the equity's leverage buys 2 ^ 64 units or more, the instrument's limit is reached, or one unit
-- more is worth more than the leverage or than the code's value for the risk.
abbrev pub is_exhausted : PositionSizer → ℕ → ℕ → ℕ → ℕ → ℕ → Bool
is_exhausted s id win_rate_bps reward_ratio_bps price size =
    leb max_instruments id
    || ltb 10000 win_rate_bps
    || (price == 0)
    || leb (2 ^ 64 * price) (s.account_equity * s.max_leverage_bp / 10000)
    || leb (position_at s id).max_qty (size + unsigned_abs (position_at s id).current_qty)
    || ltb (s.account_equity * s.max_leverage_bp / 10000) ((size + 1) * price)
    || ltb (risk_adjusted_value s (adjusted_kelly s win_rate_bps reward_ratio_bps))
        ((size + 1) * price)

calculate_kelly_size-exhausted :
    (s : PositionSizer) (id win_rate_bps reward_ratio_bps current_price : ℕ)
    → is_exhausted s id win_rate_bps reward_ratio_bps current_price
        (calculate_kelly_size s id win_rate_bps reward_ratio_bps current_price).quantity
      ≡ true
unfolding calculate_kelly_size
calculate_kelly_size-exhausted s id win_rate_bps reward_ratio_bps current_price =
    let risk : ℕ = risk_adjusted_value s (adjusted_kelly s win_rate_bps reward_ratio_bps) in
    let final : ℕ = if ltb (max_position_value s) risk then max_position_value s else risk in
    let more = quantity_of-lt final current_price in
    elim (Bool-cases (leb max_instruments id || ltb 10000 win_rate_bps)) [
      | inl refused ↦ rw (refused, calculate_kelly_size) (ground (arith, refused))
      | inr sized ↦ rw (sized, calculate_kelly_size) (ground (arith, more))
    ]

-- A size, together with what is held, is at most the instrument's limit, unless it is 0. Its value
-- (size times price) is at most the equity times the leverage in basis points over 10000. And its value
-- is at most the equity times the risk per trade in basis points, times the win rate over 40 percent
-- (0 below it) and the reward ratio in basis points, times the Kelly multiplier in percent, over 9 *
-- 10 ^ 12; so it is 0 at a win rate of 40 percent or less. This is the Kelly fraction of a bet at 1.5 to
-- 1, scaled, and no cap at the risk per trade: at 200 basis points, a win rate of 100 percent, a ratio of
-- 65535 and a multiplier of 100 it is 87 percent of the equity. Last, the size is the largest: unless
-- the instrument or the win rate is out of range, the price is 0, or the leverage buys 2 ^ 64 units or
-- more, it reaches the instrument's limit, or one unit more would be worth more than the equity with
-- its leverage or than the value that the code takes for the risk.
pub calculate_kelly_size_lem :
    (s : PositionSizer) (id win_rate_bps reward_ratio_bps current_price : ℕ)
    → let size = (calculate_kelly_size s id win_rate_bps reward_ratio_bps current_price).quantity in
      let p = position_at s id in
      ((size ≡ 0) ⊎ (size + unsigned_abs p.current_qty ≤ p.max_qty))
      × (size * current_price * 10000 ≤ s.account_equity * s.max_leverage_bp)
      × (size * current_price * 9_000_000_000_000
          ≤ (win_rate_bps - 4000)
            * reward_ratio_bps
            * s.kelly_multiplier
            * (s.account_equity * s.risk_per_trade_bp))
      × (is_exhausted s id win_rate_bps reward_ratio_bps current_price size ≡ true)
unfolding calculate_kelly_size
calculate_kelly_size_lem s id win_rate_bps reward_ratio_bps current_price =
    let p = position_at s id in
    let risk : ℕ = risk_adjusted_value s (adjusted_kelly s win_rate_bps reward_ratio_bps) in
    let final : ℕ = if ltb (max_position_value s) risk then max_position_value s else risk in
    let quantity : ℕ = if ltb 0 current_price then u64 (final / current_price) else 0 in
    let remaining : ℕ = p.max_qty - unsigned_abs p.current_qty in
    let size : ℕ = if ltb remaining quantity then remaining else quantity in
    let affordable : quantity * current_price ≤ final = quantity_of-le final current_price in
    let smaller : size * current_price ≤ quantity * current_price =
      mul_mono size quantity current_price (ground arith) in
    let by_leverage : size * current_price ≤ max_position_value s =
      ground (arith, affordable, smaller) in
    let by_risk : size * current_price ≤ risk = ground (arith, affordable, smaller) in
    let bound = risk_value-le s win_rate_bps reward_ratio_bps in
    let largest = calculate_kelly_size-exhausted s id win_rate_bps reward_ratio_bps current_price in
    elim (Bool-cases (leb max_instruments id || ltb 10000 win_rate_bps)) [
      | inl refused ↦
          rw (refused, calculate_kelly_size)
            (inl refl, omega arith, omega arith, rw (refused, calculate_kelly_size) at largest)
      | inr sized ↦
          rw (sized, calculate_kelly_size)
            (
              ground arith,
              omega (arith, by_leverage),
              omega (arith, by_risk, bound),
              rw (sized, calculate_kelly_size) at largest,
            )
    ]
