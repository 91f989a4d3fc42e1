-- ===== src/Risk/PositionSizer.antt =====
-- src/risk/position_sizer.rs: positions and the sizes of new orders. Quantities held are i64, other
-- numbers u64 unless a comment says otherwise.
pub mod Size
pub mod Exposure
use Prim.Native.Nat.{min}
use backendofcryptotradingbo.Base.{
  ℕ, ◌+◌, ◌-◌, ◌*◌, ◌/◌, ◌%◌, ◌^◌, Bool, true, false, not, ◌&&◌, ◌||◌, Option, none, some, List, [],
  ◌∷◌, map, u64, ltb, leb, ◌==◌, if◌then◌else◌, get_or, set, replicate,
}
use backendofcryptotradingbo.Base.Int.{ℤ, pos, negsuc, pos_part, neg_part, ◌+ℤ◌, ◌-ℤ◌, ◌*ℤ◌, wrap}

abbrev pub max_instruments : ℕ
max_instruments = 256

-- An entry of `KELLY_LOOKUP`; a negative value is clamped to 0.
unfoldable pub kelly_lookup : ℕ → ℕ
kelly_lookup win_rate = min ((win_rate * 150 - (100 - win_rate) * 100) / 150) 100 * 100

pub record PositionSizeResult : Type 0 where
  pub quantity : ℕ
  pub kelly_fraction : ℕ  -- u16
  pub risk_adjusted_size : ℕ
  pub max_position : ℕ

abbrev pub empty_size : PositionSizeResult
empty_size = record { quantity = 0; kelly_fraction = 0; risk_adjusted_size = 0; max_position = 0 }

pub record InstrumentPosition : Type 0 where
  pub current_qty : ℤ
  pub max_qty : ℕ
  pub avg_entry_price : ℕ
  pub unrealized_pnl : ℤ

abbrev pub empty_position : InstrumentPosition
empty_position = record {
  current_qty = pos 0;
  max_qty = 0;
  avg_entry_price = 0;
  unrealized_pnl = pos 0;
}

pub record PositionSizer : Type 0 where
  pub positions : List InstrumentPosition  -- 256 of them
  pub account_equity : ℕ
  pub max_leverage_bp : ℕ
  pub risk_per_trade_bp : ℕ
  pub kelly_multiplier : ℕ
  pub total_exposure : ℕ

unfoldable pub new : PositionSizer
new = record {
  positions = replicate max_instruments empty_position;
  account_equity = 10_000_000_000;
  max_leverage_bp = 30000;
  risk_per_trade_bp = 200;
  kelly_multiplier = 50;
  total_exposure = 0;
}

abbrev pub position_at : PositionSizer → ℕ → InstrumentPosition
position_at s id = get_or s.positions id empty_position

unfoldable pub set_account_equity : PositionSizer → ℕ → PositionSizer
set_account_equity s equity = record s { account_equity = equity }

unfoldable pub set_max_leverage : PositionSizer → ℕ → PositionSizer
set_max_leverage s leverage_bp = record s { max_leverage_bp = leverage_bp }

unfoldable pub set_risk_per_trade : PositionSizer → ℕ → PositionSizer
set_risk_per_trade s risk_bp = record s { risk_per_trade_bp = risk_bp }

unfoldable pub set_kelly_multiplier : PositionSizer → ℕ → PositionSizer
set_kelly_multiplier s multiplier = record s {
  kelly_multiplier = if ltb 100 multiplier then 100 else multiplier;
}

unfoldable pub set_max_position : PositionSizer → ℕ → ℕ → PositionSizer
set_max_position s id max_qty =
    if ltb id max_instruments
    then record s {
      positions = set s.positions id (record (position_at s id) { max_qty = max_qty });
    }
    else s

abbrev pub unsigned_abs : ℤ → ℕ
unsigned_abs a = pos_part a + neg_part a

-- `signum`, as 0 for zero, 1 for a positive and 2 for a negative number
abbrev pub signum : ℤ → ℕ
signum a = if ltb 0 (pos_part a) then 1 else if ltb 0 (neg_part a) then 2 else 0

-- Whether a change adds to a position on its side
unfoldable pub adds_to : ℤ → ℤ → Bool
adds_to old_qty delta =
    ((neg_part old_qty == 0) && ltb 0 (pos_part delta))
    || ((pos_part old_qty == 0) && ltb 0 (neg_part delta))

-- The average entry price after a change that adds; the sum of the quantities is a u64 and that of the
-- values a u128.
unfoldable pub added_average : InstrumentPosition → ℤ → ℕ → ℕ
added_average p delta price =
    let total = u64 (unsigned_abs p.current_qty + unsigned_abs delta) in
    u64 (
      (unsigned_abs p.current_qty * p.avg_entry_price + unsigned_abs delta * price)
      % 2 ^ 128
      / total)

-- The position after a change, without the limit
unfoldable pub changed_position : InstrumentPosition → ℤ → ℕ → InstrumentPosition
unfolding added_average adds_to
changed_position p delta price =
    let new_qty = wrap (2 ^ 64) (p.current_qty +ℤ delta) in
    let avg =
      if adds_to p.current_qty delta
      then added_average p delta price
      else if signum new_qty == signum p.current_qty
      then p.avg_entry_price
      else price in
    record p {
      current_qty = new_qty;
      avg_entry_price = avg;
      unrealized_pnl = wrap (2 ^ 64) ((pos price -ℤ pos avg) *ℤ new_qty);
    }

-- `none` is the panic of a division by 0, where both quantities are -2 ^ 63.
unfoldable pub update_position : PositionSizer → ℕ → ℤ → ℕ → Option PositionSizer
unfolding changed_position
update_position s id delta price =
    let p = position_at s id in
    let p' = changed_position p delta price in
    if leb max_instruments id
    then some s
    else if adds_to p.current_qty delta
        && (u64 (unsigned_abs p.current_qty + unsigned_abs delta) == 0)
    then none
    else some (record s {
      positions = set s.positions id p';
      total_exposure = u64 (s.total_exposure + u64 (unsigned_abs p'.current_qty * price));
    })

-- `adjusted_kelly`; both branches on the reward ratio compute the same.
unfoldable pub adjusted_kelly : PositionSizer → ℕ → ℕ → ℕ
unfolding kelly_lookup
adjusted_kelly s win_rate_bps reward_ratio_bps =
    u64 (kelly_lookup (win_rate_bps / 100) * reward_ratio_bps / 150 * s.kelly_multiplier) / 100

abbrev pub max_position_value : PositionSizer → ℕ
max_position_value s = s.account_equity * s.max_leverage_bp / 10000

-- `risk_adjusted_value`, a u128 whose products wrap
unfoldable pub risk_adjusted_value : PositionSizer → ℕ → ℕ
risk_adjusted_value s kelly =
    s.account_equity * s.risk_per_trade_bp % 2 ^ 128 * kelly % 2 ^ 128 / 1_000_000_000

unfoldable pub calculate_kelly_size : PositionSizer → ℕ → ℕ → ℕ → ℕ → PositionSizeResult
calculate_kelly_size s id win_rate_bps reward_ratio_bps current_price =
    let kelly = adjusted_kelly s win_rate_bps reward_ratio_bps in
    let risk_value = risk_adjusted_value s kelly in
    let final_value =
      if ltb (max_position_value s) risk_value then max_position_value s else risk_value in
    let quantity = if ltb 0 current_price then u64 (final_value / current_price) else 0 in
    let remaining = (position_at s id).max_qty - unsigned_abs (position_at s id).current_qty in
    if leb max_instruments id || ltb 10000 win_rate_bps then empty_size else record {
      quantity = if ltb remaining quantity then remaining else quantity;
      kelly_fraction = kelly % 2 ^ 16;
      risk_adjusted_size = risk_value % 2 ^ 48;
      max_position = (position_at s id).max_qty;
    }

unfoldable pub get_position : PositionSizer → ℕ → ℤ
get_position s id = if ltb id max_instruments then (position_at s id).current_qty else pos 0

unfoldable pub get_unrealized_pnl : PositionSizer → ℕ → ℤ
get_unrealized_pnl s id =
    if ltb id max_instruments then (position_at s id).unrealized_pnl else pos 0

-- The difference of two u128, cut to a u64
unfoldable pub get_buying_power : PositionSizer → ℕ
get_buying_power s = u64 (max_position_value s - s.total_exposure)

unfoldable pub reset_positions : PositionSizer → PositionSizer
reset_positions s = record s {
  positions =
      map {A = InstrumentPosition}
        (λ p. record p { current_qty = pos 0; avg_entry_price = 0; unrealized_pnl = pos 0 })
        s.positions;
  total_exposure = 0;
}
