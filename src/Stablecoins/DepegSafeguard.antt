-- ===== src/Stablecoins/DepegSafeguard.antt =====
-- src/stablecoins/depeg_safeguard.rs: the prices of stablecoins, their deviation from the peg, haircuts
-- and the circuit breaker, used by one thread at a time. The writes through `&self` are modelled as the
-- assignments that they mean, the negated quotient as the negative i64, and the index of a u64 as its
-- value. A reading of the cycle counter is an argument.
pub mod Haircut
pub mod Halt
use Prim.Native.Nat.{min}
use backendofcryptotradingbo.Base.{
  ℕ, zero, suc, ◌+◌, ◌-◌, ◌*◌, ◌/◌, ◌%◌, ◌^◌, Bool, true, false, not, ◌&&◌, List, [], ◌∷◌, u64, ltb,
  leb, ◌==◌, if◌then◌else◌, get_or, set, replicate,
}
use backendofcryptotradingbo.Base.Int.{ℤ, pos, negsuc, pos_part, neg_part}
use backendofcryptotradingbo.Base.Search.{update_first}

abbrev pub fixed_scale : ℕ
fixed_scale = 1_000_000

abbrev pub peg_threshold_bps : ℕ
peg_threshold_bps = 100

abbrev pub circuit_breaker_threshold_bps : ℕ
circuit_breaker_threshold_bps = 500

pub record PriceFeed : Type 0 where
  pub feed_id : ℕ
  pub token_type : ℕ
  pub venue_id : ℕ
  pub price_fixed : ℕ
  pub bid_fixed : ℕ
  pub ask_fixed : ℕ
  pub volume_24h_fixed : ℕ
  pub last_update_cycles : ℕ
  pub is_stale : Bool

abbrev pub empty_feed : PriceFeed
empty_feed = record {
  feed_id = 0;
  token_type = 0;
  venue_id = 0;
  price_fixed = 0;
  bid_fixed = 0;
  ask_fixed = 0;
  volume_24h_fixed = 0;
  last_update_cycles = 0;
  is_stale = false;
}

pub record HaircutConfig : Type 0 where
  pub config_token : ℕ
  pub base_haircut_bps : ℕ
  pub max_haircut_bps : ℕ
  pub increment_per_bps : ℕ
  pub depeg_trigger_bps : ℕ

abbrev pub new_config : ℕ → HaircutConfig
new_config token_type = record {
  config_token = token_type;
  base_haircut_bps = 100;
  max_haircut_bps = 5000;
  increment_per_bps = 100;
  depeg_trigger_bps = 200;
}

pub record StablecoinDepegMonitor : Type 0 where
  pub feeds : List PriceFeed  -- 64 of them
  pub feed_count : ℕ
  pub aggregate_prices : List ℕ  -- of 8 tokens, like the next three
  pub peg_deviation_bps : List ℤ
  pub haircut_configs : List HaircutConfig
  pub current_haircuts_bps : List ℕ
  pub circuit_breaker : Bool
  pub trading_halted : Bool
  pub alert_level : ℕ

abbrev pub new : StablecoinDepegMonitor
new = record {
  feeds = replicate 64 empty_feed;
  feed_count = 0;
  aggregate_prices = replicate 8 0;
  peg_deviation_bps = replicate 8 (pos 0);
  haircut_configs = replicate 8 (new_config 0);
  current_haircuts_bps = replicate 8 0;
  circuit_breaker = false;
  trading_halted = false;
  alert_level = 0;
}

unfoldable pub init_haircut_configs : StablecoinDepegMonitor → StablecoinDepegMonitor
init_haircut_configs m = record m {
  haircut_configs =
      set (set (set m.haircut_configs 0 (new_config 0)) 1 (new_config 1)) 2 (new_config 2);
}

unfoldable pub register_feed : StablecoinDepegMonitor → PriceFeed → StablecoinDepegMonitor × Bool
register_feed m feed =
    let idx = m.feed_count in
    if leb 64 idx
    then (record m { feed_count = u64 (u64 (idx + 1) + 2 ^ 64 - 1) }, false)
    else (record m { feed_count = u64 (idx + 1); feeds = set m.feeds idx feed }, true)

-- The sum of the fresh prices of a token and their number
unfoldable pub price_sum : ℕ → ℕ → ℕ → ℕ → List PriceFeed → ℕ × ℕ
price_sum token sum count zero fs = (sum, count)
price_sum token sum count (suc n) [] = (sum, count)
price_sum token sum count (suc n) (f ∷ fs) =
    let counts = f.token_type == token && not f.is_stale in
    price_sum token (if counts then u64 (sum + f.price_fixed) else sum)
      (if counts then u64 (count + 1) else count) n fs

-- The i64 -n
abbrev pub negative : ℕ → ℤ
negative zero = pos 0
negative (suc n) = negsuc n

unfoldable pub deviation_of : ℕ → ℤ
deviation_of avg =
    if leb fixed_scale avg
    then pos (u64 ((avg - fixed_scale) * 10000) / fixed_scale)
    else negative (u64 ((fixed_scale - avg) * 10000) / fixed_scale)

abbrev pub unsigned_abs : ℤ → ℕ
unsigned_abs d = pos_part d + neg_part d

unfoldable pub update_haircut : StablecoinDepegMonitor → ℕ → ℕ → StablecoinDepegMonitor
update_haircut m token deviation_bps =
    let config = get_or m.haircut_configs token (new_config 0) in
    let exceeds_trigger : ℕ = if leb config.depeg_trigger_bps deviation_bps then 1 else 0 in
    let excess_bps = deviation_bps - config.depeg_trigger_bps in
    let additional_haircut = u64 (excess_bps * config.increment_per_bps) in
    let calculated_haircut =
      u64 (config.base_haircut_bps + u64 (additional_haircut * exceeds_trigger)) in
    record m {
      current_haircuts_bps =
          set m.current_haircuts_bps token (min calculated_haircut config.max_haircut_bps);
    }

unfoldable pub check_circuit_breaker : StablecoinDepegMonitor → ℕ → StablecoinDepegMonitor
check_circuit_breaker m deviation_bps =
    if leb circuit_breaker_threshold_bps deviation_bps
    then record m { circuit_breaker = true; trading_halted = true; alert_level = 2 }
    else if leb (peg_threshold_bps * 2) deviation_bps
    then record m { alert_level = 1 }
    else record m { alert_level = 0 }

-- Its callers pass a token below 8; the panic of a larger one is not modelled.
unfoldable pub recalculate_aggregate : StablecoinDepegMonitor → ℕ → StablecoinDepegMonitor
recalculate_aggregate m token =
    let (sum, count) = price_sum token 0 0 m.feed_count m.feeds in
    let avg = sum / count in
    let deviation = deviation_of avg in
    let m' = record m {
      aggregate_prices = set m.aggregate_prices token avg;
      peg_deviation_bps = set m.peg_deviation_bps token deviation;
    } in
    let abs = unsigned_abs deviation in
    if ltb 0 count then check_circuit_breaker (update_haircut m' token abs) abs else m

unfoldable pub update_price : StablecoinDepegMonitor → ℕ → ℕ → ℕ → ℕ → ℕ → StablecoinDepegMonitor
update_price m id price_fixed bid_fixed ask_fixed cycles =
    let written = λ (f : PriceFeed). record f {
      price_fixed = price_fixed;
      bid_fixed = bid_fixed;
      ask_fixed = ask_fixed;
      last_update_cycles = cycles;
      is_stale = false;
    } in
    recalculate_aggregate
      (record m { feeds = update_first (λ f. f.feed_id == id) written m.feed_count m.feeds })
      (id % 8)

unfoldable pub get_aggregate_price : StablecoinDepegMonitor → ℕ → ℕ
get_aggregate_price m token = if leb 8 token then 0 else get_or m.aggregate_prices token 0

unfoldable pub get_peg_deviation_bps : StablecoinDepegMonitor → ℕ → ℤ
get_peg_deviation_bps m token =
    if leb 8 token then pos 0 else get_or m.peg_deviation_bps token (pos 0)

unfoldable pub get_current_haircut_bps : StablecoinDepegMonitor → ℕ → ℕ
get_current_haircut_bps m token = if leb 8 token then 0 else get_or m.current_haircuts_bps token 0

abbrev pub is_circuit_breaker_triggered : StablecoinDepegMonitor → Bool
is_circuit_breaker_triggered m = m.circuit_breaker

abbrev pub is_trading_halted : StablecoinDepegMonitor → Bool
is_trading_halted m = m.trading_halted

abbrev pub get_alert_level : StablecoinDepegMonitor → ℕ
get_alert_level m = m.alert_level

unfoldable pub reset_circuit_breaker : StablecoinDepegMonitor → StablecoinDepegMonitor
reset_circuit_breaker m = record m { circuit_breaker = false; trading_halted = false }

unfoldable pub apply_haircut : StablecoinDepegMonitor → ℕ → ℕ → ℕ
apply_haircut m token amount_fixed =
    let haircut_bps = get_current_haircut_bps m token in
    u64 (amount_fixed * u64 (10000 + 2 ^ 64 - haircut_bps)) / 10000
