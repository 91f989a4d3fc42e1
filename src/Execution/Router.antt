-- ===== src/Execution/Router.antt =====
-- src/execution/smart_router.rs: the venues, their statistics, and the choice of a venue for an order.
-- Numbers are u64 unless a comment says otherwise; a reading of the cycle counter is an argument.
pub mod Choice
pub mod Split
pub mod State
use Prim.Native.Nat.{min}
use backendofcryptotradingbo.Base.{
  ℕ, zero, suc, ◌+◌, ◌-◌, ◌*◌, ◌/◌, ◌^◌, Bool, true, false, ◌&&◌, ◌||◌, List, u64, ltb, leb, ◌==◌,
  if◌then◌else◌, get_or, set, replicate,
}
use backendofcryptotradingbo.Base.Int.{
  ℤ, pos, negsuc, ◌+ℤ◌, ◌-ℤ◌, ltb_ℤ, of_bits, to_bits, wrap, div_ℤ,
}
unfoldable pub use State.*

unfoldable pub new : SmartRouter
new = record {
  venues = replicate max_venues new_venue;
  num_venues = 0;
  min_liquidity = 1000;
  max_latency_ns = 10_000_000;
  toxicity_penalty_bp = 5000;
  routing_enabled = true;
}

abbrev pub venue_at : SmartRouter → ℕ → VenueStats
venue_at r i = get_or r.venues i new_venue

-- A change of one venue; an id out of range changes nothing.
unfoldable pub change_venue : SmartRouter → ℕ → (VenueStats → VenueStats) → SmartRouter
change_venue r id f =
    if ltb id max_venues then record r { venues = set r.venues id (f (venue_at r id)) } else r

unfoldable pub register_venue : SmartRouter → ℕ → ℕ → SmartRouter
unfolding change_venue
register_venue r id now =
    let r' =
      change_venue r id (λ v. record v { health = health_u64 healthy; last_heartbeat = now }) in
    if ltb id max_venues then record r' { num_venues = u64 (r.num_venues + 1) } else r'

unfoldable pub update_venue_latency : SmartRouter → ℕ → ℕ → SmartRouter
unfolding change_venue update_latency
update_venue_latency r id latency_ns = change_venue r id (λ v. update_latency v latency_ns)

unfoldable pub update_venue_liquidity : SmartRouter → ℕ → ℕ → ℕ → ℕ → ℕ → SmartRouter
unfolding change_venue
update_venue_liquidity r id bid_qty ask_qty bid_price ask_price = change_venue r id (λ v. record v {
  bid_liquidity = bid_qty;
  ask_liquidity = ask_qty;
  best_bid = bid_price;
  best_ask = ask_price;
})

unfoldable pub update_toxicity_score : SmartRouter → ℕ → ℕ → SmartRouter
unfolding change_venue
update_toxicity_score r id score =
    change_venue r id (λ v. record v { toxicity_score = min score 10000 })

-- The clock is read for the heartbeat (`now`) and at once again (`later`).
unfoldable pub record_heartbeat : SmartRouter → ℕ → ℕ → ℕ → ℕ → SmartRouter
unfolding change_venue
record_heartbeat r id sequence now later =
    let elapsed = later - now in
    let health =
      if ltb elapsed 100_000_000
      then healthy
      else if ltb elapsed 500_000_000
      then degraded
      else unhealthy in
    change_venue r id
      (λ v. record v { ws_sequence = sequence; last_heartbeat = now; health = health_u64 health })

unfoldable pub record_fill : SmartRouter → ℕ → SmartRouter
unfolding change_venue count_fill
record_fill r id = change_venue r id count_fill

unfoldable pub record_rejection : SmartRouter → ℕ → SmartRouter
unfolding change_venue count_rejection
record_rejection r id = change_venue r id count_rejection

abbrev pub liquidity_for : VenueStats → Bool → ℕ
liquidity_for v is_buy = if is_buy then v.ask_liquidity else v.bid_liquidity

-- `liq_ok` and `lat_ok`
unfoldable pub is_eligible : SmartRouter → VenueStats → ℕ → Bool → Bool
is_eligible r v quantity is_buy =
    (leb r.min_liquidity (liquidity_for v is_buy) || leb quantity (liquidity_for v is_buy))
    && leb v.avg_latency_ns r.max_latency_ns

abbrev pub as_i64 : ℕ → ℤ
as_i64 n = of_bits (2 ^ 64) n

abbrev pub penalty : SmartRouter → VenueStats → ℕ
penalty r v = u64 (v.toxicity_score * r.toxicity_penalty_bp) / 10000

-- `adjusted_score`, an i64; a venue that is neither healthy nor degraded has score 0.
unfoldable pub adjusted_score : SmartRouter → VenueStats → Bool → ℤ
adjusted_score r v is_buy =
    let latency_score =
      if ltb 0 v.avg_latency_ns then 1_000_000_000 / v.avg_latency_ns else 1_000_000 in
    let score = wrap (2 ^ 64) (
      as_i64 latency_score
      +ℤ as_i64 (liquidity_for v is_buy / 1000)
      +ℤ as_i64 v.fill_rate_bp
      -ℤ as_i64 (penalty r v)) in
    if leb v.health (health_u64 degraded) then score else pos 0

-- The variables of the loop of `route_order`
pub record Best : Type 0 where
  pub venue : ℕ  -- u8
  pub score : ℤ  -- i64
  pub liquidity : ℕ
  pub latency : ℕ
  pub penalty : ℕ

abbrev pub no_best : Best
no_best = record {
  venue = no_venue;
  score = negsuc 0;
  liquidity = 0;
  latency = 2 ^ 64 - 1;
  penalty = 0;
}

-- One round. The source multiplies by 0 or 1 where this branches; the penalty is stored in each round.
unfoldable pub consider : SmartRouter → ℕ → Bool → ℕ → Best → Best
unfolding is_eligible adjusted_score
consider r quantity is_buy i b =
    let v = venue_at r i in
    if ltb_ℤ b.score (adjusted_score r v is_buy) && is_eligible r v quantity is_buy
    then record {
      venue = i;
      score = adjusted_score r v is_buy;
      liquidity = liquidity_for v is_buy;
      latency = v.avg_latency_ns;
      penalty = penalty r v;
    }
    else record b { penalty = penalty r v }

-- The loop with `n` rounds left, from venue `i` on
unfoldable pub route_loop : ℕ → ℕ → SmartRouter → ℕ → Bool → Best → Best
route_loop zero i r quantity is_buy b = b
route_loop (suc n) i r quantity is_buy b =
    route_loop n (suc i) r quantity is_buy (consider r quantity is_buy i b)

unfoldable pub best_venue : SmartRouter → ℕ → Bool → Best
best_venue r quantity is_buy = route_loop (min r.num_venues max_venues) 0 r quantity is_buy no_best

unfoldable pub route_order : SmartRouter → ℕ → Bool → RoutingDecision
route_order r quantity is_buy =
    let b = best_venue r quantity is_buy in
    let confidence =
      if b.venue == no_venue
      then 0
      else to_bits (2 ^ 16) (div_ℤ (wrap (2 ^ 64) (b.score +ℤ pos 1000)) (pos 10)) in
    if r.routing_enabled
    then record {
      venue_id = b.venue;
      confidence_score = min confidence 10000;
      expected_latency_ns = b.latency;
      available_liquidity = b.liquidity;
      penalty_applied = b.penalty;
    }
    else empty_decision

unfoldable pub route_buy : SmartRouter → ℕ → RoutingDecision
route_buy r quantity = route_order r quantity true

unfoldable pub route_sell : SmartRouter → ℕ → RoutingDecision
route_sell r quantity = route_order r quantity false

-- The part of the remaining quantity for a decision
unfoldable pub split_quantity : ℕ → RoutingDecision → ℕ
split_quantity remaining d =
    if ltb 0 d.available_liquidity
    then min (u64 (remaining * d.available_liquidity) / u64 (d.available_liquidity + remaining))
        remaining
    else remaining

-- The loop of `split_order` with `n` rounds left, from entry `i` on
unfoldable pub split_loop : ℕ → ℕ → SmartRouter → ℕ → List RoutingDecision → List RoutingDecision
split_loop zero i r remaining decisions = decisions
split_loop (suc n) i r remaining decisions =
    let d = route_buy r remaining in
    let part = split_quantity remaining d in
    let rest =
      split_loop n (suc i) r (remaining - part)
        (set decisions i (record d { available_liquidity = part })) in
    if (remaining == 0) || (d.venue_id == no_venue) then decisions else rest

unfoldable pub split_order : SmartRouter → ℕ → ℕ → List RoutingDecision
split_order r quantity max_splits =
    if (max_splits == 0) || (quantity == 0)
    then replicate 4 empty_decision
    else split_loop (min max_splits 4) 0 r quantity (replicate 4 empty_decision)

unfoldable pub disable_routing : SmartRouter → SmartRouter
disable_routing r = record r { routing_enabled = false }

unfoldable pub enable_routing : SmartRouter → SmartRouter
enable_routing r = record r { routing_enabled = true }

unfoldable pub get_venue_health : SmartRouter → ℕ → VenueHealth
get_venue_health r id =
    let h = (venue_at r id).health in
    if ltb id max_venues
    then if h == 0
      then healthy
      else if h == 1
      then degraded
      else if h == 2
      then unhealthy
      else offline
    else offline

unfoldable pub set_min_liquidity : SmartRouter → ℕ → SmartRouter
set_min_liquidity r min_liq = record r { min_liquidity = min_liq }

unfoldable pub set_max_latency : SmartRouter → ℕ → SmartRouter
set_max_latency r max_lat_ns = record r { max_latency_ns = max_lat_ns }
