-- ===== src/Execution/Router/State.antt =====
-- src/execution/smart_router.rs: the venues, their statistics, decisions, and the state of the router.
use backendofcryptotradingbo.Base.{ℕ, ◌+◌, ◌-◌, ◌*◌, ◌/◌, ◌^◌, Bool, List, u64, ltb, if◌then◌else◌}

abbrev pub max_venues : ℕ
max_venues = 16

pub data VenueHealth : Type 0 where
  healthy degraded unhealthy offline : VenueHealth

-- `health as u64`
abbrev pub health_u64 : VenueHealth → ℕ
health_u64 healthy = 0
health_u64 degraded = 1
health_u64 unhealthy = 2
health_u64 offline = 3

pub record VenueStats : Type 0 where
  pub avg_latency_ns : ℕ
  pub fill_rate_bp : ℕ
  pub toxicity_score : ℕ
  pub bid_liquidity : ℕ
  pub ask_liquidity : ℕ
  pub best_bid : ℕ
  pub best_ask : ℕ
  pub ws_sequence : ℕ
  pub last_heartbeat : ℕ
  pub health : ℕ
  pub total_fills : ℕ
  pub total_rejected : ℕ

abbrev pub new_venue : VenueStats
new_venue = record {
  avg_latency_ns = 0;
  fill_rate_bp = 10000;
  toxicity_score = 0;
  bid_liquidity = 0;
  ask_liquidity = 0;
  best_bid = 0;
  best_ask = 0;
  ws_sequence = 0;
  last_heartbeat = 0;
  health = health_u64 healthy;
  total_fills = 0;
  total_rejected = 0;
}

unfoldable pub update_latency : VenueStats → ℕ → VenueStats
update_latency v latency_ns = record v {
  avg_latency_ns = u64 (u64 (v.avg_latency_ns * 7) + latency_ns) / 8;
}

-- `VenueStats::record_fill`
unfoldable pub count_fill : VenueStats → VenueStats
count_fill v = record v { total_fills = u64 (v.total_fills + 1) }

-- `VenueStats::record_rejection`
unfoldable pub count_rejection : VenueStats → VenueStats
count_rejection v =
    let rejects = u64 (v.total_rejected + 1) in
    let total = u64 (v.total_fills + rejects) in
    record v {
      total_rejected = rejects;
      fill_rate_bp = if ltb 0 total then u64 (v.total_fills * 10000) / total else v.fill_rate_bp;
    }

pub record RoutingDecision : Type 0 where
  pub venue_id : ℕ  -- u8
  pub confidence_score : ℕ  -- u16
  pub expected_latency_ns : ℕ
  pub available_liquidity : ℕ
  pub penalty_applied : ℕ

abbrev pub no_venue : ℕ
no_venue = 255

abbrev pub empty_decision : RoutingDecision
empty_decision = record {
  venue_id = no_venue;
  confidence_score = 0;
  expected_latency_ns = 2 ^ 64 - 1;
  available_liquidity = 0;
  penalty_applied = 0;
}

pub record SmartRouter : Type 0 where
  pub venues : List VenueStats  -- 16 of them
  pub num_venues : ℕ
  pub min_liquidity : ℕ
  pub max_latency_ns : ℕ
  pub toxicity_penalty_bp : ℕ
  pub routing_enabled : Bool
