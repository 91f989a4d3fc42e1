-- ===== src/Portfolio/Rebalancing.antt =====
-- src/portfolio/rebalancing_engine.rs: the weights of the assets, the orders that bring them to their
-- targets, and the history. Weights are i64, scaled by 10^8; the arithmetic of the release build wraps.
pub mod Orders
pub mod Settled
pub mod State
use backendofcryptotradingbo.Base.{
  ℕ, zero, suc, ◌+◌, ◌-◌, ◌*◌, ◌/◌, ◌%◌, ◌^◌, Bool, true, false, not, ◌&&◌, List, [], ◌∷◌, u64, u32,
  ltb, leb, ◌==◌, if◌then◌else◌, get_or, set, replicate,
}
use backendofcryptotradingbo.Base.Int.{
  ℤ, pos, pos_part, neg_part, ◌+ℤ◌, ◌-ℤ◌, ◌*ℤ◌, wrap, div_ℤ, ltb_ℤ,
}
unfoldable pub use State.*

abbrev pub new : ℤ → ℕ → RebalancingEngine
new drift_threshold_bps rebalance_interval_ms = record {
  current_weights = replicate max_assets (pos 0);
  target_weights = replicate max_assets (pos 0);
  pending_orders = replicate max_assets default_order;
  history = replicate max_history default_history;
  asset_count = 0;
  history_head = 0;
  order_counter = 0;
  drift_threshold_bps = drift_threshold_bps;
  rebalance_interval_ns = u64 (rebalance_interval_ms * 1_000_000);
  last_rebalance_ns = 0;
  shadow_mode = true;
  rebalance_needed = false;
  circuit_breaker = false;
}

unfoldable pub set_target_weight : RebalancingEngine → ℕ → ℤ → RebalancingEngine
set_target_weight e idx weight =
    if ltb idx max_assets
    then record e {
      target_weights = set e.target_weights idx weight;
      asset_count = if leb e.asset_count idx then u32 (idx + 1) else e.asset_count;
    }
    else e

unfoldable pub update_current_weight : RebalancingEngine → ℕ → ℤ → RebalancingEngine
update_current_weight e idx weight =
    if ltb idx max_assets
    then record e { current_weights = set e.current_weights idx weight }
    else e

abbrev pub i64 : ℤ → ℤ
i64 a = wrap (2 ^ 64) a

abbrev pub i32 : ℤ → ℤ
i32 a = wrap (2 ^ 32) a

-- `abs` of the release build, where the smallest i64 is its own
unfoldable pub abs : ℤ → ℤ
abs a = i64 (pos (pos_part a + neg_part a))

abbrev pub current_at : RebalancingEngine → ℕ → ℤ
current_at e i = get_or e.current_weights i (pos 0)

abbrev pub target_at : RebalancingEngine → ℕ → ℤ
target_at e i = get_or e.target_weights i (pos 0)

-- The drift of an asset in basis points, as an i32
unfoldable pub drift_of : RebalancingEngine → ℕ → ℤ
drift_of e i =
    i32 (div_ℤ (i64 (abs (i64 (current_at e i -ℤ target_at e i)) *ℤ pos 10_000)) (pos scale))

-- The loop over the `n` assets from asset `i` on
unfoldable pub max_drift : RebalancingEngine → ℕ → ℕ → ℤ → ℤ
max_drift e zero i most = most
max_drift e (suc n) i most =
    max_drift e n (i + 1) (if ltb_ℤ most (drift_of e i) then drift_of e i else most)

unfoldable pub get_total_drift_bps : RebalancingEngine → ℤ
get_total_drift_bps e = max_drift e e.asset_count 0 (pos 0)

unfoldable pub check_rebalance_needed : RebalancingEngine → ℕ → Bool
check_rebalance_needed e current_time_ns =
    if e.circuit_breaker
    then false
    else if not (ltb_ℤ (max_drift e e.asset_count 0 (pos 0)) e.drift_threshold_bps)
    then true
    else ltb 0 e.last_rebalance_ns
      && leb e.rebalance_interval_ns (current_time_ns - e.last_rebalance_ns)

-- Whether a difference is worth an order: at least one basis point
abbrev pub is_significant : ℤ → Bool
is_significant delta = not (ltb_ℤ (abs delta) (pos (scale / 10_000)))

abbrev pub delta_of : RebalancingEngine → ℕ → ℤ
delta_of e i = i64 (target_at e i -ℤ current_at e i)

-- The variables of the loop of `generate_orders`
pub record Generated : Type 0 where
  pub orders : List RebalanceOrder
  pub counter : ℕ
  pub count : ℕ
  pub turnover : ℤ

unfoldable pub generate_step : RebalancingEngine → ℕ → Generated → ℕ → Generated
generate_step e timestamp_ns g i =
    let delta = delta_of e i in
    let order : RebalanceOrder = record {
      asset_id = i;
      current_weight = current_at e i;
      target_weight = target_at e i;
      delta = delta;
      order_id = g.counter;
      timestamp_ns = timestamp_ns;
      is_buy = ltb_ℤ (pos 0) delta;
      executed = false;
    } in
    if is_significant delta
    then record {
      orders = set g.orders g.count order;
      counter = u64 (g.counter + 1);
      count = g.count + 1;
      turnover = i64 (g.turnover +ℤ abs delta);
    }
    else g

unfoldable pub generate_loop : RebalancingEngine → ℕ → ℕ → ℕ → Generated → Generated
generate_loop e timestamp_ns zero i g = g
generate_loop e timestamp_ns (suc n) i g =
    generate_loop e timestamp_ns n (i + 1) (generate_step e timestamp_ns g i)

unfoldable pub record_history : RebalancingEngine → RebalanceTrigger → ℕ → ℤ → ℕ → RebalancingEngine
record_history e trigger order_count total_turnover timestamp_ns = record e {
  history = set e.history (e.history_head % max_history) (record {
    recorded_ns = timestamp_ns;
    trigger = trigger;
    total_drift_bps = pos 0;
    order_count = order_count;
    was_executed = not e.shadow_mode;
    turnover_bps = i32 (div_ℤ (i64 (total_turnover *ℤ pos 10_000)) (pos scale));
  });
  history_head = u64 (e.history_head + 1);
}

unfoldable pub generate_orders : RebalancingEngine → RebalanceTrigger → ℕ → RebalancingEngine × ℕ
generate_orders e trigger timestamp_ns =
    let start : Generated = record {
      orders = e.pending_orders;
      counter = e.order_counter;
      count = 0;
      turnover = pos 0;
    } in
    let g = generate_loop e timestamp_ns e.asset_count 0 start in
    let e' =
      record_history (record e { pending_orders = g.orders; order_counter = g.counter }) trigger
        g.count g.turnover timestamp_ns in
    if e.circuit_breaker then (e, 0) else (
      record e' { rebalance_needed = if ltb 0 g.count then true else e.rebalance_needed },
      g.count,
    )

abbrev pub is_zero : ℤ → Bool
is_zero a = pos_part a + neg_part a == 0

abbrev pub waits : RebalanceOrder → Bool
waits o = not (is_zero o.delta) && not o.executed

-- The loop of `execute_orders` over the orders and the weights in the same places; `n` assets are left.
unfoldable pub execute_loop :
    Bool → ℕ → List RebalanceOrder → List ℤ → List RebalanceOrder × List ℤ × ℕ
execute_loop shadow (suc n) (o ∷ os) (w ∷ ws) =
    let (os', ws', count) = execute_loop shadow n os ws in
    if waits o
    then (
      record o { executed = true } ∷ os',
      (if shadow then w else o.target_weight) ∷ ws',
      count + 1,
    )
    else (o ∷ os', w ∷ ws', count)
execute_loop shadow _ os ws = (os, ws, 0)

unfoldable pub execute_orders : RebalancingEngine → ℕ → RebalancingEngine × ℕ
execute_orders e timestamp_ns =
    let (orders, weights, count) =
      execute_loop e.shadow_mode e.asset_count e.pending_orders e.current_weights in
    if e.circuit_breaker then (e, 0) else (
      record e {
        pending_orders = orders;
        current_weights = weights;
        last_rebalance_ns = if ltb 0 count then timestamp_ns else e.last_rebalance_ns;
        rebalance_needed = if ltb 0 count then false else e.rebalance_needed;
      },
      count,
    )

unfoldable pub count_pending : ℕ → List RebalanceOrder → ℕ
count_pending zero os = 0
count_pending (suc n) [] = 0
count_pending (suc n) (o ∷ os) = (if waits o then 1 else 0) + count_pending n os

abbrev pub get_pending_order_count : RebalancingEngine → ℕ
get_pending_order_count e = count_pending e.asset_count e.pending_orders

abbrev pub toggle_shadow_mode : RebalancingEngine → Bool → RebalancingEngine
toggle_shadow_mode e enable = record e { shadow_mode = enable }

abbrev pub is_shadow_mode : RebalancingEngine → Bool
is_shadow_mode e = e.shadow_mode

abbrev pub trigger_circuit_breaker : RebalancingEngine → RebalancingEngine
trigger_circuit_breaker e = record e { circuit_breaker = true }

abbrev pub reset_circuit_breaker : RebalancingEngine → RebalancingEngine
reset_circuit_breaker e = record e { circuit_breaker = false }
