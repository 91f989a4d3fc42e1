-- ===== src/Portfolio/Rebalancing/Orders.antt =====
-- What the shadow mode and the breaker of src/portfolio/rebalancing_engine.rs hold back.
use backendofcryptotradingbo.Base.{
  ℕ, zero, suc, ◌≤◌, ◌≡◌, refl, ap, ◌∙◌, Bool, true, false, List, [], ◌∷◌, arith, Bool-cases, inl,
  inr, length,
}
use backendofcryptotradingbo.Base.Int.{ℤ}
use backendofcryptotradingbo.Portfolio.Rebalancing.{
  RebalancingEngine, RebalanceOrder, RebalanceTrigger, set_target_weight, waits, count_pending,
  generate_orders, record_history, execute_loop, execute_orders, get_pending_order_count,
  trigger_circuit_breaker, reset_circuit_breaker,
}

-- What may happen without a word from the market
pub data Command : Type 0 where
  targeted : ℕ → ℤ → Command
  generating : RebalanceTrigger → ℕ → Command
  executing : ℕ → Command
  breaking : Command
  resetting : Command

pub apply : RebalancingEngine → Command → RebalancingEngine
apply e (targeted idx weight) = set_target_weight e idx weight
apply e (generating trigger t) = (generate_orders e trigger t).0
apply e (executing t) = (execute_orders e t).0
apply e breaking = trigger_circuit_breaker e
apply e resetting = reset_circuit_breaker e

pub run : RebalancingEngine → List Command → RebalancingEngine
run e [] = e
run e (c ∷ cs) = run (apply e c) cs

execute-shadow :
    (n : ℕ) (os : List RebalanceOrder) (ws : List ℤ) → (execute_loop true n os ws).1 ≡ ws
unfolding execute_loop
execute-shadow zero os ws = refl
execute-shadow (suc n) [] ws = refl
execute-shadow (suc n) (o ∷ os) [] = refl
execute-shadow (suc n) (o ∷ os) (w ∷ ws) = ground (arith, execute-shadow n os ws)

apply-shadow :
    (e : RebalancingEngine) (c : Command)
    → e.shadow_mode ≡ true
    → ((apply e c).current_weights ≡ e.current_weights) × ((apply e c).shadow_mode ≡ true)
unfolding apply set_target_weight generate_orders record_history execute_orders
apply-shadow e (targeted idx weight) s = ground (arith, s)
apply-shadow e (generating trigger t) s = ground (arith, s)
apply-shadow e (executing t) s =
    let same =
      ap (λ b. (execute_loop b e.asset_count e.pending_orders e.current_weights).1) s
      ∙ execute-shadow e.asset_count e.pending_orders e.current_weights in
    ground (arith, s, same)
apply-shadow e breaking s = (refl, s)
apply-shadow e resetting s = (refl, s)

-- The number that is executed is the number that waited, and none waits afterwards.
execute-count :
    (shadow : Bool) (n : ℕ) (os : List RebalanceOrder) (ws : List ℤ)
    → n ≤ length os
    → n ≤ length ws
    → let r = execute_loop shadow n os ws in (r.2 ≡ count_pending n os) × (count_pending n r.0 ≡ 0)
unfolding execute_loop count_pending
execute-count shadow zero os ws h k = (refl, refl)
execute-count shadow (suc n) [] ws h k = absurd (omega arith)
execute-count shadow (suc n) (o ∷ os) [] h k = absurd (omega arith)
execute-count shadow (suc n) (o ∷ os) (w ∷ ws) h k =
    let ih = execute-count shadow n os ws (omega arith) (omega arith) in
    elim (Bool-cases (waits o)) [
      | inl e ↦ ground (arith, ih.0, ih.1, e)
      | inr e ↦ ground (arith, ih.0, ih.1, e)
    ]

-- In the shadow mode no weight changes, whatever targets are set, orders are generated and executed, and
-- however often the breaker trips and is reset.
pub run-shadow :
    (e : RebalancingEngine) (cs : List Command)
    → e.shadow_mode ≡ true
    → ((run e cs).current_weights ≡ e.current_weights) × ((run e cs).shadow_mode ≡ true)
unfolding run
run-shadow e [] s = (refl, s)
run-shadow e (c ∷ cs) s =
    let (same, on) = apply-shadow e c s in
    let (rest, stays) = run-shadow (apply e c) cs on in (rest ∙ same, stays)

-- With the breaker off, an execution takes every pending order, reports how many there were, and leaves
-- none.
pub execute_orders-pending :
    (e : RebalancingEngine) (t : ℕ)
    → e.circuit_breaker ≡ false
    → e.asset_count ≤ length e.pending_orders
    → e.asset_count ≤ length e.current_weights
    → ((execute_orders e t).1 ≡ get_pending_order_count e)
      × (get_pending_order_count (execute_orders e t).0 ≡ 0)
unfolding execute_orders
execute_orders-pending e t b h k =
    let (count, none_left) =
      execute-count e.shadow_mode e.asset_count e.pending_orders e.current_weights h k in
    simp b (count, none_left)
