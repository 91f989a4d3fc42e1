-- ===== src/Execution/Router/Split.antt =====
-- The parts into which src/execution/smart_router.rs splits an order.
use Prim.Native.Nat.{min}
use backendofcryptotradingbo.Base.{
  ℕ, zero, suc, ◌+◌, ◌-◌, ◌≤◌, ◌≡◌, List, [], ◌∷◌, set, replicate, arith,
}
use backendofcryptotradingbo.Execution.Router.{
  SmartRouter, RoutingDecision, empty_decision, route_buy, split_quantity, split_loop, split_order,
}

-- The quantities of the parts, together
abbrev pub parts : List RoutingDecision → ℕ
parts [] = 0
parts (d ∷ ds) = d.available_liquidity + parts ds

-- No part from entry `i` on
abbrev pub FreeFrom : ℕ → List RoutingDecision → Type 0
FreeFrom i [] = Unit
FreeFrom zero (d ∷ ds) = (d.available_liquidity ≡ 0) × FreeFrom zero ds
FreeFrom (suc i) (d ∷ ds) = FreeFrom i ds

split_quantity-le : (remaining : ℕ) (d : RoutingDecision) → split_quantity remaining d ≤ remaining
unfolding split_quantity
split_quantity-le remaining d = ground arith

parts-set :
    (ds : List RoutingDecision) (i : ℕ) (d : RoutingDecision)
    → FreeFrom i ds
    → (parts (set ds i d) ≤ parts ds + d.available_liquidity) × FreeFrom (suc i) (set ds i d)
parts-set [] i d f = (omega arith, tt)
parts-set (e ∷ ds) zero d f = (omega (arith, f.0), f.1)
parts-set (e ∷ ds) (suc i) d f = let (le, free) = parts-set ds i d f in (omega (arith, le), free)

split_loop-parts :
    (n i : ℕ) (r : SmartRouter) (remaining : ℕ) (ds : List RoutingDecision)
    → FreeFrom i ds
    → parts (split_loop n i r remaining ds) ≤ parts ds + remaining
unfolding split_loop
split_loop-parts zero i r remaining ds f = omega arith
split_loop-parts (suc n) i r remaining ds f =
    let d = route_buy r remaining in
    let part = split_quantity remaining d in
    let (more, free) = parts-set ds i (record d { available_liquidity = part }) f in
    let rest =
      split_loop-parts n (suc i) r (remaining - part)
        (set ds i (record d { available_liquidity = part })) free in
    ground (arith, more, rest, split_quantity-le remaining d)

-- The parts of a split never add up to more than the order's quantity, whatever the liquidity and
-- however the products wrap.
pub split_order_lem :
    (r : SmartRouter) (quantity max_splits : ℕ)
    → parts (split_order r quantity max_splits) ≤ quantity
unfolding split_order
split_order_lem r quantity max_splits =
    ground (arith, split_loop-parts (min max_splits 4) 0 r quantity (replicate 4 empty_decision))
