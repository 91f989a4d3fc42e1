-- ===== src/Portfolio/Rebalancing/Settled.antt =====
-- The weights after the orders of src/portfolio/rebalancing_engine.rs are generated and executed.
use mathlib.Core.Path.{subst}
use backendofcryptotradingbo.Base.{
  ℕ, zero, suc, ◌+◌, ◌≤◌, ◌<◌, ◌≡◌, refl, sym, ap, ◌∙◌, true, false, inl, inr, some, List, [], ◌∷◌,
  if◌then◌else◌, get_or, get_elem?, set, length, length-set, get_or-set_self, get_or-set_ne, arith,
  Bool-cases,
}
use backendofcryptotradingbo.Base.Int.{ℤ, pos, negsuc, wrap, ltb_ℤ}
use backendofcryptotradingbo.Portfolio.Rebalancing.{
  RebalancingEngine, RebalanceOrder, RebalanceTrigger, Generated, default_order, abs, current_at,
  target_at, delta_of, is_significant, is_zero, waits, generate_step, generate_loop,
  generate_orders, record_history, execute_loop, execute_orders,
}

-- The assets, from asset `i` on, whose difference to the target is worth an order
unfoldable pub picks : RebalancingEngine → ℕ → ℕ → List ℕ
picks e zero i = []
picks e (suc n) i =
    if is_significant (delta_of e i) then i ∷ picks e n (i + 1) else picks e n (i + 1)

significant-nonzero : (d : ℤ) → is_significant d ≡ true → is_zero d ≡ false
unfolding abs wrap
significant-nonzero (pos zero) h = cc
significant-nonzero (pos (suc n)) h = ground arith
significant-nonzero (negsuc n) h = ground arith

some-injective : (i a : ℕ) → some i ≡ some a → i ≡ a
some-injective i a e = cc

-- What is known of the order for an asset
abbrev IsFor : RebalancingEngine → ℕ → RebalanceOrder → Type 0
IsFor e a o = (o.target_weight ≡ target_at e a) × (waits o ≡ true)

-- The order that a step puts down
abbrev put_order : RebalancingEngine → ℕ → ℕ → Generated → RebalanceOrder
put_order e t i g = record {
  asset_id = i;
  current_weight = current_at e i;
  target_weight = target_at e i;
  delta = delta_of e i;
  order_id = g.counter;
  timestamp_ns = t;
  is_buy = ltb_ℤ (pos 0) (delta_of e i);
  executed = false;
}

-- A step on an asset that gets no order, and on one that does
step-small :
    (e : RebalancingEngine) (t i : ℕ) (g : Generated)
    → is_significant (delta_of e i) ≡ false
    → generate_step e t g i ≡ g
unfolding generate_step
step-small e t i g h = rw h refl

step-order :
    (e : RebalancingEngine) (t i : ℕ) (g : Generated)
    → is_significant (delta_of e i) ≡ true
    → ((generate_step e t g i).orders ≡ set g.orders g.count (put_order e t i g))
      × ((generate_step e t g i).count ≡ g.count + 1)
unfolding generate_step
step-order e t i g h = rw h (refl, refl)

step-keeps :
    (e : RebalancingEngine) (t i k : ℕ) (g : Generated)
    → k < g.count
    → let g' = generate_step e t g i in
      (k < g'.count) × (get_or g'.orders k default_order ≡ get_or g.orders k default_order)
step-keeps e t i k g h = elim (Bool-cases (is_significant (delta_of e i))) [
  | inl big ↦
      let (orders, count) = step-order e t i g big in
      (
        omega (arith, count),
        ap (λ os. get_or os k default_order) orders
            ∙ get_or-set_ne g.orders g.count k (put_order e t i g) default_order
                (λ e. omega (arith, e)),
      )
  | inr small ↦
      let same = step-small e t i g small in
      (rw same h, ap (λ (x : Generated). get_or x.orders k default_order) same)
]

step-length :
    (e : RebalancingEngine) (t i : ℕ) (g : Generated)
    → length (generate_step e t g i).orders ≡ length g.orders
step-length e t i g = elim (Bool-cases (is_significant (delta_of e i))) [
  | inl big ↦ ap length (step-order e t i g big).0 ∙ length-set g.orders g.count (put_order e t i g)
  | inr small ↦ ap (λ (x : Generated). length x.orders) (step-small e t i g small)
]

loop-length :
    (e : RebalancingEngine) (t n i : ℕ) (g : Generated)
    → length (generate_loop e t n i g).orders ≡ length g.orders
unfolding generate_loop
loop-length e t zero i g = refl
loop-length e t (suc n) i g =
    loop-length e t n (i + 1) (generate_step e t g i) ∙ step-length e t i g

-- Orders below the count stay.
loop-below :
    (e : RebalancingEngine) (t n i k : ℕ) (g : Generated)
    → k < g.count
    → get_or (generate_loop e t n i g).orders k default_order ≡ get_or g.orders k default_order
unfolding generate_loop
loop-below e t zero i k g h = refl
loop-below e t (suc n) i k g h =
    let (count, same) = step-keeps e t i k g h in
    loop-below e t n (i + 1) k (generate_step e t g i) count ∙ same

-- The order that a step puts down is there when the loop ends.
loop-new :
    (e : RebalancingEngine) (t n i : ℕ) (g : Generated)
    → is_significant (delta_of e i) ≡ true
    → g.count < length g.orders
    → get_or (generate_loop e t n (i + 1) (generate_step e t g i)).orders g.count default_order
      ≡ put_order e t i g
loop-new e t n i g big l =
    let (orders, count) = step-order e t i g big in
    loop-below e t n (i + 1) g.count (generate_step e t g i) (omega (arith, count))
    ∙ ap (λ os. get_or os g.count default_order) orders
    ∙ get_or-set_self g.orders g.count (put_order e t i g) default_order l

-- The order after the count and `k` more is for pick number `k`.
loop-at :
    (e : RebalancingEngine) (t n i k a : ℕ) (g : Generated)
    → get_elem? (picks e n i) k ≡ some a
    → g.count + n ≤ length g.orders
    → IsFor e a (get_or (generate_loop e t n i g).orders (g.count + k) default_order)
unfolding generate_loop picks
loop-at e t zero i k a g p l = cc
loop-at e t (suc n) i zero a g p l = elim (Bool-cases (is_significant (delta_of e i))) [
  | inr small ↦
      subst
        (λ x. IsFor e a (get_or (generate_loop e t n (i + 1) x).orders (g.count + 0) default_order))
        (sym (step-small e t i g small))
        (loop-at e t n (i + 1) zero a g (rw small at p) (omega arith))
  | inl big ↦
      let this : i ≡ a = some-injective i a (rw big at p) in
      let there = loop-new e t n i g big (omega arith) in
      let nonzero = significant-nonzero (delta_of e i) big in
      let last : g.count + 0 ≡ g.count = omega arith in
      rw (last, there, ← this) (refl, rw nonzero refl)
]
loop-at e t (suc n) i (suc k) a g p l = elim (Bool-cases (is_significant (delta_of e i))) [
  | inr small ↦
      subst
        (λ x.
          IsFor e a (get_or (generate_loop e t n (i + 1) x).orders (g.count + suc k) default_order))
        (sym (step-small e t i g small))
        (loop-at e t n (i + 1) (suc k) a g (rw small at p) (omega arith))
  | inl big ↦
      let g' = generate_step e t g i in
      let (orders, count) = step-order e t i g big in
      let place : g'.count + k ≡ g.count + suc k = omega (arith, count) in
      subst (λ j. IsFor e a (get_or (generate_loop e t n (i + 1) g').orders j default_order)) place
        (loop-at e t n (i + 1) k a g' (rw big at p) (omega (arith, count, step-length e t i g)))
]

-- Where an order waits, the weight in the same place becomes its target.
execute-at :
    (n k : ℕ) (os : List RebalanceOrder) (ws : List ℤ)
    → k < n
    → k < length os
    → k < length ws
    → waits (get_or os k default_order) ≡ true
    → get_or (execute_loop false n os ws).1 k (pos 0) ≡ (get_or os k default_order).target_weight
unfolding execute_loop
execute-at zero k os ws h l m w = absurd (omega arith)
execute-at (suc n) k [] ws h l m w = absurd (omega arith)
execute-at (suc n) k (o ∷ os) [] h l m w = absurd (omega arith)
execute-at (suc n) zero (o ∷ os) (x ∷ ws) h l m w = rw w refl
execute-at (suc n) (suc k) (o ∷ os) (x ∷ ws) h l m w =
    ground (arith, execute-at n k os ws (omega arith) (omega arith) (omega arith) w)

picks-below : (e : RebalancingEngine) (n i k a : ℕ) → get_elem? (picks e n i) k ≡ some a → k < n
unfolding picks
picks-below e zero i k a p = cc
picks-below e (suc n) i zero a p = omega arith
picks-below e (suc n) i (suc k) a p = elim (Bool-cases (is_significant (delta_of e i))) [
  | inl big ↦ omega (arith, picks-below e n (i + 1) k a (rw big at p))
  | inr small ↦ omega (arith, picks-below e n (i + 1) (suc k) a (rw small at p))
]

abbrev start_of : RebalancingEngine → Generated
start_of e = record {
  orders = e.pending_orders;
  counter = e.order_counter;
  count = 0;
  turnover = pos 0;
}

-- What the generation leaves for the execution
generated :
    (e : RebalancingEngine) (trigger : RebalanceTrigger) (t : ℕ)
    → e.circuit_breaker ≡ false
    → let e' = (generate_orders e trigger t).0 in
      (e'.pending_orders ≡ (generate_loop e t e.asset_count 0 (start_of e)).orders)
      × (e'.current_weights ≡ e.current_weights)
      × (e'.asset_count ≡ e.asset_count)
      × (e'.shadow_mode ≡ e.shadow_mode)
      × (e'.circuit_breaker ≡ false)
unfolding generate_orders record_history
generated e trigger t b = simp b (refl, refl, refl, refl, refl)

executed_weights :
    (e : RebalancingEngine) (t : ℕ)
    → e.circuit_breaker ≡ false
    → (execute_orders e t).0.current_weights
      ≡ (execute_loop e.shadow_mode e.asset_count e.pending_orders e.current_weights).1
unfolding execute_orders
executed_weights e t b = rw b refl

-- With the breaker off and outside the shadow mode, and room for all assets, orders that are generated
-- and then executed give weight number `k` the target of the `k`-th asset that is worth an order, whether
-- or not this asset is number `k`.
pub rebalance_lem :
    (e : RebalancingEngine) (trigger : RebalanceTrigger) (t t' k a : ℕ)
    → e.circuit_breaker ≡ false
    → e.shadow_mode ≡ false
    → length e.pending_orders ≡ 64
    → length e.current_weights ≡ 64
    → e.asset_count ≤ 64
    → get_elem? (picks e e.asset_count 0) k ≡ some a
    → current_at (execute_orders (generate_orders e trigger t).0 t').0 k ≡ target_at e a
rebalance_lem e trigger t t' k a b s orders weights count p =
    let e' = (generate_orders e trigger t).0 in
    let (pending, current, assets, shadow, breaker) = generated e trigger t b in
    let n = e.asset_count in
    let loop = (generate_loop e t n 0 (start_of e)).orders in
    let below = picks-below e n 0 k a p in
    let (target, waiting) = loop-at e t n 0 k a (start_of e) p (omega (arith, orders, count)) in
    let place : 0 + k ≡ k = omega arith in
    let size = loop-length e t n 0 (start_of e) in
    let ran : (execute_loop e'.shadow_mode e'.asset_count e'.pending_orders e'.current_weights)
        ≡ execute_loop false n loop e.current_weights =
      rw (pending, current, assets, shadow, s) refl in
    ap (λ ws. get_or ws k (pos 0)) (executed_weights e' t' breaker)
    ∙ ap (λ (r : List RebalanceOrder × List ℤ × ℕ). get_or r.1 k (pos 0)) ran
    ∙ execute-at n k loop e.current_weights below (omega (arith, size, orders, count, below))
        (omega (arith, weights, count, below))
        (subst (λ j. waits (get_or loop j default_order) ≡ true) place waiting)
    ∙ subst (λ j. (get_or loop j default_order).target_weight ≡ target_at e a) place target
