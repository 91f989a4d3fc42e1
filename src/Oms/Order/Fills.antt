-- ===== src/Oms/Order/Fills.antt =====
-- Fills (src/oms/order_state_machine.rs): `process_fill`, one at a time and a whole series of them.
use mathlib.Core.Path.{ap₂}
use native.Mathlib.Nat.{mod-eq_of_lt, le-div_iff_mul-le, div-le_of_le-mul, mul_comm}
use backendofcryptotradingbo.Base.{
  ℕ, zero, suc, ◌+◌, ◌-◌, ◌*◌, ◌/◌, ◌^◌, ◌≤◌, ◌<◌, ◌≡◌, refl, ◌∙◌, ◌⊎◌, inl, inr, true, false, List,
  [], ◌∷◌, arith, if◌then◌else◌, Bool-cases, All, leb, ltb, ◌==◌, u32, u64,
}
use backendofcryptotradingbo.Oms.Order.{
  OrderState, submitted, partially_filled, filled, as_u32, allows_fills, state_of, Order,
  average_price, is_valid_transition, process_fill,
}

-- A quotient lies where its dividend does.
div_bounds : (t n lo hi : ℕ) → 0 < n → lo * n ≤ t → t ≤ hi * n → (lo ≤ t / n) × (t / n ≤ hi)
div_bounds t n lo hi pos h k =
    ((le-div_iff_mul-le pos).1 h, div-le_of_le-mul n (omega (arith, mul_comm n hi)))

average_between :
    (avg f p q lo hi : ℕ)
    → lo ≤ avg
    → avg ≤ hi
    → lo ≤ p
    → p ≤ hi
    → (lo * (f + q) ≤ avg * f + p * q) × (avg * f + p * q ≤ hi * (f + q))
average_between avg f p q lo hi a b c d = (grind arith, grind arith)

-- The state that a fill leaves behind.
abbrev pub state_after_fill : Order → ℕ → OrderState
state_after_fill o fill_qty =
    if leb o.quantity (o.filled_qty + fill_qty) then filled else partially_filled

-- An order that takes fills, and whose filled quantity stays below 2 ^ 64, takes this one: it ends
-- up filled if the quantity is reached and partially filled otherwise, the quantity filled grows by
-- the fill, what remains is the rest of the quantity (0 when overfilled), and the fill is counted
-- (modulo 2 ^ 32) and stamped with the clock's last reading.
pub process_fill_lem :
    (o : Order) (s : OrderState) (qty price now later : ℕ)
    → o.state ≡ as_u32 s
    → allows_fills s ≡ true
    → o.filled_qty + qty < 2 ^ 64
    → let o' = (process_fill o qty price now later).0 in
      ((process_fill o qty price now later).1 ≡ true)
      × (o'.state ≡ as_u32 (state_after_fill o qty))
      × (o'.filled_qty ≡ o.filled_qty + qty)
      × (o'.remaining_qty ≡ o.quantity - (o.filled_qty + qty))
      × (o'.quantity ≡ o.quantity)
      × (o'.fill_count ≡ u32 (o.fill_count + 1))
      × (o'.last_update_time ≡ later)
unfolding process_fill is_valid_transition
process_fill_lem o submitted qty price now later e a h = ground arith
process_fill_lem o s qty price now later e a h = ground arith

-- A fill that is not accepted changes nothing.
pub process_fill_refused :
    (o : Order) (qty price now later : ℕ)
    → allows_fills (state_of o.state) ≡ false
    → process_fill o qty price now later ≡ (o, false)
unfolding process_fill
process_fill_refused o qty price now later a = rw a

quotient_test : (t n : ℕ) → 0 < n → t / n < 2 ^ 64 → (if ltb 0 n then u64 (t / n) else 0) ≡ t / n
quotient_test t n pos small = ground arith

-- With something filled, the average price lies between two bounds.
abbrev pub PriceWithin : ℕ → ℕ → ℕ → ℕ → Type 0
PriceWithin lo hi f avg = (f ≡ 0) ⊎ (lo ≤ avg) × (avg ≤ hi)

value_bounds :
    (avg f p q lo hi : ℕ)
    → PriceWithin lo hi f avg
    → lo ≤ p
    → p ≤ hi
    → (lo * (f + q) ≤ avg * f + p * q) × (avg * f + p * q ≤ hi * (f + q))
value_bounds avg zero p q lo hi w c d = (grind arith, grind arith)
value_bounds avg (suc f) p q lo hi w c d =
    let (a, b) : (lo ≤ avg) × (avg ≤ hi) = ground (arith, w) in
    average_between avg (suc f) p q lo hi a b c d

product_fits : (hi n : ℕ) → hi < 2 ^ 64 → n < 2 ^ 64 → hi * n < 2 ^ 128
product_fits hi n h k = let a : hi * n ≤ 18446744073709551615 * n = grind arith in omega arith

average_bounds :
    (avg f p q lo hi : ℕ)
    → f + q < 2 ^ 64
    → hi < 2 ^ 64
    → lo ≤ p
    → p ≤ hi
    → PriceWithin lo hi f avg
    → 0 < f + q
    → let next = average_price avg f p q (u64 (f + q)) in (lo ≤ next) × (next ≤ hi)
unfolding average_price
average_bounds avg f p q lo hi small top c d w pos =
    let (low, high) = value_bounds avg f p q lo hi w c d in
    let bounds = div_bounds (avg * f + p * q) (f + q) lo hi pos low high in
    let value : avg * f + p * q < 2 ^ 128 = omega (arith, product_fits hi (f + q) top small) in
    rw (mod-eq_of_lt value) (
      rw (mod-eq_of_lt small)
        (rw (quotient_test (avg * f + p * q) (f + q) pos (omega arith)) bounds))

average_price_lem :
    (avg f p q lo hi : ℕ)
    → f + q < 2 ^ 64
    → hi < 2 ^ 64
    → lo ≤ p
    → p ≤ hi
    → PriceWithin lo hi f avg
    → PriceWithin lo hi (f + q) (average_price avg f p q (u64 (f + q)))
average_price_lem avg f p q lo hi small top c d w = elim (Bool-cases (f + q == 0)) [
  | inl none ↦ inl (ground arith)
  | inr some ↦ inr (average_bounds avg f p q lo hi small top c d w (ground arith))
]

pub record Fill : Type 0 where
  pub qty : ℕ
  pub price : ℕ
  pub now : ℕ
  pub later : ℕ

-- Fill reports in the order in which they come.
pub run_fills : Order → List Fill → Order
run_fills o [] = o
run_fills o (x ∷ xs) = run_fills (process_fill o x.qty x.price x.now x.later).0 xs

-- What a series of fills should do to the quantity filled: fills count until the quantity is
-- reached, and none after that.
pub absorb : ℕ → ℕ → List Fill → ℕ
absorb quantity f [] = f
absorb quantity f (x ∷ xs) = absorb quantity (if leb quantity f then f else f + x.qty) xs

abbrev pub total_qty : List Fill → ℕ
total_qty [] = 0
total_qty (x ∷ xs) = x.qty + total_qty xs

-- What holds of an order at the exchange between two fills.
pub record IsFilling (o : Order) : Type 0 where
  pub live :
      (allows_fills (state_of o.state) ≡ true) × (o.filled_qty < o.quantity)
      ⊎ (o.state ≡ 4) × (o.quantity ≤ o.filled_qty)
  pub partial : 0 < o.filled_qty → (o.state ≡ 3) ⊎ (o.state ≡ 4)
  pub remaining : o.remaining_qty ≡ o.quantity - o.filled_qty

process_fill-IsFilling :
    (o : Order) (x : Fill)
    → IsFilling o
    → o.filled_qty + x.qty < 2 ^ 64
    → let o' = (process_fill o x.qty x.price x.now x.later).0 in
      IsFilling o'
      × (o'.filled_qty
          ≡ (if leb o.quantity o.filled_qty then o.filled_qty else o.filled_qty + x.qty))
      × (o'.quantity ≡ o.quantity)
unfolding process_fill is_valid_transition
process_fill-IsFilling o x v h = ground arith

-- The average after one more fill report, accepted or not.
process_fill-PriceWithin :
    (o : Order) (x : Fill) (lo hi : ℕ)
    → o.filled_qty + x.qty < 2 ^ 64
    → hi < 2 ^ 64
    → lo ≤ x.price
    → x.price ≤ hi
    → PriceWithin lo hi o.filled_qty o.avg_fill_price
    → let o' = (process_fill o x.qty x.price x.now x.later).0 in
      PriceWithin lo hi o'.filled_qty o'.avg_fill_price
unfolding process_fill
process_fill-PriceWithin o x lo hi small top c d w =
    let next =
      average_price_lem o.avg_fill_price o.filled_qty x.price x.qty lo hi small top c d w in
    elim (Bool-cases (allows_fills (state_of o.state))) [
      | inl live ↦ rw live ground (arith, next)
      | inr dead ↦ rw dead w
    ]

-- For an order at the exchange (`IsFilling`), while no sum passes 2 ^ 64: a series of fills moves
-- the quantity filled as `absorb` says, so fills count up to the one that reaches the order's
-- quantity and no further; the order stays live exactly until then and is `Filled` (4) after; and
-- the remaining quantity is what is left.
pub run_fills_lem :
    (o : Order) (xs : List Fill)
    → IsFilling o
    → o.filled_qty + total_qty xs < 2 ^ 64
    → ((run_fills o xs).filled_qty ≡ absorb o.quantity o.filled_qty xs)
      × ((run_fills o xs).quantity ≡ o.quantity)
      × IsFilling (run_fills o xs)
unfolding run_fills absorb
run_fills_lem o [] v h = (refl, refl, v)
run_fills_lem o (x ∷ xs) v h =
    let (v', moved, kept) = process_fill-IsFilling o x v (omega arith) in
    let o' = (process_fill o x.qty x.price x.now x.later).0 in
    let (amount, quantity, still) = run_fills_lem o' xs v' (ground arith) in
    (amount ∙ ap₂ (λ a b. absorb a b xs) kept moved, quantity ∙ kept, still)

-- For an order at the exchange, while no sum passes 2 ^ 64, the average price after a series of
-- fills lies between the least and the greatest price of the series, and of the average before it
-- if there were fills before.
pub run_fills_price :
    (o : Order) (xs : List Fill) (lo hi : ℕ)
    → IsFilling o
    → o.filled_qty + total_qty xs < 2 ^ 64
    → hi < 2 ^ 64
    → All (λ x. (lo ≤ x.price) × (x.price ≤ hi)) xs
    → PriceWithin lo hi o.filled_qty o.avg_fill_price
    → PriceWithin lo hi (run_fills o xs).filled_qty (run_fills o xs).avg_fill_price
unfolding run_fills
run_fills_price o [] lo hi v h top all w = w
run_fills_price o (x ∷ xs) lo hi v h top all w =
    let (v', moved, kept) = process_fill-IsFilling o x v (omega arith) in
    let o' = (process_fill o x.qty x.price x.now x.later).0 in
    let w' = process_fill-PriceWithin o x lo hi (omega arith) top all.0.0 all.0.1 w in
    run_fills_price o' xs lo hi v' (ground arith) top all.1 w'
