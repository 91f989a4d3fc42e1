-- ===== src/MarketData/OrderBook/Levels.antt =====
-- The price levels of src/market_data/order_book.rs as a map from prices to quantities, and its best
-- price.
use backendofcryptotradingbo.Base.{
  ℕ, zero, suc, ◌+◌, ◌-◌, ◌/◌, ◌^◌, ◌>>=◌, ◌≤◌, ◌<◌, ◌≡◌, ◌≢◌, ◌⊎◌, inl, inr, refl, ap, ◌∙◌, Bool,
  true, false, ◌&&◌, ◌||◌, Option, none, some, List, [], ◌∷◌, u64, ltb, ◌==◌, if◌then◌else◌, get_or,
  set, length, length-set, length-replicate, arith, Option-cases,
}
use backendofcryptotradingbo.MarketData.OrderBook.{
  PriceLevel, OrderBookSide, OrderBook, max_price_levels, empty_level, new_side, find_level,
  best_qty, best_of, best_level, update_level, get_best_price, best_bid, best_ask, mid_price,
  spread,
}

-- The quantity that the side quotes at a price, if it quotes one.
abbrev pub quoted : OrderBookSide → ℕ → Option ℕ
quoted s price = elim (find_level s.level_count s.levels price) [
  | none ↦ none
  | some (_, l) ↦ some l.total_quantity
]

abbrev pub is_some : Option ℕ → Bool
is_some none = false
is_some (some _) = true

-- `best` is at least as good as `p`.
abbrev pub AsGood : Bool → ℕ → ℕ → Type 0
AsGood true best p = p ≤ best
AsGood false best p = best ≤ p

-- No level is priced 0, and the best price is the one that the search gives.
pub record IsValid (s : OrderBookSide) : Type 0 where
  pub slots : length s.levels ≡ max_price_levels
  pub few : s.level_count ≤ max_price_levels
  pub positive : find_level s.level_count s.levels 0 ≡ none
  pub best : s.best_price ≡ best_level s.is_bid s.level_count s.levels

find_level_price :
    (n : ℕ) (ls : List PriceLevel) (p i : ℕ) (l : PriceLevel)
    → find_level n ls p ≡ some (i, l)
    → l.price ≡ p
unfolding find_level
find_level_price zero ls p i l e = cc
find_level_price (suc n) [] p i l e = cc
find_level_price (suc n) (k ∷ ls) p zero l e = ground arith
find_level_price (suc n) (k ∷ ls) p (suc i) l e = ground (arith, find_level_price n ls p i l)

find_level-set :
    (n : ℕ) (ls : List PriceLevel) (p p' i : ℕ) (l k : PriceLevel)
    → find_level n ls p ≡ some (i, l)
    → k.price ≡ p
    → find_level n (set ls i k) p' ≡ (if p' == p then some (i, k) else find_level n ls p')
unfolding find_level
find_level-set zero ls p p' i l k e h = cc
find_level-set (suc n) [] p p' i l k e h = cc
find_level-set (suc n) (m ∷ ls) p p' zero l k e h = ground arith
find_level-set (suc n) (m ∷ ls) p p' (suc i) l k e h =
    ground (arith, find_level-set n ls p p' i l k)

find_level-append :
    (n : ℕ) (ls : List PriceLevel) (p p' : ℕ) (k : PriceLevel)
    → find_level n ls p ≡ none
    → n < length ls
    → k.price ≡ p
    → find_level (suc n) (set ls n k) p' ≡ (if p' == p then some (n, k) else find_level n ls p')
unfolding find_level
find_level-append zero [] p p' k e h q = elim h [ ]
find_level-append zero (m ∷ ls) p p' k e h q = ground arith
find_level-append (suc n) [] p p' k e h q = elim h [ ]
find_level-append (suc n) (m ∷ ls) p p' k e h q = ground (arith, find_level-append n ls p p' k)

best_of_lem :
    (is_bid : Bool) (best n : ℕ) (ls : List PriceLevel)
    → find_level n ls 0 ≡ none
    → let r = best_of is_bid best n ls in
      ((r ≡ best) ⊎ (find_level n ls r ≢ none)) × AsGood is_bid r best
unfolding find_level best_of
best_of_lem true best zero ls h = (inl refl, omega arith)
best_of_lem false best zero ls h = (inl refl, omega arith)
best_of_lem true best (suc n) [] h = (inl refl, omega arith)
best_of_lem false best (suc n) [] h = (inl refl, omega arith)
best_of_lem true best (suc n) (l ∷ ls) h =
    ground (arith, best_of_lem true (if ltb best l.price then l.price else best) n ls)
best_of_lem false best (suc n) (l ∷ ls) h =
    ground
      (arith, best_of_lem false (if ltb l.price best && ltb 0 l.price then l.price else best) n ls)

best_of-AsGood :
    (is_bid : Bool) (best n : ℕ) (ls : List PriceLevel) (p : ℕ)
    → find_level n ls 0 ≡ none
    → find_level n ls p ≢ none
    → AsGood is_bid (best_of is_bid best n ls) p
unfolding find_level best_of
best_of-AsGood is_bid best zero ls p h q = absurd (q refl)
best_of-AsGood is_bid best (suc n) [] p h q = absurd (q refl)
best_of-AsGood true best (suc n) (l ∷ ls) p h q =
    let next : ℕ = if ltb best l.price then l.price else best in
    ground (arith, best_of_lem true next n ls, best_of-AsGood true next n ls p)
best_of-AsGood false best (suc n) (l ∷ ls) p h q =
    let next : ℕ = if ltb l.price best && ltb 0 l.price then l.price else best in
    ground (arith, best_of_lem false next n ls, best_of-AsGood false next n ls p)

best_level_lem :
    (is_bid : Bool) (n : ℕ) (ls : List PriceLevel) (p : ℕ)
    → find_level n ls 0 ≡ none
    → find_level n ls p ≢ none
    → let r = best_level is_bid n ls in (find_level n ls r ≢ none) × AsGood is_bid r p
unfolding find_level best_level
best_level_lem is_bid zero ls p h q = absurd (q refl)
best_level_lem is_bid (suc n) [] p h q = absurd (q refl)
best_level_lem true (suc n) (l ∷ ls) p h q =
    ground (arith, best_of_lem true l.price n ls, best_of-AsGood true l.price n ls p)
best_level_lem false (suc n) (l ∷ ls) p h q =
    ground (arith, best_of_lem false l.price n ls, best_of-AsGood false l.price n ls p)

-- On a valid side that quotes a price, the best price is a price that it quotes, and no quoted price
-- is better: higher on the bid side, lower on the ask side. The best quantity is the one quoted there.
pub best_price_lem :
    (s : OrderBookSide) (p q : ℕ)
    → IsValid s
    → quoted s p ≡ some q
    → AsGood s.is_bid s.best_price p
      × (quoted s s.best_price ≡ some (best_qty s))
      × (get_best_price s ≡ some s.best_price)
unfolding best_qty get_best_price
best_price_lem s p q v e =
    let found : find_level s.level_count s.levels p ≢ none = λ n. ground (arith, n, e) in
    let (at_best, good) = best_level_lem s.is_bid s.level_count s.levels p v.positive found in
    let top : find_level s.level_count s.levels s.best_price ≢ none = rw v.best at_best in
    let nonzero : s.best_price ≢ 0 =
      λ z. top (ap (find_level s.level_count s.levels) z ∙ v.positive) in
    (rw v.best good, ground (arith, top, nonzero), ground (arith, nonzero))

-- `update_level` on a valid side, for a price above 0: the side stays valid, quotes the price at the
-- new quantity (0 included) if it quoted it before or has a level left, and quotes every other price
-- as before; a new price on a full side changes nothing.
pub update_level_lem :
    (s : OrderBookSide) (price quantity p : ℕ)
    → IsValid s
    → 0 < price
    → IsValid (update_level s price quantity)
      × (quoted (update_level s price quantity) p ≡ (
          if p == price && (is_some (quoted s price) || ltb s.level_count max_price_levels)
          then some quantity
          else quoted s p))
      × ((update_level s price quantity).is_bid ≡ s.is_bid)
unfolding update_level
update_level_lem s price quantity p v pos =
    elim (Option-cases (find_level s.level_count s.levels price)) [
      | inl new_price ↦
          let k : PriceLevel = record (get_or s.levels s.level_count empty_level) {
            price = price;
            total_quantity = quantity;
          } in
          ground (
            arith,
            v,
            find_level-append s.level_count s.levels price p k new_price,
            find_level-append s.level_count s.levels price 0 k new_price,
            length-set s.levels s.level_count k,
          )
      | inr ((i, l), old) ↦
          let k : PriceLevel = record l { total_quantity = quantity } in
          ground (
            arith,
            v,
            find_level_price s.level_count s.levels price i l old,
            find_level-set s.level_count s.levels price p i l k old,
            find_level-set s.level_count s.levels price 0 i l k old,
            length-set s.levels i k,
          )
    ]

pub new_side-IsValid : (is_bid : Bool) → IsValid (new_side is_bid)
unfolding new_side find_level best_level
new_side-IsValid is_bid = record {
  slots = length-replicate max_price_levels empty_level;
  few = omega arith;
  positive = refl;
  best = refl;
}

-- With a best bid and a best ask that do not cross and whose sum is below 2 ^ 64, the mid price lies
-- between them and the spread is what the ask is above the bid.
pub mid_price_lem :
    (b : OrderBook) (bid ask : ℕ)
    → best_bid b ≡ some bid
    → best_ask b ≡ some ask
    → bid ≤ ask
    → bid + ask < 2 ^ 64
    → (mid : ℕ) × (width : ℕ) × (mid_price b ≡ some mid)
      × (spread b ≡ some width)
      × (bid ≤ mid)
      × (mid ≤ ask)
      × (bid + width ≡ ask)
unfolding mid_price spread
mid_price_lem b bid ask e f h small = (
  u64 (bid + ask) / 2,
  ask - bid,
  rw (e, ◌>>=◌) (rw (f, ◌>>=◌) refl),
  rw (e, ◌>>=◌) (rw (f, ◌>>=◌) (ap some (omega arith))),
  omega arith,
  omega arith,
  omega arith,
)
