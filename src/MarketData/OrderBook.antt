-- ===== src/MarketData/OrderBook.antt =====
-- src/market_data/order_book.rs: the flat order book. Prices and quantities are u64, counts usize.
-- A method on `&self` returns the new value. The clock is the argument `now`.
pub mod Levels
use backendofcryptotradingbo.Base.{
  ℕ, zero, suc, ◌+◌, ◌-◌, ◌/◌, ◌^◌, Bool, true, false, ◌&&◌, Option, none, some, ◌>>=◌, List, [],
  ◌∷◌, u64, ltb, leb, ◌==◌, if◌then◌else◌, get_or, set, replicate,
}

abbrev pub max_price_levels : ℕ
max_price_levels = 256

abbrev pub max_orders_per_level : ℕ
max_orders_per_level = 64

pub record OrderEntry : Type 0 where
  pub order_id : ℕ
  pub quantity : ℕ
  pub original_qty : ℕ
  pub timestamp_ns : ℕ
  pub active : Bool

abbrev pub empty_entry : OrderEntry
empty_entry = record {
  order_id = 0;
  quantity = 0;
  original_qty = 0;
  timestamp_ns = 0;
  active = false;
}

pub record PriceLevel : Type 0 where
  pub price : ℕ
  pub total_quantity : ℕ
  pub order_count : ℕ
  pub orders : List OrderEntry  -- 64 of them

abbrev pub empty_level : PriceLevel
empty_level = record {
  price = 0;
  total_quantity = 0;
  order_count = 0;
  orders = replicate max_orders_per_level empty_entry;
}

-- The first active one of the first `count` orders
unfoldable pub first_active : ℕ → List OrderEntry → Option OrderEntry
first_active zero orders = none
first_active (suc count) [] = none
first_active (suc count) (o ∷ orders) = if o.active then some o else first_active count orders

unfoldable pub best_order : PriceLevel → Option OrderEntry
unfolding first_active
best_order l = first_active l.order_count l.orders

unfoldable pub add_order : PriceLevel → ℕ → ℕ → ℕ → PriceLevel × Bool
add_order l order_id quantity timestamp_ns =
    if leb max_orders_per_level l.order_count then (l, false) else (
      record l {
        orders = set l.orders l.order_count (record {
          order_id = order_id;
          quantity = quantity;
          original_qty = quantity;
          timestamp_ns = timestamp_ns;
          active = true;
        });
        order_count = u64 (l.order_count + 1);
        total_quantity = u64 (l.total_quantity + quantity);
      },
      true,
    )

pub record OrderBookSide : Type 0 where
  pub levels : List PriceLevel  -- 256 of them
  pub level_count : ℕ
  pub best_price : ℕ
  pub total_qty : ℕ
  pub is_bid : Bool

unfoldable pub new_side : Bool → OrderBookSide
new_side is_bid = record {
  levels = replicate max_price_levels empty_level;
  level_count = 0;
  best_price = 0;
  total_qty = 0;
  is_bid = is_bid;
}

-- `OrderBookSide::best_price`
unfoldable pub get_best_price : OrderBookSide → Option ℕ
get_best_price s = if ltb 0 s.best_price then some s.best_price else none

-- The first of `count` levels at a price, with its index: the searches of `best_qty` and `update_level`
unfoldable pub find_level : ℕ → List PriceLevel → ℕ → Option (ℕ × PriceLevel)
find_level zero levels price = none
find_level (suc count) [] price = none
find_level (suc count) (l ∷ levels) price =
    if l.price == price
    then some (0, l)
    else elim (find_level count levels price) [ none ↦ none | some (i, k) ↦ some (suc i, k) ]

unfoldable pub best_qty : OrderBookSide → ℕ
best_qty s =
    if s.best_price == 0 then 0 else elim (find_level s.level_count s.levels s.best_price) [
      | none ↦ 0
      | some (_, l) ↦ l.total_quantity
    ]

-- The loop of `update_best_price` over the levels after the first
unfoldable pub best_of : Bool → ℕ → ℕ → List PriceLevel → ℕ
best_of is_bid best zero levels = best
best_of is_bid best (suc count) [] = best
best_of is_bid best (suc count) (l ∷ levels) =
    best_of is_bid
      (if is_bid
        then if ltb best l.price then l.price else best
        else if ltb l.price best && ltb 0 l.price
        then l.price
        else best)
      count levels

unfoldable pub best_level : Bool → ℕ → List PriceLevel → ℕ
best_level is_bid zero levels = 0
best_level is_bid (suc count) [] = 0
best_level is_bid (suc count) (l ∷ levels) = best_of is_bid l.price count levels

unfoldable pub update_best_price : OrderBookSide → OrderBookSide
unfolding best_level
update_best_price s = record s { best_price = best_level s.is_bid s.level_count s.levels }

unfoldable pub update_level : OrderBookSide → ℕ → ℕ → OrderBookSide
unfolding update_best_price
update_level s price quantity = elim (find_level s.level_count s.levels price) [
  | some (i, l) ↦
      update_best_price
        (record s { levels = set s.levels i (record l { total_quantity = quantity }) })
  | none ↦
      if ltb s.level_count max_price_levels
      then update_best_price (record s {
        levels = set s.levels s.level_count (record (get_or s.levels s.level_count empty_level) {
          price = price;
          total_quantity = quantity;
        });
        level_count = u64 (s.level_count + 1);
      })
      else s
]

pub record OrderBook : Type 0 where
  pub bids : OrderBookSide
  pub asks : OrderBookSide
  pub symbol_id : ℕ
  pub exchange_id : ℕ
  pub last_update_ns : ℕ
  pub sequence : ℕ
  pub updating : Bool

unfoldable pub new : ℕ → ℕ → OrderBook
unfolding new_side
new symbol_id exchange_id = record {
  bids = new_side true;
  asks = new_side false;
  symbol_id = symbol_id;
  exchange_id = exchange_id;
  last_update_ns = 0;
  sequence = 0;
  updating = false;
}

abbrev pub best_bid : OrderBook → Option ℕ
best_bid b = get_best_price b.bids

abbrev pub best_ask : OrderBook → Option ℕ
best_ask b = get_best_price b.asks

-- The sum and the difference wrap in the release build.
unfoldable pub mid_price : OrderBook → Option ℕ
mid_price b = do bid ← best_bid b; ask ← best_ask b; some (u64 (bid + ask) / 2)

unfoldable pub spread : OrderBook → Option ℕ
spread b = do bid ← best_bid b; ask ← best_ask b; some (u64 (ask + 2 ^ 64 - bid))

-- `update` spins while another thread holds the lock: `none` is a lock that is held.
unfoldable pub update : OrderBook → ℕ → ℕ → Bool → ℕ → Option OrderBook
update b price quantity is_bid now =
    if b.updating
    then none
    else let b' =
        if is_bid
        then record b { bids = update_level b.bids price quantity }
        else record b { asks = update_level b.asks price quantity } in
      some (record b' { last_update_ns = now; sequence = u64 (b.sequence + 1); updating = false })

unfoldable pub depth : OrderBook → ℕ × ℕ
depth b = (b.bids.level_count, b.asks.level_count)
