-- ===== src/MarketData/Examples.antt =====
-- A concrete order book (src/market_data/order_book.rs) and message (src/market_data/sbe_codec.rs), on
-- which the theorems are applied.
use backendofcryptotradingbo.Base.{
  [], ◌∷◌, length-replicate, ℕ, ◌≡◌, refl, true, false, ◌&&◌, ◌||◌, some, ltb, ◌==◌, if◌then◌else◌,
  arith,
}
use backendofcryptotradingbo.MarketData.SbeCodec
use backendofcryptotradingbo.MarketData.SbeCodec.{
  Generated, TradeMessage, max_message_size, read, encode_trade, decode_trade_avx2,
  get_message_type,
}
use backendofcryptotradingbo.MarketData.SbeCodec.RoundTrip.{IsWide, type_of, encode_trade_lem}
use backendofcryptotradingbo.MarketData.OrderBook.{
  OrderBookSide, OrderBook, max_price_levels, new, new_side, update_level,
}
use backendofcryptotradingbo.MarketData.OrderBook.Levels.{
  quoted, is_some, IsValid, new_side-IsValid, update_level_lem,
}

-- 5 at 100 and 7 at 101, on the bid side
abbrev bids : OrderBookSide
bids = update_level (update_level (new_side true) 100 5) 101 7

bids-IsValid : IsValid bids
bids-IsValid =
    (update_level_lem (update_level (new_side true) 100 5) 101 7 0
      (update_level_lem (new_side true) 100 5 0 (new_side-IsValid true) (omega arith)).0
      (omega arith)).0

abbrev book : OrderBook
book = record (new 1 2) { bids = bids; asks = update_level (new_side false) 104 3 }

-- The best bid's quantity goes to 0, and the level stays.
update_level_lem_example :
    IsValid (update_level bids 101 0)
    × (quoted (update_level bids 101 0) 101 ≡ (
        if 101 == 101 && (is_some (quoted bids 101) || ltb bids.level_count max_price_levels)
        then some 0
        else quoted bids 101))
    × ((update_level bids 101 0).is_bid ≡ bids.is_bid)
update_level_lem_example = update_level_lem bids 101 0 101 bids-IsValid (omega arith)

-- A header as its four fields, and the message types as their numbers
abbrev fields : Generated (ℕ × ℕ × ℕ × ℕ) ℕ
fields = record {
  block_length = λ h. h.0;
  template_id = λ h. h.1;
  schema_id = λ h. h.2;
  version = λ h. h.3;
  header = λ a b c d. (a, b, c, d);
  trade = 1;
  quote = 2;
  order_book_update = 3;
  heartbeat = 4;
}

abbrev trade_message : TradeMessage (ℕ × ℕ × ℕ × ℕ)
trade_message = record {
  header = (32, 1, 0, 0);
  exchange_code = 1;
  symbol_id = 42;
  price_nanodollars = 100_000_000_000;
  quantity = 100;
  timestamp_ns = 1234567890;
  aggressor_side = 1;
}

trade_message-IsWide : IsWide fields trade_message
trade_message-IsWide = ground arith

encode_trade_lem_example :
    (decode_trade_avx2 fields true (encode_trade fields SbeCodec.new trade_message).1 (7 ∷ [])
      ≡ some trade_message)
    × (get_message_type fields (encode_trade fields SbeCodec.new trade_message).1
        ≡ type_of fields 1)
encode_trade_lem_example =
    encode_trade_lem fields SbeCodec.new trade_message true (7 ∷ [])
      (length-replicate {A = ℕ} max_message_size 0) trade_message-IsWide refl
