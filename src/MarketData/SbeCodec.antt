-- ===== src/MarketData/SbeCodec.antt =====
-- src/market_data/sbe_codec.rs: the messages of the simple binary encoding. Bytes are numbers below 256;
-- lengths are usize. The header and the message types are of a file that the build generates, so they
-- are parameters. Whether the processor has AVX2 is an argument; the 32 bytes that the vector
-- decoder loads are not used by it.
pub mod RoundTrip
use backendofcryptotradingbo.Base.{
  ℕ, ◌+◌, ◌*◌, Bool, true, false, Option, none, some, List, [], ◌∷◌, ◌++◌, ltb, leb, ◌==◌,
  if◌then◌else◌, get_or, set, replicate, length,
}
use backendofcryptotradingbo.Base.Bytes.{take, drop, write, le_bytes, from_le}

abbrev pub max_message_size : ℕ
max_message_size = 4096

-- What the codec uses of the generated file: the fields of a header, the header that
-- `SbeHeader::new(0, 0)` becomes when the four fields are assigned, and the message types.
pub record Generated (SbeHeader SbeMessageType : Type 0) : Type 0 where
  pub block_length : SbeHeader → ℕ
  pub template_id : SbeHeader → ℕ
  pub schema_id : SbeHeader → ℕ
  pub version : SbeHeader → ℕ
  pub header : ℕ → ℕ → ℕ → ℕ → SbeHeader
  pub trade : SbeMessageType
  pub quote : SbeMessageType
  pub order_book_update : SbeMessageType
  pub heartbeat : SbeMessageType

pub record TradeMessage (SbeHeader : Type 0) : Type 0 where
  pub header : SbeHeader
  pub exchange_code : ℕ  -- u32
  pub symbol_id : ℕ  -- u32
  pub price_nanodollars : ℕ  -- u64
  pub quantity : ℕ  -- u64
  pub timestamp_ns : ℕ  -- u64
  pub aggressor_side : ℕ  -- u8

pub record QuoteMessage (SbeHeader : Type 0) : Type 0 where
  pub header : SbeHeader
  pub exchange_code : ℕ  -- u32
  pub symbol_id : ℕ  -- u32
  pub bid_price : ℕ  -- u64
  pub ask_price : ℕ  -- u64
  pub bid_quantity : ℕ  -- u32
  pub ask_quantity : ℕ  -- u32
  pub timestamp_ns : ℕ  -- u64

pub record SbeCodec : Type 0 where
  pub buffer : List ℕ  -- 4096 bytes
  pub pos : ℕ

abbrev pub new : SbeCodec
new = record { buffer = replicate max_message_size 0; pos = 0 }

-- The number of `n` bytes at an offset
abbrev pub read : ℕ → ℕ → List ℕ → ℕ
read n offset bytes = from_le n (drop offset bytes)

module _ {SbeHeader SbeMessageType : Type 0} (g : Generated SbeHeader SbeMessageType) where
  -- The fields that the decoders read alike
  unfoldable pub decode_header : List ℕ → SbeHeader
  decode_header bytes = g.header (read 2 0 bytes) (read 2 2 bytes) (read 2 4 bytes) (read 2 6 bytes)

  -- `decode_trade_simd`; with 33 to 39 bytes it reads past the end, into the bytes `beyond`.
  unfoldable pub decode_trade_simd : List ℕ → List ℕ → Option (TradeMessage SbeHeader)
  decode_trade_simd bytes beyond = some (record {
    header = decode_header bytes;
    exchange_code = read 4 8 bytes;
    symbol_id = read 4 12 bytes;
    price_nanodollars = read 8 16 bytes;
    quantity = read 8 24 bytes;
    timestamp_ns = if leb 33 (length bytes) then read 8 32 (bytes ++ beyond) else 0;
    aggressor_side = if leb 41 (length bytes) then get_or bytes 40 0 else 0;
  })

  unfoldable pub decode_trade_scalar : List ℕ → Option (TradeMessage SbeHeader)
  decode_trade_scalar bytes =
      if ltb (length bytes) 32
      then none
      else some (record {
        header = decode_header bytes;
        exchange_code = read 4 8 bytes;
        symbol_id = read 4 12 bytes;
        price_nanodollars = read 8 16 bytes;
        quantity = read 8 24 bytes;
        timestamp_ns = if leb 40 (length bytes) then read 8 32 bytes else 0;
        aggressor_side = if leb 41 (length bytes) then get_or bytes 40 0 else 0;
      })

  unfoldable pub decode_trade_avx2 : Bool → List ℕ → List ℕ → Option (TradeMessage SbeHeader)
  decode_trade_avx2 avx2 bytes beyond =
      if ltb (length bytes) 32
      then none
      else if avx2
      then decode_trade_simd bytes beyond
      else decode_trade_scalar bytes

  unfoldable pub decode_quote : List ℕ → Option (QuoteMessage SbeHeader)
  decode_quote bytes =
      if ltb (length bytes) 40
      then none
      else some (record {
        header = decode_header bytes;
        exchange_code = read 4 8 bytes;
        symbol_id = read 4 12 bytes;
        bid_price = read 8 16 bytes;
        ask_price = read 8 24 bytes;
        bid_quantity = read 4 32 bytes;
        ask_quantity = read 4 36 bytes;
        timestamp_ns = if leb 48 (length bytes) then read 8 40 bytes else 0;
      })

  -- The buffer after the writes of `encode_trade`
  unfoldable pub encoded_buffer : List ℕ → TradeMessage SbeHeader → List ℕ
  encoded_buffer b0 msg =
      let b1 = write b0 0 (le_bytes 2 (g.block_length msg.header)) in
      let b2 = write b1 2 (le_bytes 2 (g.template_id msg.header)) in
      let b3 = write b2 4 (le_bytes 2 (g.schema_id msg.header)) in
      let b4 = write b3 6 (le_bytes 2 (g.version msg.header)) in
      let b5 = write b4 8 (le_bytes 4 msg.exchange_code) in
      let b6 = write b5 12 (le_bytes 4 msg.symbol_id) in
      let b7 = write b6 16 (le_bytes 8 msg.price_nanodollars) in
      let b8 = write b7 24 (le_bytes 8 msg.quantity) in
      let b9 = write b8 32 (le_bytes 8 msg.timestamp_ns) in set b9 40 msg.aggressor_side

  unfoldable pub encode_trade : SbeCodec → TradeMessage SbeHeader → SbeCodec × List ℕ
  unfolding encoded_buffer
  encode_trade c msg = (
    record { buffer = encoded_buffer c.buffer msg; pos = 41 },
    take 41 (encoded_buffer c.buffer msg),
  )

  unfoldable pub get_message_type : List ℕ → Option SbeMessageType
  get_message_type bytes =
      let template_id = read 2 2 bytes in
      if ltb (length bytes) 4
      then none
      else if template_id == 1
      then some g.trade
      else if template_id == 2
      then some g.quote
      else if template_id == 3
      then some g.order_book_update
      else if template_id == 4
      then some g.heartbeat
      else none
