-- ===== src/MarketData/SbeCodec/RoundTrip.antt =====
-- Encoding and decoding of trades in src/market_data/sbe_codec.rs.
use mathlib.Core.Option
use backendofcryptotradingbo.Base.{
  ℕ, ◌^◌, ◌≤◌, ◌<◌, ◌≡◌, refl, ap, ◌∙◌, Bool, true, false, Option, none, some, List, [], ◌∷◌, ◌++◌,
  ltb, leb, ◌==◌, if◌then◌else◌, get_or, Bool-cases, length, arith, ◌⊎◌, inl, inr,
}
use backendofcryptotradingbo.Base.Bytes.{
  take, StartsWith, write-StartsWith, set-eq-write, le_bytes, from_le, from_le-le_bytes,
  from_le-append,
}
use backendofcryptotradingbo.MarketData.SbeCodec.{
  Generated, TradeMessage, SbeCodec, max_message_size, read, decode_header, decode_trade_simd,
  decode_trade_scalar, decode_trade_avx2, encoded_buffer, encode_trade, get_message_type,
}

module _ {SbeHeader SbeMessageType : Type 0} (g : Generated SbeHeader SbeMessageType) where
  -- The fields of a message fit their types.
  pub record IsWide (msg : TradeMessage SbeHeader) : Type 0 where
    pub wide_block_length : g.block_length msg.header < 2 ^ 16
    pub wide_template_id : g.template_id msg.header < 2 ^ 16
    pub wide_schema_id : g.schema_id msg.header < 2 ^ 16
    pub wide_version : g.version msg.header < 2 ^ 16
    pub wide_exchange_code : msg.exchange_code < 2 ^ 32
    pub wide_symbol_id : msg.symbol_id < 2 ^ 32
    pub wide_price : msg.price_nanodollars < 2 ^ 64
    pub wide_quantity : msg.quantity < 2 ^ 64
    pub wide_timestamp : msg.timestamp_ns < 2 ^ 64

  -- The 41 bytes of a message
  abbrev message_bytes : TradeMessage SbeHeader → List ℕ
  message_bytes msg =
      le_bytes 2 (g.block_length msg.header)
      ++ le_bytes 2 (g.template_id msg.header)
      ++ le_bytes 2 (g.schema_id msg.header)
      ++ le_bytes 2 (g.version msg.header)
      ++ le_bytes 4 msg.exchange_code
      ++ le_bytes 4 msg.symbol_id
      ++ le_bytes 8 msg.price_nanodollars
      ++ le_bytes 8 msg.quantity
      ++ le_bytes 8 msg.timestamp_ns
      ++ (msg.aggressor_side ∷ [])

  encode_trade-eq :
      (c : SbeCodec) (msg : TradeMessage SbeHeader)
      → length c.buffer ≡ max_message_size
      → (encode_trade g c msg).1 ≡ message_bytes msg
  unfolding encode_trade encoded_buffer
  encode_trade-eq c msg l =
      let h = msg.header in
      let f1 : List ℕ = le_bytes 2 (g.block_length h) in
      let f2 : List ℕ = f1 ++ le_bytes 2 (g.template_id h) in
      let f3 : List ℕ = f2 ++ le_bytes 2 (g.schema_id h) in
      let f4 : List ℕ = f3 ++ le_bytes 2 (g.version h) in
      let f5 : List ℕ = f4 ++ le_bytes 4 msg.exchange_code in
      let f6 : List ℕ = f5 ++ le_bytes 4 msg.symbol_id in
      let f7 : List ℕ = f6 ++ le_bytes 8 msg.price_nanodollars in
      let f8 : List ℕ = f7 ++ le_bytes 8 msg.quantity in
      let f9 : List ℕ = f8 ++ le_bytes 8 msg.timestamp_ns in
      let more = write-StartsWith max_message_size in
      let s0 : StartsWith max_message_size c.buffer [] = record { sized = l; starts = refl } in
      let s1 = more c.buffer [] f1 s0 (omega arith) in
      let s2 = more _ f1 (le_bytes 2 (g.template_id h)) s1 (omega arith) in
      let s3 = more _ f2 (le_bytes 2 (g.schema_id h)) s2 (omega arith) in
      let s4 = more _ f3 (le_bytes 2 (g.version h)) s3 (omega arith) in
      let s5 = more _ f4 (le_bytes 4 msg.exchange_code) s4 (omega arith) in
      let s6 = more _ f5 (le_bytes 4 msg.symbol_id) s5 (omega arith) in
      let s7 = more _ f6 (le_bytes 8 msg.price_nanodollars) s6 (omega arith) in
      let s8 = more _ f7 (le_bytes 8 msg.quantity) s7 (omega arith) in
      let s9 = more _ f8 (le_bytes 8 msg.timestamp_ns) s8 (omega arith) in
      let s10 = more _ f9 (msg.aggressor_side ∷ []) s9 (omega arith) in
      ap (take 41) (set-eq-write _ 40 msg.aggressor_side) ∙ s10.starts

  -- Both decoders read the fields of a message from its bytes.
  message_bytes-decode :
      (msg : TradeMessage SbeHeader) (avx2 : Bool) (beyond : List ℕ)
      → IsWide msg
      → let h = msg.header in
        decode_trade_avx2 g avx2 (message_bytes msg) beyond
        ≡ some (record msg {
          header = g.header (g.block_length h) (g.template_id h) (g.schema_id h) (g.version h);
        })
  unfolding decode_trade_avx2 decode_trade_simd decode_trade_scalar decode_header
  message_bytes-decode msg avx2 beyond w =
      let h = msg.header in
      let e1 = from_le-le_bytes 2 (g.block_length h) [] w.wide_block_length in
      let e2 = from_le-le_bytes 2 (g.template_id h) [] w.wide_template_id in
      let e3 = from_le-le_bytes 2 (g.schema_id h) [] w.wide_schema_id in
      let e4 = from_le-le_bytes 2 (g.version h) [] w.wide_version in
      let e5 = from_le-le_bytes 4 msg.exchange_code [] w.wide_exchange_code in
      let e6 = from_le-le_bytes 4 msg.symbol_id [] w.wide_symbol_id in
      let e7 = from_le-le_bytes 8 msg.price_nanodollars [] w.wide_price in
      let e8 = from_le-le_bytes 8 msg.quantity [] w.wide_quantity in
      let e9 = from_le-le_bytes 8 msg.timestamp_ns [] w.wide_timestamp in
      let read_back : some (record {
        header =
            g.header (from_le 2 (le_bytes 2 (g.block_length h)))
              (from_le 2 (le_bytes 2 (g.template_id h))) (from_le 2 (le_bytes 2 (g.schema_id h)))
              (from_le 2 (le_bytes 2 (g.version h)));
        exchange_code = from_le 4 (le_bytes 4 msg.exchange_code);
        symbol_id = from_le 4 (le_bytes 4 msg.symbol_id);
        price_nanodollars = from_le 8 (le_bytes 8 msg.price_nanodollars);
        quantity = from_le 8 (le_bytes 8 msg.quantity);
        timestamp_ns = from_le 8 (le_bytes 8 msg.timestamp_ns);
        aggressor_side = msg.aggressor_side;
      })
          ≡ some (record msg {
            header = g.header (g.block_length h) (g.template_id h) (g.schema_id h) (g.version h);
          }) =
        λ i. some (record {
          header = g.header (e1 i) (e2 i) (e3 i) (e4 i);
          exchange_code = e5 i;
          symbol_id = e6 i;
          price_nanodollars = e7 i;
          quantity = e8 i;
          timestamp_ns = e9 i;
          aggressor_side = msg.aggressor_side;
        }) in
      elim (Bool-cases avx2) [ inl on ↦ rw on read_back | inr off ↦ rw off read_back ]

  -- The message type of a template id
  abbrev pub type_of : ℕ → Option SbeMessageType
  type_of id =
      if id == 1
      then some g.trade
      else if id == 2
      then some g.quote
      else if id == 3
      then some g.order_book_update
      else if id == 4
      then some g.heartbeat
      else none

  -- A trade whose fields fit their types, encoded by a codec with its 4096 bytes and decoded, with or
  -- without AVX2, and whatever lies behind the bytes, is the same trade; and the message type is
  -- that of its template id. It is assumed that a header with the same four fields is the same.
  pub encode_trade_lem :
      (c : SbeCodec) (msg : TradeMessage SbeHeader) (avx2 : Bool) (beyond : List ℕ)
      → length c.buffer ≡ max_message_size
      → IsWide msg
      → g.header
          (g.block_length msg.header)
          (g.template_id msg.header)
          (g.schema_id msg.header)
          (g.version msg.header)
        ≡ msg.header
      → let bytes = (encode_trade g c msg).1 in
        (decode_trade_avx2 g avx2 bytes beyond ≡ some msg)
        × (get_message_type g bytes ≡ type_of (g.template_id msg.header))
  unfolding get_message_type
  encode_trade_lem c msg avx2 beyond l w only_fields =
      let id = from_le-le_bytes 2 (g.template_id msg.header) [] w.wide_template_id in
      rw (encode_trade-eq c msg l) (
        message_bytes-decode msg avx2 beyond w
            ∙ ap (λ h. some (record msg { header = h })) only_fields,
        ap type_of id,
      )

  -- With fewer than 33 or at least 40 bytes the two trade decoders agree, whatever lies behind the
  -- bytes. With 33 to 39 the vector decoder takes the timestamp from the 8 bytes from offset 32 on, which
  -- end behind the given bytes, and agrees with the scalar one in the other fields.
  pub decode_trade_avx2_lem :
      (bytes beyond : List ℕ)
      → ((length bytes < 33) ⊎ (40 ≤ length bytes)
          → decode_trade_avx2 g true bytes beyond ≡ decode_trade_avx2 g false bytes beyond)
        × (33 ≤ length bytes
            → length bytes < 40
            → decode_trade_avx2 g true bytes beyond
              ≡ Option.map {A = TradeMessage SbeHeader}
                  (λ m. record m { timestamp_ns = read 8 32 (bytes ++ beyond) })
                  (decode_trade_avx2 g false bytes beyond))
  unfolding decode_trade_avx2 decode_trade_simd decode_trade_scalar
  decode_trade_avx2_lem bytes beyond =
      let as_trade : ℕ → Option (TradeMessage SbeHeader) = λ time. some (record {
        header = decode_header g bytes;
        exchange_code = read 4 8 bytes;
        symbol_id = read 4 12 bytes;
        price_nanodollars = read 8 16 bytes;
        quantity = read 8 24 bytes;
        timestamp_ns = time;
        aggressor_side = if leb 41 (length bytes) then get_or bytes 40 0 else 0;
      }) in
      (
        (λ h.
            let time : (if leb 33 (length bytes) then read 8 32 (bytes ++ beyond) else 0)
                ≡ (if leb 40 (length bytes) then read 8 32 bytes else 0) =
              ground (arith, h, from_le-append 8 32 bytes beyond) in
            elim (Bool-cases (ltb (length bytes) 32)) [
              | inl short ↦ rw short refl
              | inr long ↦ rw long (ap as_trade time)
            ]),
        (λ low high.
            let long : ltb (length bytes) 32 ≡ false = ground arith in
            let past : leb 33 (length bytes) ≡ true = ground arith in rw (long, past) refl),
      )
