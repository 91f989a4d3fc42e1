-- ===== src/Gateways/FixEngine/State.antt =====
-- src/gateways/fix_protocol_engine.rs: the events, the sum of a message, the entries of a refresh, and
-- the state of the session.
use backendofcryptotradingbo.Base.{
  ℕ, ◌+◌, ◌-◌, ◌*◌, ◌%◌, Bool, Option, none, some, List, [], ◌∷◌, ◌++◌, u64, u32, ltb, ◌==◌,
  if◌then◌else◌, length, get_or,
}
use backendofcryptotradingbo.Base.Bytes.{take, drop}
use backendofcryptotradingbo.Gateways.FixParse.{
  FixField, fix_soh, position, parse_int, parse_decimal_fixed, tag_md_entry_price,
  tag_md_entry_size,
}

abbrev pub max_fix_msg_size : ℕ
max_fix_msg_size = 65536

abbrev pub fix_venue_id : ℕ
fix_venue_id = 1

-- The bytes of a buffer up to its length; `write` fails when they do not fit.
unfoldable pub write_buffer : List ℕ → List ℕ → Option (List ℕ)
write_buffer buffer chunk =
    if ltb max_fix_msg_size (length buffer + length chunk) then none else some (buffer ++ chunk)

pub record MarketEvent : Type 0 where
  pub venue_id : ℕ
  pub symbol_id : ℕ
  pub event_type : ℕ
  pub timestamp_ns : ℕ
  pub price : ℕ
  pub quantity : ℕ
  pub flags : ℕ

-- The sum of the bytes, as a u32
unfoldable pub byte_sum : ℕ → List ℕ → ℕ
byte_sum sum [] = sum
byte_sum sum (b ∷ bytes) = byte_sum (u32 (sum + b)) bytes

-- Where the checked bytes end: one past the delimiter that is found from the first delimiter on
unfoldable pub checksum_start : List ℕ → ℕ
checksum_start bytes = elim (position fix_soh bytes) [
  | none ↦ 0
  | some p ↦ elim (position fix_soh (drop p bytes)) [ none ↦ 0 | some pp ↦ p + pp + 1 ]
]

-- Where the loop goes on
unfoldable pub after_soh : List ℕ → ℕ
after_soh bytes = elim (position fix_soh bytes) [ none ↦ length bytes | some p ↦ p + 1 ]

unfoldable pub checksum_holds : List ℕ → List ℕ → Bool
checksum_holds bytes value =
    byte_sum 0 (take (checksum_start bytes) bytes) % 256 == u32 (parse_int value)

-- A field's first byte after b'0', as a u8
unfoldable pub entry_type_of : List ℕ → ℕ
entry_type_of [] = 0
entry_type_of (b ∷ bytes) = (b + 256 - b'0') % 256

-- The first two bytes; the or of a shifted byte and a byte is their sum.
unfoldable pub symbol_of : List ℕ → ℕ → ℕ
symbol_of [] symbol_id = symbol_id
symbol_of (b ∷ bytes) symbol_id = b * 256 + get_or bytes 0 0

-- The variables of the look ahead in an entry
pub record Entry : Type 0 where
  pub entry_price : ℕ
  pub entry_size : ℕ

unfoldable pub entry_step : Entry → FixField → Entry
entry_step e f =
    if f.tag == tag_md_entry_price
    then record e { entry_price = parse_decimal_fixed f.value }
    else if f.tag == tag_md_entry_size
    then record e { entry_size = parse_decimal_fixed f.value }
    else e

-- The output, if there is one, and the number of events that it took
pub record Output (R : Type 0) : Type 0 where
  pub ring : Option R
  pub events_count : ℕ

unfoldable pub emit :
    {R : Type 0} → (R → MarketEvent → Option R) → Output R → MarketEvent → Output R
emit push o event = elim o.ring [
  | none ↦ o
  | some rb ↦ elim (push rb event) [
    | some rb' ↦ record { ring = some rb'; events_count = u64 (o.events_count + 1) }
    | none ↦ o
  ]
]

abbrev pub event_of : ℕ → ℕ → Entry → ℕ → MarketEvent
event_of symbol_id entry_type e timestamp = record {
  venue_id = fix_venue_id;
  symbol_id = symbol_id;
  event_type = entry_type;
  timestamp_ns = timestamp;
  price = e.entry_price;
  quantity = e.entry_size;
  flags = 0;
}

abbrev pub no_entry : Entry
no_entry = record { entry_price = 0; entry_size = 0 }

-- The variables of the loop of `process_md_incremental`
pub record Refresh (R : Type 0) : Type 0 where
  pub pos : ℕ
  pub symbol_id : ℕ
  pub output : Output R

pub record FixProtocolEngine (R : Type 0) : Type 0 where
  pub state : ℕ
  pub active : Bool
  pub output_buffer : Option R
  pub rx_buffer : List ℕ
  pub tx_buffer : List ℕ
  pub msg_seq_num : ℕ
  pub expected_seq_num : ℕ
  pub events_written : ℕ
  pub last_heartbeat : ℕ
  pub session_logged_in : Bool
