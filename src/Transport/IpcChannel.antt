-- ===== src/Transport/IpcChannel.antt =====
-- src/transport/ipc_channel.rs: messages with their checksum, and the channel with its heartbeat, used by
-- one thread at a time. The time is an argument. `receive` waits until the sequence number of its slot is
-- above its position; only a send into that slot could end the wait, so `none` is a wait without end.
pub mod Messages
pub mod Waiting
use Prim.Native.Nat.{bit_and}
use backendofcryptotradingbo.Base.{
  ℕ, ◌+◌, ◌-◌, ◌*◌, ◌/◌, ◌%◌, ◌^◌, Bool, true, false, not, Option, none, some, List, [], ◌∷◌, u64,
  u32, ltb, leb, ◌==◌, if◌then◌else◌, get_or, set, replicate, length,
}
use backendofcryptotradingbo.Base.Bytes.{take, write, le_bytes}
use backendofcryptotradingbo.Transport.RingBuffer.{wrapping_sub}

abbrev pub max_payload_size : ℕ
max_payload_size = 256

abbrev pub channel_capacity : ℕ
channel_capacity = 1024

abbrev pub heartbeat_timeout_ms : ℕ
heartbeat_timeout_ms = 1000

pub data MessageType : Type 0 where
  order_request order_response market_data heartbeat control : MessageType

abbrev pub type_u8 : MessageType → ℕ
type_u8 order_request = 0
type_u8 order_response = 1
type_u8 market_data = 2
type_u8 heartbeat = 3
type_u8 control = 4

pub record MessageHeader : Type 0 where
  pub msg_type : MessageType
  pub sequence : ℕ
  pub timestamp_ns : ℕ
  pub payload_len : ℕ
  pub source_id : ℕ
  pub dest_id : ℕ
  pub checksum : ℕ

abbrev pub new_header : MessageType → ℕ → ℕ → ℕ → ℕ → MessageHeader
new_header msg_type sequence timestamp_ns source_id dest_id = record {
  msg_type = msg_type;
  sequence = sequence;
  timestamp_ns = timestamp_ns;
  payload_len = 0;
  source_id = source_id;
  dest_id = dest_id;
  checksum = 0;
}

-- Each `wrapping_add` in turn
unfoldable pub calculate_checksum : MessageHeader → ℕ
calculate_checksum h =
    let sum = u32 (0 + type_u8 h.msg_type) in
    let sum' = u32 (u32 (sum + h.sequence % 2 ^ 32) + u32 (h.sequence / 2 ^ 32)) in
    let sum'' = u32 (u32 (sum' + h.timestamp_ns % 2 ^ 32) + u32 (h.timestamp_ns / 2 ^ 32)) in
    u32 (u32 (u32 (sum'' + h.payload_len) + h.source_id) + h.dest_id)

unfoldable pub verify_checksum : MessageHeader → Bool
verify_checksum h = h.checksum == calculate_checksum h

pub record Message : Type 0 where
  pub header : MessageHeader
  pub payload : List ℕ  -- 256 bytes

unfoldable pub new_message : MessageHeader → List ℕ → Message
new_message header bytes =
    let len = if ltb max_payload_size (length bytes) then max_payload_size else length bytes in
    let header' = record header { payload_len = u32 len } in
    record {
      header = record header' { checksum = calculate_checksum header' };
      payload = write (replicate max_payload_size 0) 0 (take len bytes);
    }

-- `payload()`
unfoldable pub payload_of : Message → List ℕ
payload_of m = take m.header.payload_len m.payload

abbrev pub is_valid : Message → Bool
is_valid m = verify_checksum m.header

pub record MessageSlot : Type 0 where
  pub message : Option Message
  pub sequence : ℕ

abbrev pub empty_slot : MessageSlot
empty_slot = record { message = none; sequence = 0 }

-- The shared state
pub record IpcChannelState : Type 0 where
  pub producer_pos : ℕ
  pub consumer_pos : ℕ
  pub last_heartbeat_ns : ℕ
  pub is_active : Bool
  pub is_recovering : Bool
  pub messages_sent : ℕ
  pub messages_received : ℕ
  pub heartbeats_sent : ℕ
  pub recovery_count : ℕ

abbrev pub init : IpcChannelState
init = record {
  producer_pos = 0;
  consumer_pos = 0;
  last_heartbeat_ns = 0;
  is_active = true;
  is_recovering = false;
  messages_sent = 0;
  messages_received = 0;
  heartbeats_sent = 0;
  recovery_count = 0;
}

unfoldable pub send_heartbeat : IpcChannelState → ℕ → IpcChannelState
send_heartbeat s timestamp_ns = record s {
  last_heartbeat_ns = timestamp_ns;
  heartbeats_sent = u64 (s.heartbeats_sent + 1);
}

unfoldable pub is_heartbeat_healthy : IpcChannelState → ℕ → Bool
is_heartbeat_healthy s current_time_ns =
    ltb (current_time_ns - s.last_heartbeat_ns) (heartbeat_timeout_ms * 1_000_000)

unfoldable pub trigger_recovery : IpcChannelState → IpcChannelState
trigger_recovery s = record s { is_recovering = true; recovery_count = u32 (s.recovery_count + 1) }

unfoldable pub clear_recovery : IpcChannelState → IpcChannelState
clear_recovery s = record s { is_recovering = false }

pub record IpcChannel : Type 0 where
  pub state : IpcChannelState
  pub slots : List MessageSlot  -- 1024 of them
  pub mask : ℕ
  pub local_sequence : ℕ
  pub component_id : ℕ

abbrev pub new : ℕ → IpcChannel
new component_id = record {
  state = init;
  slots = replicate channel_capacity empty_slot;
  mask = channel_capacity - 1;
  local_sequence = 0;
  component_id = component_id;
}

unfoldable pub send : IpcChannel → MessageType → List ℕ → ℕ → ℕ → IpcChannel × Bool
send c msg_type payload dest_id timestamp_ns =
    let seq = c.local_sequence in
    let c' = record c { local_sequence = u64 (seq + 1) } in
    let message =
      new_message (new_header msg_type seq timestamp_ns c.component_id dest_id) payload in
    let prod_pos = c.state.producer_pos in
    if not c.state.is_active
    then (c, false)
    else if leb channel_capacity (wrapping_sub prod_pos c.state.consumer_pos)
    then (c', false)
    else (
      record c' {
        slots =
            set c.slots (bit_and prod_pos c.mask)
              (record { message = some message; sequence = seq });
        state = record c.state {
          producer_pos = u64 (prod_pos + 1);
          messages_sent = u64 (c.state.messages_sent + 1);
        };
      },
      true,
    )

unfoldable pub receive : IpcChannel → Option (IpcChannel × Option Message)
receive c =
    let cons_pos = c.state.consumer_pos in
    let idx = bit_and cons_pos c.mask in
    let slot = get_or c.slots idx empty_slot in
    if leb c.state.producer_pos cons_pos
    then some (c, none)
    else if leb slot.sequence cons_pos
    then none
    else some (
      record c {
        slots = set c.slots idx (record slot { message = none });
        state = record c.state {
          consumer_pos = u64 (cons_pos + 1);
          messages_received = u64 (c.state.messages_received + 1);
        };
      },
      slot.message,
    )

unfoldable pub send_beat : IpcChannel → ℕ → IpcChannel
send_beat c timestamp_ns =
    (send (record c { state = send_heartbeat c.state timestamp_ns }) heartbeat
      (le_bytes 8 timestamp_ns) c.component_id timestamp_ns).0

unfoldable pub is_healthy : IpcChannel → ℕ → IpcChannel × Bool
is_healthy c current_time_ns =
    if not c.state.is_active
    then (c, false)
    else if not (is_heartbeat_healthy c.state current_time_ns)
    then (record c { state = trigger_recovery c.state }, false)
    else (c, not c.state.is_recovering)

pub record ChannelStats : Type 0 where
  pub messages_sent : ℕ
  pub messages_received : ℕ
  pub heartbeats_sent : ℕ
  pub recovery_count : ℕ
  pub is_active : Bool
  pub is_recovering : Bool

unfoldable pub stats : IpcChannel → ChannelStats
stats c = record {
  messages_sent = c.state.messages_sent;
  messages_received = c.state.messages_received;
  heartbeats_sent = c.state.heartbeats_sent;
  recovery_count = c.state.recovery_count;
  is_active = c.state.is_active;
  is_recovering = c.state.is_recovering;
}
