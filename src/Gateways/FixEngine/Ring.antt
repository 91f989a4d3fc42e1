-- ===== src/Gateways/FixEngine/Ring.antt =====
-- The session of src/gateways/fix_protocol_engine.rs with the ring of src/transport/ring_buffer.rs, and
-- as the gateway that src/gateways/gateway_manager.rs keeps.
pub mod Delivery
pub mod Managed
use backendofcryptotradingbo.Base.{ℕ, Bool, Option, none, some, List}
use backendofcryptotradingbo.Transport.RingBuffer.{RingBuffer, RingResult, ok, err, push}
use backendofcryptotradingbo.Gateways.Manager.{Gateway}
use backendofcryptotradingbo.Gateways.FixEngine
use backendofcryptotradingbo.Gateways.FixEngine.{
  MarketEvent, FixProtocolEngine, fix_venue_id, process_buffer,
}

abbrev pub default_event : MarketEvent
default_event = record {
  venue_id = 0;
  symbol_id = 0;
  event_type = 0;
  timestamp_ns = 0;
  price = 0;
  quantity = 0;
  flags = 0;
}

abbrev pub EventRing : Type 0
EventRing = RingBuffer MarketEvent

abbrev pub pushed : EventRing × RingResult MarketEvent → Option EventRing
pushed (ring, ok) = some ring
pushed (ring, err event) = none

-- `push(event).is_ok()`: the ring that has the event, or none
unfoldable pub push_event : EventRing → MarketEvent → Option EventRing
push_event ring event = pushed (push default_event ring event)

-- The session as a gateway, at the time `now`; `fuel` is that of the check of a sum.
unfoldable pub fix_gateway : Bool → (ℕ → ℕ) → ℕ → ℕ → Gateway (FixProtocolEngine EventRing)
fix_gateway avx2 time fuel now = record {
  venue_id = λ s. fix_venue_id;
  start = λ s. FixEngine.start s now;
  stop = FixEngine.stop;
  process_buffer = λ s bytes. process_buffer avx2 push_event time fuel s bytes now;
}
