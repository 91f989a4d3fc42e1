-- ===== src/Gateways/Examples.antt =====
-- A concrete manager (src/gateways/gateway_manager.rs), on which the theorems are applied.
use backendofcryptotradingbo.Base.{
  ℕ, ◌+◌, none, List, [], ◌∷◌, length, refl, some, ◌≡◌, true, arith, ◌++◌, Option, ◌-◌, false, u64,
  set, replicate,
}
use backendofcryptotradingbo.Base.Bytes.{take}
use backendofcryptotradingbo.Gateways.FixParse.{
  FixMsgType, position, fix_soh, find_soh_simd, parse_int, int_loop, msg_type_of, parse_msg_type,
}
use backendofcryptotradingbo.Gateways.FixParse.Soh.{find_soh_simd_lem}
use backendofcryptotradingbo.Gateways.FixParse.Fields.{
  Written, tag_from, type_of, encode, encode_field, parse_msg_type_total,
}
use backendofcryptotradingbo.Gateways.FixEngine
use backendofcryptotradingbo.Gateways.FixEngine.{FixProtocolEngine, MarketEvent, process_buffer}
use backendofcryptotradingbo.Gateways.FixEngine.Checksum.{verdict, sum_holds}
use backendofcryptotradingbo.Gateways.FixEngine.Session.{outcome, process_buffer-encode}
use backendofcryptotradingbo.Gateways.FixEngine.{fix_venue_id}
use backendofcryptotradingbo.Gateways.FixEngine.Ring.{EventRing, default_event, fix_gateway}
use backendofcryptotradingbo.Gateways.FixEngine.Ring.Delivery.{waiting, events_of}
use backendofcryptotradingbo.Gateways.FixEngine.Ring.Managed.{
  session as fix_session, managed, managed_never, managed-waiting,
}
use backendofcryptotradingbo.Transport.RingBuffer
use backendofcryptotradingbo.Transport.RingBuffer.{capacity}
use backendofcryptotradingbo.Transport.RingBuffer.Refine.{IsValid, new-IsValid}
use backendofcryptotradingbo.Gateways.Manager.{
  Gateway, GatewayManager, new, new_slot, register, start_all, process_venue_data,
}
use backendofcryptotradingbo.Gateways.Manager.Registered.{
  IsRegistered, Call, register_call, start_call, venue_call, score_call, stop_call,
  new-IsRegistered,
}
use backendofcryptotradingbo.Gateways.Manager.Active.{run, is_active, run-IsRegistered}

-- A gateway of venue 3 that counts its starts and takes each byte for an event
abbrev counting : Gateway ℕ
counting = record {
  venue_id = λ g. 3;
  start = λ g. (g + 1, none);
  stop = λ g. g;
  process_buffer = λ g bytes. some (g, length bytes);
}

abbrev calls : List (Call counting)
calls =
    register_call 0
    ∷ start_call
    ∷ venue_call 3 (1 ∷ 2 ∷ [])
    ∷ score_call 3 9
    ∷ register_call 5
    ∷ stop_call
    ∷ []

run-IsRegistered_example :
    IsRegistered counting (run counting (new counting) calls)
    × (is_active counting (run counting (new counting) calls) 3 ≡ true)
unfolding new
run-IsRegistered_example =
    run-IsRegistered counting (new counting) calls 3 (new-IsRegistered counting) (omega arith)

-- Fields of FIX messages (src/gateways/fix_protocol_engine.rs)
abbrev begin_string : Written
begin_string = record { digits = b'8' ∷ []; value = b'F' ∷ b'I' ∷ b'X' ∷ [] }

abbrev heartbeat_type : Written
heartbeat_type = record { digits = b'3' ∷ b'5' ∷ []; value = b'0' ∷ [] }

-- The sum of the bytes of `35=0` and its delimiter is 214.
abbrev sum_field : Written
sum_field = record { digits = b'1' ∷ b'0' ∷ []; value = b'2' ∷ b'1' ∷ b'4' ∷ [] }

-- A ring with room for any number of events, of which only the number is kept
abbrev count_push : ℕ → MarketEvent → Option ℕ
count_push n event = some (n + 1)

abbrev session : FixProtocolEngine ℕ
session = record FixEngine.new { active = true; session_logged_in = true }

abbrev ring : EventRing
ring = RingBuffer.new default_event

managed_never_example :
    let ops = fix_gateway true (λ t. t) 1000 5 in
    (register ops (new ops) (fix_session ring) ≡ some (managed ops ring))
    × ((start_all ops (managed ops ring)).1 ≡ none)
    × (process_venue_data ops
          (start_all ops (managed ops ring)).0
          fix_venue_id
          (encode (begin_string ∷ heartbeat_type ∷ sum_field ∷ []))
        ≡ none)
unfolding encode encode_field tag_from
managed_never_example =
    managed_never true (λ t. t) 1000 5 ring begin_string heartbeat_type (sum_field ∷ [])
      (omega arith) (omega arith) refl refl

-- A refresh with one entry: its type, the sum of the bytes of the type's field, and a bid of 1.5
abbrev refresh : List Written
refresh =
    record { digits = b'3' ∷ b'5' ∷ []; value = b'X' ∷ [] }
    ∷ record { digits = b'1' ∷ b'0' ∷ []; value = b'2' ∷ b'5' ∷ b'4' ∷ [] }
    ∷ record { digits = b'2' ∷ b'6' ∷ b'9' ∷ []; value = b'0' ∷ [] }
    ∷ record { digits = b'2' ∷ b'7' ∷ b'0' ∷ []; value = b'1' ∷ b'.' ∷ b'5' ∷ [] }
    ∷ []

abbrev engine : FixProtocolEngine EventRing
engine = record FixEngine.new { active = true; session_logged_in = true; output_buffer = some ring }

abbrev manager : GatewayManager (FixProtocolEngine EventRing)
manager = record {
  slots = set (replicate 16 new_slot) 1 (record new_slot { active = true });
  gateways = set (replicate 16 none) 1 (some engine);
  active_count = 1;
  circuit_breaker = false;
  total_events = 7;
}

managed-waiting_example :
    (m' : GatewayManager (FixProtocolEngine EventRing)) × (s' : FixProtocolEngine EventRing)
    × (ring' : EventRing) × (events : List MarketEvent) × (events_of (λ t. t) refresh ≡ some events)
    × let fitting = take (capacity - length (waiting ring)) events in
      (process_venue_data (fix_gateway true (λ t. t) 10 5) manager fix_venue_id (encode refresh)
        ≡ some (m', length fitting))
      × (m'.total_events ≡ u64 (7 + length fitting))
      × (m'.gateways ≡ set manager.gateways fix_venue_id (some s'))
      × (s'.output_buffer ≡ some ring')
      × IsValid ring'
      × (waiting ring' ≡ waiting ring ++ fitting)
unfolding encode encode_field tag_from type_of verdict sum_holds FixEngine.byte_sum parse_int
    int_loop msg_type_of
managed-waiting_example =
    managed-waiting true (λ t. t) 7 5 manager engine ring refresh refl refl refl refl refl refl refl
      (new-IsValid default_event) (omega arith) (omega arith) refl refl

process_buffer-encode_example :
    process_buffer true count_push (λ t. t) 10 session (encode (heartbeat_type ∷ sum_field ∷ [])) 5
    ≡ outcome count_push
        (λ t. t)
        (verdict (heartbeat_type ∷ sum_field ∷ []))
        (record session { rx_buffer = encode (heartbeat_type ∷ sum_field ∷ []) })
        (heartbeat_type ∷ sum_field ∷ [])
        5
unfolding encode encode_field
process_buffer-encode_example =
    process_buffer-encode count_push (λ t. t) true 7 5 session (heartbeat_type ∷ sum_field ∷ [])
      refl refl refl (omega arith) (omega arith)

find_soh_simd_lem_example : find_soh_simd true (b'a' ∷ 1 ∷ []) ≡ position fix_soh (b'a' ∷ 1 ∷ [])
find_soh_simd_lem_example = find_soh_simd_lem true (b'a' ∷ 1 ∷ [])

parse_msg_type_total_example : (t : FixMsgType) × (parse_msg_type true (b'3' ∷ b'5' ∷ []) ≡ some t)
parse_msg_type_total_example = parse_msg_type_total true (b'3' ∷ b'5' ∷ [])
