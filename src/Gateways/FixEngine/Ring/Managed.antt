-- ===== src/Gateways/FixEngine/Ring/Managed.antt =====
-- A manager (src/gateways/gateway_manager.rs) with a FIX session (src/gateways/fix_protocol_engine.rs).
use backendofcryptotradingbo.Base.{
  ℕ, suc, ◌+◌, ◌≤◌, ◌≡◌, refl, ◌∙◌, ap, Bool, true, false, not, ◌||◌, none, some, List, [], ◌∷◌,
  ◌++◌, ◌-◌, u64, ◌==◌, leb, get_or, set, length, arith, All,
}
use backendofcryptotradingbo.Gateways.FixParse.{tag_check_sum, market_data_incremental}
use backendofcryptotradingbo.Gateways.FixParse.Fields.{Written, IsField, encode, tag_from, type_of}
use backendofcryptotradingbo.Gateways.Manager.{
  Gateway, GatewayManager, published, connecting, state_usize, new_slot, new, slot_at, register,
  start_loop, start_all, process_venue_data,
}
use backendofcryptotradingbo.Gateways.FixEngine
use backendofcryptotradingbo.Gateways.FixEngine.{
  FixProtocolEngine, MarketEvent, Output, fix_venue_id, process_buffer,
}
use backendofcryptotradingbo.Gateways.FixEngine.Checksum.{verdict}
use backendofcryptotradingbo.Gateways.FixEngine.Scan.{scan_of}
use backendofcryptotradingbo.Gateways.FixEngine.Session.{
  process_buffer_never, process_buffer-encode, outcome, accepted, effect,
}
use backendofcryptotradingbo.Gateways.FixEngine.Ring.{EventRing, push_event, fix_gateway}
use backendofcryptotradingbo.Gateways.FixEngine.Ring.Delivery.{waiting, events_of, scan_of-ring}
use backendofcryptotradingbo.Transport.RingBuffer.{capacity}
use backendofcryptotradingbo.Transport.RingBuffer.Refine.{IsValid}
use backendofcryptotradingbo.Base.Bytes.{take}

-- What a manager does with data of a venue whose gateway never returns from it
process_venue_data-none :
    {G : Type 0} (ops : Gateway G) (m : GatewayManager G) (vid : ℕ) (bytes : List ℕ) (gw : G)
    → m.circuit_breaker ≡ false
    → vid ≤ 15
    → (slot_at ops m vid).active ≡ true
    → get_or m.gateways vid none ≡ some gw
    → ops.process_buffer gw bytes ≡ none
    → process_venue_data ops m vid bytes ≡ none
unfolding process_venue_data
process_venue_data-none ops m vid bytes gw b v a g never =
    let within : (m.circuit_breaker || (leb 16 vid || not (slot_at ops m vid).active)) ≡ false =
      ground (arith, b, a) in
    rw (within, process_venue_data, g, never) refl

-- A new session with its ring, and a new manager that has it
abbrev pub session : EventRing → FixProtocolEngine EventRing
unfolding FixEngine.init
session ring = FixEngine.init FixEngine.new ring

abbrev pub managed :
    Gateway (FixProtocolEngine EventRing) → EventRing → GatewayManager (FixProtocolEngine EventRing)
unfolding new
managed ops ring = record (new ops) {
  slots =
      set (new ops).slots fix_venue_id
        (record new_slot { active = true; state = state_usize connecting });
  gateways = set (new ops).gateways fix_venue_id (some (session ring));
  active_count = 1;
}

-- A new session with a ring is registered at a new manager, and all gateways are started without an
-- error. Then the manager never comes back from data of the session's venue that are a message of at
-- least two fields, the first two of which are no checksums, and of at most 65536 bytes: whatever fuel
-- the check of the sum has, it runs out.
pub managed_never :
    (avx2 : Bool) (time : ℕ → ℕ) (fuel now : ℕ) (ring : EventRing) (w v : Written)
    (ws : List Written)
    → length (encode (w ∷ v ∷ ws)) ≤ 65536
    → All IsField (w ∷ v ∷ ws)
    → (tag_from 0 w.digits == tag_check_sum) ≡ false
    → (tag_from 0 v.digits == tag_check_sum) ≡ false
    → let ops = fix_gateway avx2 time fuel now in
      let m = managed ops ring in
      (register ops (new ops) (session ring) ≡ some m)
      × ((start_all ops m).1 ≡ none)
      × (process_venue_data ops (start_all ops m).0 fix_venue_id (encode (w ∷ v ∷ ws)) ≡ none)
unfolding fix_gateway register new FixEngine.start start_all start_loop session
managed_never avx2 time fuel now ring w v ws size h t u =
    let ops = fix_gateway avx2 time fuel now in
    let started : FixProtocolEngine EventRing = (FixEngine.start (session ring) now).0 in
    (
      refl,
      refl,
      process_venue_data-none ops (start_all ops (managed ops ring)).0 fix_venue_id
          (encode (w ∷ v ∷ ws)) started refl (omega arith) refl refl
          (process_buffer_never push_event time avx2 fuel now started w v ws refl refl refl size h t
            u),
    )

-- What a manager does with data of a venue whose gateway answers
process_venue_data-some :
    {G : Type 0} (ops : Gateway G) (m : GatewayManager G) (vid count : ℕ) (bytes : List ℕ)
    (gw gw' : G)
    → m.circuit_breaker ≡ false
    → vid ≤ 15
    → (slot_at ops m vid).active ≡ true
    → get_or m.gateways vid none ≡ some gw
    → ops.process_buffer gw bytes ≡ some (gw', count)
    → process_venue_data ops m vid bytes ≡ some (published ops m vid gw' count, count)
unfolding process_venue_data
process_venue_data-some ops m vid count bytes gw gw' b v a g answer =
    let within : (m.circuit_breaker || (leb 16 vid || not (slot_at ops m vid).active)) ≡ false =
      ground (arith, b, a) in
    rw (within, process_venue_data, g, answer) refl

-- A manager whose breaker is off gets a message for a session of its that is logged in and has an empty
-- buffer and a valid ring: an incremental refresh of fields, of at most 65536 bytes, whose sum is
-- accepted, with fuel from 3 on for the check of the sum. Then the events of one pass over the fields
-- stand, in their order, behind what waited in the ring: all of them, or the first ones that there is
-- room for; their number is the answer, and is added to the manager's events.
pub managed-waiting :
    (avx2 : Bool) (time : ℕ → ℕ) (fuel now : ℕ) (m : GatewayManager (FixProtocolEngine EventRing))
    (s : FixProtocolEngine EventRing) (ring : EventRing) (ws : List Written)
    → m.circuit_breaker ≡ false
    → (get_or m.slots fix_venue_id new_slot).active ≡ true
    → get_or m.gateways fix_venue_id none ≡ some s
    → s.active ≡ true
    → s.session_logged_in ≡ true
    → s.rx_buffer ≡ []
    → s.output_buffer ≡ some ring
    → IsValid ring
    → length (encode ws) ≤ 65536
    → All IsField ws
    → verdict ws ≡ some true
    → type_of ws ≡ market_data_incremental
    → (m' : GatewayManager (FixProtocolEngine EventRing)) × (s' : FixProtocolEngine EventRing)
      × (ring' : EventRing) × (events : List MarketEvent) × (events_of time ws ≡ some events)
      × let fitting = take (capacity - length (waiting ring)) events in
        let ops = fix_gateway avx2 time (suc (suc (suc fuel))) now in
        (process_venue_data ops m fix_venue_id (encode ws) ≡ some (m', length fitting))
        × (m'.total_events ≡ u64 (m.total_events + length fitting))
        × (m'.gateways ≡ set m.gateways fix_venue_id (some s'))
        × (s'.output_buffer ≡ some ring')
        × IsValid ring'
        × (waiting ring' ≡ waiting ring ++ fitting)
unfolding fix_gateway outcome effect accepted
managed-waiting avx2 time fuel now m s ring ws b a g on logged buf out v size h good kind =
    let ops = fix_gateway avx2 time (suc (suc (suc fuel))) now in
    let (ring', events, listed, (scanned', valid, behind)) = scan_of-ring time ring ws v in
    let count = length (take (capacity - length (waiting ring)) events) in
    let received = record s { rx_buffer = encode ws } in
    let s' = (accepted push_event time (record received { output_buffer = some ring' }, count)).0 in
    let seen : scan_of push_event time s.output_buffer ws
        ≡ record { ring = some ring'; events_count = count } =
      ap (λ r. scan_of push_event time r ws) out ∙ scanned' in
    let answer : process_buffer avx2 push_event time (suc (suc (suc fuel))) s (encode ws) now
        ≡ some (s', count) =
      process_buffer-encode push_event time avx2 fuel now s ws on logged buf size h
      ∙ ap (λ r. outcome push_event time r received ws now) good
      ∙ ap (λ t. some (accepted push_event time (effect push_event time received t ws now))) kind
      ∙ ap
          (λ (o : Output EventRing).
            some (
              accepted push_event time
                (record received { output_buffer = o.ring }, o.events_count)))
          seen in
    (
      published ops m fix_venue_id s' count,
      s',
      ring',
      events,
      listed,
      (
        process_venue_data-some ops m fix_venue_id count (encode ws) s s' b (omega arith) a g
            answer,
        refl,
        refl,
        refl,
        valid,
        behind,
      ),
    )
