-- ===== src/Gateways/FixEngine/Ring/Delivery.antt =====
-- The events of a refresh (src/gateways/fix_protocol_engine.rs) in the ring
-- (src/transport/ring_buffer.rs).
use mathlib.Core.List.{append_assoc, append-nil}
use backendofcryptotradingbo.Base.{
  ℕ, ◌+◌, ◌-◌, ◌≤◌, ◌<◌, ◌≡◌, refl, sym, ap, ◌∙◌, inl, inr, true, false, Option, none, some, List,
  [], ◌∷◌, ◌++◌, ltb, leb, u64, length, length-append, arith, Bool-cases,
}
use backendofcryptotradingbo.Base.Bytes.{take}
use backendofcryptotradingbo.Base.Slices.{take_long, take-append, length-take}
use backendofcryptotradingbo.Transport.RingBuffer.{ok, err, push, capacity}
use backendofcryptotradingbo.Transport.RingBuffer.Refine.{
  IsValid, contents, length-contents, enqueue, push_refines,
}
use backendofcryptotradingbo.Gateways.FixParse.Fields.{Written}
use backendofcryptotradingbo.Gateways.FixEngine.{MarketEvent, Output, emit}
use backendofcryptotradingbo.Gateways.FixEngine.Scan.{scan_of}
use backendofcryptotradingbo.Gateways.FixEngine.Scan.Parametric.{scan_of-Related}
use backendofcryptotradingbo.Gateways.FixEngine.Ring.{EventRing, default_event, pushed, push_event}

abbrev pub waiting : EventRing → List MarketEvent
waiting = contents default_event

-- A list that takes every event
unfoldable pub append_event : List MarketEvent → MarketEvent → Option (List MarketEvent)
append_event events event = some (events ++ (event ∷ []))

-- All events of a refresh, in order
unfoldable pub events_of : (ℕ → ℕ) → List Written → Option (List MarketEvent)
events_of time ws = (scan_of append_event time (some []) ws).ring

push_event-room :
    (ring : EventRing) (event : MarketEvent)
    → IsValid ring
    → length (waiting ring) < capacity
    → (ring' : EventRing) × (push_event ring event ≡ some ring')
      × IsValid ring'
      × (waiting ring' ≡ waiting ring ++ (event ∷ []))
unfolding push_event enqueue
push_event-room ring event v room =
    let (valid, same) = push_refines default_event ring event v in
    let fits : leb capacity (length (waiting ring)) ≡ false = ground (arith, room) in
    let queued : enqueue (waiting ring) event ≡ (waiting ring ++ (event ∷ []), ok) = rw fits refl in
    let ring' = (push default_event ring event).0 in
    (
      ring',
      ap (λ r. pushed (ring', r)) (ap (λ p. p.1) (same ∙ queued)),
      valid,
      ap (λ p. p.0) (same ∙ queued),
    )

push_event-full :
    (ring : EventRing) (event : MarketEvent)
    → IsValid ring
    → capacity ≤ length (waiting ring)
    → push_event ring event ≡ none
unfolding push_event enqueue
push_event-full ring event v full =
    let (valid, same) = push_refines default_event ring event v in
    let over : leb capacity (length (waiting ring)) ≡ true = ground (arith, full) in
    let queued : enqueue (waiting ring) event ≡ (waiting ring, err event) = rw over refl in
    let ring' = (push default_event ring event).0 in
    ap (λ r. pushed (ring', r)) (ap (λ p. p.1) (same ∙ queued))

-- The ring has what of the events fits behind what waited in it, and these are counted.
record Delivers (before : EventRing) (o : Output EventRing) (q : Output (List MarketEvent))
    : Type 0 where
  ring : EventRing
  events : List MarketEvent
  holds : o.ring ≡ some ring
  listed : q.ring ≡ some events
  valid : IsValid ring
  delivered : waiting ring ≡ waiting before ++ take (capacity - length (waiting before)) events
  counted : o.events_count ≡ length (take (capacity - length (waiting before)) events)

emit-some :
    {R : Type 0} (push : R → MarketEvent → Option R) (o : Output R) (event : MarketEvent) (r r' : R)
    → o.ring ≡ some r
    → push r event ≡ some r'
    → emit push o event ≡ record { ring = some r'; events_count = u64 (o.events_count + 1) }
unfolding emit
emit-some push o event r r' e p = rw (e, emit, p) refl

emit-none :
    {R : Type 0} (push : R → MarketEvent → Option R) (o : Output R) (event : MarketEvent) (r : R)
    → o.ring ≡ some r
    → push r event ≡ none
    → emit push o event ≡ o
unfolding emit
emit-none push o event r e p = ground (arith, e, p)

emit-Delivers :
    (before : EventRing) (o : Output EventRing) (q : Output (List MarketEvent))
    (event : MarketEvent)
    → length (waiting before) ≤ capacity
    → Delivers before o q
    → Delivers before (emit push_event o event) (emit append_event q event)
unfolding append_event
emit-Delivers before o q event h d =
    let room : ℕ = capacity - length (waiting before) in
    let more = d.events ++ (event ∷ []) in
    let listed' = ap (λ q. q.ring) (emit-some append_event q event d.events more d.listed refl) in
    let size = ap length d.delivered ∙ length-append (waiting before) (take room d.events) in
    let longer = length-append d.events (event ∷ []) in
    elim (Bool-cases (ltb (length d.events) room)) [
      | inl fits ↦
          let few : length d.events < room = ground (arith, fits) in
          let all = take_long room d.events (omega arith) in
          let all' = take_long room more (ground (arith, fits, longer)) in
          let (ring', pushed', valid', waiting') =
            push_event-room d.ring event d.valid (ground (arith, fits, size, ap length all)) in
          let emitted = emit-some push_event o event d.ring ring' d.holds pushed' in
          record {
            ring = ring';
            events = more;
            holds = ap (λ o. o.ring) emitted;
            listed = listed';
            valid = valid';
            delivered =
                waiting'
                ∙ ap (λ l. l ++ (event ∷ [])) (d.delivered ∙ ap (λ l. waiting before ++ l) all)
                ∙ append_assoc (waiting before) d.events (event ∷ [])
                ∙ ap (λ l. waiting before ++ l) (sym all');
            counted =
                ap (λ o. o.events_count) emitted
                ∙ omega (arith, d.counted, ap length all, ap length all', longer, few);
          }
      | inr full ↦
          let same = take-append room d.events (event ∷ []) (ground (arith, full)) in
          let filled = length-take room d.events (ground (arith, full)) in
          let refused = push_event-full d.ring event d.valid (omega (arith, size, filled, h)) in
          let emitted = emit-none push_event o event d.ring d.holds refused in
          record {
            ring = d.ring;
            events = more;
            holds = ap (λ o. o.ring) emitted ∙ d.holds;
            listed = listed';
            valid = d.valid;
            delivered = d.delivered ∙ ap (λ l. waiting before ++ l) (sym same);
            counted = ap (λ o. o.events_count) emitted ∙ d.counted ∙ ap length (sym same);
          }
    ]

-- With a valid ring, the events of one pass over the fields stand, in their order, behind what waited in
-- the ring: all of them, or the first ones that there is room for.
pub scan_of-ring :
    (time : ℕ → ℕ) (ring : EventRing) (ws : List Written)
    → IsValid ring
    → (ring' : EventRing) × (events : List MarketEvent) × (events_of time ws ≡ some events)
      × let fitting = take (capacity - length (waiting ring)) events in
        (scan_of push_event time (some ring) ws
          ≡ record { ring = some ring'; events_count = length fitting })
        × IsValid ring'
        × (waiting ring' ≡ waiting ring ++ fitting)
unfolding events_of
scan_of-ring time ring ws v =
    let size : length (waiting ring) ≤ capacity =
      omega (arith, length-contents default_event ring, v) in
    let none_yet =
      take_long {A = MarketEvent} (capacity - length (waiting ring)) [] (omega arith) in
    let d =
      scan_of-Related push_event append_event time (Delivers ring)
        (λ o q event d. emit-Delivers ring o q event size d) (some ring) (some []) ws
        (record {
          ring = ring;
          events = [];
          holds = refl;
          listed = refl;
          valid = v;
          delivered = rw none_yet (sym (append-nil (waiting ring)));
          counted = rw none_yet refl;
        }) in
    (d.ring, d.events, d.listed, (ground (arith, d.holds, d.counted), d.valid, d.delivered))
