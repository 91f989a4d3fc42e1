-- ===== src/Gateways/Manager.antt =====
-- src/gateways/gateway_manager.rs: the gateways of the venues and the circuit breaker over them. A
-- gateway is any implementation of the trait `Gateway`, so its type and its methods are parameters.
-- Counters are usize of 64 bits; a panic of an assertion is `none`.
pub mod Registered
pub mod Active
use mathlib.Core.Option
use backendofcryptotradingbo.Base.{
  ℕ, zero, suc, ◌+◌, ◌%◌, ◌^◌, Bool, true, false, not, ◌&&◌, ◌||◌, Option, none, some, List, [],
  ◌∷◌, map, u64, u32, ltb, leb, if◌then◌else◌, get_or, set, replicate,
}

abbrev pub max_venues : ℕ
max_venues = 16

pub data GatewayState : Type 0 where
  disconnected connecting connected syncing ready halted failed : GatewayState

-- `state as usize`; `failed` is the source's `Error`.
abbrev pub state_usize : GatewayState → ℕ
state_usize disconnected = 0
state_usize connecting = 1
state_usize connected = 2
state_usize syncing = 3
state_usize ready = 4
state_usize halted = 5
state_usize failed = 6

pub data GatewayError : Type 0 where
  already_connected not_connected buffer_full invalid_message sequence_gap venue_halted unknown :
      GatewayError

pub record GatewaySlot : Type 0 where
  pub state : ℕ
  pub active : Bool
  pub sequence : ℕ
  pub latency_score : ℕ

abbrev pub new_slot : GatewaySlot
new_slot = record {
  state = state_usize disconnected;
  active = false;
  sequence = 0;
  latency_score = 0;
}

-- The methods of the trait that the manager calls. `start` answers with an error or `none`, and
-- `process_buffer` with the number of events, or is `none` where it never returns.
pub record Gateway (G : Type 0) : Type 0 where
  pub venue_id : G → ℕ
  pub start : G → G × Option GatewayError
  pub stop : G → G
  pub process_buffer : G → List ℕ → Option (G × ℕ)

pub record GatewayManager (G : Type 0) : Type 0 where
  pub slots : List GatewaySlot  -- 16 of them
  pub gateways : List (Option G)  -- 16 of them
  pub active_count : ℕ
  pub circuit_breaker : Bool
  pub total_events : ℕ

module _ {G : Type 0} (ops : Gateway G) where
  unfoldable pub new : GatewayManager G
  new = record {
    slots = replicate max_venues new_slot;
    gateways = replicate max_venues none;
    active_count = 0;
    circuit_breaker = false;
    total_events = 0;
  }

  abbrev pub slot_at : GatewayManager G → ℕ → GatewaySlot
  slot_at m vid = get_or m.slots vid new_slot

  unfoldable pub register : GatewayManager G → G → Option (GatewayManager G)
  register m gateway =
      let vid = ops.venue_id gateway in
      if leb max_venues vid || (slot_at m vid).active
      then none
      else some (record m {
        slots =
            set m.slots vid
              (record (slot_at m vid) { active = true; state = state_usize connecting });
        gateways = set m.gateways vid (some gateway);
        active_count = u64 (m.active_count + 1);
      })

  -- The loop over the gateways and their slots, up to the first error
  unfoldable pub start_loop :
      List GatewaySlot → List (Option G) → List GatewaySlot × List (Option G) × Option GatewayError
  start_loop [] gateways = ([], gateways, none)
  start_loop (s ∷ slots) [] = (s ∷ slots, [], none)
  start_loop (s ∷ slots) (none ∷ gateways) =
      let (slots', gateways', error) = start_loop slots gateways in
      (s ∷ slots', none ∷ gateways', error)
  start_loop (s ∷ slots) (some gw ∷ gateways) =
      let (gw', answer) = ops.start gw in
      let (slots', gateways', error) = start_loop slots gateways in
      elim answer [
        | none ↦ (record s { state = state_usize connected } ∷ slots', some gw' ∷ gateways', error)
        | some e ↦ (record s { state = state_usize failed } ∷ slots, some gw' ∷ gateways, some e)
      ]

  unfoldable pub start_all : GatewayManager G → GatewayManager G × Option GatewayError
  start_all m =
      let (slots, gateways, error) = start_loop m.slots m.gateways in
      if m.circuit_breaker
      then (m, some venue_halted)
      else (record m { slots = slots; gateways = gateways }, error)

  abbrev stop_one : Option G → Option G
  stop_one none = none
  stop_one (some gw) = some (ops.stop gw)

  unfoldable pub stop_all : GatewayManager G → GatewayManager G
  stop_all m = record m { gateways = map stop_one m.gateways; circuit_breaker = true }

  -- The gateway of a venue after `count` events
  abbrev pub published : GatewayManager G → ℕ → G → ℕ → GatewayManager G
  published m vid gw count = record m {
    gateways = set m.gateways vid (some gw);
    total_events = u64 (m.total_events + count);
    slots =
        set m.slots vid
          (record (slot_at m vid) { sequence = u64 ((slot_at m vid).sequence + count) });
  }

  unfoldable pub process_venue_data : GatewayManager G → ℕ → List ℕ → Option (GatewayManager G × ℕ)
  process_venue_data m vid bytes =
      if m.circuit_breaker || (leb max_venues vid || not (slot_at m vid).active)
      then some (m, 0)
      else elim (get_or m.gateways vid none) [
        | none ↦ some (m, 0)
        | some gw ↦
            Option.map (λ (gw', count). (published m vid gw' count, count))
              (ops.process_buffer gw bytes)
      ]

  abbrev pub is_halted : GatewayManager G → Bool
  is_halted m = m.circuit_breaker

  unfoldable pub trip_circuit_breaker : GatewayManager G → GatewayManager G
  trip_circuit_breaker m = record m { circuit_breaker = true }

  unfoldable pub reset_circuit_breaker : GatewayManager G → GatewayManager G
  reset_circuit_breaker m = record m { circuit_breaker = false }

  unfoldable pub venue_reliability : GatewayManager G → ℕ → ℕ
  venue_reliability m vid = if leb max_venues vid then 0 else u32 (slot_at m vid).latency_score

  unfoldable pub update_venue_reliability : GatewayManager G → ℕ → ℕ → GatewayManager G
  update_venue_reliability m vid score =
      if ltb vid max_venues
      then record m { slots = set m.slots vid (record (slot_at m vid) { latency_score = score }) }
      else m
