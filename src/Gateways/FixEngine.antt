-- ===== src/Gateways/FixEngine.antt =====
-- src/gateways/fix_protocol_engine.rs: the session and its messages. The ring that the events go to is
-- shared with its consumer, so its type and its `push` are parameters: `none` is a full ring. A reading
-- of the cycle counter is an argument; `time` gives the reading for the entry whose fields start at a
-- place. `none` of a loop, and of what calls it, means that it has not ended with its fuel.
pub mod Checksum
pub mod Entries
pub mod Ring
pub mod Scan
pub mod Session
pub mod State
use mathlib.Core.Option
use backendofcryptotradingbo.Base.{
  ℕ, zero, suc, ◌+◌, ◌-◌, Bool, true, false, not, ◌||◌, Option, none, some, List, [], ◌∷◌, u64, ltb,
  ◌==◌, if◌then◌else◌, length, ◌>>=◌,
}
use backendofcryptotradingbo.Gateways.Manager.{
  GatewayState, disconnected, connecting, connected, syncing, ready, halted, failed, state_usize,
  GatewayError, already_connected,
}
use backendofcryptotradingbo.Gateways.FixParse.{
  FixField, FixMsgType, heartbeat, logon, logout, market_data_incremental, parse_field,
  parse_msg_type, tag_symbol, tag_md_entry_type, tag_check_sum,
}
unfoldable pub use State.*

module _ (avx2 : Bool) where
  unfoldable pub checksum_loop : ℕ → List ℕ → ℕ → Option Bool
  checksum_loop zero bytes pos = none
  checksum_loop (suc fuel) bytes pos = elim (parse_field avx2 bytes pos) [
    | none ↦ some true
    | some (field, next) ↦
        let rest = checksum_loop fuel bytes (after_soh bytes) in
        if field.tag == tag_check_sum then some (checksum_holds bytes field.value) else rest
  ]

  unfoldable pub validate_checksum : ℕ → List ℕ → Option Bool
  validate_checksum fuel bytes = checksum_loop fuel bytes 0

  -- The entry from place `pos` on, and where it ends
  unfoldable pub entry_loop : ℕ → List ℕ → ℕ → Entry → Option (Entry × ℕ)
  entry_loop zero bytes pos e = none
  entry_loop (suc fuel) bytes pos e = elim (parse_field avx2 bytes pos) [
    | none ↦ some (e, pos)
    | some (field, next) ↦
        let rest = entry_loop fuel bytes next (entry_step e field) in
        if field.tag == tag_md_entry_type then some (e, pos) else rest
  ]

  module _ {R : Type 0} (push : R → MarketEvent → Option R) (time : ℕ → ℕ) where
    -- One field of the refresh, which ends before `next`
    unfoldable pub refresh_step : List ℕ → Refresh R → FixField → ℕ → Option (Refresh R)
    refresh_step bytes r field next =
        if field.tag == tag_symbol
        then some (record r { pos = next; symbol_id = symbol_of field.value r.symbol_id })
        else if field.tag == tag_md_entry_type
        then elim (entry_loop (suc (length bytes)) bytes next no_entry) [
          | none ↦ none
          | some (e, entry_pos) ↦
              let event = event_of r.symbol_id (entry_type_of field.value) e (time next) in
              some (record r { pos = entry_pos; output = emit push r.output event })
        ]
        else some (record r { pos = next })

    unfoldable pub refresh_loop : ℕ → List ℕ → Refresh R → Option (Output R)
    refresh_loop zero bytes r = none
    refresh_loop (suc fuel) bytes r = elim (parse_field avx2 bytes r.pos) [
      | none ↦ some r.output
      | some (field, next) ↦ elim (refresh_step bytes r field next) [
        | none ↦ none
        | some r' ↦ refresh_loop fuel bytes r'
      ]
    ]

    unfoldable pub process_md_incremental : Option R → List ℕ → Option (Output R)
    process_md_incremental ring bytes =
        refresh_loop (suc (length bytes)) bytes
          (record { pos = 0; symbol_id = 0; output = record { ring = ring; events_count = 0 } })

    -- The bytes that are received: added to the buffer, or alone if they do not fit
    unfoldable pub extended_buffer : List ℕ → List ℕ → List ℕ
    extended_buffer buffer bytes = elim (write_buffer buffer bytes) [
      | some buffer' ↦ buffer'
      | none ↦ elim (write_buffer [] bytes) [ some buffer' ↦ buffer' | none ↦ [] ]
    ]

    -- What a message of a type does, and the number of its events
    unfoldable pub dispatch :
        FixProtocolEngine R → FixMsgType → List ℕ → ℕ → Option (FixProtocolEngine R × ℕ)
    dispatch s heartbeat bytes now = some (record s { last_heartbeat = now }, 0)
    dispatch s logon bytes now = some (record s { session_logged_in = true }, 0)
    dispatch s logout bytes now =
        some (record s { session_logged_in = false; state = state_usize disconnected }, 0)
    dispatch s market_data_incremental bytes now =
        Option.map (λ o. (record s { output_buffer = o.ring }, o.events_count))
          (process_md_incremental s.output_buffer bytes)
    dispatch s _ bytes now = some (s, 0)

    unfoldable pub process_message :
        FixProtocolEngine R → List ℕ → ℕ → Option (FixProtocolEngine R × ℕ)
    process_message s bytes now = do
      msg_type ← parse_msg_type avx2 bytes
      (s', events_count) ← dispatch s msg_type bytes now
      some (
        record s' {
          rx_buffer = [];
          events_written = u64 (s'.events_written + events_count);
          msg_seq_num = u64 (s'.msg_seq_num + 1);
        },
        events_count,
      )

    -- After the check of the sum
    unfoldable pub after_checksum :
        FixProtocolEngine R → List ℕ → ℕ → Option Bool → Option (FixProtocolEngine R × ℕ)
    after_checksum s bytes now none = none
    after_checksum s bytes now (some false) = some (record s { rx_buffer = [] }, 0)
    after_checksum s bytes now (some true) =
        process_message (record s { rx_buffer = bytes }) bytes now

    -- `fuel` is that of the check of the sum.
    unfoldable pub process_buffer :
        ℕ → FixProtocolEngine R → List ℕ → ℕ → Option (FixProtocolEngine R × ℕ)
    process_buffer fuel s chunk now =
        let bytes = extended_buffer s.rx_buffer chunk in
        if not s.active || not s.session_logged_in
        then some (s, 0)
        else after_checksum s bytes now (validate_checksum fuel bytes)

-- `8=FIX.4.4`, `35=0`, and a delimiter after each
abbrev heartbeat_text : List ℕ
heartbeat_text =
    b'8' ∷ b'=' ∷ b'F' ∷ b'I' ∷ b'X' ∷ b'.' ∷ b'4' ∷ b'.' ∷ b'4' ∷ 1 ∷ b'3' ∷ b'5' ∷ b'=' ∷ b'0' ∷ 1
    ∷ []

module _ {R : Type 0} where
  abbrev pub new : FixProtocolEngine R
  new = record {
    state = state_usize disconnected;
    active = false;
    output_buffer = none;
    rx_buffer = [];
    tx_buffer = [];
    msg_seq_num = 0;
    expected_seq_num = 1;
    events_written = 0;
    last_heartbeat = 0;
    session_logged_in = false;
  }

  unfoldable pub generate_heartbeat : FixProtocolEngine R → FixProtocolEngine R × List ℕ
  generate_heartbeat s = elim (write_buffer [] heartbeat_text) [
    | some text ↦ (record s { tx_buffer = text }, text)
    | none ↦ (record s { tx_buffer = [] }, [])
  ]

  unfoldable pub init : FixProtocolEngine R → R → FixProtocolEngine R
  init s output = record s { output_buffer = some output; state = state_usize connected }

  unfoldable pub start : FixProtocolEngine R → ℕ → FixProtocolEngine R × Option GatewayError
  start s now = if s.active then (s, some already_connected) else (
    record s {
      active = true;
      state = state_usize ready;
      last_heartbeat = now;
      msg_seq_num = 1;
      expected_seq_num = 1;
      session_logged_in = true;
    },
    none,
  )

  unfoldable pub stop : FixProtocolEngine R → FixProtocolEngine R
  stop s = record s {
    active = false;
    state = state_usize disconnected;
    session_logged_in = false;
    rx_buffer = [];
    tx_buffer = [];
  }

  unfoldable pub get_state : FixProtocolEngine R → GatewayState
  get_state s =
      if not s.session_logged_in
      then disconnected
      else if s.state == 0
      then disconnected
      else if s.state == 1
      then connecting
      else if s.state == 2
      then connected
      else if s.state == 3
      then syncing
      else if s.state == 4
      then ready
      else if s.state == 5
      then halted
      else failed

  unfoldable pub latency_score : FixProtocolEngine R → ℕ → ℕ
  latency_score s now =
      let diff = now - s.last_heartbeat in
      if ltb diff 1000 then 1000 else if ltb diff 10000 then 500 else 100
