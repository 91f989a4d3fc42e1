-- ===== src/Gateways/FixEngine/Session.antt =====
-- The session of src/gateways/fix_protocol_engine.rs: what is received, and what is ignored.
use mathlib.Core.Option
use backendofcryptotradingbo.Base.{
  ℕ, suc, ◌+◌, ◌≤◌, ◌≡◌, refl, ◌∙◌, ap, Bool, true, false, Option, none, some, List, [], ◌∷◌, ◌==◌,
  u64, length, arith, All,
}
use backendofcryptotradingbo.Gateways.FixParse.{
  FixMsgType, heartbeat, logon, logout, market_data_snapshot, market_data_incremental, unknown,
  tag_check_sum,
}
use backendofcryptotradingbo.Gateways.Manager.{disconnected, state_usize}
use backendofcryptotradingbo.Gateways.FixParse.Fields.{
  Written, IsField, encode, tag_from, type_of, parse_msg_type-encode,
}
use backendofcryptotradingbo.Gateways.FixEngine.{
  MarketEvent, FixProtocolEngine, write_buffer, extended_buffer, dispatch, process_message,
  after_checksum, process_buffer, validate_checksum, Output,
}
use backendofcryptotradingbo.Gateways.FixEngine.Checksum.{
  verdict, validate_checksum_lem, validate_checksum_never,
}
use backendofcryptotradingbo.Gateways.FixEngine.Scan.{scan_of, process_md_incremental-encode}

receive-nil :
    {R : Type 0} (push : R → MarketEvent → Option R) (time : ℕ → ℕ) (avx2 : Bool) (bytes : List ℕ)
    → length bytes ≤ 65536
    → extended_buffer avx2 push time [] bytes ≡ bytes
unfolding extended_buffer write_buffer
receive-nil push time avx2 bytes h = ground arith

process_buffer-fits :
    {R : Type 0} (push : R → MarketEvent → Option R) (time : ℕ → ℕ) (avx2 : Bool) (fuel now : ℕ)
    (s : FixProtocolEngine R) (bytes : List ℕ)
    → s.active ≡ true
    → s.session_logged_in ≡ true
    → s.rx_buffer ≡ []
    → length bytes ≤ 65536
    → process_buffer avx2 push time fuel s bytes now
      ≡ after_checksum avx2 push time s bytes now (validate_checksum avx2 fuel bytes)
unfolding process_buffer
process_buffer-fits push time avx2 fuel now s bytes a l b size =
    let received : extended_buffer avx2 push time s.rx_buffer bytes ≡ bytes =
      ap (λ r. extended_buffer avx2 push time r bytes) b ∙ receive-nil push time avx2 bytes size in
    ground (arith, a, l, received)

-- A session that is logged in never comes back from a message of at least two fields, the first two of
-- which are no checksums, if it fits the empty buffer: whatever fuel the check of the sum has, it runs
-- out.
pub process_buffer_never :
    {R : Type 0} (push : R → MarketEvent → Option R) (time : ℕ → ℕ) (avx2 : Bool) (fuel now : ℕ)
    (s : FixProtocolEngine R) (w v : Written) (ws : List Written)
    → s.active ≡ true
    → s.session_logged_in ≡ true
    → s.rx_buffer ≡ []
    → length (encode (w ∷ v ∷ ws)) ≤ 65536
    → All IsField (w ∷ v ∷ ws)
    → (tag_from 0 w.digits == tag_check_sum) ≡ false
    → (tag_from 0 v.digits == tag_check_sum) ≡ false
    → process_buffer avx2 push time fuel s (encode (w ∷ v ∷ ws)) now ≡ none
unfolding after_checksum
process_buffer_never push time avx2 fuel now s w v ws a l b size h t u =
    let bytes = encode (w ∷ v ∷ ws) in
    process_buffer-fits push time avx2 fuel now s bytes a l b size
    ∙ ap (after_checksum avx2 push time s bytes now)
        (validate_checksum_never avx2 fuel w v ws h t u)

module _ {R : Type 0} (push : R → MarketEvent → Option R) (time : ℕ → ℕ) where
  -- What an accepted message does to the session, by its type and its fields
  unfoldable pub effect :
      FixProtocolEngine R → FixMsgType → List Written → ℕ → FixProtocolEngine R × ℕ
  effect s heartbeat ws now = (record s { last_heartbeat = now }, 0)
  effect s logon ws now = (record s { session_logged_in = true }, 0)
  effect s logout ws now =
      (record s { session_logged_in = false; state = state_usize disconnected }, 0)
  effect s market_data_incremental ws now =
      let o = scan_of push time s.output_buffer ws in
      (record s { output_buffer = o.ring }, o.events_count)
  effect s _ ws now = (s, 0)

  unfoldable pub accepted : FixProtocolEngine R × ℕ → FixProtocolEngine R × ℕ
  accepted (s, events) = (
    record s {
      rx_buffer = [];
      events_written = u64 (s.events_written + events);
      msg_seq_num = u64 (s.msg_seq_num + 1);
    },
    events,
  )

  unfoldable pub outcome :
      Option Bool → FixProtocolEngine R → List Written → ℕ → Option (FixProtocolEngine R × ℕ)
  outcome none s ws now = none
  outcome (some false) s ws now = some (record s { rx_buffer = [] }, 0)
  outcome (some true) s ws now = some (accepted (effect s (type_of ws) ws now))

  dispatch-encode :
      (avx2 : Bool) (s : FixProtocolEngine R) (t : FixMsgType) (ws : List Written) (now : ℕ)
      → All IsField ws
      → dispatch avx2 push time s t (encode ws) now ≡ some (effect s t ws now)
  unfolding dispatch effect
  dispatch-encode avx2 s heartbeat ws now h = refl
  dispatch-encode avx2 s logon ws now h = refl
  dispatch-encode avx2 s logout ws now h = refl
  dispatch-encode avx2 s market_data_snapshot ws now h = refl
  dispatch-encode avx2 s market_data_incremental ws now h =
      ap (Option.map (λ (o : Output R). (record s { output_buffer = o.ring }, o.events_count)))
        (process_md_incremental-encode push time avx2 s.output_buffer ws h)
  dispatch-encode avx2 s unknown ws now h = refl

  process_message-encode :
      (avx2 : Bool) (s : FixProtocolEngine R) (ws : List Written) (now : ℕ)
      → All IsField ws
      → process_message avx2 push time s (encode ws) now
        ≡ some (accepted (effect s (type_of ws) ws now))
  unfolding process_message accepted
  process_message-encode avx2 s ws now h =
      rw
        (
          parse_msg_type-encode avx2 ws h,
          process_message,
          dispatch-encode avx2 s (type_of ws) ws now h,
        )
        refl

  -- What `process_buffer` does after the check
  judged :
      (avx2 : Bool) (now : ℕ) (s : FixProtocolEngine R) (ws : List Written)
      → All IsField ws
      → (v : Option Bool)
      → after_checksum avx2 push time s (encode ws) now v
        ≡ outcome v (record s { rx_buffer = encode ws }) ws now
  unfolding outcome after_checksum
  judged avx2 now s ws h none = refl
  judged avx2 now s ws h (some false) = refl
  judged avx2 now s ws h (some true) =
      process_message-encode avx2 (record s { rx_buffer = encode ws }) ws now h

  -- A message of fields that fits the empty buffer of a session that is logged in, with any fuel from 3
  -- on for the check of its sum: without a verdict it is never processed; a bad sum drops it and changes
  -- nothing else; otherwise it has the effect of its type, with the events of one pass over its fields,
  -- is counted, and leaves the buffer empty.
  pub process_buffer-encode :
      (avx2 : Bool) (fuel now : ℕ) (s : FixProtocolEngine R) (ws : List Written)
      → s.active ≡ true
      → s.session_logged_in ≡ true
      → s.rx_buffer ≡ []
      → length (encode ws) ≤ 65536
      → All IsField ws
      → process_buffer avx2 push time (suc (suc (suc fuel))) s (encode ws) now
        ≡ outcome (verdict ws) (record s { rx_buffer = encode ws }) ws now
  process_buffer-encode avx2 fuel now s ws a l b size h =
      process_buffer-fits push time avx2 (suc (suc (suc fuel))) now s (encode ws) a l b size
      ∙ ap (after_checksum avx2 push time s (encode ws) now) (validate_checksum_lem avx2 fuel ws h)
      ∙ judged avx2 now s ws h (verdict ws)
