-- ===== src/Gateways/FixEngine/Scan/Parametric.antt =====
-- One pass over the fields of a refresh (src/gateways/fix_protocol_engine.rs) with two kinds of ring.
use backendofcryptotradingbo.Base.{
  ℕ, ◌+◌, ◌≡◌, refl, inl, inr, Option, none, some, List, [], ◌∷◌, ◌==◌, Bool-cases,
}
use backendofcryptotradingbo.Gateways.FixParse.{tag_symbol, tag_md_entry_type}
use backendofcryptotradingbo.Gateways.FixParse.Fields.{Written, tag_from, field_of, field_length}
use backendofcryptotradingbo.Gateways.FixEngine.{
  MarketEvent, entry_step, symbol_of, Output, emit, event_of,
}
use backendofcryptotradingbo.Gateways.FixEngine.Scan.{
  Pending, Scan, flush, begin_entry, scan_step, scan_outside, scan_inside, scan, scanned, scan_of,
  outside,
}

module _ {R Q : Type 0} (push : R → MarketEvent → Option R) (push' : Q → MarketEvent → Option Q)
    (time : ℕ → ℕ) (Related : Output R → Output Q → Type 0)
    (emit-Related : (o : Output R) (q : Output Q) (event : MarketEvent)
      → Related o q
      → Related (emit push o event) (emit push' q event)) where
  flush-Related :
      (p : Option Pending) (symbol : ℕ) (o : Output R) (q : Output Q)
      → Related o q
      → Related (flush push time p symbol o) (flush push' time p symbol q)
  flush-Related none symbol o q h = h
  flush-Related (some p) symbol o q h =
      emit-Related o q (event_of symbol p.entry_type p.entry p.timestamp) h

  -- The scans are the same but for the outputs, which are related.
  record IsRelated (s : Scan R) (t : Scan Q) : Type 0 where
    same_pending : t.pending ≡ s.pending
    same_symbol : t.symbol ≡ s.symbol
    same_place : t.place ≡ s.place
    outputs : Related s.output t.output

  alike :
      (pending : Option Pending) (symbol place : ℕ) (o : Output R) (q : Output Q)
      → Related o q
      → IsRelated
          (record { pending = pending; symbol = symbol; output = o; place = place })
          (record { pending = pending; symbol = symbol; output = q; place = place })
  alike pending symbol place o q h = record {
    same_pending = refl;
    same_symbol = refl;
    same_place = refl;
    outputs = h;
  }

  step-IsRelated :
      (pending : Option Pending) (symbol place : ℕ) (o : Output R) (q : Output Q) (w : Written)
      → Related o q
      → IsRelated
          (scan_step push time pending symbol o place w)
          (scan_step push' time pending symbol q place w)
  unfolding scan_step scan_outside scan_inside
  step-IsRelated none symbol place o q w h = elim (Bool-cases (tag_from 0 w.digits == tag_symbol)) [
    | inl named ↦ rw named (alike none (symbol_of w.value symbol) place o q h)
    | inr other ↦ elim (Bool-cases (tag_from 0 w.digits == tag_md_entry_type)) [
      | inl entry ↦
          rw (other, entry) (alike (some (begin_entry push time w place)) symbol place o q h)
      | inr plain ↦ rw (other, plain) (alike none symbol place o q h)
    ]
  ]
  step-IsRelated (some p) symbol place o q w h =
      elim (Bool-cases (tag_from 0 w.digits == tag_md_entry_type)) [
        | inl entry ↦ rw entry (
            alike (some (begin_entry push time w place)) symbol place
              (flush push time (some p) symbol o) (flush push' time (some p) symbol q)
              (flush-Related (some p) symbol o q h))
        | inr plain ↦
            rw plain (
              alike (some (record p { entry = entry_step p.entry (field_of w) })) symbol place o q
                h)
      ]

  scan-IsRelated :
      (s : Scan R) (t : Scan Q) (ws : List Written)
      → IsRelated s t
      → IsRelated (scan push time s ws) (scan push' time t ws)
  unfolding scan
  scan-IsRelated s t [] h = h
  scan-IsRelated s t (w ∷ ws) h =
      let place : ℕ = s.place + field_length w in
      let step = step-IsRelated s.pending s.symbol place s.output t.output w h.outputs in
      scan-IsRelated (scan_step push time s.pending s.symbol s.output place w)
        (scan_step push' time t.pending t.symbol t.output (t.place + field_length w) w) ws
        (rw (h.same_pending, h.same_symbol, h.same_place) step)

  -- Rings whose outputs stay related by each event are related after a whole pass.
  pub scan_of-Related :
      (ring : Option R) (ring' : Option Q) (ws : List Written)
      → Related
          (record { ring = ring; events_count = 0 })
          (record { ring = ring'; events_count = 0 })
      → Related (scan_of push time ring ws) (scan_of push' time ring' ws)
  unfolding scan_of scanned
  scan_of-Related ring ring' ws h =
      let o : Output R = record { ring = ring; events_count = 0 } in
      let q : Output Q = record { ring = ring'; events_count = 0 } in
      let s = scan push time (outside push time 0 o 0) ws in
      let t = scan push' time (outside push' time 0 q 0) ws in
      let end =
        scan-IsRelated (outside push time 0 o 0) (outside push' time 0 q 0) ws
          (alike none 0 0 o q h) in
      rw (end.same_pending, end.same_symbol)
        (flush-Related s.pending s.symbol s.output t.output end.outputs)
