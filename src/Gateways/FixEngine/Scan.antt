-- ===== src/Gateways/FixEngine/Scan.antt =====
-- The incremental refresh of src/gateways/fix_protocol_engine.rs against one pass over the fields.
pub mod Parametric
use mathlib.Core.List.{append-nil, append_assoc}
use backendofcryptotradingbo.Base.{
  ℕ, zero, suc, ◌+◌, ◌<◌, ◌≡◌, refl, sym, ◌∙◌, ap, inl, inr, Bool, true, false, Option, none, some,
  List, [], ◌∷◌, ◌++◌, ◌==◌, if◌then◌else◌, length, length-append, arith, Bool-cases, All,
}
use backendofcryptotradingbo.Gateways.FixParse.{
  FixField, parse_field, tag_symbol, tag_md_entry_type,
}
use backendofcryptotradingbo.Gateways.FixParse.Fields.{
  Written, IsField, encode_field, encode, tag_from, field_of, field_length, parse_field-encode,
  parse_field-end, next_field, length-next_field, length-encode, length-encode_field,
}
use backendofcryptotradingbo.Gateways.FixEngine.{
  MarketEvent, Entry, entry_step, entry_loop, entry_type_of, symbol_of, Output, emit, event_of,
  no_entry, Refresh, refresh_step, refresh_loop, process_md_incremental,
}
use backendofcryptotradingbo.Gateways.FixEngine.Entries.{
  entry_of, after_entry, skipped, encode-skipped, length-after_entry, All-after_entry,
  entry_loop-encode,
}

-- An entry that has begun: its type, what it says so far, and its time
pub record Pending : Type 0 where
  pub entry_type : ℕ
  pub entry : Entry
  pub timestamp : ℕ

pub record Scan (R : Type 0) : Type 0 where
  pub pending : Option Pending
  pub symbol : ℕ
  pub output : Output R
  pub place : ℕ

module _ {R : Type 0} (push : R → MarketEvent → Option R) (time : ℕ → ℕ) where
  abbrev flush : Option Pending → ℕ → Output R → Output R
  flush none symbol o = o
  flush (some p) symbol o = emit push o (event_of symbol p.entry_type p.entry p.timestamp)

  abbrev begin_entry : Written → ℕ → Pending
  begin_entry w place = record {
    entry_type = entry_type_of w.value;
    entry = no_entry;
    timestamp = time place;
  }

  -- A field outside an entry
  scan_outside : ℕ → Output R → ℕ → Written → Scan R
  scan_outside symbol o place w =
      if tag_from 0 w.digits == tag_symbol
      then record { pending = none; symbol = symbol_of w.value symbol; output = o; place = place }
      else if tag_from 0 w.digits == tag_md_entry_type
      then record {
        pending = some (begin_entry w place);
        symbol = symbol;
        output = o;
        place = place;
      }
      else record { pending = none; symbol = symbol; output = o; place = place }

  -- A field inside an entry
  scan_inside : Pending → ℕ → Output R → ℕ → Written → Scan R
  scan_inside p symbol o place w =
      if tag_from 0 w.digits == tag_md_entry_type
      then record {
        pending = some (begin_entry w place);
        symbol = symbol;
        output = flush (some p) symbol o;
        place = place;
      }
      else record {
        pending = some (record p { entry = entry_step p.entry (field_of w) });
        symbol = symbol;
        output = o;
        place = place;
      }

  scan_step : Option Pending → ℕ → Output R → ℕ → Written → Scan R
  scan_step none symbol o place w = scan_outside symbol o place w
  scan_step (some p) symbol o place w = scan_inside p symbol o place w

  scan : Scan R → List Written → Scan R
  scan s [] = s
  scan s (w ∷ ws) = scan (scan_step s.pending s.symbol s.output (s.place + field_length w) w) ws

  -- All events of the fields: those of the entries that are ended by the next one, and the last.
  pub scanned : Scan R → List Written → Output R
  scanned s ws = let t = scan s ws in flush t.pending t.symbol t.output

  abbrev pub outside : ℕ → Output R → ℕ → Scan R
  outside symbol o place = record { pending = none; symbol = symbol; output = o; place = place }

  inside : Pending → ℕ → Output R → ℕ → Scan R
  inside p symbol o place = record { pending = some p; symbol = symbol; output = o; place = place }

  inside_entry :
      (p : Pending) (symbol : ℕ) (o : Output R) (place : ℕ) (w : Written)
      → (tag_from 0 w.digits == tag_md_entry_type) ≡ true
      → scan_inside p symbol o place w
        ≡ inside (begin_entry w place) symbol (flush (some p) symbol o) place
  unfolding scan_inside inside
  inside_entry p symbol o place w e = ground (arith, e)

  inside_other :
      (p : Pending) (symbol : ℕ) (o : Output R) (place : ℕ) (w : Written)
      → (tag_from 0 w.digits == tag_md_entry_type) ≡ false
      → scan_inside p symbol o place w
        ≡ inside (record p { entry = entry_step p.entry (field_of w) }) symbol o place
  unfolding scan_inside inside
  inside_other p symbol o place w e = ground (arith, e)

  outside_entry :
      (symbol : ℕ) (o : Output R) (place : ℕ) (w : Written)
      → (tag_from 0 w.digits == tag_md_entry_type) ≡ true
      → scan_outside symbol o place w ≡ inside (begin_entry w place) symbol o place
  unfolding scan_outside inside
  outside_entry symbol o place w e = ground (arith, e)

  -- What is left of an entry, and then the rest
  scanned-inside :
      (p : Pending) (symbol : ℕ) (o : Output R) (place place' : ℕ) (ws : List Written)
      → place' ≡ place + length (skipped ws)
      → scanned (inside p symbol o place) ws
        ≡ scanned
            (outside symbol
              (flush (some (record p { entry = entry_of p.entry ws })) symbol o)
              place')
            (after_entry ws)
  unfolding scanned scan scan_step inside entry_of after_entry skipped
  scanned-inside p symbol o place place' [] e = refl
  scanned-inside p symbol o place place' (w ∷ ws) e =
      elim (Bool-cases (tag_from 0 w.digits == tag_md_entry_type)) [
        | inl this ↦
            let here : place' ≡ place = ground (arith, this, e) in
            let began = flush (some p) symbol o in
            let both : scan_inside p symbol o (place + field_length w) w
                ≡ scan_outside symbol began (place' + field_length w) w =
              inside_entry p symbol o (place + field_length w) w this
              ∙ ap
                  (λ n.
                    inside (begin_entry w (n + field_length w)) symbol began (n + field_length w))
                  (sym here)
              ∙ sym (outside_entry symbol began (place' + field_length w) w this) in
            rw this (ap (λ s. scanned s ws) both)
        | inr other ↦
            let e' : place' ≡ place + field_length w + length (skipped ws) = ground (
              arith,
              other,
              e,
              length-append (encode_field w []) (skipped ws),
              length-encode_field w [],
            ) in
            let p' = record p { entry = entry_step p.entry (field_of w) } in
            let ih = scanned-inside p' symbol o (place + field_length w) place' ws e' in
            rw other (
              ap (λ s. scanned s ws) (inside_other p symbol o (place + field_length w) w other)
              ∙ ih)
      ]

  -- The output that one pass over the fields gives
  pub scan_of : Option R → List Written → Output R
  scan_of ring ws = scanned (outside 0 (record { ring = ring; events_count = 0 }) 0) ws

  module _ (avx2 : Bool) where
    refresh_loop-none :
        (fuel : ℕ) (bytes : List ℕ) (r : Refresh R)
        → parse_field avx2 bytes r.pos ≡ none
        → refresh_loop avx2 push time (suc fuel) bytes r ≡ some r.output
    unfolding refresh_loop
    refresh_loop-none fuel bytes r e = rw (e, refresh_loop) refl

    refresh_loop-some :
        (fuel : ℕ) (bytes : List ℕ) (r r' : Refresh R) (f : FixField) (next : ℕ)
        → parse_field avx2 bytes r.pos ≡ some (f, next)
        → refresh_step avx2 push time bytes r f next ≡ some r'
        → refresh_loop avx2 push time (suc fuel) bytes r ≡ refresh_loop avx2 push time fuel bytes r'
    unfolding refresh_loop
    refresh_loop-some fuel bytes r r' f next e e' = rw (e, refresh_loop, e') refl

    -- A field outside an entry that begins none
    step_plain :
        (bytes : List ℕ) (r : Refresh R) (w : Written) (next : ℕ)
        → (tag_from 0 w.digits == tag_md_entry_type) ≡ false
        → (r' : Refresh R) × (refresh_step avx2 push time bytes r (field_of w) next ≡ some r')
          × (r'.pos ≡ next)
          × (scan_outside r.symbol_id r.output next w ≡ outside r'.symbol_id r'.output next)
    unfolding refresh_step scan_outside
    step_plain bytes r w next e = elim (Bool-cases (tag_from 0 w.digits == tag_symbol)) [
      | inl this ↦ (
        record r { pos = next; symbol_id = symbol_of w.value r.symbol_id },
        rw (this) refl,
        refl,
        ground (arith, this),
      )
      | inr other ↦ (record r { pos = next }, rw (other, e) refl, refl, ground (arith, e, other))
    ]

    -- A whole entry
    step_entry :
        (bytes : List ℕ) (r : Refresh R) (w : Written) (next pos : ℕ) (e : Entry)
        → (tag_from 0 w.digits == tag_md_entry_type) ≡ true
        → entry_loop avx2 (suc (length bytes)) bytes next no_entry ≡ some (e, pos)
        → refresh_step avx2 push time bytes r (field_of w) next
          ≡ some (record r {
            pos = pos;
            output =
                emit push r.output (event_of r.symbol_id (entry_type_of w.value) e (time next));
          })
    unfolding refresh_step
    step_entry bytes r w next pos e t p =
        let outer : (tag_from 0 w.digits == tag_symbol) ≡ false = ground (arith, t) in
        rw (outer, t, p, refresh_step) refl

    refresh_loop-encode :
        (fuel : ℕ) (bytes done : List ℕ) (ws : List Written) (r : Refresh R)
        → bytes ≡ done ++ encode ws
        → r.pos ≡ length done
        → length ws < fuel
        → All IsField ws
        → refresh_loop avx2 push time fuel bytes r
          ≡ some (scanned (outside r.symbol_id r.output (length done)) ws)
    unfolding encode scanned scan scan_step
    refresh_loop-encode zero bytes done ws r b p l h = absurd (omega arith)
    refresh_loop-encode (suc fuel) bytes done [] r b p l h = refresh_loop-none fuel bytes r (
        ap (parse_field avx2 bytes) p
        ∙ ap (λ m. parse_field avx2 m (length done)) (b ∙ append-nil done)
        ∙ parse_field-end avx2 done)
    refresh_loop-encode (suc fuel) bytes done (w ∷ ws) r b p l h =
        let next = length done + field_length w in
        let done' = done ++ encode_field w [] in
        let place : length done' ≡ next = length-next_field done w in
        let b' : bytes ≡ done' ++ encode ws = b ∙ next_field done (encode ws) w in
        let parsed : parse_field avx2 bytes r.pos ≡ some (field_of w, next) =
          ap (parse_field avx2 bytes) p
          ∙ ap (λ m. parse_field avx2 m (length done)) b
          ∙ parse_field-encode avx2 done (encode ws) w h.0 in
        elim (Bool-cases (tag_from 0 w.digits == tag_md_entry_type)) [
          | inl this ↦
              let e = entry_of no_entry ws in
              let pos = next + length (skipped ws) in
              let many : length ws < suc (length bytes) =
                omega (arith, length-encode ws, ap length b', length-append done' (encode ws)) in
              let looped : entry_loop avx2 (suc (length bytes)) bytes next no_entry
                  ≡ some (e, pos) =
                ap (λ m. entry_loop avx2 (suc (length bytes)) m next no_entry) b'
                ∙ ap (λ n. entry_loop avx2 (suc (length bytes)) (done' ++ encode ws) n no_entry)
                    (sym place)
                ∙ entry_loop-encode avx2 (suc (length bytes)) done' ws no_entry many h.1
                ∙ ap (λ n. some (e, n + length (skipped ws))) place in
              let event = event_of r.symbol_id (entry_type_of w.value) e (time next) in
              let r' = record r { pos = pos; output = emit push r.output event } in
              let done'' = done' ++ skipped ws in
              let end : length done'' ≡ pos =
                length-append done' (skipped ws) ∙ ap (λ n. n + length (skipped ws)) place in
              let b'' : bytes ≡ done'' ++ encode (after_entry ws) =
                b'
                ∙ ap (λ l. done' ++ l) (encode-skipped ws)
                ∙ sym (append_assoc done' (skipped ws) (encode (after_entry ws))) in
              refresh_loop-some fuel bytes r r' (field_of w) next parsed
                (step_entry bytes r w next pos e this looped)
              ∙ refresh_loop-encode fuel bytes done'' (after_entry ws) r' b'' (sym end)
                  (omega (arith, length-after_entry ws)) (All-after_entry ws h.1)
              ∙ ap (λ n. some (scanned (outside r.symbol_id r'.output n) (after_entry ws))) end
              ∙ ap (λ o. some o)
                  (sym (scanned-inside (begin_entry w next) r.symbol_id r.output next pos ws refl))
              ∙ ap (λ s. some (scanned s ws)) (sym (outside_entry r.symbol_id r.output next w this))
          | inr other ↦
              let (r', stepped, at, same) = step_plain bytes r w next other in
              refresh_loop-some fuel bytes r r' (field_of w) next parsed stepped
              ∙ refresh_loop-encode fuel bytes done' ws r' b' (at ∙ sym place) (omega arith) h.1
              ∙ ap (λ n. some (scanned (outside r'.symbol_id r'.output n) ws)) place
              ∙ ap (λ s. some (scanned s ws)) (sym same)
        ]

  -- An incremental refresh that consists of fields is processed to its end, and gives the ring the same
  -- events, in the same order and with the same count, as one pass over the fields: an entry begins at
  -- its type, takes the last price and size before the next entry, and has the symbol that was set before
  -- the first entry.
  pub process_md_incremental-encode :
      (avx2 : Bool) (ring : Option R) (ws : List Written)
      → All IsField ws
      → process_md_incremental avx2 push time ring (encode ws) ≡ some (scan_of ring ws)
  unfolding process_md_incremental scan_of
  process_md_incremental-encode avx2 ring ws h =
      refresh_loop-encode avx2 (suc (length (encode ws))) (encode ws) [] ws
        (record { pos = 0; symbol_id = 0; output = record { ring = ring; events_count = 0 } }) refl
        refl (omega (arith, length-encode ws)) h
