-- ===== src/Gateways/Manager/Active.antt =====
-- Which venues of src/gateways/gateway_manager.rs are active after a series of calls.
use backendofcryptotradingbo.Base.{
  ℕ, zero, suc, ◌<◌, ◌≡◌, refl, ap, sym, ◌∙◌, Bool, true, false, not, ◌||◌, ◌==◌, Option, none,
  some, List, [], ◌∷◌, ltb, leb, arith, Bool-cases, Option-cases, inl, inr, get_or, set, length,
  get_or-set_self, get_or-set_ne, ==_iff,
}
use backendofcryptotradingbo.Gateways.Manager.{
  GatewaySlot, Gateway, GatewayManager, max_venues, new_slot, slot_at, register, start_loop,
  start_all, stop_all, process_venue_data, trip_circuit_breaker, reset_circuit_breaker,
  update_venue_reliability,
}
use backendofcryptotradingbo.Gateways.Manager.Registered.{
  IsRegistered, Call, register_call, start_call, stop_call, venue_call, trip_call, reset_call,
  score_call, execute, execute-IsRegistered,
}

-- A new value of a slot with the old flag changes no flag.
set-active :
    (slots : List GatewaySlot) (i v : ℕ) (s : GatewaySlot)
    → s.active ≡ (get_or slots i new_slot).active
    → (get_or (set slots i s) v new_slot).active ≡ (get_or slots v new_slot).active
set-active [] i v s e = refl
set-active (t ∷ slots) zero zero s e = e
set-active (t ∷ slots) zero (suc v) s e = refl
set-active (t ∷ slots) (suc i) zero s e = refl
set-active (t ∷ slots) (suc i) (suc v) s e = set-active slots i v s e

module _ {G : Type 0} (ops : Gateway G) where
  pub run : GatewayManager G → List (Call ops) → GatewayManager G
  run m [] = m
  run m (c ∷ cs) = run (execute ops m c) cs

  -- Whether a call brings a gateway for venue `v`
  abbrev pub brings : ℕ → Call ops → Bool
  brings v (register_call gw) = ops.venue_id gw == v
  brings v _ = false

  -- Whether one of the calls brings a gateway for venue `v`
  abbrev pub is_brought : ℕ → List (Call ops) → Bool
  is_brought v [] = false
  is_brought v (c ∷ cs) = brings v c || is_brought v cs

  abbrev pub is_active : GatewayManager G → ℕ → Bool
  is_active m v = (slot_at ops m v).active

  start_loop-active :
      (slots : List GatewaySlot) (gateways : List (Option G)) (v : ℕ)
      → (get_or (start_loop ops slots gateways).0 v new_slot).active
        ≡ (get_or slots v new_slot).active
  unfolding start_loop
  start_loop-active [] gateways v = refl
  start_loop-active (s ∷ slots) [] v = refl
  start_loop-active (s ∷ slots) (none ∷ gateways) zero = refl
  start_loop-active (s ∷ slots) (none ∷ gateways) (suc v) = start_loop-active slots gateways v
  start_loop-active (s ∷ slots) (some gw ∷ gateways) zero = elim (Option-cases (ops.start gw).1) [
    | inl e ↦ rw (e, start_loop) refl
    | inr (err, e) ↦ rw (e, start_loop) refl
  ]
  start_loop-active (s ∷ slots) (some gw ∷ gateways) (suc v) =
      elim (Option-cases (ops.start gw).1) [
        | inl e ↦ rw (e, start_loop) (start_loop-active slots gateways v)
        | inr (err, e) ↦ rw (e, start_loop) refl
      ]

  start-active : (m : GatewayManager G) (v : ℕ) → is_active (start_all ops m).0 v ≡ is_active m v
  unfolding start_all
  start-active m v = elim (Bool-cases m.circuit_breaker) [
    | inl out ↦ rw (out, start_all) refl
    | inr within ↦ rw (within, start_all) (start_loop-active m.slots m.gateways v)
  ]

  register-active :
      (m : GatewayManager G) (gw : G) (v : ℕ)
      → IsRegistered ops m
      → v < max_venues
      → is_active (execute ops m (register_call gw)) v ≡ (is_active m v || (ops.venue_id gw == v))
  unfolding execute register
  register-active m gw v w h =
      let vid : ℕ = ops.venue_id gw in
      let s = record (slot_at ops m vid) { active = true; state = 1 } in
      elim (Bool-cases (leb max_venues vid || (slot_at ops m vid).active)) [
        | inl refused ↦
            rw (refused, register, execute)
              (elim (Bool-cases (vid == v)) [
                | inl hit ↦
                    let index : vid ≡ v = (==_iff vid v).0 hit in
                    let on : is_active m vid ≡ true = ground (arith, index, h) in
                    let on' : is_active m v ≡ true = sym (ap (is_active m) index) ∙ on in
                    ground (arith, on', hit)
                | inr miss ↦ ground (arith, miss)
              ])
        | inr free ↦
            let bound : vid < length m.slots = ground (arith, w.sized) in
            rw (free, register, execute)
              (ground (
                arith,
                get_or-set_self m.slots vid s new_slot,
                get_or-set_ne m.slots vid v s new_slot,
                bound,
                ==_iff vid v,
              ))
      ]

  venue-active :
      (m : GatewayManager G) (vid : ℕ) (bytes : List ℕ) (v : ℕ)
      → is_active (execute ops m (venue_call vid bytes)) v ≡ is_active m v
  unfolding execute process_venue_data
  venue-active m vid bytes v =
      elim (Bool-cases
        (m.circuit_breaker || (leb max_venues vid || not (slot_at ops m vid).active))) [
          | inl out ↦ rw (out, process_venue_data, execute) refl
          | inr within ↦ elim (Option-cases (get_or m.gateways vid none)) [
            | inl e ↦ rw (within, process_venue_data, execute) (rw (e, execute) refl)
            | inr (gw, e) ↦ elim (Option-cases (ops.process_buffer gw bytes)) [
              | inl never ↦ rw (within, process_venue_data, execute, e, never) refl
              | inr ((gw', count), done) ↦
                  rw (within, process_venue_data, execute, e, done)
                    (set-active m.slots vid v _ refl)
            ]
          ]
        ]

  score-active :
      (m : GatewayManager G) (vid score v : ℕ)
      → is_active (update_venue_reliability ops m vid score) v ≡ is_active m v
  unfolding update_venue_reliability
  score-active m vid score v = elim (Bool-cases (ltb vid max_venues)) [
    | inl within ↦ rw (within, update_venue_reliability) (set-active m.slots vid v _ refl)
    | inr out ↦ rw (out, update_venue_reliability) refl
  ]

  or_false : (b : Bool) → (b || false) ≡ b
  or_false true = refl
  or_false false = refl

  execute-active :
      (m : GatewayManager G) (c : Call ops) (v : ℕ)
      → IsRegistered ops m
      → v < max_venues
      → is_active (execute ops m c) v ≡ (is_active m v || brings v c)
  unfolding execute stop_all trip_circuit_breaker reset_circuit_breaker
  execute-active m (register_call gw) v w h = register-active m gw v w h
  execute-active m start_call v w h = start-active m v ∙ sym (or_false (is_active m v))
  execute-active m stop_call v w h = sym (or_false (is_active m v))
  execute-active m (venue_call vid bytes) v w h =
      venue-active m vid bytes v ∙ sym (or_false (is_active m v))
  execute-active m trip_call v w h = sym (or_false (is_active m v))
  execute-active m reset_call v w h = sym (or_false (is_active m v))
  execute-active m (score_call vid score) v w h =
      score-active m vid score v ∙ sym (or_false (is_active m v))

  or_assoc : (a b c : Bool) → ((a || b) || c) ≡ (a || (b || c))
  or_assoc true b c = refl
  or_assoc false b c = refl

  -- Whatever the gateways do, after any calls from a manager in which the active slots are those with a
  -- gateway and are counted, they still are; and a venue `v` of the 16 is active exactly when it was
  -- active before or one of the calls registers a gateway for it. So no registered venue is lost, and
  -- starting, stopping, data, the circuit breaker and the scores change no venue's activity.
  pub run-IsRegistered :
      (m : GatewayManager G) (cs : List (Call ops)) (v : ℕ)
      → IsRegistered ops m
      → v < max_venues
      → IsRegistered ops (run m cs) × (is_active (run m cs) v ≡ (is_active m v || is_brought v cs))
  unfolding run
  run-IsRegistered m [] v w h = (w, sym (or_false (is_active m v)))
  run-IsRegistered m (c ∷ cs) v w h =
      let (w', later) =
        run-IsRegistered (execute ops m c) cs v (execute-IsRegistered ops m c w) h in
      let first = execute-active m c v w h in
      (
        w',
        later
            ∙ ap (λ (a : Bool). a || is_brought v cs) first
            ∙ or_assoc (is_active m v) (brings v c) (is_brought v cs),
      )
