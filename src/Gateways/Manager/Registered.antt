-- ===== src/Gateways/Manager/Registered.antt =====
-- Which venues src/gateways/gateway_manager.rs has a gateway for.

use backendofcryptotradingbo.Base.{
  ℕ, zero, suc, ◌+◌, ◌≤◌, ◌<◌, ◌≡◌, refl, ap, sym, ◌∙◌, Bool, true, false, not, ◌||◌, Option, none,
  some, List, [], ◌∷◌, map, u64, ltb, leb, if◌then◌else◌, arith, Bool-cases, Option-cases, inl, inr,
  get_or, set, length, length-set, length-replicate,
}
use backendofcryptotradingbo.Gateways.Manager.{
  GatewaySlot, Gateway, GatewayManager, max_venues, new_slot, new, slot_at, register, start_loop,
  start_all, stop_one, stop_all, published, process_venue_data, trip_circuit_breaker,
  reset_circuit_breaker, update_venue_reliability,
}

abbrev pub count_active : List GatewaySlot → ℕ
count_active [] = 0
count_active (s ∷ slots) = (if s.active then 1 else 0) + count_active slots

count_active-set :
    (slots : List GatewaySlot) (i : ℕ) (s : GatewaySlot)
    → i < length slots
    → count_active (set slots i s) + (if (get_or slots i new_slot).active then 1 else 0)
      ≡ count_active slots + (if s.active then 1 else 0)
count_active-set [] i s h = elim h [ ]
count_active-set (t ∷ slots) zero s h = omega arith
count_active-set (t ∷ slots) (suc i) s h = omega (arith, count_active-set slots i s (omega arith))

count_active-le : (slots : List GatewaySlot) → count_active slots ≤ length slots
count_active-le [] = omega arith
count_active-le (s ∷ slots) = ground (arith, count_active-le slots)

module _ {G : Type 0} (ops : Gateway G) where
  abbrev pub is_present : Option G → Bool
  is_present none = false
  is_present (some gw) = true

  -- The active slots are those that have a gateway.
  abbrev pub Paired : List GatewaySlot → List (Option G) → Type 0
  Paired [] [] = Unit
  Paired (s ∷ slots) (g ∷ gateways) = (s.active ≡ is_present g) × Paired slots gateways
  Paired _ _ = ⊥

  pub record IsRegistered (m : GatewayManager G) : Type 0 where
    pub sized : length m.slots ≡ max_venues
    pub paired : Paired m.slots m.gateways
    pub counted : m.active_count ≡ count_active m.slots

  Paired-set :
      (slots : List GatewaySlot) (gateways : List (Option G)) (i : ℕ) (s : GatewaySlot)
      (g : Option G)
      → Paired slots gateways
      → s.active ≡ is_present g
      → Paired (set slots i s) (set gateways i g)
  Paired-set [] [] i s g p e = tt
  Paired-set (t ∷ slots) (h ∷ gateways) zero s g p e = (e, p.1)
  Paired-set (t ∷ slots) (h ∷ gateways) (suc i) s g p e =
      (p.0, Paired-set slots gateways i s g p.1 e)
  Paired-set [] (h ∷ gateways) i s g p e = absurd p
  Paired-set (t ∷ slots) [] i s g p e = absurd p

  Paired-slot :
      (slots : List GatewaySlot) (gateways : List (Option G)) (i : ℕ) (s : GatewaySlot)
      → Paired slots gateways
      → s.active ≡ (get_or slots i new_slot).active
      → Paired (set slots i s) gateways
  Paired-slot [] gateways i s p e = p
  Paired-slot (t ∷ slots) [] i s p e = absurd p
  Paired-slot (t ∷ slots) (h ∷ gateways) zero s p e = (e ∙ p.0, p.1)
  Paired-slot (t ∷ slots) (h ∷ gateways) (suc i) s p e = (p.0, Paired-slot slots gateways i s p.1 e)

  Paired-stop :
      (slots : List GatewaySlot) (gateways : List (Option G))
      → Paired slots gateways
      → Paired slots (map (stop_one ops) gateways)
  Paired-stop [] [] p = tt
  Paired-stop (s ∷ slots) (none ∷ gateways) p = (p.0, Paired-stop slots gateways p.1)
  Paired-stop (s ∷ slots) (some gw ∷ gateways) p = (p.0, Paired-stop slots gateways p.1)
  Paired-stop [] (h ∷ gateways) p = absurd p
  Paired-stop (t ∷ slots) [] p = absurd p

  -- Starting changes no slot's flag.
  start_loop-Paired :
      (slots : List GatewaySlot) (gateways : List (Option G))
      → Paired slots gateways
      → let (slots', gateways', _) = start_loop ops slots gateways in
        Paired slots' gateways'
        × (length slots' ≡ length slots)
        × (count_active slots' ≡ count_active slots)
  unfolding start_loop
  start_loop-Paired [] [] p = (tt, refl, refl)
  start_loop-Paired [] (h ∷ gateways) p = absurd p
  start_loop-Paired (s ∷ slots) [] p = absurd p
  start_loop-Paired (s ∷ slots) (none ∷ gateways) p =
      let (q, l, c) = start_loop-Paired slots gateways p.1 in ((p.0, q), ap suc l, omega (arith, c))
  start_loop-Paired (s ∷ slots) (some gw ∷ gateways) p =
      let (q, l, c) = start_loop-Paired slots gateways p.1 in
      elim (Option-cases (ops.start gw).1) [
        | inl e ↦ rw (e, start_loop, Paired) ((p.0, q), ap suc l, omega (arith, c))
        | inr (err, e) ↦ rw (e, start_loop, Paired) ((p.0, p.1), refl, refl)
      ]

  pub data Call : Type 0 where
    register_call : G → Call
    start_call : Call
    stop_call : Call
    venue_call : ℕ → List ℕ → Call
    trip_call : Call
    reset_call : Call
    score_call : ℕ → ℕ → Call

  -- A registration that would panic, and data whose processing never ends, leave the manager as it is.
  unfoldable pub execute : GatewayManager G → Call → GatewayManager G
  execute m (register_call gw) = elim (register ops m gw) [ none ↦ m | some m' ↦ m' ]
  execute m start_call = (start_all ops m).0
  execute m stop_call = stop_all ops m
  execute m (venue_call vid bytes) = elim (process_venue_data ops m vid bytes) [
    | none ↦ m
    | some (m', _) ↦ m'
  ]
  execute m trip_call = trip_circuit_breaker ops m
  execute m reset_call = reset_circuit_breaker ops m
  execute m (score_call vid score) = update_venue_reliability ops m vid score

  register-IsRegistered :
      (m : GatewayManager G) (gw : G) → IsRegistered m → IsRegistered (execute m (register_call gw))
  unfolding execute register
  register-IsRegistered m gw v =
      let vid : ℕ = ops.venue_id gw in
      let s = record (slot_at ops m vid) { active = true; state = 1 } in
      elim (Bool-cases (leb max_venues vid || (slot_at ops m vid).active)) [
        | inl refused ↦ rw (refused, register, execute) v
        | inr free ↦
            let bound : vid < max_venues = ground arith in
            let idle : (slot_at ops m vid).active ≡ false = ground arith in
            rw (free, register, execute)
              (record {
                sized = length-set m.slots vid s ∙ v.sized;
                paired = Paired-set m.slots m.gateways vid s (some gw) v.paired refl;
                counted = ground (
                  arith,
                  idle,
                  v.counted,
                  v.sized,
                  count_active-le m.slots,
                  count_active-set m.slots vid s (omega (arith, v.sized, bound)),
                );
              })
      ]

  -- A change of a slot that keeps its flag, where the gateways stay paired
  slot-IsRegistered :
      (m m' : GatewayManager G) (vid : ℕ) (s : GatewaySlot)
      → IsRegistered m
      → vid < max_venues
      → s.active ≡ (slot_at ops m vid).active
      → m'.slots ≡ set m.slots vid s
      → Paired (set m.slots vid s) m'.gateways
      → m'.active_count ≡ m.active_count
      → IsRegistered m'
  slot-IsRegistered m m' vid s v h flag slots p count = record {
    sized = rw slots (length-set m.slots vid s ∙ v.sized);
    paired = rw slots p;
    counted = rw slots (
        ground (
          arith,
          count,
          v.counted,
          flag,
          count_active-set m.slots vid s (omega (arith, v.sized, h)),
        ));
  }

  published-IsRegistered :
      (m : GatewayManager G) (vid : ℕ) (gw : G) (count : ℕ)
      → vid < max_venues
      → (slot_at ops m vid).active ≡ true
      → IsRegistered m
      → IsRegistered (published ops m vid gw count)
  published-IsRegistered m vid gw count bound on v =
      let s = record (slot_at ops m vid) {
        sequence = u64 ((slot_at ops m vid).sequence + count);
      } in
      slot-IsRegistered m _ vid s v bound refl refl
        (Paired-set m.slots m.gateways vid s (some gw) v.paired on) refl

  venue-IsRegistered :
      (m : GatewayManager G) (vid : ℕ) (bytes : List ℕ)
      → IsRegistered m
      → IsRegistered (execute m (venue_call vid bytes))
  unfolding execute process_venue_data
  venue-IsRegistered m vid bytes v =
      elim (Bool-cases
        (m.circuit_breaker || (leb max_venues vid || not (slot_at ops m vid).active))) [
          | inl out ↦ rw (out, process_venue_data, execute) v
          | inr within ↦ elim (Option-cases (get_or m.gateways vid none)) [
            | inl e ↦ rw (within, process_venue_data, execute) (rw (e, execute) v)
            | inr (gw, e) ↦ elim (Option-cases (ops.process_buffer gw bytes)) [
              | inl never ↦ rw (within, process_venue_data, execute, e, never) v
              | inr ((gw', count), done) ↦
                  rw (within, process_venue_data, execute, e, done)
                    (published-IsRegistered m vid gw' count (ground arith) (ground arith) v)
            ]
          ]
        ]

  score-IsRegistered :
      (m : GatewayManager G) (vid score : ℕ)
      → IsRegistered m
      → IsRegistered (update_venue_reliability ops m vid score)
  unfolding update_venue_reliability
  score-IsRegistered m vid score v =
      let s = record (slot_at ops m vid) { latency_score = score } in
      elim (Bool-cases (ltb vid max_venues)) [
        | inl within ↦
            rw (within, update_venue_reliability)
              (slot-IsRegistered m _ vid s v (ground arith) refl refl
                (Paired-slot m.slots m.gateways vid s v.paired refl) refl)
        | inr out ↦ rw (out, update_venue_reliability) v
      ]

  start-IsRegistered : (m : GatewayManager G) → IsRegistered m → IsRegistered (start_all ops m).0
  unfolding start_all
  start-IsRegistered m v =
      let (p, l, c) = start_loop-Paired m.slots m.gateways v.paired in
      elim (Bool-cases m.circuit_breaker) [
        | inl out ↦
            rw (out, start_all) (record { sized = v.sized; paired = v.paired; counted = v.counted })
        | inr within ↦
            rw (within, start_all)
              (record { sized = l ∙ v.sized; paired = p; counted = v.counted ∙ sym c })
      ]

  pub execute-IsRegistered :
      (m : GatewayManager G) (c : Call) → IsRegistered m → IsRegistered (execute m c)
  unfolding execute stop_all trip_circuit_breaker reset_circuit_breaker
  execute-IsRegistered m (register_call gw) v = register-IsRegistered m gw v
  execute-IsRegistered m start_call v = start-IsRegistered m v
  execute-IsRegistered m stop_call v = record {
    sized = v.sized;
    paired = Paired-stop m.slots m.gateways v.paired;
    counted = v.counted;
  }
  execute-IsRegistered m (venue_call vid bytes) v = venue-IsRegistered m vid bytes v
  execute-IsRegistered m trip_call v = record {
    sized = v.sized;
    paired = v.paired;
    counted = v.counted;
  }
  execute-IsRegistered m reset_call v = record {
    sized = v.sized;
    paired = v.paired;
    counted = v.counted;
  }
  execute-IsRegistered m (score_call vid score) v = score-IsRegistered m vid score v

  pub new-IsRegistered : IsRegistered (new ops)
  unfolding new
  new-IsRegistered = record {
    sized = length-replicate max_venues new_slot;
    paired = ground arith;
    counted = refl;
  }
