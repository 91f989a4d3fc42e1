-- ===== src/Recovery/SequenceTracker/Gaps.antt =====
-- The gaps that src/recovery/sequence_tracker.rs reports, and the messages that were received.
use backendofcryptotradingbo.Base.{
  ℕ, ◌+◌, ◌^◌, ◌≤◌, ◌<◌, ◌≡◌, ◌≢◌, ◌⊎◌, inl, inr, Bool, true, false, ◌&&◌, ◌||◌, some, List, [],
  ◌∷◌, ◌==◌, if◌then◌else◌, ◌↔◌, ap, length-replicate, get_or-replicate, length, length-set,
  get_or-set_self, get_or-set_ne, arith, Bool-cases,
}
use backendofcryptotradingbo.Recovery.SequenceTracker.{
  VenueSequence, SequenceTracker, max_venues, init_venue, new, venue_at, process_venue, process,
  has_gap, get_gap_info,
}

-- The messages of all venues in the order of their arrival: a venue and a sequence number
abbrev pub run : SequenceTracker → List (ℕ × ℕ) → SequenceTracker
run t [] = t
run t ((venue, seq) ∷ ms) = run (process t venue seq).0 ms

-- Whether a gap was reported for venue `v`
abbrev pub reported : ℕ → SequenceTracker → List (ℕ × ℕ) → Bool
reported v t [] = false
reported v t ((venue, seq) ∷ ms) =
    ((venue == v) && (process t venue seq).1) || reported v (process t venue seq).0 ms

abbrev pub Received : ℕ → ℕ → List (ℕ × ℕ) → Type 0
Received v n [] = ⊥
Received v n ((venue, seq) ∷ ms) = (venue ≡ v) × (seq ≡ n) ⊎ Received v n ms

-- Sequence numbers whose successor is a u64
abbrev pub AllSmall : List (ℕ × ℕ) → Type 0
AllSmall [] = Unit
AllSmall ((venue, seq) ∷ ms) = (seq + 1 < 2 ^ 64) × AllSmall ms

process-venue :
    (t : SequenceTracker) (venue seq v : ℕ)
    → length t.venues ≡ max_venues
    → v < max_venues
    → let t' = (process t venue seq).0 in
      (length t'.venues ≡ max_venues)
      × (venue_at t' v
          ≡ (if venue == v then (process_venue (venue_at t v) seq).0 else venue_at t v))
      × (venue ≡ v → (process t venue seq).1 ≡ (process_venue (venue_at t v) seq).1)
unfolding process
process-venue t venue seq v l h =
    let w = (process_venue (venue_at t venue) seq).0 in
    elim (Bool-cases (venue == v)) [
      | inl same ↦
          let here : venue ≡ v = ground arith in
          ground (arith, here, length-set t.venues venue w, get_or-set_self t.venues v w init_venue)
      | inr other ↦
          ground (arith, length-set t.venues venue w, get_or-set_ne t.venues venue v w init_venue)
    ]

run-slots :
    (t : SequenceTracker) (ms : List (ℕ × ℕ))
    → length t.venues ≡ max_venues
    → length (run t ms).venues ≡ max_venues
run-slots t [] l = l
run-slots t ((venue, seq) ∷ ms) l =
    run-slots (process t venue seq).0 ms (process-venue t venue seq 0 l (omega arith)).0

process_venue_lem :
    (v : VenueSequence) (seq : ℕ)
    → seq + 1 < 2 ^ 64
    → let (v', gap) = process_venue v seq in
      (seq ≡ v.expected_seq) × (gap ≡ false) × (v'.expected_seq ≡ seq + 1)
      ⊎ (v.expected_seq < seq) × (gap ≡ true) × (v'.expected_seq ≡ seq + 1)
      ⊎ (seq < v.expected_seq) × (gap ≡ false) × (v'.expected_seq ≡ v.expected_seq)
unfolding process_venue
process_venue_lem v seq small = ground arith

-- What a message does to the expected number of venue `v`.
abbrev Step : ℕ → ℕ → ℕ → ℕ → ℕ → Bool → Type 0
Step venue v seq e e' gap =
    (venue ≢ v) × (e' ≡ e)
    ⊎ (venue ≡ v) × (seq ≡ e) × (gap ≡ false) × (e' ≡ seq + 1)
    ⊎ (venue ≡ v) × (e < seq) × (gap ≡ true) × (e' ≡ seq + 1)
    ⊎ (venue ≡ v) × (seq < e) × (gap ≡ false) × (e' ≡ e)

process-Step :
    (t : SequenceTracker) (venue seq v : ℕ)
    → length t.venues ≡ max_venues
    → v < max_venues
    → seq + 1 < 2 ^ 64
    → Step venue v seq
        (venue_at t v).expected_seq
        (venue_at (process t venue seq).0 v).expected_seq
        (process t venue seq).1
process-Step t venue seq v l h small =
    let (_, at_v, answer) = process-venue t venue seq v l h in
    ground (arith, at_v, answer, process_venue_lem (venue_at t v) seq small)

-- Where no gap is reported for a venue, every number from the expected one before to the one
-- after, exclusive, was received.
expected-Received :
    (t : SequenceTracker) (ms : List (ℕ × ℕ)) (v n : ℕ)
    → length t.venues ≡ max_venues
    → v < max_venues
    → AllSmall ms
    → reported v t ms ≡ false
    → (venue_at t v).expected_seq ≤ n
    → n < (venue_at (run t ms) v).expected_seq
    → Received v n ms
expected-Received t [] v n l h small quiet low high = absurd (omega arith)
expected-Received t ((venue, seq) ∷ ms) v n l h small quiet low high =
    let t' = (process t venue seq).0 in
    let (l', _, _) = process-venue t venue seq v l h in
    let step = process-Step t venue seq v l h small.0 in
    let rest = expected-Received t' ms v n l' h small.1 in
    ground (arith, quiet, step, rest, low, high)

expected-le :
    (t : SequenceTracker) (ms : List (ℕ × ℕ)) (v : ℕ)
    → length t.venues ≡ max_venues
    → v < max_venues
    → AllSmall ms
    → (venue_at t v).expected_seq ≤ (venue_at (run t ms) v).expected_seq
expected-le t [] v l h small = omega arith
expected-le t ((venue, seq) ∷ ms) v l h small =
    let (l', _, _) = process-venue t venue seq v l h in
    let step = process-Step t venue seq v l h small.0 in
    let rest = expected-le (process t venue seq).0 ms v l' h small.1 in ground (arith, step, rest)

-- Every number received is below the one expected next.
Received-below :
    (t : SequenceTracker) (ms : List (ℕ × ℕ)) (v n : ℕ)
    → length t.venues ≡ max_venues
    → v < max_venues
    → AllSmall ms
    → Received v n ms
    → n < (venue_at (run t ms) v).expected_seq
Received-below t [] v n l h small r = absurd r
Received-below t ((venue, seq) ∷ ms) v n l h small r =
    let (l', _, _) = process-venue t venue seq v l h in
    let step = process-Step t venue seq v l h small.0 in
    let rest = Received-below (process t venue seq).0 ms v n l' h small.1 in
    let more = expected-le (process t venue seq).0 ms v l' h small.1 in
    ground (arith, step, rest, more, r)

-- In a new tracker, with any messages of any venues in any order whose numbers are below 2 ^ 64 - 1:
-- while no gap was reported for a venue, the numbers from 1 on that were received from it are
-- exactly those below the number that is expected next.
pub no_gap_lem :
    (ms : List (ℕ × ℕ)) (v n : ℕ)
    → v < max_venues
    → AllSmall ms
    → reported v new ms ≡ false
    → 1 ≤ n
    → Received v n ms ↔ (n < (venue_at (run new ms) v).expected_seq)
no_gap_lem ms v n h small quiet pos =
    let l = length-replicate max_venues init_venue in
    let first : (venue_at new v).expected_seq ≡ 1 =
      ap (λ w. w.expected_seq) (get_or-replicate max_venues init_venue v) in
    (
      (λ r. Received-below new ms v n l h small r),
      (λ below. expected-Received new ms v n l h small quiet (omega (arith, first)) below),
    )

late_venue :
    (v : VenueSequence) (seq : ℕ)
    → v.expected_seq < seq
    → seq + 1 < 2 ^ 64
    → let v' = (process_venue v seq).0 in
      (v'.has_gap ≡ true) × (v'.gap_start ≡ v.expected_seq) × (v'.expected_seq ≡ seq + 1)
unfolding process_venue
late_venue v seq late small = ground arith

-- After any such messages to a new tracker: a gap that `process` reports for a venue starts at a
-- number that was not received from it, ends at the message itself, and is what `get_gap_info` answers.
pub gap_lem :
    (ms : List (ℕ × ℕ)) (v seq : ℕ)
    → v < max_venues
    → AllSmall ms
    → seq + 1 < 2 ^ 64
    → (process (run new ms) v seq).1 ≡ true
    → (start : ℕ) × (get_gap_info (process (run new ms) v seq).0 v ≡ some (start, seq))
      × (start < seq)
      × (Received v start ms → ⊥)
unfolding get_gap_info
gap_lem ms v seq h small s gap =
    let l = run-slots new ms (length-replicate max_venues init_venue) in
    let t = run new ms in
    let (_, at_v, answer) = process-venue t v seq v l h in
    let never : Received v (venue_at t v).expected_seq ms → ⊥ = λ r. omega (
      arith,
      Received-below new ms v (venue_at t v).expected_seq (length-replicate max_venues init_venue) h
          small r,
    ) in
    let late : (venue_at t v).expected_seq < seq =
      ground (arith, process-Step t v seq v l h s, gap) in
    let (flag, start, next) = late_venue (venue_at t v) seq late s in
    ((venue_at t v).expected_seq, ground (arith, at_v, flag, start, next), late, never)

-- A reported gap is forgotten with the next message in order, though no number in the gap arrives.
pub forgotten_gap :
    (t : SequenceTracker) (v seq : ℕ)
    → length t.venues ≡ max_venues
    → v < max_venues
    → (venue_at t v).expected_seq < seq
    → seq + 1 < 2 ^ 64
    → let t' = (process t v seq).0 in
      (has_gap t' v ≡ true) × (has_gap (process t' v (seq + 1)).0 v ≡ false)
unfolding has_gap process_venue
forgotten_gap t v seq l h late small =
    let (l', at_v, _) = process-venue t v seq v l h in
    let (_, at_v', _) = process-venue (process t v seq).0 v (seq + 1) v l' h in
    ground (arith, at_v, at_v')
