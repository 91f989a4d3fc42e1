-- ===== src/Recovery/SequenceTracker.antt =====
-- src/recovery/sequence_tracker.rs: the sequence numbers of each venue and the gaps in them. Numbers are
-- u64. `process` counts a gap in `venue.total_gaps`, which is no field of a venue; the tracker's field
-- of that name is taken.
pub mod Gaps
use backendofcryptotradingbo.Base.{
  ℕ, ◌+◌, ◌-◌, ◌^◌, Bool, true, false, ◌&&◌, Option, none, some, List, u64, ltb, leb, ◌==◌,
  if◌then◌else◌, get_or, set, replicate,
}

abbrev pub max_venues : ℕ
max_venues = 16

pub record VenueSequence : Type 0 where
  pub last_seq : ℕ
  pub expected_seq : ℕ
  pub gap_count : ℕ
  pub has_gap : Bool
  pub gap_start : ℕ

abbrev pub init_venue : VenueSequence
init_venue = record {
  last_seq = 0;
  expected_seq = 1;
  gap_count = 0;
  has_gap = false;
  gap_start = 0;
}

pub record SequenceTracker : Type 0 where
  pub venues : List VenueSequence  -- 16 of them
  pub total_messages : ℕ
  pub total_gaps : ℕ

abbrev pub new : SequenceTracker
new = record { venues = replicate max_venues init_venue; total_messages = 0; total_gaps = 0 }

abbrev pub venue_at : SequenceTracker → ℕ → VenueSequence
venue_at t idx = get_or t.venues idx init_venue

-- The change of the venue in `process`, and its answer
unfoldable pub process_venue : VenueSequence → ℕ → VenueSequence × Bool
process_venue v seq =
    if seq == v.expected_seq
    then (
      record v {
        last_seq = seq;
        expected_seq = u64 (seq + 1);
        has_gap = if v.has_gap && leb v.gap_start seq then false else v.has_gap;
      },
      false,
    )
    else if ltb v.expected_seq seq
    then (
      record v {
        last_seq = seq;
        expected_seq = u64 (seq + 1);
        gap_count = u64 (v.gap_count + 1);
        has_gap = true;
        gap_start = v.expected_seq;
      },
      true,
    )
    else (v, false)

unfoldable pub process : SequenceTracker → ℕ → ℕ → SequenceTracker × Bool
process t venue_id seq =
    let (v, gap) = process_venue (venue_at t venue_id) seq in
    if leb max_venues venue_id then (t, false) else (
      record t {
        venues = set t.venues venue_id v;
        total_messages = u64 (t.total_messages + 1);
        total_gaps = if gap then u64 (t.total_gaps + 1) else t.total_gaps;
      },
      gap,
    )

unfoldable pub has_gap : SequenceTracker → ℕ → Bool
has_gap t venue_id = if leb max_venues venue_id then false else (venue_at t venue_id).has_gap

unfoldable pub get_gap_info : SequenceTracker → ℕ → Option (ℕ × ℕ)
get_gap_info t venue_id =
    let v = venue_at t venue_id in
    if leb max_venues venue_id
    then none
    else if v.has_gap
    then some (v.gap_start, u64 (v.expected_seq + 2 ^ 64 - 1))
    else none

unfoldable pub clear_gap : SequenceTracker → ℕ → SequenceTracker
clear_gap t venue_id =
    if ltb venue_id max_venues
    then record t {
      venues = set t.venues venue_id (record (venue_at t venue_id) { has_gap = false });
    }
    else t
