-- ===== src/Recovery/Examples.antt =====
-- Concrete messages and calls (src/recovery/), on which the theorems are applied.
use backendofcryptotradingbo.Base.{ℕ, ◌<◌, ◌↔◌, refl, List, [], ◌∷◌, arith}
use backendofcryptotradingbo.Recovery.SequenceTracker
use backendofcryptotradingbo.Recovery.SequenceTracker.{
  max_venues, init_venue, venue_at, process_venue, process, has_gap, get_gap_info,
}
use backendofcryptotradingbo.Recovery.SequenceTracker.Gaps.{run, Received, no_gap_lem}
use backendofcryptotradingbo.Recovery.BookResync.{new_snapshot}
use backendofcryptotradingbo.Recovery.BookResync.Attempts.{
  Call, start_call, apply_call, cancel_call,
}

-- Venues 0 and 3 in turn; venue 3 sends 2 twice.
abbrev messages : List (ℕ × ℕ)
messages = (0, 1) ∷ (3, 1) ∷ (3, 2) ∷ (0, 9) ∷ (3, 2) ∷ []

no_gap_lem_example :
    Received 3 2 messages ↔ (2 < (venue_at (run SequenceTracker.new messages) 3).expected_seq)
unfolding process process_venue
no_gap_lem_example = no_gap_lem messages 3 2 (omega arith) (ground arith) refl (omega arith)

abbrev calls : List Call
calls = start_call 40 ∷ start_call 41 ∷ apply_call new_snapshot ∷ start_call 50 ∷ cancel_call ∷ []
