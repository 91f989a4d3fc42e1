-- ===== src/Recovery/BookResync.antt =====
-- src/recovery/book_resync.rs: the states of the resynchronisation of a book with a snapshot. Numbers are
-- u64; the state is the number of a `ResyncState`. `apply_snapshot` does not read or change the
-- normalized book that it is given, so the book is left out.
pub mod Attempts
use backendofcryptotradingbo.Base.{
  ℕ, ◌+◌, ◌^◌, Bool, true, false, List, u64, ◌==◌, if◌then◌else◌, replicate,
}
use backendofcryptotradingbo.Base.Int.{ℤ, pos}

abbrev pub max_levels : ℕ
max_levels = 256

pub record BookSnapshot : Type 0 where
  pub symbol_id : ℕ  -- u32
  pub sequence : ℕ
  pub timestamp_ns : ℕ
  pub bid_count : ℕ  -- u8
  pub ask_count : ℕ  -- u8
  pub bids : List (ℤ × ℤ)  -- 256 of them
  pub asks : List (ℤ × ℤ)  -- 256 of them

abbrev pub new_snapshot : BookSnapshot
new_snapshot = record {
  symbol_id = 0;
  sequence = 0;
  timestamp_ns = 0;
  bid_count = 0;
  ask_count = 0;
  bids = replicate max_levels (pos 0, pos 0);
  asks = replicate max_levels (pos 0, pos 0);
}

pub data ResyncState : Type 0 where
  idle fetching_snapshot applying_snapshot validating complete failed : ResyncState

-- `state as usize`
abbrev pub state_usize : ResyncState → ℕ
state_usize idle = 0
state_usize fetching_snapshot = 1
state_usize applying_snapshot = 2
state_usize validating = 3
state_usize complete = 4
state_usize failed = 5

pub record BookResyncManager : Type 0 where
  pub state : ℕ
  pub in_progress : Bool
  pub target_sequence : ℕ
  pub last_sync_seq : ℕ
  pub attempt_count : ℕ
  pub success_count : ℕ

unfoldable pub new : BookResyncManager
new = record {
  state = state_usize idle;
  in_progress = false;
  target_sequence = 0;
  last_sync_seq = 0;
  attempt_count = 0;
  success_count = 0;
}

unfoldable pub start_resync : BookResyncManager → ℕ → BookResyncManager × Bool
start_resync m target_seq = if m.in_progress then (m, false) else (
  record m {
    target_sequence = target_seq;
    in_progress = true;
    state = state_usize fetching_snapshot;
    attempt_count = u64 (m.attempt_count + 1);
  },
  true,
)

-- The state passes through `applying_snapshot` and `validating`.
unfoldable pub apply_snapshot : BookResyncManager → BookSnapshot → BookResyncManager × Bool
apply_snapshot m snapshot =
    if m.in_progress
    then (
      record m {
        state = state_usize complete;
        last_sync_seq = snapshot.sequence;
        success_count = u64 (m.success_count + 1);
        in_progress = false;
      },
      true,
    )
    else (m, false)

unfoldable pub cancel_resync : BookResyncManager → BookResyncManager
cancel_resync m = record m { in_progress = false; state = state_usize idle }

unfoldable pub get_state : BookResyncManager → ResyncState
get_state m =
    if m.state == 0
    then idle
    else if m.state == 1
    then fetching_snapshot
    else if m.state == 2
    then applying_snapshot
    else if m.state == 3
    then validating
    else if m.state == 4
    then complete
    else if m.state == 5
    then failed
    else idle

abbrev pub is_in_progress : BookResyncManager → Bool
is_in_progress m = m.in_progress
