-- ===== src/Recovery/BookResync/Attempts.antt =====
-- The attempts of src/recovery/book_resync.rs, started, completed and cancelled in any order.
use backendofcryptotradingbo.Base.{
  ℕ, ◌+◌, ◌^◌, ◌≤◌, ◌<◌, ◌≡◌, ◌≢◌, true, false, List, [], ◌∷◌, if◌then◌else◌, length, arith,
}
use backendofcryptotradingbo.Recovery.BookResync.{
  BookSnapshot, fetching_snapshot, BookResyncManager, new, start_resync, apply_snapshot,
  cancel_resync, get_state,
}

pub data Call : Type 0 where
  start_call : ℕ → Call
  apply_call : BookSnapshot → Call
  cancel_call : Call

unfoldable pub execute : BookResyncManager → Call → BookResyncManager
execute m (start_call target_seq) = (start_resync m target_seq).0
execute m (apply_call snapshot) = (apply_snapshot m snapshot).0
execute m cancel_call = cancel_resync m

unfoldable pub run : BookResyncManager → List Call → BookResyncManager
run m [] = m
run m (c ∷ cs) = run (execute m c) cs

pub record IsTracked (m : BookResyncManager) : Type 0 where
  pub fetching : m.in_progress ≡ true → get_state m ≡ fetching_snapshot
  pub resting : m.in_progress ≡ false → m.state ≢ 1
  pub counted : m.success_count + (if m.in_progress then 1 else 0) ≤ m.attempt_count

execute-IsTracked :
    (m : BookResyncManager) (c : Call)
    → m.attempt_count + 1 < 2 ^ 64
    → IsTracked m
    → IsTracked (execute m c) × ((execute m c).attempt_count ≤ m.attempt_count + 1)
unfolding execute start_resync apply_snapshot cancel_resync get_state
execute-IsTracked m (start_call target_seq) h t = ground arith
execute-IsTracked m (apply_call snapshot) h t = ground arith
execute-IsTracked m cancel_call h t = ground arith

-- From a tracked manager, after any calls in any order, so few that the attempts stay below 2 ^ 64:
-- the state is fetching exactly while a resynchronisation is in progress, and the successes and the
-- attempt in progress are together at most the attempts.
pub run-IsTracked :
    (m : BookResyncManager) (cs : List Call)
    → m.attempt_count + length cs < 2 ^ 64
    → IsTracked m
    → IsTracked (run m cs)
unfolding run
run-IsTracked m [] h t = t
run-IsTracked m (c ∷ cs) h t =
    let (t', le) = execute-IsTracked m c (omega arith) t in
    run-IsTracked (execute m c) cs (omega (arith, le)) t'

pub new-IsTracked : IsTracked new
unfolding new get_state
new-IsTracked = ground arith
