-- ===== src/Risk/PreTradeBus/Queue.antt =====
-- The queue of approved requests in src/risk/pre_trade_bus.rs: one slot stays free, so it holds 4095.
use backendofcryptotradingbo.Base.{
  ℕ, suc, zero, ◌+◌, ◌-◌, ◌%◌, ◌<◌, ◌≡◌, inl, inr, none, some, u64, ltb, ◌==◌, arith, if◌then◌else◌,
  get_or, length, length-set, Bool-cases,
}
use backendofcryptotradingbo.Base.Bits.{bit_and_4095}
use backendofcryptotradingbo.Risk.PreTradeBus.{
  RiskCheckRequest, RiskCheckQueue, empty_request, next_slot, push, pop, process_pending,
}

pub record QueueIsValid (q : RiskCheckQueue) : Type 0 where
  pub slots : length q.buffer ≡ 4096
  pub head_in : q.head < 4096
  pub tail_in : q.tail < 4096

-- The number of requests that wait.
abbrev pub pending : RiskCheckQueue → ℕ
pending q = (q.tail + 4096 - q.head) % 4096

next_slot_lem : (i : ℕ) → i < 4096 → next_slot i ≡ (i + 1) % 4096
next_slot_lem i h = omega (arith, bit_and_4095 (u64 (i + 1)))

-- A push is accepted exactly while fewer than 4095 requests wait, and then one more waits; a refused
-- push changes nothing. A pop gives a request exactly when one waits, and then one fewer waits.
pub queue_lem :
    (q : RiskCheckQueue) (req : RiskCheckRequest)
    → QueueIsValid q
    → QueueIsValid (push q req).0
      × QueueIsValid (pop q).0
      × ((push q req).1 ≡ ltb (pending q) 4095)
      × (pending (push q req).0 ≡ (if ltb (pending q) 4095 then pending q + 1 else pending q))
      × (pending (pop q).0 ≡ pending q - 1)
      × ((pop q).1 ≡ (if pending q == 0 then none else some (get_or q.buffer q.head empty_request)))
unfolding push pop
queue_lem q req v =
    let t = next_slot_lem q.tail v.tail_in in
    let h = next_slot_lem q.head v.head_in in
    (
      ground (arith, length-set q.buffer q.tail req, t),
      ground (arith, h),
      ground (arith, t),
      ground (arith, t),
      ground (arith, h),
      ground (arith, h),
    )

-- With more fuel than requests wait, `process_pending` ends: it counts every waiting request and
-- leaves the queue empty.
pub process_pending_lem :
    (fuel : ℕ) (q : RiskCheckQueue)
    → QueueIsValid q
    → pending q < fuel
    → (q' : RiskCheckQueue) × (process_pending fuel q ≡ some (q', pending q))
      × (pending q' ≡ 0)
      × QueueIsValid q'
unfolding process_pending
process_pending_lem zero q v h = elim h [ ]
process_pending_lem (suc fuel) q v h =
    let (_, valid, _, _, fewer, got) = queue_lem q empty_request v in
    elim (Bool-cases (pending q == 0)) [
      | inl done ↦ (q, ground arith, ground arith, v)
      | inr more ↦
          let (q', runs, empty, v') = process_pending_lem fuel (pop q).0 valid (ground arith) in
          (q', ground arith, empty, v')
    ]
