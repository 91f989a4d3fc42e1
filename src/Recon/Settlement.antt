-- ===== src/Recon/Settlement.antt =====
-- src/recon/settlement_tracker.rs: the confirmations and the finality of on-chain transactions, and
-- settlement batches. Numbers are u64 unless a comment says otherwise; the clock is `now`. A slot
-- whose hash is 0 is free.
pub mod Finality
pub mod Register
pub mod Confirmations
pub mod State
use Prim.Native.Nat.{min}
use backendofcryptotradingbo.Base.{
  ℕ, suc, ◌+◌, Bool, true, false, ◌&&◌, Option, none, some, List, [], ◌∷◌, u64, ltb, leb, ◌==◌,
  if◌then◌else◌, get_or, set, replicate,
}
unfoldable pub use State.*

unfoldable pub new : SettlementTracker
new = record {
  transactions = replicate max_transactions empty_tx;
  num_active = 0;
  batches = replicate 256 new_batch;
  chain_confirmations = replicate 16 0;
  finality_threshold = 6;
}

unfoldable pub set_chain_confirmations : SettlementTracker → ℕ → ℕ → SettlementTracker
set_chain_confirmations t chain_id confirmations =
    if ltb chain_id 16
    then record t { chain_confirmations = set t.chain_confirmations chain_id confirmations }
    else t

-- The search of `register_transaction` for an empty slot
unfoldable pub find_free : List TransactionRecord → Option ℕ
find_free [] = none
find_free (tx ∷ txs) =
    if is_used tx then elim (find_free txs) [ none ↦ none | some i ↦ some (suc i) ] else some 0

abbrev pub required_for : SettlementTracker → ℕ → ℕ
required_for t chain_id =
    if ltb chain_id 16 then get_or t.chain_confirmations chain_id 0 else t.finality_threshold

unfoldable pub new_tx : SettlementTracker → ℕ → ℕ → ℕ → ℕ → TxType → ℕ → TransactionRecord
new_tx t low high chain_id amount kind now = record {
  tx_hash_low = low;
  tx_hash_high = high;
  chain_id = chain_id;
  block_number = 0;
  confirmations = 0;
  amount = amount;
  timestamp = now;
  status = status_u64 submitted;
  tx_type = type_u8 kind;
  required_confirmations = min (required_for t chain_id) 255;
}

unfoldable pub register_transaction :
    SettlementTracker → ℕ → ℕ → ℕ → ℕ → TxType → ℕ → SettlementTracker × Option ℕ
unfolding new_tx
register_transaction t low high chain_id amount kind now = elim (find_free t.transactions) [
  | none ↦ (t, none)
  | some idx ↦ (
    record t {
      transactions = set t.transactions idx (new_tx t low high chain_id amount kind now);
      num_active = u64 (t.num_active + 1);
    },
    some idx,
  )
]

abbrev pub is_final : TxStatus → Bool
is_final finalized = true
is_final _ = false

abbrev is_submitted : TxStatus → Bool
is_submitted submitted = true
is_submitted _ = false

-- `update_confirmations` at the record
unfoldable pub confirm : TransactionRecord → ℕ → ℕ → TransactionRecord
confirm tx block_number confirmations =
    let tx' = record tx { block_number = block_number; confirmations = confirmations } in
    if leb tx.required_confirmations confirmations
    then if is_final (get_status tx) then tx' else record tx' { status = status_u64 finalized }
    else if ltb 0 confirmations && is_submitted (get_status tx)
    then record tx' { status = status_u64 confirmed }
    else tx'

abbrev pub tx_at : SettlementTracker → ℕ → TransactionRecord
tx_at t idx = get_or t.transactions idx empty_tx

unfoldable pub update_confirmations : SettlementTracker → ℕ → ℕ → ℕ → SettlementTracker
unfolding confirm
update_confirmations t idx block_number confirmations =
    if leb max_transactions idx then t else record t {
      transactions = set t.transactions idx (confirm (tx_at t idx) block_number confirmations);
    }

unfoldable pub mark_failed : SettlementTracker → ℕ → SettlementTracker
mark_failed t idx = if leb max_transactions idx then t else record t {
  transactions = set t.transactions idx (record (tx_at t idx) { status = status_u64 failed });
}

unfoldable pub get_transaction : SettlementTracker → ℕ → Option TransactionRecord
get_transaction t idx =
    if leb max_transactions idx
    then none
    else if is_used (tx_at t idx)
    then some (tx_at t idx)
    else none

-- `SettlementTracker::is_finalized`
unfoldable pub is_finalized : SettlementTracker → ℕ → Bool
unfolding get_transaction
is_finalized t idx = elim (get_transaction t idx) [ none ↦ false | some tx ↦ tx_is_finalized tx ]

abbrev is_waiting : TxStatus → Bool
is_waiting pending = true
is_waiting submitted = true
is_waiting confirmed = true
is_waiting _ = false

count_if : (TransactionRecord → Bool) → List TransactionRecord → ℕ
count_if p [] = 0
count_if p (tx ∷ txs) = if p tx then count_if p txs + 1 else count_if p txs

unfoldable pub get_pending_count : SettlementTracker → ℕ
unfolding count_if
get_pending_count t = count_if (λ tx. is_used tx && is_waiting (get_status tx)) t.transactions

unfoldable pub get_finalized_count : SettlementTracker → ℕ
unfolding count_if
get_finalized_count t = count_if (λ tx. is_used tx && is_final (get_status tx)) t.transactions

-- The loop of `create_batch`: the first free slot is taken.
pub create_in : List SettlementBatch → ℕ → ℕ → List SettlementBatch × Bool
create_in [] batch_id total_amount = ([], false)
create_in (b ∷ bs) batch_id total_amount =
    let (bs', done) = create_in bs batch_id total_amount in
    if b.batch_id == 0
    then (
      record b {
        batch_id = batch_id;
        total_amount = total_amount;
        batch_status = settlement_u64 in_progress;
      }
          ∷ bs,
      true,
    )
    else (b ∷ bs', done)

unfoldable pub create_batch : SettlementTracker → ℕ → ℕ → SettlementTracker × Bool
unfolding create_in
create_batch t batch_id total_amount =
    let (bs, done) = create_in t.batches batch_id total_amount in (record t { batches = bs }, done)

-- The loop of `update_batch_progress`: the first batch with the id is updated.
pub progress_in : List SettlementBatch → ℕ → ℕ → ℕ → List SettlementBatch
progress_in [] batch_id done total = []
progress_in (b ∷ bs) batch_id done total =
    let bs' = progress_in bs batch_id done total in
    if b.batch_id == batch_id
    then record b {
      completed_count = done;
      tx_count = total;
      batch_status = if leb total done then settlement_u64 completed else b.batch_status;
    }
      ∷ bs
    else b ∷ bs'

unfoldable pub update_batch_progress : SettlementTracker → ℕ → ℕ → ℕ → SettlementTracker
unfolding progress_in
update_batch_progress t batch_id done total = record t {
  batches = progress_in t.batches batch_id done total;
}

unfoldable pub reset_all : SettlementTracker → SettlementTracker
reset_all t = record t { transactions = replicate max_transactions empty_tx; num_active = 0 }

abbrev pub num_active_transactions : SettlementTracker → ℕ
num_active_transactions t = t.num_active
