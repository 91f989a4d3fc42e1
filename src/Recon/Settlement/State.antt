-- ===== src/Recon/Settlement/State.antt =====
-- src/recon/settlement_tracker.rs: transactions, batches and the state of the tracker.
use backendofcryptotradingbo.Base.{ℕ, Bool, not, ◌||◌, List, leb, ◌==◌, if◌then◌else◌}

abbrev pub max_transactions : ℕ
max_transactions = 1024

pub data TxStatus : Type 0 where
  pending submitted confirmed finalized failed replaced : TxStatus

-- `status as u64`
abbrev pub status_u64 : TxStatus → ℕ
status_u64 pending = 0
status_u64 submitted = 1
status_u64 confirmed = 2
status_u64 finalized = 3
status_u64 failed = 4
status_u64 replaced = 5

pub data TxType : Type 0 where
  deposit withdrawal bridge transfer settlement : TxType

abbrev pub type_u8 : TxType → ℕ
type_u8 deposit = 0
type_u8 withdrawal = 1
type_u8 bridge = 2
type_u8 transfer = 3
type_u8 settlement = 4

pub data SettlementStatus : Type 0 where
  not_started in_progress completed batch_failed : SettlementStatus

abbrev pub settlement_u64 : SettlementStatus → ℕ
settlement_u64 not_started = 0
settlement_u64 in_progress = 1
settlement_u64 completed = 2
settlement_u64 batch_failed = 3

pub record TransactionRecord : Type 0 where
  pub tx_hash_low : ℕ
  pub tx_hash_high : ℕ
  pub chain_id : ℕ
  pub block_number : ℕ
  pub confirmations : ℕ
  pub amount : ℕ
  pub timestamp : ℕ
  pub status : ℕ
  pub tx_type : ℕ  -- u8
  pub required_confirmations : ℕ  -- u8

abbrev pub empty_tx : TransactionRecord
empty_tx = record {
  tx_hash_low = 0;
  tx_hash_high = 0;
  chain_id = 0;
  block_number = 0;
  confirmations = 0;
  amount = 0;
  timestamp = 0;
  status = status_u64 pending;
  tx_type = 0;
  required_confirmations = 6;
}

-- The `match` of `get_status`
abbrev pub status_of : ℕ → TxStatus
status_of n =
    if n == 0
    then pending
    else if n == 1
    then submitted
    else if n == 2
    then confirmed
    else if n == 3
    then finalized
    else if n == 4
    then failed
    else if n == 5
    then replaced
    else pending

abbrev pub get_status : TransactionRecord → TxStatus
get_status tx = status_of tx.status

-- `TransactionRecord::is_finalized`
abbrev pub tx_is_finalized : TransactionRecord → Bool
tx_is_finalized tx = leb tx.required_confirmations tx.confirmations

abbrev pub is_used : TransactionRecord → Bool
is_used tx = not (tx.tx_hash_low == 0) || not (tx.tx_hash_high == 0)

pub record SettlementBatch : Type 0 where
  pub batch_id : ℕ
  pub total_amount : ℕ
  pub tx_count : ℕ
  pub completed_count : ℕ
  pub batch_status : ℕ

abbrev pub new_batch : SettlementBatch
new_batch = record {
  batch_id = 0;
  total_amount = 0;
  tx_count = 0;
  completed_count = 0;
  batch_status = settlement_u64 not_started;
}

pub record SettlementTracker : Type 0 where
  pub transactions : List TransactionRecord  -- 1024 of them
  pub num_active : ℕ
  pub batches : List SettlementBatch  -- 256 of them
  pub chain_confirmations : List ℕ  -- 16 of them
  pub finality_threshold : ℕ
