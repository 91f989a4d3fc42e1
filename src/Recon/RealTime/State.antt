-- ===== src/Recon/RealTime/State.antt =====
-- src/recon/real_time_recon.rs: balances, trades, results and the state of the reconciliation.
use backendofcryptotradingbo.Base.{ℕ, Bool, false, List}
use backendofcryptotradingbo.Base.Int.{ℤ, pos}

abbrev pub max_instruments : ℕ
max_instruments = 256

abbrev pub max_pending : ℕ
max_pending = 1024

pub data ReconStatus : Type 0 where
  matched discrepancy pending circuit_breaker : ReconStatus

pub record BalanceRecord : Type 0 where
  pub internal_balance : ℤ
  pub exchange_balance : ℤ
  pub last_recon_time : ℕ
  pub discrepancy_count : ℕ  -- u32

abbrev pub new_balance : BalanceRecord
new_balance = record {
  internal_balance = pos 0;
  exchange_balance = pos 0;
  last_recon_time = 0;
  discrepancy_count = 0;
}

pub record TradeRecord : Type 0 where
  pub trade_id : ℕ
  pub order_id : ℕ
  pub instrument_id : ℕ  -- u16
  pub side : ℕ  -- u8
  pub quantity : ℕ
  pub price : ℕ
  pub fee : ℕ
  pub timestamp : ℕ
  pub confirmed : Bool

abbrev pub empty_trade : TradeRecord
empty_trade = record {
  trade_id = 0;
  order_id = 0;
  instrument_id = 0;
  side = 0;
  quantity = 0;
  price = 0;
  fee = 0;
  timestamp = 0;
  confirmed = false;
}

pub record ReconResult : Type 0 where
  pub status : ReconStatus
  pub instrument_id : ℕ  -- u16
  pub internal_balance : ℤ
  pub exchange_balance : ℤ
  pub discrepancy : ℤ
  pub discrepancy_bps : ℤ  -- i16
  pub timestamp : ℕ

-- `ReconResult::matched`
abbrev pub matched_result : ReconResult
matched_result = record {
  status = matched;
  instrument_id = 0;
  internal_balance = pos 0;
  exchange_balance = pos 0;
  discrepancy = pos 0;
  discrepancy_bps = pos 0;
  timestamp = 0;
}

pub record RealTimeRecon : Type 0 where
  pub balances : List BalanceRecord  -- 256 of them
  pub pending_trades : List TradeRecord  -- 1024 of them
  pub num_pending : ℕ
  pub confirmed_idx : ℕ
  pub circuit_breaker_threshold_bp : ℕ
  pub circuit_breaker_active : Bool
  pub recon_enabled : Bool
  pub total_discrepancies : ℕ
