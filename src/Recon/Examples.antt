-- ===== src/Recon/Examples.antt =====
-- A concrete tracker (src/recon/settlement_tracker.rs), on which the theorems are applied.

use backendofcryptotradingbo.Base.{
  ◌≡◌, refl, false, ◌||◌, leb, ℕ, some, List, [], ◌∷◌, arith, length, length-replicate, ◌*◌, ◌≤◌,
  ◌↔◌, ◌∙◌, length-set, replicate,
}
use backendofcryptotradingbo.Base.Lanes.{Four}
use backendofcryptotradingbo.Base.Int.{pos, ◌+ℤ◌, ◌-ℤ◌, wrap}
use backendofcryptotradingbo.Recon.RealTime
use backendofcryptotradingbo.Recon.RealTime.{
  RealTimeRecon, TradeRecord, circuit_breaker, max_instruments, max_pending, new_balance,
  empty_trade, update_internal_balance, update_exchange_balance, get_discrepancy, add_pending_trade,
  confirm_trade,
}
use backendofcryptotradingbo.Recon.RealTime.Breaker.{update_exchange_balance_lem}
use backendofcryptotradingbo.Recon.Settlement
use backendofcryptotradingbo.Recon.Settlement.{
  SettlementTracker, TransactionRecord, TxType, deposit, empty_tx, get_status, is_final, is_used,
  tx_at, find_free, new_tx, register_transaction, get_transaction, is_finalized, required_for,
  max_transactions,
}
use backendofcryptotradingbo.Recon.Settlement.Finality.{Update}

whole : length Settlement.new.transactions ≡ max_transactions
unfolding Settlement.new
whole = length-replicate max_transactions empty_tx

first_free : find_free Settlement.new.transactions ≡ some 0
unfolding Settlement.new find_free
first_free = refl

-- Six confirmations, and then a reorganisation that leaves two.
abbrev two_updates : List Update
two_updates =
    record { block_number = 100; confirmations = 6 }
    ∷ record { block_number = 101; confirmations = 2 }
    ∷ []

abbrev four_indices : Four ℕ
four_indices = record { at0 = 5000; at1 = 1; at2 = 2; at3 = 3 }

-- A million of instrument 3
abbrev recon : RealTimeRecon
recon = update_internal_balance RealTime.new 3 (pos 1_000_000)

-- The exchange reports one percent less, which is the threshold.
update_exchange_balance_lem_example :
    let (r', result) = update_exchange_balance recon 3 (pos 990_000) 5 6 in
    ((result.status ≡ circuit_breaker) ↔ (100 * 1_000_000 ≤ 10_000 * 10000))
    × (r'.circuit_breaker_active ≡ (false || leb (100 * 1_000_000) (10_000 * 10000)))
    × (get_discrepancy r' 3 ≡ pos 10_000)
unfolding RealTime.new update_internal_balance ◌+ℤ◌ ◌-ℤ◌ wrap
update_exchange_balance_lem_example =
    update_exchange_balance_lem recon 3 (pos 990_000) 5 6
      (length-set (replicate max_instruments new_balance) 3
          (record new_balance { internal_balance = pos 1_000_000 })
        ∙ length-replicate max_instruments new_balance)
      (omega arith) refl (omega arith) (omega arith) (omega arith)

abbrev trade : TradeRecord
trade = record empty_trade { trade_id = 8; quantity = 5; price = 100 }

abbrev with_trade : RealTimeRecon
with_trade = (add_pending_trade RealTime.new trade).0
