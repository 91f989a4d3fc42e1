-- ===== src/Recon/Settlement/Finality.antt =====
-- The status of a transaction over a series of `update_confirmations` (src/recon/settlement_tracker.rs).
use backendofcryptotradingbo.Base.{
  ℕ, ◌<◌, ◌≡◌, ap, ◌∙◌, Bool, false, ◌||◌, List, [], ◌∷◌, leb, arith, length, get_or-set_self,
  length-set,
}
use backendofcryptotradingbo.Recon.Settlement.{
  TransactionRecord, SettlementTracker, get_status, is_final, confirm, tx_at, update_confirmations,
  max_transactions, empty_tx,
}

pub record Update : Type 0 where
  pub block_number : ℕ
  pub confirmations : ℕ

unfoldable pub updates : SettlementTracker → ℕ → List Update → SettlementTracker
updates t idx [] = t
updates t idx (u ∷ us) = updates (update_confirmations t idx u.block_number u.confirmations) idx us

-- Whether some update brings at least the required confirmations
unfoldable pub reached : ℕ → List Update → Bool
reached required [] = false
reached required (u ∷ us) = leb required u.confirmations || reached required us

confirm-final :
    (tx : TransactionRecord) (block n : ℕ)
    → is_final (get_status (confirm tx block n))
      ≡ (is_final (get_status tx) || leb tx.required_confirmations n)
unfolding confirm
confirm-final tx block n = ground arith

confirm-required :
    (tx : TransactionRecord) (block n : ℕ)
    → (confirm tx block n).required_confirmations ≡ tx.required_confirmations
unfolding confirm
confirm-required tx block n = ground arith

updated-tx :
    (t : SettlementTracker) (idx block n : ℕ)
    → length t.transactions ≡ max_transactions
    → idx < max_transactions
    → tx_at (update_confirmations t idx block n) idx ≡ confirm (tx_at t idx) block n
unfolding update_confirmations
updated-tx t idx block n l h =
    ground (arith, get_or-set_self t.transactions idx (confirm (tx_at t idx) block n) empty_tx)

updated-length :
    (t : SettlementTracker) (idx block n : ℕ)
    → length t.transactions ≡ max_transactions
    → length (update_confirmations t idx block n).transactions ≡ max_transactions
unfolding update_confirmations
updated-length t idx block n l =
    ground (arith, length-set t.transactions idx (confirm (tx_at t idx) block n))

or_assoc : (a b c : Bool) → ((a || b) || c) ≡ (a || (b || c))
or_assoc a b c = ground arith

-- A transaction reads as finalized after a series of updates exactly when it did before or when
-- some update brought the confirmations it requires: no later update, with however few
-- confirmations, takes the status back, and one that had failed before becomes finalized too.
pub updates_lem :
    (t : SettlementTracker) (idx : ℕ) (us : List Update)
    → length t.transactions ≡ max_transactions
    → idx < max_transactions
    → is_final (get_status (tx_at (updates t idx us) idx))
      ≡ (is_final (get_status (tx_at t idx)) || reached (tx_at t idx).required_confirmations us)
unfolding updates reached
updates_lem t idx [] l h = ground arith
updates_lem t idx (u ∷ us) l h =
    let t' = update_confirmations t idx u.block_number u.confirmations in
    let same = updated-tx t idx u.block_number u.confirmations l h in
    let rest = updates_lem t' idx us (updated-length t idx u.block_number u.confirmations l) h in
    rest
    ∙ ap (λ tx. is_final (get_status tx) || reached tx.required_confirmations us) same
    ∙ rw (confirm-final (tx_at t idx) u.block_number u.confirmations) (
        rw (confirm-required (tx_at t idx) u.block_number u.confirmations) (
          or_assoc (is_final (get_status (tx_at t idx)))
            (leb (tx_at t idx).required_confirmations u.confirmations)
            (reached (tx_at t idx).required_confirmations us)))
