-- ===== src/Recon/Settlement/Register.antt =====
-- `register_transaction` against `get_transaction` and `is_finalized` (src/recon/settlement_tracker.rs).

use backendofcryptotradingbo.Base.{
  ℕ, zero, suc, ◌+◌, ◌<◌, ◌≡◌, ◌≢◌, ◌⊎◌, refl, true, false, Option, some, List, [], ◌∷◌, u64, ◌==◌,
  if◌then◌else◌, arith, length, get_or, set, get_or-set_self, get_or-set_ne,
}
use backendofcryptotradingbo.Recon.Settlement.{
  TransactionRecord, SettlementTracker, TxType, find_free, is_used, new_tx, register_transaction,
  get_transaction, is_finalized, required_for, tx_at, max_transactions, empty_tx,
}

find_free_lem :
    (txs : List TransactionRecord) (i : ℕ)
    → find_free txs ≡ some i
    → (i < length txs) × (is_used (get_or txs i empty_tx) ≡ false)
unfolding find_free
find_free_lem [] i e = cc
find_free_lem (tx ∷ txs) zero e = ground arith
find_free_lem (tx ∷ txs) (suc i) e = ground (arith, find_free_lem txs i)

module _ (t : SettlementTracker) (low high chain_id amount : ℕ) (kind : TxType) (now : ℕ) where
  pub registered : SettlementTracker × Option ℕ
  registered = register_transaction t low high chain_id amount kind now

  abbrev pub entered : TransactionRecord
  entered = new_tx t low high chain_id amount kind now

  after : ℕ → SettlementTracker
  after i = record t {
    transactions = set t.transactions i entered;
    num_active = u64 (t.num_active + 1);
  }

  registered-eq : (i : ℕ) → find_free t.transactions ≡ some i → registered ≡ (after i, some i)
  unfolding registered register_transaction after
  registered-eq i e = rw (e, register_transaction) refl

  entered_used : (low ≢ 0) ⊎ (high ≢ 0) → is_used entered ≡ true
  unfolding new_tx
  entered_used h = ground arith

  after_found :
      (i : ℕ)
      → length t.transactions ≡ max_transactions
      → is_used entered ≡ true
      → i < max_transactions
      → get_transaction (after i) i ≡ some entered
  unfolding after get_transaction
  after_found i l u h = ground (arith, get_or-set_self t.transactions i entered empty_tx)

  after_others : (i j : ℕ) → i ≢ j → get_transaction (after i) j ≡ get_transaction t j
  unfolding after get_transaction
  after_others i j n = ground (arith, get_or-set_ne t.transactions i j entered empty_tx)

  after_final :
      (i : ℕ)
      → length t.transactions ≡ max_transactions
      → is_used entered ≡ true
      → i < max_transactions
      → is_finalized (after i) i ≡ (required_for t chain_id == 0)
  unfolding is_finalized new_tx
  after_final i l u h = rw (after_found i l u h, is_finalized) (ground arith)

  -- With a hash that is not 0 and a free slot, the transaction goes into a free slot, where
  -- `get_transaction` finds it, and every other index finds what it found before; the new
  -- transaction, without a confirmation yet, is finalized exactly if none is required on its chain.
  pub register_transaction_lem :
      (i j : ℕ)
      → (low ≢ 0) ⊎ (high ≢ 0)
      → length t.transactions ≡ max_transactions
      → find_free t.transactions ≡ some i
      → (registered.1 ≡ some i)
        × (is_used (tx_at t i) ≡ false)
        × (get_transaction registered.0 j ≡ (if i == j then some entered else get_transaction t j))
        × (is_finalized registered.0 i ≡ (required_for t chain_id == 0))
  register_transaction_lem i j hash l e =
      let free = find_free_lem t.transactions i e in
      let bound : i < max_transactions = omega (arith, free.0, l) in
      let used = entered_used hash in
      rw (registered-eq i e) (
        refl,
        free.1,
        ground (arith, after_found i l used bound, after_others i j),
        after_final i l used bound,
      )
