-- ===== src/Recon/RealTime/Breaker.antt =====
-- When the circuit breaker of src/recon/real_time_recon.rs is triggered.
use native.Mathlib.Nat.{le-div_iff_mul-le}
use backendofcryptotradingbo.Base.{
  ℕ, ◌+◌, ◌*◌, ◌/◌, ◌%◌, ◌^◌, ◌≤◌, ◌<◌, ◌≡◌, ◌≢◌, ◌⊎◌, ◌↔◌, refl, Bool, true, false, ◌||◌, u64, u32,
  leb, length, get_or-set_self, arith, inl, inr,
}
use backendofcryptotradingbo.Base.Int.{ℤ, pos, ◌-ℤ◌, to_bits}
use backendofcryptotradingbo.Recon.RealTime.{
  RealTimeRecon, circuit_breaker, max_instruments, balance_at, unsigned_abs, wrap_i64, bps_of,
  update_exchange_balance, get_discrepancy, new_balance,
}

-- Below 2 ^ 15 basis points, the threshold is compared with the exact ratio.
bps_of-exact :
    (internal difference : ℤ) (threshold : ℕ)
    → 0 < unsigned_abs internal
    → unsigned_abs difference * 10000 < 2 ^ 64
    → unsigned_abs difference * 10000 < 2 ^ 15 * unsigned_abs internal
    → (threshold ≤ to_bits (2 ^ 64) (bps_of internal difference))
      ↔ (threshold * unsigned_abs internal ≤ unsigned_abs difference * 10000)
unfolding bps_of
bps_of-exact internal difference threshold some small few =
    let n : ℕ = unsigned_abs internal in
    let x : ℕ = unsigned_abs difference * 10000 in
    let unwrapped : u64 x ≡ x = omega arith in
    let below : 2 ^ 15 ≤ x / n → 2 ^ 15 * n ≤ x = (le-div_iff_mul-le some).0 in
    let short : x / n < 2 ^ 15 = ground (arith, below, few) in
    let bits : to_bits (2 ^ 64) (bps_of internal difference) ≡ x / n =
      ground (arith, unwrapped, short) in
    rw bits (le-div_iff_mul-le some)

-- The difference that a report of `balance` makes
abbrev pub difference_of : RealTimeRecon → ℕ → ℤ → ℤ
difference_of r instrument_id balance =
    wrap_i64 ((balance_at r instrument_id).internal_balance -ℤ balance)

-- What a report does, by whether its basis points reach the threshold
reported :
    (r : RealTimeRecon) (instrument_id : ℕ) (balance : ℤ) (now later : ℕ) (reached : Bool)
    → length r.balances ≡ max_instruments
    → instrument_id < max_instruments
    → r.recon_enabled ≡ true
    → leb r.circuit_breaker_threshold_bp (
        to_bits (2 ^ 64) (
          bps_of
            (balance_at r instrument_id).internal_balance
            (difference_of r instrument_id balance)))
      ≡ reached
    → let (r', result) = update_exchange_balance r instrument_id balance now later in
      ((result.status ≡ circuit_breaker) ↔ (reached ≡ true))
      × (r'.circuit_breaker_active ≡ (r.circuit_breaker_active || reached))
      × (get_discrepancy r' instrument_id ≡ difference_of r instrument_id balance)
unfolding update_exchange_balance get_discrepancy
reported r i balance now later reached l h on e =
    let b = record (balance_at r i) { exchange_balance = balance; last_recon_time = now } in
    let b' = record b { discrepancy_count = u32 (b.discrepancy_count + 1) } in
    let known : leb max_instruments i ≡ false = ground arith in
    let stored = get_or-set_self r.balances i b new_balance (omega (arith, l)) in
    let stored' = get_or-set_self r.balances i b' new_balance (omega (arith, l)) in
    ground (arith, known, on, e, stored, stored')

-- While reconciliation is on, for an instrument of the table whose internal balance is not 0, and a
-- difference below 32768 basis points of it whose product with 10000 fits a u64: a report answers
-- `circuit_breaker` exactly when the difference is at least the threshold's share of the internal
-- balance, the breaker is then active and otherwise as before, and the difference is recorded.
pub update_exchange_balance_lem :
    (r : RealTimeRecon) (instrument_id : ℕ) (balance : ℤ) (now later : ℕ)
    → length r.balances ≡ max_instruments
    → instrument_id < max_instruments
    → r.recon_enabled ≡ true
    → let internal = (balance_at r instrument_id).internal_balance in
      let difference = difference_of r instrument_id balance in
      0 < unsigned_abs internal
      → unsigned_abs difference * 10000 < 2 ^ 64
      → unsigned_abs difference * 10000 < 2 ^ 15 * unsigned_abs internal
      → let (r', result) = update_exchange_balance r instrument_id balance now later in
        let limit = r.circuit_breaker_threshold_bp * unsigned_abs internal in
        ((result.status ≡ circuit_breaker) ↔ (limit ≤ unsigned_abs difference * 10000))
        × (r'.circuit_breaker_active
            ≡ (r.circuit_breaker_active || leb limit (unsigned_abs difference * 10000)))
        × (get_discrepancy r' instrument_id ≡ difference)
update_exchange_balance_lem r i balance now later l h on nonzero small few =
    let internal = (balance_at r i).internal_balance in
    let difference = difference_of r i balance in
    let exact = bps_of-exact internal difference r.circuit_breaker_threshold_bp nonzero small few in
    let same : leb r.circuit_breaker_threshold_bp (to_bits (2 ^ 64) (bps_of internal difference))
        ≡ leb (r.circuit_breaker_threshold_bp * unsigned_abs internal)
            (unsigned_abs difference * 10000) =
      ground (arith, exact) in
    let (status, active, recorded) = reported r i balance now later _ l h on same in
    (ground (arith, status), active, recorded)

-- With a threshold above 0, a report does not change the breaker where the internal balance is
-- 0, however large the difference, nor where the basis points, cut to 16 bits, are 0: at 65536 basis
-- points, say, which is more than six times the balance.
pub missed_difference :
    (r : RealTimeRecon) (instrument_id : ℕ) (balance : ℤ) (now later : ℕ)
    → length r.balances ≡ max_instruments
    → instrument_id < max_instruments
    → r.recon_enabled ≡ true
    → 0 < r.circuit_breaker_threshold_bp
    → let internal = (balance_at r instrument_id).internal_balance in
      let difference = difference_of r instrument_id balance in
      (internal ≡ pos 0)
        ⊎ (u64 (unsigned_abs difference * 10000) / unsigned_abs internal % 2 ^ 16 ≡ 0)
      → let (r', result) = update_exchange_balance r instrument_id balance now later in
        (result.status ≢ circuit_breaker)
        × (r'.circuit_breaker_active ≡ r.circuit_breaker_active)
        × (get_discrepancy r' instrument_id ≡ difference)
unfolding bps_of
missed_difference r i balance now later l h on some zero_bps =
    let internal = (balance_at r i).internal_balance in
    let difference = difference_of r i balance in
    let none_seen : bps_of internal difference ≡ pos 0 = elim zero_bps [
      | inl z ↦ rw z refl
      | inr z ↦ rw z (ground arith)
    ] in
    let quiet : leb r.circuit_breaker_threshold_bp (to_bits (2 ^ 64) (bps_of internal difference))
        ≡ false =
      rw none_seen (ground arith) in
    let (status, active, recorded) = reported r i balance now later false l h on quiet in
    (λ e. ground (arith, status, e), ground (arith, active), recorded)
