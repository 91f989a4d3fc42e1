-- ===== src/Recon/RealTime.antt =====
-- src/recon/real_time_recon.rs: the balances and trades that are compared with the exchange's reports.
-- Balances are i64, other numbers u64 unless a comment says otherwise; the two readings of the cycle
-- counter are `now` and `later`. `reset_all` and the writes to the trades go through a shared
-- reference and are modelled as the assignments that they mean.
pub mod Breaker
pub mod Trades
pub mod State
use Prim.Native.Nat.{min}
use backendofcryptotradingbo.Base.{
  ℕ, zero, suc, ◌+◌, ◌*◌, ◌/◌, ◌%◌, ◌^◌, Bool, true, false, not, ◌||◌, Option, none, some, List, [],
  ◌∷◌, u64, u32, ltb, leb, ◌==◌, if◌then◌else◌, get_or, set, replicate,
}
use backendofcryptotradingbo.Base.Int.{
  ℤ, pos, pos_part, neg_part, ◌+ℤ◌, ◌-ℤ◌, of_bits, to_bits, wrap,
}
use backendofcryptotradingbo.Base.Lanes.{Four}
unfoldable pub use State.*

unfoldable pub new : RealTimeRecon
new = record {
  balances = replicate max_instruments new_balance;
  pending_trades = replicate max_pending empty_trade;
  num_pending = 0;
  confirmed_idx = 0;
  circuit_breaker_threshold_bp = 100;
  circuit_breaker_active = false;
  recon_enabled = true;
  total_discrepancies = 0;
}

abbrev pub balance_at : RealTimeRecon → ℕ → BalanceRecord
balance_at r idx = get_or r.balances idx new_balance

abbrev pub wrap_i64 : ℤ → ℤ
wrap_i64 a = wrap (2 ^ 64) a

unfoldable pub update_internal_balance : RealTimeRecon → ℕ → ℤ → RealTimeRecon
update_internal_balance r instrument_id delta =
    let b = balance_at r instrument_id in
    if leb max_instruments instrument_id then r else record r {
      balances =
          set r.balances instrument_id
            (record b { internal_balance = wrap_i64 (b.internal_balance +ℤ delta) });
    }

abbrev pub unsigned_abs : ℤ → ℕ
unsigned_abs a = pos_part a + neg_part a

-- `discrepancy_bps`, an i16; the product wraps and the quotient is cut to 16 bits.
unfoldable pub bps_of : ℤ → ℤ → ℤ
bps_of internal difference =
    if ltb 0 (unsigned_abs internal)
    then of_bits (2 ^ 16) (u64 (unsigned_abs difference * 10000) / unsigned_abs internal % 2 ^ 16)
    else pos 0

abbrev pub trigger_circuit_breaker : RealTimeRecon → RealTimeRecon
trigger_circuit_breaker r = record r { circuit_breaker_active = true }

unfoldable pub update_exchange_balance : RealTimeRecon → ℕ → ℤ → ℕ → ℕ → RealTimeRecon × ReconResult
update_exchange_balance r instrument_id balance now later =
    let b = record (balance_at r instrument_id) {
      exchange_balance = balance;
      last_recon_time = now;
    } in
    let internal = b.internal_balance in
    let difference = wrap_i64 (internal -ℤ balance) in
    let bps = bps_of internal difference in
    let r' = record r { balances = set r.balances instrument_id b } in
    let result : ReconStatus → ℤ → ℤ → ReconResult = λ s d p. record {
      status = s;
      instrument_id = instrument_id;
      internal_balance = internal;
      exchange_balance = balance;
      discrepancy = d;
      discrepancy_bps = p;
      timestamp = later;
    } in
    if leb max_instruments instrument_id || not r.recon_enabled
    then (r, matched_result)
    else if leb r.circuit_breaker_threshold_bp (to_bits (2 ^ 64) bps)
    then (trigger_circuit_breaker r', result circuit_breaker difference bps)
    else if unsigned_abs difference == 0
    then (r', result matched (pos 0) (pos 0))
    else (
      record r' {
        balances =
            set r.balances instrument_id
              (record b { discrepancy_count = u32 (b.discrepancy_count + 1) });
        total_discrepancies = u64 (r.total_discrepancies + 1);
      },
      result discrepancy difference bps,
    )

unfoldable pub add_pending_trade : RealTimeRecon → TradeRecord → RealTimeRecon × Bool
add_pending_trade r trade = if leb max_pending r.num_pending then (r, false) else (
  record r {
    pending_trades = set r.pending_trades r.num_pending trade;
    num_pending = u64 (r.num_pending + 1);
  },
  true,
)

-- The first of `n` trades with an id, confirmed; `none` if there is none.
unfoldable pub confirm_in : ℕ → List TradeRecord → ℕ → Option (List TradeRecord)
confirm_in zero trades id = none
confirm_in (suc n) [] id = none
confirm_in (suc n) (t ∷ trades) id =
    if t.trade_id == id
    then some (record t { confirmed = true } ∷ trades)
    else elim (confirm_in n trades id) [ none ↦ none | some rest ↦ some (t ∷ rest) ]

unfoldable pub confirm_trade : RealTimeRecon → ℕ → RealTimeRecon × Bool
confirm_trade r trade_id =
    elim (confirm_in (min r.num_pending max_pending) r.pending_trades trade_id) [
      | none ↦ (r, false)
      | some trades ↦
          (record r { pending_trades = trades; confirmed_idx = u64 (r.confirmed_idx + 1) }, true)
    ]

unfoldable pub reset_circuit_breaker : RealTimeRecon → RealTimeRecon
reset_circuit_breaker r = record r { circuit_breaker_active = false }

unfoldable pub get_discrepancy : RealTimeRecon → ℕ → ℤ
get_discrepancy r instrument_id =
    let b = balance_at r instrument_id in
    if leb max_instruments instrument_id
    then pos 0
    else wrap_i64 (b.internal_balance -ℤ b.exchange_balance)

unfoldable pub get_internal_balance : RealTimeRecon → ℕ → ℤ
get_internal_balance r instrument_id =
    if leb max_instruments instrument_id
    then pos 0
    else (balance_at r instrument_id).internal_balance

unfoldable pub get_exchange_balance : RealTimeRecon → ℕ → ℤ
get_exchange_balance r instrument_id =
    if leb max_instruments instrument_id
    then pos 0
    else (balance_at r instrument_id).exchange_balance

unfoldable pub set_circuit_breaker_threshold_bp : RealTimeRecon → ℕ → RealTimeRecon
set_circuit_breaker_threshold_bp r threshold_bp = record r {
  circuit_breaker_threshold_bp = threshold_bp;
}

-- One result of `reconcile_multiple_avx2`. The shift by `i * 64` of lane 0 takes its distance modulo
-- 64, so the difference is that of the first instrument.
unfoldable pub avx2_result : RealTimeRecon → Four ℕ → Four ℤ → ℕ → ℤ → ℕ → ReconResult
unfolding get_internal_balance
avx2_result r ids balances id balance later =
    let diff = wrap_i64 (get_internal_balance r ids.at0 -ℤ balances.at0) in
    record matched_result {
      status = if unsigned_abs diff == 0 then matched else discrepancy;
      discrepancy = if unsigned_abs diff == 0 then pos 0 else diff;
      instrument_id = id;
      internal_balance = get_internal_balance r id;
      exchange_balance = balance;
      timestamp = later;
    }

unfoldable pub reconcile_multiple_avx2 : RealTimeRecon → Four ℕ → Four ℤ → ℕ → Four ReconResult
reconcile_multiple_avx2 r ids balances later = record {
  at0 = avx2_result r ids balances ids.at0 balances.at0 later;
  at1 = avx2_result r ids balances ids.at1 balances.at1 later;
  at2 = avx2_result r ids balances ids.at2 balances.at2 later;
  at3 = avx2_result r ids balances ids.at3 balances.at3 later;
}

-- Every reading of the clock is `later`.
unfoldable pub reconcile_multiple_simd :
    Bool → RealTimeRecon → Four ℕ → Four ℤ → ℕ → RealTimeRecon × Four ReconResult
reconcile_multiple_simd avx2 r ids balances later =
    let (r1, first) = update_exchange_balance r ids.at0 balances.at0 later later in
    let (r2, second) = update_exchange_balance r1 ids.at1 balances.at1 later later in
    let (r3, third) = update_exchange_balance r2 ids.at2 balances.at2 later later in
    let (r4, fourth) = update_exchange_balance r3 ids.at3 balances.at3 later later in
    if avx2
    then (r, reconcile_multiple_avx2 r ids balances later)
    else (r4, record { at0 = first; at1 = second; at2 = third; at3 = fourth })

unfoldable pub enable : RealTimeRecon → RealTimeRecon
enable r = record r { recon_enabled = true }

unfoldable pub disable : RealTimeRecon → RealTimeRecon
disable r = record r { recon_enabled = false }

unfoldable pub reset_all : RealTimeRecon → RealTimeRecon
reset_all r = record r {
  balances = replicate max_instruments new_balance;
  num_pending = 0;
  circuit_breaker_active = false;
  total_discrepancies = 0;
}
