-- ===== src/Recon/Settlement/Confirmations.antt =====
-- `check_confirmations_simd` of src/recon/settlement_tracker.rs: four transactions at once, with and
-- without AVX2.
use Prim.Native.Nat.{bit_or}
use backendofcryptotradingbo.Base.{
  ℕ, ◌+◌, ◌-◌, ◌^◌, ◌<◌, ◌≡◌, refl, Bool, true, false, not, ◌||◌, ◌&&◌, u64, ltb, leb, ◌==◌,
  if◌then◌else◌, arith,
}
use backendofcryptotradingbo.Base.Bits.{bit_at}
use backendofcryptotradingbo.Base.Lanes.{Lanes, movemask_epi8_bit, Four}
use backendofcryptotradingbo.Recon.Settlement.{
  SettlementTracker, max_transactions, tx_at, is_finalized,
}

-- The two numbers that the loop loads for one index: 0 and 0 out of range.
abbrev pub loaded_confirmations : SettlementTracker → ℕ → ℕ
loaded_confirmations t idx = if ltb idx max_transactions then (tx_at t idx).confirmations else 0

abbrev pub loaded_required : SettlementTracker → ℕ → ℕ
loaded_required t idx = if ltb idx max_transactions then (tx_at t idx).required_confirmations else 0

-- A lane of a comparison: all ones or all zeros. `_mm256_cmpgt_epi64` compares signed numbers, and
-- `_mm256_sub_epi64` wraps.
abbrev pub all_ones : Bool → ℕ
all_ones b = if b then 2 ^ 64 - 1 else 0

unfoldable pub combined_lane : ℕ → ℕ → ℕ
combined_lane conf req =
    let difference = u64 (conf + 2 ^ 64 - req) in
    bit_or (all_ones (ltb 0 difference && ltb difference (2 ^ 63))) (all_ones (conf == req))

unfoldable pub check_confirmations_avx2 : SettlementTracker → Four ℕ → Four Bool
unfolding combined_lane movemask_epi8_bit
check_confirmations_avx2 t indices =
    let lane_of : ℕ → ℕ =
      λ idx. combined_lane (loaded_confirmations t idx) (loaded_required t idx) in
    let combined : Lanes = record {
      lane0 = lane_of indices.at0;
      lane1 = lane_of indices.at1;
      lane2 = lane_of indices.at2;
      lane3 = lane_of indices.at3;
    } in
    record {
      at0 = not (movemask_epi8_bit combined 0 == 0);  -- & 0x1
      at1 = not (movemask_epi8_bit combined 2 == 0);  -- & 0x4
      at2 = not (movemask_epi8_bit combined 4 == 0);  -- & 0x10
      at3 = not (movemask_epi8_bit combined 6 == 0);  -- & 0x40
    }

-- Whether the processor has AVX2 is an argument.
unfoldable pub check_confirmations_simd : Bool → SettlementTracker → Four ℕ → Four Bool
check_confirmations_simd avx2 t indices =
    if avx2 then check_confirmations_avx2 t indices else record {
      at0 = is_finalized t indices.at0;
      at1 = is_finalized t indices.at1;
      at2 = is_finalized t indices.at2;
      at3 = is_finalized t indices.at3;
    }

combined_lane_lem :
    (conf req : ℕ) → conf < 2 ^ 63 → req < 2 ^ 63 → combined_lane conf req ≡ all_ones (leb req conf)
unfolding combined_lane
combined_lane_lem conf req h k = ground arith

-- The bits that the mask picks of a lane.
picked_bits :
    (b : Bool)
    → (not (bit_at (all_ones b) 7 == 0) ≡ b)
      × (not (bit_at (all_ones b) 23 == 0) ≡ b)
      × (not (bit_at (all_ones b) 39 == 0) ≡ b)
      × (not (bit_at (all_ones b) 55 == 0) ≡ b)
unfolding bit_at
picked_bits true = (refl, refl, refl, refl)
picked_bits false = (refl, refl, refl, refl)

-- With AVX2 and confirmations below 2 ^ 63, all four answers are the first index's: whether its
-- confirmations reach those required, and true for a first index out of range. The other three
-- indices do not matter.
pub check_confirmations_avx2_lem :
    (t : SettlementTracker) (indices : Four ℕ)
    → loaded_confirmations t indices.at0 < 2 ^ 63
    → loaded_required t indices.at0 < 2 ^ 63
    → let r = check_confirmations_simd true t indices in
      let answer =
        leb max_transactions indices.at0
        || leb (tx_at t indices.at0).required_confirmations (tx_at t indices.at0).confirmations in
      (r.at0 ≡ answer) × (r.at1 ≡ answer) × (r.at2 ≡ answer) × (r.at3 ≡ answer)
unfolding check_confirmations_simd check_confirmations_avx2
check_confirmations_avx2_lem t indices h k =
    let lane =
      combined_lane_lem (loaded_confirmations t indices.at0) (loaded_required t indices.at0) h k in
    let reads : leb (loaded_required t indices.at0) (loaded_confirmations t indices.at0) ≡ (
        leb max_transactions indices.at0
        || leb (tx_at t indices.at0).required_confirmations (tx_at t indices.at0).confirmations) =
      ground arith in
    rw (lane, check_confirmations_avx2) (rw reads (picked_bits _))
