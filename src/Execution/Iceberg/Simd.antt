-- ===== src/Execution/Iceberg/Simd.antt =====
-- `update_queue_positions_simd` of src/execution/iceberg_handler.rs: four orders at once, with and
-- without AVX2.
use backendofcryptotradingbo.Base.{
  ℕ, ◌+◌, ◌*◌, ◌/◌, ◌%◌, ◌^◌, ◌≤◌, ◌<◌, ◌≡◌, Bool, true, ◌&&◌, u64, ltb, leb, ◌==◌, if◌then◌else◌,
  set, length, length-set, get_or-set_self, get_or-set_ne, arith,
}
use backendofcryptotradingbo.Base.Lanes.{Four}
use backendofcryptotradingbo.Execution.Iceberg.{
  IcebergHandler, max_iceberg_orders, empty, order_at, update_queue_position,
}

abbrev pub at : Four ℕ → ℕ → ℕ
at v i = if i == 0 then v.at0 else if i == 1 then v.at1 else if i == 2 then v.at2 else v.at3

-- `_mm256_extract_epi64::<0>(v) >> (i * 64)`: a shift of the release build takes its distance
-- modulo 64. The signed shift by 0 keeps the bits.
abbrev pub extracted : Four ℕ → ℕ → ℕ
extracted v i = v.at0 / 2 ^ (i * 64 % 64)

-- One round of the loop; an index past the orders is left out.
unfoldable pub avx2_round : Four ℕ → Four ℕ → ℕ → ℕ → IcebergHandler → IcebergHandler
avx2_round positions volumes start_idx i h =
    if ltb (u64 (start_idx + i)) max_iceberg_orders
    then record h {
      orders = set h.orders (u64 (start_idx + i)) (record (order_at h (u64 (start_idx + i))) {
        queue_position = extracted positions i;
        volume_ahead = extracted volumes i;
      });
    }
    else h

unfoldable pub update_queue_positions_avx2 : IcebergHandler → Four ℕ → Four ℕ → ℕ → IcebergHandler
update_queue_positions_avx2 h positions volumes start_idx =
    let go = avx2_round positions volumes start_idx in go 3 (go 2 (go 1 (go 0 h)))

unfoldable pub scalar_round : Four ℕ → Four ℕ → ℕ → ℕ → IcebergHandler → IcebergHandler
scalar_round positions volumes start_idx i h =
    if ltb (u64 (start_idx + i)) max_iceberg_orders
    then update_queue_position h (u64 (start_idx + i)) (at positions i) (at volumes i) 0
    else h

-- Whether the processor has AVX2 is an argument.
unfoldable pub update_queue_positions_simd :
    Bool → IcebergHandler → Four ℕ → Four ℕ → ℕ → IcebergHandler
update_queue_positions_simd avx2 h positions volumes start_idx =
    let go = scalar_round positions volumes start_idx in
    if avx2
    then update_queue_positions_avx2 h positions volumes start_idx
    else go 3 (go 2 (go 1 (go 0 h)))

avx2_round_lem :
    (positions volumes : Four ℕ) (start_idx i j : ℕ) (h : IcebergHandler)
    → length h.orders ≡ max_iceberg_orders
    → i < 4
    → start_idx + 4 ≤ 2 ^ 64
    → let h' = avx2_round positions volumes start_idx i h in
      (length h'.orders ≡ max_iceberg_orders)
      × ((order_at h' j).queue_position ≡ (
          if ltb j max_iceberg_orders && (j == start_idx + i)
          then positions.at0
          else (order_at h j).queue_position))
unfolding avx2_round
avx2_round_lem positions volumes start_idx i j h l k small =
    let wrapped : u64 (start_idx + i) ≡ start_idx + i = omega arith in
    let o = record (order_at h (start_idx + i)) {
      queue_position = extracted positions i;
      volume_ahead = extracted volumes i;
    } in
    let zero_shift : i * 64 % 64 ≡ 0 = omega arith in
    let same : extracted positions i ≡ positions.at0 = rw zero_shift (omega arith) in
    ground (
      arith,
      same,
      wrapped,
      length-set h.orders (start_idx + i) o,
      get_or-set_self h.orders (start_idx + i) o empty,
      get_or-set_ne h.orders (start_idx + i) j o empty,
    )

-- With AVX2, and indices below 2 ^ 64, the first position goes to all four orders: every order of the
-- table among the four gets the queue position that was meant for the first, and every other order
-- keeps its own.
pub update_queue_positions_avx2_lem :
    (h : IcebergHandler) (positions volumes : Four ℕ) (start_idx j : ℕ)
    → length h.orders ≡ max_iceberg_orders
    → start_idx + 4 ≤ 2 ^ 64
    → (order_at (update_queue_positions_simd true h positions volumes start_idx) j).queue_position
      ≡ (if ltb j max_iceberg_orders && (leb start_idx j && ltb j (start_idx + 4))
          then positions.at0
          else (order_at h j).queue_position)
unfolding update_queue_positions_simd update_queue_positions_avx2
update_queue_positions_avx2_lem h positions volumes start_idx j l small =
    let go = avx2_round positions volumes start_idx in
    let (size, first) = avx2_round_lem positions volumes start_idx 0 j h l (omega arith) small in
    let (size', second) =
      avx2_round_lem positions volumes start_idx 1 j (go 0 h) size (omega arith) small in
    let (size'', third) =
      avx2_round_lem positions volumes start_idx 2 j (go 1 (go 0 h)) size' (omega arith) small in
    let (_, fourth) =
      avx2_round_lem positions volumes start_idx 3 j (go 2 (go 1 (go 0 h))) size'' (omega arith)
        small in
    ground (arith, first, second, third, fourth)
