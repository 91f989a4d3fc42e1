-- ===== src/Oms/Stp/Book.antt =====
-- The book of one subaccount (src/oms/self_trade_prevention.rs): its bitmasks against its counters.
use Prim.Native.Nat.{bit_and}
use native.Mathlib.Nat.{pow-le-pow_right, one-le-pow}
use backendofcryptotradingbo.Base.{
  ℕ, zero, suc, ◌+◌, ◌-◌, ◌*◌, ◌^◌, ◌≤◌, ◌<◌, ◌≡◌, refl, false, not, List, u64, ltb, leb, ◌==◌,
  arith, if◌then◌else◌, get_or, set, length, length-set, replicate, get_or-set_self, get_or-set_ne,
  Bool-cases, inl, inr, leb→lt, ◌&&◌,
}
use backendofcryptotradingbo.Base.Bits.{
  bit_at, complement, bit_at-le, bit_at-zero, bit_at-bit_and, bit_at-bit_or, bit_at-pow_self,
  bit_at-pow_ne, bit_at-complement, bit_and-pow,
}
use backendofcryptotradingbo.Oms.Stp.{
  AccountOrderBook, max_instruments, add, remove, add_buy, add_sell, remove_buy, remove_sell,
  has_resting_buy, has_resting_sell, new_book,
}

zero_bits : (i : ℕ) → bit_at 0 i ≡ 0
zero_bits i = bit_at-zero i

zero_counts : (n i : ℕ) → get_or {A = ℕ} (replicate n 0) i 0 ≡ 0
zero_counts zero i = refl
zero_counts (suc n) zero = refl
zero_counts (suc n) (suc i) = zero_counts n i

-- The bit of an instrument is set exactly when its counter is positive.
pub record SideIsValid (mask : ℕ) (counts : List ℕ) : Type 0 where
  pub counters : length counts ≡ max_instruments
  pub marked :
      (i : ℕ) → i < max_instruments → bit_at mask i ≡ (if get_or counts i 0 == 0 then 0 else 1)

pub record IsValid (b : AccountOrderBook) : Type 0 where
  pub buys : SideIsValid b.buy_instruments b.buy_counts
  pub sells : SideIsValid b.sell_instruments b.sell_counts

single_bit : (i j : ℕ) → bit_at (2 ^ i) j ≡ (if i == j then 1 else 0)
single_bit i j = ground (arith, bit_at-pow_self i, bit_at-pow_ne i j)

set_or :
    (xs : List ℕ) (i j v : ℕ)
    → i < length xs
    → get_or (set xs i v) j 0 ≡ (if i == j then v else get_or xs j 0)
set_or xs i j v h = ground (arith, get_or-set_self xs i v 0, get_or-set_ne xs i j v 0)

pow_fits : (i : ℕ) → i < 64 → 2 ^ i < 2 ^ 64
pow_fits i h =
    let below : 2 ^ i ≤ 2 ^ 63 = pow-le-pow_right (omega arith) {j = 63} (omega arith) in
    omega arith

add-SideIsValid :
    (mask : ℕ) (counts : List ℕ) (i : ℕ)
    → SideIsValid mask counts
    → i < max_instruments
    → get_or counts i 0 + 1 < 2 ^ 64
    → SideIsValid (add mask counts i).0 (add mask counts i).1
add-SideIsValid mask counts i v h room = record {
  counters = omega (arith, v.counters, length-set counts i (u64 (get_or counts i 0 + 1)));
  marked = λ j k. ground (
    arith,
    v.marked j k,
    v.counters,
    bit_at-bit_or mask (2 ^ i) j,
    single_bit i j,
    set_or counts i j (u64 (get_or counts i 0 + 1)),
  );
}

remove-SideIsValid :
    (mask : ℕ) (counts : List ℕ) (i : ℕ)
    → SideIsValid mask counts
    → i < max_instruments
    → 0 < get_or counts i 0
    → get_or counts i 0 < 2 ^ 64
    → SideIsValid (remove mask counts i).0 (remove mask counts i).1
remove-SideIsValid mask counts i v h some_left fits = record {
  counters = omega (arith, v.counters, length-set counts i (u64 (get_or counts i 0 + 2 ^ 64 - 1)));
  marked = λ j k. ground (
    arith,
    v.marked j k,
    v.marked i h,
    v.counters,
    bit_at-bit_and mask (complement 64 (2 ^ i)) j,
    bit_at-complement 64 (2 ^ i) j (pow_fits i h) k,
    single_bit i j,
    set_or counts i j (u64 (get_or counts i 0 + 2 ^ 64 - 1)),
    bit_at-le mask j,
  );
}

-- A masked word is zero exactly when the bit is.
masked : (mask i : ℕ) → (bit_and mask (2 ^ i) == 0) ≡ (bit_at mask i == 0)
masked mask i = by_bit (bit_at mask i) (bit_at-le mask i) (bit_and-pow mask i)
  where
    by_bit :
        (b : ℕ) → b ≤ 1 → bit_and mask (2 ^ i) ≡ b * 2 ^ i → (bit_and mask (2 ^ i) == 0) ≡ (b == 0)
    by_bit zero h e = ground (arith, e)
    by_bit (suc zero) h e = ground (arith, e, one-le-pow i 2 (omega arith))
    by_bit (suc (suc b)) h e = absurd (omega arith)

-- The orders of a side that the counter of an instrument holds; none out of range.
abbrev pub resting : List ℕ → ℕ → ℕ
resting counts id = if leb max_instruments id then 0 else get_or counts id 0

module _ (b : AccountOrderBook) (v : IsValid b) where
  -- An order rests on a side exactly when that side's counter of the instrument is positive.
  pub has_resting_lem :
      (id : ℕ)
      → (has_resting_buy b id ≡ not (resting b.buy_counts id == 0))
        × (has_resting_sell b id ≡ not (resting b.sell_counts id == 0))
  unfolding has_resting_buy has_resting_sell
  has_resting_lem id = (
    ground (arith, masked b.buy_instruments id, v.buys.marked id),
    ground (arith, masked b.sell_instruments id, v.sells.marked id),
  )

  -- While no counter passes 2 ^ 64, an addition keeps the bits in step with the counters; it adds one
  -- order on its side of its instrument, and changes no other count. An id out of range changes nothing.
  pub add_lem :
      (id j : ℕ)
      → resting b.buy_counts id + 1 < 2 ^ 64
      → resting b.sell_counts id + 1 < 2 ^ 64
      → IsValid (add_buy b id)
        × IsValid (add_sell b id)
        × (resting (add_buy b id).buy_counts j ≡ (
            if ltb id max_instruments && (id == j)
            then resting b.buy_counts j + 1
            else resting b.buy_counts j))
        × ((add_buy b id).sell_counts ≡ b.sell_counts)
        × (resting (add_sell b id).sell_counts j ≡ (
            if ltb id max_instruments && (id == j)
            then resting b.sell_counts j + 1
            else resting b.sell_counts j))
        × ((add_sell b id).buy_counts ≡ b.buy_counts)
  unfolding add_buy add_sell
  add_lem id j room room' = elim (Bool-cases (leb max_instruments id)) [
    | inl out ↦ ground (arith, v)
    | inr within ↦
        let h = leb→lt max_instruments id within in
        let buys = add-SideIsValid b.buy_instruments b.buy_counts id v.buys h (ground arith) in
        let sells = add-SideIsValid b.sell_instruments b.sell_counts id v.sells h (ground arith) in
        ground (
          arith,
          v,
          buys,
          sells,
          set_or b.buy_counts id j (u64 (get_or b.buy_counts id 0 + 1)),
          set_or b.sell_counts id j (u64 (get_or b.sell_counts id 0 + 1)),
        )
  ]

  -- Where orders of the instrument rest on both sides, a removal keeps the bits in step with the
  -- counters; it takes one order off its side of its instrument, and changes no other count.
  pub remove_lem :
      (id j : ℕ)
      → 0 < resting b.buy_counts id
      → resting b.buy_counts id < 2 ^ 64
      → 0 < resting b.sell_counts id
      → resting b.sell_counts id < 2 ^ 64
      → IsValid (remove_buy b id)
        × IsValid (remove_sell b id)
        × (resting (remove_buy b id).buy_counts j
            ≡ (if id == j then resting b.buy_counts j - 1 else resting b.buy_counts j))
        × ((remove_buy b id).sell_counts ≡ b.sell_counts)
        × (resting (remove_sell b id).sell_counts j
            ≡ (if id == j then resting b.sell_counts j - 1 else resting b.sell_counts j))
        × ((remove_sell b id).buy_counts ≡ b.buy_counts)
  unfolding remove_buy remove_sell
  remove_lem id j pos fits pos' fits' = elim (Bool-cases (leb max_instruments id)) [
    | inl out ↦ absurd (ground arith)
    | inr within ↦
        let h = leb→lt max_instruments id within in
        let buys =
          remove-SideIsValid b.buy_instruments b.buy_counts id v.buys h (ground arith)
            (ground arith) in
        let sells =
          remove-SideIsValid b.sell_instruments b.sell_counts id v.sells h (ground arith)
            (ground arith) in
        ground (
          arith,
          v,
          buys,
          sells,
          set_or b.buy_counts id j (u64 (get_or b.buy_counts id 0 + 2 ^ 64 - 1)),
          set_or b.sell_counts id j (u64 (get_or b.sell_counts id 0 + 2 ^ 64 - 1)),
        )
  ]

-- A removal that empties the counter, or finds it empty, clears the bit.
remove_clears :
    (b : AccountOrderBook) (id : ℕ)
    → id < max_instruments
    → resting b.buy_counts id ≤ 1
    → has_resting_buy (remove_buy b id) id ≡ false
unfolding has_resting_buy remove_buy
remove_clears b id h few = ground (
  arith,
  masked (bit_and b.buy_instruments (complement 64 (2 ^ id))) id,
  bit_at-bit_and b.buy_instruments (complement 64 (2 ^ id)) id,
  bit_at-complement 64 (2 ^ id) id (pow_fits id h) h,
  single_bit id id,
)

buy_count :
    (b : AccountOrderBook) (id : ℕ)
    → id < max_instruments
    → length b.buy_counts ≡ max_instruments
    → (resting (add_buy b id).buy_counts id ≡ u64 (resting b.buy_counts id + 1))
      × (length (add_buy b id).buy_counts ≡ max_instruments)
      × (resting (remove_buy b id).buy_counts id ≡ u64 (resting b.buy_counts id + 2 ^ 64 - 1))
      × (length (remove_buy b id).buy_counts ≡ max_instruments)
unfolding add_buy remove_buy
buy_count b id h l =
    let c = get_or b.buy_counts id 0 in
    ground (
      arith,
      set_or b.buy_counts id id (u64 (c + 1)),
      set_or b.buy_counts id id (u64 (c + 2 ^ 64 - 1)),
      length-set b.buy_counts id (u64 (c + 1)),
      length-set b.buy_counts id (u64 (c + 2 ^ 64 - 1)),
    )

-- A removal too many is never made good: from a valid book with no buy order of the instrument, after
-- that removal, two additions and one removal, one order rests and the book reports none.
pub spurious_removal :
    (b : AccountOrderBook) (id : ℕ)
    → IsValid b
    → id < max_instruments
    → resting b.buy_counts id ≡ 0
    → has_resting_buy (remove_buy (add_buy (add_buy (remove_buy b id) id) id) id) id ≡ false
spurious_removal b id v h empty =
    let after_one = remove_buy b id in
    let after_two = add_buy after_one id in
    let (_, _, count_one, size_one) = buy_count b id h v.buys.counters in
    let (count_two, size_two, _, _) = buy_count after_one id h size_one in
    let (count_three, _, _, _) = buy_count after_two id h size_two in
    remove_clears (add_buy after_two id) id h
      (omega (arith, count_one, count_two, count_three, empty))

pub new_book-IsValid : IsValid new_book
new_book-IsValid = record { buys = fresh; sells = fresh }
  where
    fresh : SideIsValid 0 (replicate max_instruments 0)
    fresh = record {
      counters = refl;
      marked = λ i h. ground (arith, zero_bits i, zero_counts max_instruments i);
    }
