-- ===== src/Oms/Stp/Simd.antt =====
-- The two ways in which src/oms/self_trade_prevention.rs checks four accounts at once.
use Prim.Native.Nat.{bit_and}
use backendofcryptotradingbo.Base.{ℕ, ◌%◌, ◌^◌, ◌≡◌, Bool, false, not, ◌&&◌, ltb, ◌==◌, arith}
use backendofcryptotradingbo.Base.Bits.{
  bit_at, bit_at-le, bit_at-bit_and, bit_at-pow_self, bit_at-pow_ne,
}
use backendofcryptotradingbo.Base.Lanes.{Four}
use backendofcryptotradingbo.Oms.Stp.{
  StpEngine, OrderDirection, max_subaccounts, book_of, loaded_mask, check_cross_account_stp_avx2,
  check_cross_account_stp_simd, check_single_account_stp,
}
use backendofcryptotradingbo.Oms.Stp.Book.{IsValid}
use backendofcryptotradingbo.Oms.Stp.Engine.{opposite, has_conflict_lem}

-- One bit of the masked register, as the code extracts it.
extracted : (m i j : ℕ) → (bit_at (bit_and m (2 ^ i)) j == 1) ≡ ((i == j) && (bit_at m j == 1))
extracted m i j =
    ground (arith, bit_at-bit_and m (2 ^ i) j, bit_at-pow_self i, bit_at-pow_ne i j, bit_at-le m j)

-- With AVX2, all four answers are about the first account, and each about one instrument alone: the
-- k-th is true exactly when the instrument is 7 + 16 * k modulo 64 and the first account, if in range,
-- has that bit of the opposite side.
pub avx2_lem :
    (e : StpEngine) (id : ℕ) (d : OrderDirection) (accounts : Four ℕ)
    → let r = check_cross_account_stp_avx2 e id d accounts in
      let first = loaded_mask e d accounts.at0 in
      (r.at0 ≡ ((id % 64 == 7) && (bit_at first 7 == 1)))
      × (r.at1 ≡ ((id % 64 == 23) && (bit_at first 23 == 1)))
      × (r.at2 ≡ ((id % 64 == 39) && (bit_at first 39 == 1)))
      × (r.at3 ≡ ((id % 64 == 55) && (bit_at first 55 == 1)))
unfolding check_cross_account_stp_avx2
avx2_lem e id d accounts =
    let m = loaded_mask e d accounts.at0 in
    (
      extracted m (id % 64) 7,
      extracted m (id % 64) 23,
      extracted m (id % 64) 39,
      extracted m (id % 64) 55,
    )

-- What the check should say of one account.
abbrev pub should_conflict : StpEngine → ℕ → OrderDirection → ℕ → Bool
should_conflict e id d account =
    ltb account max_subaccounts && not (opposite (book_of e account) id d == 0)

single :
    (e : StpEngine) (id account : ℕ) (d : OrderDirection)
    → IsValid (book_of e account)
    → check_single_account_stp e account id d ≡ should_conflict e id d account
unfolding check_single_account_stp
single e id account d v = ground (arith, has_conflict_lem (book_of e account) id d v)

-- Without AVX2, each answer tells whether its own account, if in range, has an order resting on the
-- opposite side of the instrument, where the four books are valid.
pub scalar_lem :
    (e : StpEngine) (id : ℕ) (d : OrderDirection) (accounts : Four ℕ)
    → IsValid (book_of e accounts.at0)
    → IsValid (book_of e accounts.at1)
    → IsValid (book_of e accounts.at2)
    → IsValid (book_of e accounts.at3)
    → let r = check_cross_account_stp_simd false e id d accounts in
      (r.at0 ≡ should_conflict e id d accounts.at0)
      × (r.at1 ≡ should_conflict e id d accounts.at1)
      × (r.at2 ≡ should_conflict e id d accounts.at2)
      × (r.at3 ≡ should_conflict e id d accounts.at3)
unfolding check_cross_account_stp_simd
scalar_lem e id d accounts first second third fourth = (
  single e id accounts.at0 d first,
  single e id accounts.at1 d second,
  single e id accounts.at2 d third,
  single e id accounts.at3 d fourth,
)
