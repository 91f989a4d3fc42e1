-- ===== src/Base/Bits.antt =====
-- The bits of a machine word: `bit_and` and `bit_or` at one bit, single-bit masks, complements.
use Prim.Native.Nat.{
  ℕ, zero, suc, ◌+◌, ◌-◌, ◌*◌, ◌/◌, ◌%◌, ◌^◌, ◌≤◌, ◌<◌, min, max, digits, bitwise, bit_and, bit_or,
  bit_and-bitwise, bit_or-bitwise,
}
use mathlib.Core.Path.{◌≡◌, refl, ap}
use native.Mathlib.Nat.{pow-suc}
use native.Mathlib.Omega.{arith}

-- Bit `j`, as 0 or 1.
unfoldable pub bit_at : ℕ → ℕ → ℕ
bit_at x zero = x % 2
bit_at x (suc j) = bit_at (x / 2) j

-- All w-bit words are below 2 ^ w, and `!x` is the rest up to all ones.
abbrev pub complement : ℕ → ℕ → ℕ
complement w x = 2 ^ w - 1 - x

module _ (unit : ℕ → ℕ) (op : ℕ → ℕ → ℕ) where
  fuel_irrelevant : (n m a b : ℕ) → a ≤ n → a ≤ m → digits unit op n a b ≡ digits unit op m a b
  fuel_irrelevant zero zero a b p q = refl
  fuel_irrelevant zero (suc m) zero b p q = refl
  fuel_irrelevant zero (suc m) (suc a) b p q = absurd (omega arith)
  fuel_irrelevant (suc n) zero zero b p q = refl
  fuel_irrelevant (suc n) zero (suc a) b p q = absurd (omega arith)
  fuel_irrelevant (suc n) (suc m) zero b p q = refl
  fuel_irrelevant (suc n) (suc m) (suc a) b p q =
      rw (fuel_irrelevant n m (suc a / 2) (b / 2) (omega arith) (omega arith))

  pub lowest_bit :
      (a b : ℕ)
      → bitwise unit op (suc a) b ≡ bitwise unit op (suc a / 2) (b / 2) * 2 + op (suc a % 2) (b % 2)
  lowest_bit a b =
      omega (arith, fuel_irrelevant a (suc a / 2) (suc a / 2) (b / 2) (omega arith) (omega arith))

pub and-lowest : (a b : ℕ) → bit_and a b ≡ bit_and (a / 2) (b / 2) * 2 + min (a % 2) (b % 2)
and-lowest zero b = simp bit_and-bitwise (omega arith)
and-lowest (suc a) b = simp bit_and-bitwise (lowest_bit (λ y. 0) min a b)

or-lowest : (a b : ℕ) → bit_or a b ≡ bit_or (a / 2) (b / 2) * 2 + max (a % 2) (b % 2)
or-lowest zero b = simp bit_or-bitwise (omega arith)
or-lowest (suc a) b = simp bit_or-bitwise (lowest_bit (λ y. y) max a b)

pub bit_at-le : (x j : ℕ) → bit_at x j ≤ 1
unfolding bit_at
bit_at-le x zero = omega arith
bit_at-le x (suc j) = bit_at-le (x / 2) j

pub bit_at-bit_and : (a b j : ℕ) → bit_at (bit_and a b) j ≡ min (bit_at a j) (bit_at b j)
unfolding bit_at
bit_at-bit_and a b zero = omega (arith, and-lowest a b)
bit_at-bit_and a b (suc j) =
    let half : bit_and a b / 2 ≡ bit_and (a / 2) (b / 2) = omega (arith, and-lowest a b) in
    rw half (bit_at-bit_and (a / 2) (b / 2) j)

pub bit_at-bit_or : (a b j : ℕ) → bit_at (bit_or a b) j ≡ max (bit_at a j) (bit_at b j)
unfolding bit_at
bit_at-bit_or a b zero = omega (arith, or-lowest a b)
bit_at-bit_or a b (suc j) =
    let half : bit_or a b / 2 ≡ bit_or (a / 2) (b / 2) = omega (arith, or-lowest a b) in
    rw half (bit_at-bit_or (a / 2) (b / 2) j)

pub bit_at-zero : (j : ℕ) → bit_at 0 j ≡ 0
unfolding bit_at
bit_at-zero zero = refl
bit_at-zero (suc j) = bit_at-zero j

half_pow : (i : ℕ) → 2 ^ suc i / 2 ≡ 2 ^ i
half_pow i = omega (arith, pow-suc 2 i)

pub bit_at-pow_self : (i : ℕ) → bit_at (2 ^ i) i ≡ 1
unfolding bit_at
bit_at-pow_self zero = refl
bit_at-pow_self (suc i) = rw half_pow (bit_at-pow_self i)

pub bit_at-pow_ne : (i j : ℕ) → ¬ (i ≡ j) → bit_at (2 ^ i) j ≡ 0
unfolding bit_at
bit_at-pow_ne zero zero d = absurd (d refl)
bit_at-pow_ne zero (suc j) d = bit_at-zero j
bit_at-pow_ne (suc i) zero d = omega (arith, pow-suc 2 i)
bit_at-pow_ne (suc i) (suc j) d = rw half_pow (bit_at-pow_ne i j (λ e. d (omega arith)))

pub bit_at-complement : (w x j : ℕ) → x < 2 ^ w → j < w → bit_at (complement w x) j ≡ 1 - bit_at x j
unfolding bit_at
bit_at-complement zero x j h k = elim k [ ]
bit_at-complement (suc w) x zero h k = omega (arith, pow-suc 2 w)
bit_at-complement (suc w) x (suc j) h k =
    let halves : complement (suc w) x / 2 ≡ complement w (x / 2) = omega (arith, pow-suc 2 w) in
    rw halves (bit_at-complement w (x / 2) j (omega (arith, pow-suc 2 w)) (omega arith))

pub and-zero : (n a : ℕ) → a ≤ n → bit_and a 0 ≡ 0
and-zero n zero h = refl
and-zero zero (suc a) h = absurd (omega arith)
and-zero (suc n) (suc a) h =
    omega (arith, and-lowest (suc a) 0, and-zero n (suc a / 2) (omega arith))

-- Masking with a single bit leaves that bit in its place.
pub bit_and-pow : (x i : ℕ) → bit_and x (2 ^ i) ≡ bit_at x i * 2 ^ i
unfolding bit_at
bit_and-pow x zero = omega (arith, and-lowest x 1, and-zero (x / 2) (x / 2) (omega arith))
bit_and-pow x (suc i) = omega (
  arith,
  (rw half_pow at (and-lowest x (2 ^ suc i))),
  pow-suc 2 i,
  ap (λ (t : ℕ). bit_at (x / 2) i * t) (pow-suc 2 i),
  bit_and-pow (x / 2) i,
)

pub mask_step : (x m : ℕ) → bit_and x (2 * m + 1) ≡ bit_and (x / 2) m * 2 + x % 2
mask_step x m =
    let half : (2 * m + 1) / 2 ≡ m = omega arith in
    omega (arith, (rw half at (and-lowest x (2 * m + 1))))

bit_and_15 : (x : ℕ) → bit_and x 15 ≡ x % 16
bit_and_15 x = omega (
  arith,
  mask_step x 7,
  mask_step (x / 2) 3,
  mask_step (x / 2 / 2) 1,
  mask_step (x / 2 / 2 / 2) 0,
  and-zero (x / 2 / 2 / 2 / 2) (x / 2 / 2 / 2 / 2) (omega arith),
)

bit_and_255 : (x : ℕ) → bit_and x 255 ≡ x % 256
bit_and_255 x = omega (
  arith,
  mask_step x 127,
  mask_step (x / 2) 63,
  mask_step (x / 2 / 2) 31,
  mask_step (x / 2 / 2 / 2) 15,
  bit_and_15 (x / 2 / 2 / 2 / 2),
)

-- The mask of a ring of 4096 slots.
pub bit_and_4095 : (x : ℕ) → bit_and x 4095 ≡ x % 4096
bit_and_4095 x = omega (
  arith,
  mask_step x 2047,
  mask_step (x / 2) 1023,
  mask_step (x / 2 / 2) 511,
  mask_step (x / 2 / 2 / 2) 255,
  bit_and_255 (x / 2 / 2 / 2 / 2),
)

pub bit_and_1023 : (x : ℕ) → bit_and x 1023 ≡ x % 1024
bit_and_1023 x = omega (arith, mask_step x 511, mask_step (x / 2) 255, bit_and_255 (x / 2 / 2))
