-- ===== src/Base/Masks.antt =====
-- The exclusive or of words, and masks of ones above zeros.
use Prim.Native.Nat.{
  ℕ, zero, suc, ◌+◌, ◌-◌, ◌*◌, ◌/◌, ◌%◌, ◌^◌, ◌≤◌, ◌<◌, bit_and, bit_xor, differ, bit_and-bitwise,
  bit_xor-bitwise,
}
use mathlib.Core.Path.{◌≡◌, refl, ap, sym, ◌∙◌}
use native.Mathlib.Nat.{pow-suc, div-div-eq-div-mul}
use native.Mathlib.Omega.{arith}
use backendofcryptotradingbo.Base.Bits.{lowest_bit, and-lowest, and-zero, mask_step}

xor-lowest : (a b : ℕ) → bit_xor a b ≡ bit_xor (a / 2) (b / 2) * 2 + differ (a % 2) (b % 2)
xor-lowest zero b = simp bit_xor-bitwise (omega arith)
xor-lowest (suc a) b = simp bit_xor-bitwise (lowest_bit (λ y. y) differ a b)

differ-zero : (x y : ℕ) → differ x y ≡ 0 → x ≡ y
differ-zero zero y h = sym h
differ-zero (suc x) zero h = h
differ-zero (suc x) (suc y) h = ap suc (differ-zero x y h)

differ_self : (x : ℕ) → differ x x ≡ 0
differ_self zero = refl
differ_self (suc x) = differ_self x

zero_xor : (b : ℕ) → bit_xor 0 b ≡ b
zero_xor b = simp bit_xor-bitwise refl

differ-le : (x y : ℕ) → x ≤ 1 → y ≤ 1 → differ x y ≤ 1
differ-le zero y h k = k
differ-le (suc x) zero h k = h
differ-le (suc zero) (suc zero) h k = omega arith
differ-le (suc zero) (suc (suc y)) h k = absurd (omega arith)
differ-le (suc (suc x)) (suc y) h k = absurd (omega arith)

pub xor-lt : (n a b : ℕ) → a < 2 ^ n → b < 2 ^ n → bit_xor a b < 2 ^ n
xor-lt zero zero b h k = omega (arith, zero_xor b)
xor-lt zero (suc a) b h k = absurd (omega arith)
xor-lt (suc n) a b h k =
    let halves =
      xor-lt n (a / 2) (b / 2) (omega (arith, pow-suc 2 n)) (omega (arith, pow-suc 2 n)) in
    omega (
      arith,
      xor-lowest a b,
      halves,
      differ-le (a % 2) (b % 2) (omega arith) (omega arith),
      pow-suc 2 n,
    )

xor-zero_below : (n a b : ℕ) → a ≤ n → bit_xor a b ≡ 0 → a ≡ b
xor-zero_below n zero b h e = omega (arith, zero_xor b, e)
xor-zero_below zero (suc a) b h e = absurd (omega arith)
xor-zero_below (suc n) (suc a) b h e =
    let low = xor-lowest (suc a) b in
    let same = differ-zero (suc a % 2) (b % 2) (omega (arith, low, e)) in
    omega (arith, same, xor-zero_below n (suc a / 2) (b / 2) (omega arith) (omega (arith, low, e)))

-- The exclusive or of two words is 0 only for equal words.
pub xor-zero : (a b : ℕ) → bit_xor a b ≡ 0 → a ≡ b
xor-zero a b e = xor-zero_below a a b (omega arith) e

xor_self_below : (n a : ℕ) → a ≤ n → bit_xor a a ≡ 0
xor_self_below n zero h = refl
xor_self_below zero (suc a) h = absurd (omega arith)
xor_self_below (suc n) (suc a) h = omega (
  arith,
  xor-lowest (suc a) (suc a),
  differ_self (suc a % 2),
  xor_self_below n (suc a / 2) (omega arith),
)

pub xor_self : (a : ℕ) → bit_xor a a ≡ 0
xor_self a = xor_self_below a a (omega arith)

and-le_below : (n a b : ℕ) → a ≤ n → bit_and a b ≤ a
and-le_below n zero b h = simp bit_and-bitwise (omega arith)
and-le_below zero (suc a) b h = absurd (omega arith)
and-le_below (suc n) (suc a) b h =
    omega (arith, and-lowest (suc a) b, and-le_below n (suc a / 2) (b / 2) (omega arith))

pub and-le : (a b : ℕ) → bit_and a b ≤ a
and-le a b = and-le_below a a b (omega arith)

pub pow-pos : (j : ℕ) → 0 < 2 ^ j
pow-pos zero = omega arith
pow-pos (suc j) = omega (arith, pow-suc 2 j, pow-pos j)

-- A word is itself under a mask of ones.
and-ones : (j x : ℕ) → x < 2 ^ j → bit_and x (2 ^ j - 1) ≡ x
and-ones zero x h = omega (arith, and-zero x x (omega arith))
and-ones (suc j) x h =
    let mask : 2 ^ suc j - 1 ≡ 2 * (2 ^ j - 1) + 1 = omega (arith, pow-suc 2 j, pow-pos j) in
    rw mask
      (omega (arith, mask_step x (2 ^ j - 1), and-ones j (x / 2) (omega (arith, pow-suc 2 j))))

and-even : (x m : ℕ) → bit_and x (2 * m) ≡ bit_and (x / 2) m * 2
and-even x m =
    let half : 2 * m / 2 ≡ m = omega arith in omega (arith, (rw half at (and-lowest x (2 * m))))

-- A mask of `j` ones above `k` zeros takes the lowest `k` bits away.
pub and-high : (k j x : ℕ) → x < 2 ^ (j + k) → bit_and x (2 ^ (j + k) - 2 ^ k) ≡ x / 2 ^ k * 2 ^ k
and-high zero j x h =
    let e : j + 0 ≡ j = omega arith in rw e (omega (arith, and-ones j x (rw e at h)))
and-high (suc k) j x h =
    let e : j + suc k ≡ suc (j + k) = omega arith in
    let twice = pow-suc 2 k in
    let twice_all = pow-suc 2 (j + k) in
    let mask : 2 ^ suc (j + k) - 2 ^ suc k ≡ 2 * (2 ^ (j + k) - 2 ^ k) =
      omega (arith, twice, twice_all) in
    let below : x / 2 < 2 ^ (j + k) = omega (arith, twice_all, (rw e at h)) in
    let rest = and-high k j (x / 2) below in
    let even = and-even x (2 ^ (j + k) - 2 ^ k) in
    let nested : x / 2 ^ suc k ≡ x / 2 / 2 ^ k =
      ap (λ m. x / m) (omega (arith, twice)) ∙ sym (div-div-eq-div-mul x 2 (2 ^ k)) in
    let value : x / 2 / 2 ^ k * 2 ^ suc k ≡ x / 2 / 2 ^ k * 2 ^ k * 2 = rw twice (grind arith) in
    rw (e, mask, nested) (omega (arith, even, rest, value))
