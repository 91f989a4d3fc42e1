-- ===== src/Gateways/FixParse/Decimal.antt =====
-- The decimal numbers of src/gateways/fix_protocol_engine.rs.
use native.Mathlib.Nat.{div-eq_of_eq-mul_right, add-mul-mod_self_left, div-add-mod, pow-suc}
use backendofcryptotradingbo.Base.{
  ℕ, zero, suc, ◌+◌, ◌-◌, ◌*◌, ◌/◌, ◌%◌, ◌^◌, ◌<◌, ◌≤◌, ◌≡◌, refl, sym, ◌∙◌, ap, true, false, List,
  [], ◌∷◌, ◌++◌, u64, length, arith, All,
}
use backendofcryptotradingbo.Base.Bytes.{take}
use backendofcryptotradingbo.Gateways.FixParse.{
  DecimalParts, decimal_step, decimal_loop, parse_decimal_fixed,
}

-- A list of digits
abbrev pub Digits : List ℕ → Type 0
Digits bytes = All (λ b. (b'0' ≤ b) × (b ≤ b'9')) bytes

-- The number that digits stand for, after `n`
pub value_from : ℕ → List ℕ → ℕ
value_from n [] = n
value_from n (b ∷ bytes) = value_from (n * 10 + (b - b'0')) bytes

abbrev reading : ℕ → DecimalParts
reading n = record { int_part = u64 n; frac_part = 0; frac_divisor = 1; in_fraction = false }

abbrev fraction : ℕ → ℕ → ℕ → DecimalParts
fraction i f q = record { int_part = i; frac_part = u64 f; frac_divisor = q; in_fraction = true }

int_step :
    (n b : ℕ) → b'0' ≤ b → b ≤ b'9' → decimal_step (reading n) b ≡ reading (n * 10 + (b - b'0'))
unfolding decimal_step
int_step n b l h = ground arith

reading-loop :
    (n : ℕ) (bytes rest : List ℕ)
    → Digits bytes
    → decimal_loop (reading n) (bytes ++ rest) ≡ decimal_loop (reading (value_from n bytes)) rest
unfolding decimal_loop value_from
reading-loop n [] rest h = refl
reading-loop n (b ∷ bytes) rest h =
    ap (λ d. decimal_loop d (bytes ++ rest)) (int_step n b h.0.0 h.0.1)
    ∙ reading-loop (n * 10 + (b - b'0')) bytes rest h.1

-- The result after the loop
abbrev finish : DecimalParts → ℕ
finish d = u64 (u64 (d.int_part * 100_000_000) + u64 (d.frac_part * (100_000_000 / d.frac_divisor)))

frac_step :
    (i f q b : ℕ)
    → b'0' ≤ b
    → b ≤ b'9'
    → q < 100_000_000
    → decimal_step (fraction i f q) b ≡ fraction i (f * 10 + (b - b'0')) (q * 10)
unfolding decimal_step
frac_step i f q b l h small = ground arith

frac_full :
    (i f b : ℕ)
    → b'0' ≤ b
    → b ≤ b'9'
    → decimal_step (fraction i f 100_000_000) b ≡ fraction i f 100_000_000
unfolding decimal_step
frac_full i f b l h = ground arith

quotient : (q m : ℕ) → q * m ≡ 100_000_000 → 100_000_000 / q ≡ m
quotient zero m e = absurd (omega (arith, e))
quotient (suc q) m e = div-eq_of_eq-mul_right (omega arith) (sym e)

mod-mul : (f m w : ℕ) → f % w * m % w ≡ f * m % w
mod-mul f m w =
    let whole = div-add-mod f w in
    let spread : f % w * m + w * (f / w * m) ≡ f * m = grind (arith, ap (λ t. t * m) whole) in
    sym (add-mul-mod_self_left (f % w * m) w (f / w * m)) ∙ ap (λ t. t % w) spread

finish_lem :
    (i f q m : ℕ) → q * m ≡ 100_000_000 → finish (fraction i f q) ≡ u64 (i * 100_000_000 + f * m)
finish_lem i f q m e =
    let scaled = mod-mul f m (2 ^ 64) in rw (quotient q m e) (omega (arith, scaled))

lt_of_mul : (q m : ℕ) → q * 10 * m ≡ 100_000_000 → q < 100_000_000
lt_of_mul q zero e = absurd (omega (arith, e))
lt_of_mul q (suc m) e = grind (arith, e)

swap : (q m : ℕ) → q * 10 * m ≡ q * (m * 10)
swap q m = grind arith

point :
    (n : ℕ) (rest : List ℕ)
    → decimal_loop (reading n) (b'.' ∷ rest) ≡ decimal_loop (fraction (u64 n) 0 1) rest
unfolding decimal_loop decimal_step
point n rest = refl

-- At most `left` digits of the fraction are read.
finish-fraction :
    (left i f q : ℕ) (bytes : List ℕ)
    → q * 10 ^ left ≡ 100_000_000
    → Digits bytes
    → finish (decimal_loop (fraction i f q) bytes)
      ≡ u64 (
          i * 100_000_000 + value_from f (take left bytes) * 10 ^ (left - length (take left bytes)))
unfolding decimal_loop value_from
finish-fraction zero i f q [] e h = finish_lem i f q 1 (omega (arith, e))
finish-fraction zero i f q (b ∷ bytes) e h =
    let full : q ≡ 100_000_000 = omega (arith, e) in
    ap (λ p. finish (decimal_loop (decimal_step (fraction i f p) b) bytes)) full
    ∙ ap (λ d. finish (decimal_loop d bytes)) (frac_full i f b h.0.0 h.0.1)
    ∙ finish-fraction zero i f 100_000_000 bytes refl h.1
finish-fraction (suc left) i f q [] e h =
    finish_lem i f q (10 ^ suc left) e ∙ ap (λ k. u64 (i * 100_000_000 + f * 10 ^ k)) (omega arith)
finish-fraction (suc left) i f q (b ∷ bytes) e h =
    let power : 10 ^ suc left ≡ 10 ^ left * 10 = pow-suc 10 left in
    let next : q * 10 * 10 ^ left ≡ 100_000_000 =
      swap q (10 ^ left) ∙ ap (λ t. q * t) (sym power) ∙ e in
    let small : q < 100_000_000 = lt_of_mul q (10 ^ left) next in
    ap (λ d. finish (decimal_loop d bytes)) (frac_step i f q b h.0.0 h.0.1 small)
    ∙ finish-fraction left i (f * 10 + (b - b'0')) (q * 10) bytes next h.1
    ∙ ap (λ k. u64 (i * 100_000_000 + value_from (f * 10 + (b - b'0')) (take left bytes) * 10 ^ k))
        (omega arith)

-- Digits, a point and digits are read as the number that they stand for, times 10^8 and modulo 2^64:
-- exactly for up to eight digits after the point, and cut off after the eighth.
pub parse_decimal_fixed_lem :
    (whole fraction : List ℕ)
    → Digits whole
    → Digits fraction
    → parse_decimal_fixed (whole ++ b'.' ∷ fraction)
      ≡ u64 (
          value_from 0 whole * 10 ^ 8
          + value_from 0 (take 8 fraction) * 10 ^ (8 - length (take 8 fraction)))
unfolding parse_decimal_fixed
parse_decimal_fixed_lem whole fraction h k =
    let start = reading-loop 0 whole (b'.' ∷ fraction) h ∙ point (value_from 0 whole) fraction in
    ap (λ (d : DecimalParts). finish d) start
    ∙ finish-fraction 8 (u64 (value_from 0 whole)) 0 1 fraction refl k
    ∙ omega arith
