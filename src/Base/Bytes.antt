-- ===== src/Base/Bytes.antt =====
-- Little-endian bytes, and slices of byte buffers.
use Prim.Native.Nat.{ℕ, zero, suc, ◌+◌, ◌*◌, ◌/◌, ◌%◌, ◌^◌, ◌≤◌, ◌<◌}
use mathlib.Core.Path.{◌≡◌, refl, ap, ◌∙◌}
use mathlib.Core.List.{List, [], ◌∷◌, ◌++◌}
use native.Mathlib.Omega.{arith}
use backendofcryptotradingbo.Base.Lists.{length, set, length-append}

module _ {ℓ} {A : Type ℓ} where
  abbrev pub take : ℕ → List A → List A
  take zero xs = []
  take (suc n) [] = []
  take (suc n) (x ∷ xs) = x ∷ take n xs

  abbrev pub drop : ℕ → List A → List A
  drop zero xs = xs
  drop (suc n) [] = []
  drop (suc n) (x ∷ xs) = drop n xs

  -- `buffer[p..p + bytes.len()].copy_from_slice(bytes)`, where the slice is in range.
  abbrev pub write : List A → ℕ → List A → List A
  write [] p bytes = []
  write (x ∷ xs) zero [] = x ∷ xs
  write (x ∷ xs) zero (b ∷ bytes) = b ∷ write xs zero bytes
  write (x ∷ xs) (suc p) bytes = x ∷ write xs p bytes

  pub length-write : (xs : List A) (p : ℕ) (bytes : List A) → length (write xs p bytes) ≡ length xs
  length-write [] p bytes = refl
  length-write (x ∷ xs) zero [] = refl
  length-write (x ∷ xs) zero (b ∷ bytes) = ap suc (length-write xs zero bytes)
  length-write (x ∷ xs) (suc p) bytes = ap suc (length-write xs p bytes)

  -- What is written at `p` follows what the first `p` bytes were.
  pub take-write :
      (xs : List A) (p n : ℕ) (bytes : List A)
      → n ≡ p + length bytes
      → n ≤ length xs
      → take n (write xs p bytes) ≡ take p xs ++ bytes
  take-write [] zero zero [] e h = refl
  take-write [] zero zero (b ∷ bytes) e h = absurd (omega arith)
  take-write [] (suc p) zero bytes e h = absurd (omega arith)
  take-write [] p (suc n) bytes e h = absurd (omega arith)
  take-write (x ∷ xs) zero zero [] e h = refl
  take-write (x ∷ xs) zero zero (b ∷ bytes) e h = absurd (omega arith)
  take-write (x ∷ xs) zero (suc n) [] e h = absurd (omega arith)
  take-write (x ∷ xs) zero (suc n) (b ∷ bytes) e h =
      ap (λ l. b ∷ l) (take-write xs zero n bytes (omega arith) (omega arith))
  take-write (x ∷ xs) (suc p) zero bytes e h = absurd (omega arith)
  take-write (x ∷ xs) (suc p) (suc n) bytes e h =
      ap (λ l. x ∷ l) (take-write xs p n bytes (omega arith) (omega arith))

module _ {ℓ} {A : Type ℓ} where
  pub set-eq-write : (xs : List A) (p : ℕ) (b : A) → set xs p b ≡ write xs p (b ∷ [])
  set-eq-write [] p b = refl
  set-eq-write (x ∷ []) zero b = refl
  set-eq-write (x ∷ y ∷ xs) zero b = refl
  set-eq-write (x ∷ xs) (suc p) b = ap (λ l. x ∷ l) (set-eq-write xs p b)

  -- A buffer of a size, and what its first bytes are.
  pub record StartsWith (size : ℕ) (xs done : List A) : Type ℓ where
    pub sized : length xs ≡ size
    pub starts : take (length done) xs ≡ done

  pub write-StartsWith :
      (size : ℕ) (xs done bytes : List A)
      → StartsWith size xs done
      → length done + length bytes ≤ size
      → StartsWith size (write xs (length done) bytes) (done ++ bytes)
  write-StartsWith size xs done bytes s h = record {
    sized = length-write xs (length done) bytes ∙ s.sized;
    starts =
        take-write xs (length done) (length (done ++ bytes)) bytes (length-append done bytes)
          (omega (arith, length-append done bytes, s.sized))
        ∙ ap (λ l. l ++ bytes) s.starts;
  }

-- `to_le_bytes` of a number of `n` bytes
abbrev pub le_bytes : ℕ → ℕ → List ℕ
le_bytes zero x = []
le_bytes (suc n) x = x % 256 ∷ le_bytes n (x / 256)

-- `from_le_bytes` of the first `n` bytes; a byte past the end counts as 0.
abbrev pub from_le : ℕ → List ℕ → ℕ
from_le zero bytes = 0
from_le (suc n) [] = 0
from_le (suc n) (b ∷ bytes) = b + 256 * from_le n bytes

pub from_le-le_bytes :
    (n x : ℕ) (rest : List ℕ) → x < 256 ^ n → from_le n (le_bytes n x ++ rest) ≡ x
from_le-le_bytes zero x rest h = omega arith
from_le-le_bytes (suc n) x rest h =
    let power : 256 ^ suc n ≡ 256 * 256 ^ n = ground arith in
    let fits : x / 256 < 256 ^ n = omega (arith, power, h) in
    let inner = from_le-le_bytes n (x / 256) rest fits in omega (arith, inner)

-- A number inside the bytes is not changed by what follows them.
pub from_le-append :
    (n p : ℕ) (xs ys : List ℕ)
    → p + n ≤ length xs
    → from_le n (drop p (xs ++ ys)) ≡ from_le n (drop p xs)
from_le-append zero p xs ys h = refl
from_le-append (suc n) zero [] ys h = absurd (omega arith)
from_le-append (suc n) zero (x ∷ xs) ys h =
    ap (λ r. x + 256 * r) (from_le-append n zero xs ys (omega arith))
from_le-append (suc n) (suc p) [] ys h = absurd (omega arith)
from_le-append (suc n) (suc p) (x ∷ xs) ys h = from_le-append (suc n) p xs ys (omega arith)
