-- ===== src/Gateways/FixParse/Soh.antt =====
-- The search for the delimiter in src/gateways/fix_protocol_engine.rs, with and without AVX2.
use mathlib.Core.Option
use backendofcryptotradingbo.Base.{
  ℕ, zero, suc, ◌+◌, ◌<◌, ◌≤◌, ◌≡◌, ◌≢◌, refl, ◌∙◌, ap, Bool, true, false, Option, none, some, List,
  [], ◌∷◌, length, arith,
}
use backendofcryptotradingbo.Base.Bytes.{take, drop}
use backendofcryptotradingbo.Gateways.FixParse.{
  fix_soh, position, soh_mask, trailing_zeros, soh_tail, soh_blocks, find_soh_simd,
}

-- A place counted from `i`
abbrev from : ℕ → Option ℕ → Option ℕ
from i place = Option.map (λ n. i + n) place

from_zero : (place : Option ℕ) → from 0 place ≡ place
from_zero none = refl
from_zero (some n) = ap some (omega arith)

soh_tail-position : (bytes : List ℕ) (i : ℕ) → soh_tail bytes i ≡ from i (position fix_soh bytes)
unfolding soh_tail position
soh_tail-position [] i = refl
soh_tail-position (b ∷ bytes) i = ground (arith, soh_tail-position bytes (i + 1))

-- A block whose mask is 0 is passed over.
soh_tail-drop :
    (n : ℕ) (bytes : List ℕ) (i : ℕ)
    → n ≤ length bytes
    → soh_mask (take n bytes) ≡ 0
    → soh_tail (drop n bytes) (i + n) ≡ soh_tail bytes i
unfolding soh_tail soh_mask
soh_tail-drop zero bytes i l e = ap (soh_tail bytes) (omega arith)
soh_tail-drop (suc n) [] i l e = absurd (omega arith)
soh_tail-drop (suc n) (b ∷ bytes) i l e =
    let next : i + 1 + n ≡ i + suc n = omega arith in
    ground (arith, next, soh_tail-drop n bytes (i + 1))

-- The lowest bit that is set in the mask of a block is the first delimiter.
soh_tail-mask :
    (n : ℕ) (bytes : List ℕ) (i : ℕ)
    → soh_mask (take n bytes) ≢ 0
    → soh_tail bytes i ≡ some (i + trailing_zeros n (soh_mask (take n bytes)))
unfolding soh_tail soh_mask trailing_zeros
soh_tail-mask zero bytes i e = absurd (e refl)
soh_tail-mask (suc n) [] i e = absurd (e refl)
soh_tail-mask (suc n) (b ∷ bytes) i e = ground (arith, soh_tail-mask n bytes (i + 1))

length-drop : (n : ℕ) (bytes : List ℕ) → n ≤ length bytes → length (drop n bytes) + n ≡ length bytes
length-drop zero bytes h = omega arith
length-drop (suc n) [] h = absurd (omega arith)
length-drop (suc n) (b ∷ bytes) h = omega (arith, length-drop n bytes (omega arith))

soh_blocks-tail :
    (fuel : ℕ) (bytes : List ℕ) (i : ℕ)
    → length bytes < fuel
    → soh_blocks fuel bytes i ≡ soh_tail bytes i
unfolding soh_blocks
soh_blocks-tail zero bytes i h = absurd (omega arith)
soh_blocks-tail (suc fuel) bytes i h = ground (
  arith,
  soh_tail-mask 32 bytes i,
  soh_tail-drop 32 bytes i,
  length-drop 32 bytes,
  soh_blocks-tail fuel (drop 32 bytes) (i + 32),
)

-- With and without AVX2, on bytes of any length, the search finds the first delimiter, or none if there
-- is none.
pub find_soh_simd_lem :
    (avx2 : Bool) (bytes : List ℕ) → find_soh_simd avx2 bytes ≡ position fix_soh bytes
unfolding find_soh_simd
find_soh_simd_lem true bytes =
    soh_blocks-tail (suc (length bytes)) bytes 0 (omega arith)
    ∙ soh_tail-position bytes 0
    ∙ from_zero (position fix_soh bytes)
find_soh_simd_lem false bytes = refl
