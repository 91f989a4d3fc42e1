-- ===== src/Base/Lanes.antt =====
-- The registers of the AVX2 intrinsics, by their documented meaning.
use Prim.Native.Nat.{ℕ, zero, suc, ◌+◌, ◌*◌, ◌/◌, ◌%◌}
use backendofcryptotradingbo.Base.Bits.{bit_at}

-- Four u64 lanes of a 256-bit register.
pub record Lanes : Type 0 where
  pub lane0 : ℕ
  pub lane1 : ℕ
  pub lane2 : ℕ
  pub lane3 : ℕ

abbrev pub lane : Lanes → ℕ → ℕ
lane v zero = v.lane0
lane v (suc zero) = v.lane1
lane v (suc (suc zero)) = v.lane2
lane v _ = v.lane3

-- Bit `n` of `_mm256_movemask_epi8`: the highest bit of byte `n` of the register, which is byte
-- `n % 8` of lane `n / 8`.
unfoldable pub movemask_epi8_bit : Lanes → ℕ → ℕ
movemask_epi8_bit v n = bit_at (lane v (n / 8)) (8 * (n % 8) + 7)

pub record Four {ℓ} (A : Type ℓ) : Type ℓ where
  pub at0 : A
  pub at1 : A
  pub at2 : A
  pub at3 : A
