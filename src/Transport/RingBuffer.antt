-- ===== src/Transport/RingBuffer.antt =====
-- src/transport/ring_buffer.rs: the single-producer single-consumer ring, called from one thread at a
-- time. `head` and `tail` are `AtomicUsize` counters that wrap at 2 ^ 64. The item type is any type
-- with a zeroed value.
pub mod Refine
pub mod Spsc
use Prim.Native.Nat.{bit_and}
use backendofcryptotradingbo.Base.{
  ℕ, ◌+◌, ◌-◌, ◌^◌, Bool, Option, none, some, List, u64, leb, ◌==◌, if◌then◌else◌, get_or, set,
  replicate,
}

abbrev pub capacity : ℕ
capacity = 4096

abbrev pub mask : ℕ
mask = capacity - 1

-- `wrapping_sub` of usize
abbrev pub wrapping_sub : ℕ → ℕ → ℕ
wrapping_sub a b = u64 (a + 2 ^ 64 - b)

pub record RingBuffer {ℓ} (A : Type ℓ) : Type ℓ where
  pub buffer : List A
  pub head : ℕ
  pub tail : ℕ

-- `Ok(())`, or the item that did not fit.
pub data RingResult {ℓ} (A : Type ℓ) : Type ℓ where
  ok : RingResult A
  err : A → RingResult A

module _ {ℓ} {A : Type ℓ} (zeroed : A) where
  unfoldable pub new : RingBuffer A
  new = record { buffer = replicate capacity zeroed; head = 0; tail = 0 }

  unfoldable pub push : RingBuffer A → A → RingBuffer A × RingResult A
  push r item = if leb capacity (wrapping_sub r.head r.tail) then (r, err item) else (
    record r { buffer = set r.buffer (bit_and r.head mask) item; head = u64 (r.head + 1) },
    ok,
  )

  unfoldable pub pop : RingBuffer A → RingBuffer A × Option A
  pop r = if r.tail == r.head then (r, none) else (
    record r { tail = u64 (r.tail + 1) },
    some (get_or r.buffer (bit_and r.tail mask) zeroed),
  )

unfoldable pub is_empty {ℓ} : {A : Type ℓ} → RingBuffer A → Bool
is_empty r = r.head == r.tail

unfoldable pub size {ℓ} : {A : Type ℓ} → RingBuffer A → ℕ
size r = wrapping_sub r.head r.tail
