-- ===== src/Oms/Idempotency/Dedup.antt =====
-- The slots of the table of src/oms/idempotency_key.rs, and the bytes of a key.
use backendofcryptotradingbo.Base.{
  ℕ, zero, suc, ◌+◌, ◌*◌, ◌/◌, ◌%◌, ◌^◌, ◌≤◌, ◌<◌, ◌≡◌, ◌≢◌, refl, Bool, false, ◌||◌, List, ◌==◌,
  arith, get_or, get_or-set_ne,
}
use backendofcryptotradingbo.Oms.Idempotency.{
  IdempotencyKey, KeyEntry, IdempotencyGenerator, max_tracked_keys, new_entry, slot, probe,
  hash_key, check_and_mark_used, to_bytes, from_bytes,
}

-- Whether one of the slots that are tried is free or holds the key.
unfoldable pub has_slot : ℕ → ℕ → List KeyEntry → ℕ → ℕ → Bool
has_slot zero i entries bucket low = false
has_slot (suc n) i entries bucket low =
    let entry = get_or entries (slot bucket i) new_entry in
    entry.key == 0 || entry.key == low || has_slot n (suc i) entries bucket low

-- The loop leaves the slots of earlier rounds alone.
pub probe-before :
    (n i j : ℕ) (entries : List KeyEntry) (bucket low strategy_id now : ℕ)
    → j < i
    → i + n ≤ 16
    → get_or (probe n i entries bucket low strategy_id now).0 (slot bucket j) new_entry
      ≡ get_or entries (slot bucket j) new_entry
unfolding probe
probe-before zero i j entries bucket low strategy_id now h k = refl
probe-before (suc n) i j entries bucket low strategy_id now h k =
    let entry = get_or entries (slot bucket i) new_entry in
    let claimed : KeyEntry = record {
      key = low;
      timestamp = now;
      strategy_id = strategy_id;
      used = 1;
    } in
    let apart : slot bucket i ≢ slot bucket j = omega (arith, h, k) in
    ground (
      arith,
      get_or-set_ne entries (slot bucket i) (slot bucket j) claimed new_entry apart,
      get_or-set_ne entries (slot bucket i) (slot bucket j) (record entry { used = 1 }) new_entry
          apart,
      probe-before n (suc i) j entries bucket low strategy_id now (omega arith) (omega arith),
    )

probe-zero :
    (n i : ℕ) (entries : List KeyEntry) (bucket low strategy_id now : ℕ)
    → low ≡ 0
    → (probe n i entries bucket low strategy_id now).1 ≡ false
unfolding probe
probe-zero zero i entries bucket low strategy_id now e = refl
probe-zero (suc n) i entries bucket low strategy_id now e =
    ground (arith, probe-zero n (suc i) entries bucket low strategy_id now e)

-- A key whose low half is 0 is never reported as a duplicate, whatever the table holds: its
-- entry looks like a free one.
pub zero_low_undetected :
    (g : IdempotencyGenerator) (key : IdempotencyKey) (strategy_id now : ℕ)
    → key.low ≡ 0
    → (check_and_mark_used g key strategy_id now).1 ≡ false
unfolding check_and_mark_used
zero_low_undetected g key strategy_id now e =
    probe-zero 16 0 g.tracked_keys (hash_key key % max_tracked_keys) key.low strategy_id now e

word_bytes :
    (x : ℕ)
    → x < 2 ^ 64
    → x % 256
        + x / 2 ^ 8 % 256 * 2 ^ 8
        + x / 2 ^ 16 % 256 * 2 ^ 16
        + x / 2 ^ 24 % 256 * 2 ^ 24
        + x / 2 ^ 32 % 256 * 2 ^ 32
        + x / 2 ^ 40 % 256 * 2 ^ 40
        + x / 2 ^ 48 % 256 * 2 ^ 48
        + x / 2 ^ 56 % 256 * 2 ^ 56
      ≡ x
word_bytes x h = omega arith

-- The bytes of a key, read back, give the key, where both halves are 64-bit numbers.
pub from_bytes-to_bytes :
    (k : IdempotencyKey) → k.high < 2 ^ 64 → k.low < 2 ^ 64 → from_bytes (to_bytes k) ≡ k
unfolding from_bytes to_bytes
from_bytes-to_bytes k h l = ground (arith, word_bytes k.high h, word_bytes k.low l)
