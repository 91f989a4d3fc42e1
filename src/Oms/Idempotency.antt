-- ===== src/Oms/Idempotency.antt =====
-- src/oms/idempotency_key.rs: the keys of client orders, and the table that detects a second use.
-- Numbers are u64 unless a comment says otherwise; a reading of the cycle counter is an argument.
pub mod Clearing
pub mod Dedup
pub mod History
use Prim.Native.Nat.{bit_xor}
use backendofcryptotradingbo.Base.{
  ℕ, zero, suc, ◌+◌, ◌-◌, ◌*◌, ◌/◌, ◌%◌, ◌^◌, Bool, true, false, not, ◌&&◌, Option, none, some,
  List, [], ◌∷◌, ◌++◌, map, u64, ltb, ◌==◌, if◌then◌else◌, get_or, set, replicate,
}

abbrev pub max_tracked_keys : ℕ
max_tracked_keys = 65536

pub record IdempotencyKey : Type 0 where
  pub high : ℕ
  pub low : ℕ

-- `IdempotencyKey::zero`
abbrev pub zero_key : IdempotencyKey
zero_key = record { high = 0; low = 0 }

abbrev pub is_zero : IdempotencyKey → Bool
is_zero k = (k.high == 0) && (k.low == 0)

-- `to_le_bytes` and `from_le_bytes` of a u64
abbrev pub to_le_bytes : ℕ → List ℕ
to_le_bytes x =
    x % 256
    ∷ x / 2 ^ 8 % 256
    ∷ x / 2 ^ 16 % 256
    ∷ x / 2 ^ 24 % 256
    ∷ x / 2 ^ 32 % 256
    ∷ x / 2 ^ 40 % 256
    ∷ x / 2 ^ 48 % 256
    ∷ x / 2 ^ 56 % 256
    ∷ []

-- The number in the eight bytes from `i` on.
abbrev pub from_le_bytes : List ℕ → ℕ → ℕ
from_le_bytes bytes i =
    get_or bytes i 0
    + get_or bytes (i + 1) 0 * 2 ^ 8
    + get_or bytes (i + 2) 0 * 2 ^ 16
    + get_or bytes (i + 3) 0 * 2 ^ 24
    + get_or bytes (i + 4) 0 * 2 ^ 32
    + get_or bytes (i + 5) 0 * 2 ^ 40
    + get_or bytes (i + 6) 0 * 2 ^ 48
    + get_or bytes (i + 7) 0 * 2 ^ 56

unfoldable pub to_bytes : IdempotencyKey → List ℕ
to_bytes k = to_le_bytes k.high ++ to_le_bytes k.low

unfoldable pub from_bytes : List ℕ → IdempotencyKey
from_bytes bytes = record { high = from_le_bytes bytes 0; low = from_le_bytes bytes 8 }

pub record KeyEntry : Type 0 where
  pub key : ℕ  -- the low half
  pub timestamp : ℕ
  pub strategy_id : ℕ  -- u32
  pub used : ℕ  -- u32

abbrev pub new_entry : KeyEntry
new_entry = record { key = 0; timestamp = 0; strategy_id = 0; used = 0 }

pub record IdempotencyGenerator : Type 0 where
  pub strategy_counters : List ℕ  -- 256 of them
  pub tracked_keys : List KeyEntry  -- 65536 of them
  pub global_counter : ℕ
  pub session_id : ℕ
  pub start_time : ℕ

unfoldable pub new : IdempotencyGenerator
new = record {
  strategy_counters = replicate 256 0;
  tracked_keys = replicate max_tracked_keys new_entry;
  global_counter = 0;
  session_id = 0;
  start_time = 0;
}

unfoldable pub initialize : IdempotencyGenerator → ℕ → ℕ → IdempotencyGenerator
initialize g session_id now = record g { session_id = session_id; start_time = now }

abbrev rotate_left_13 : ℕ → ℕ
rotate_left_13 x = u64 (x * 2 ^ 13) + x / 2 ^ 51

abbrev rotate_right_7 : ℕ → ℕ
rotate_right_7 x = x / 2 ^ 7 + x % 2 ^ 7 * 2 ^ 57

unfoldable pub combine_hash : ℕ → ℕ → ℕ → ℕ
combine_hash a b c =
    let first = bit_xor (u64 (a * 0x9e3779b97f4a7c15)) (rotate_left_13 b) in
    let second = bit_xor (u64 (first * 0xbf58476d1ce4e5b9)) (rotate_right_7 c) in
    let third = u64 (second * 0x94d049bb133111eb) in bit_xor third (third / 2 ^ 31)

-- `generate_key`; a strategy past the counters is a panic, `none`.
unfoldable pub generate_key :
    IdempotencyGenerator → ℕ → ℕ → Option (IdempotencyGenerator × IdempotencyKey)
generate_key g strategy_id tsc =
    let seq = get_or g.strategy_counters strategy_id 0 in
    if ltb strategy_id 256
    then some (
      record g {
        strategy_counters = set g.strategy_counters strategy_id (u64 (seq + 1));
        global_counter = u64 (g.global_counter + 1);
      },
      record {
        high = combine_hash g.session_id strategy_id (tsc / 2 ^ 32);
        low = combine_hash seq g.global_counter tsc;
      },
    )
    else none

unfoldable pub generate_key_explicit : IdempotencyGenerator → ℕ → ℕ → ℕ → IdempotencyKey
generate_key_explicit g strategy_id sequence timestamp = record {
  high = combine_hash g.session_id strategy_id (timestamp / 2 ^ 32);
  low = combine_hash sequence strategy_id timestamp;
}

unfoldable pub hash_key : IdempotencyKey → ℕ
hash_key k = u64 (bit_xor k.high k.low * 0x9e3779b97f4a7c15)

abbrev pub slot : ℕ → ℕ → ℕ
slot bucket i = (bucket + i) % max_tracked_keys

-- The loop of `check_and_mark_used` with `n` rounds left, from round `i` on.
unfoldable pub probe : ℕ → ℕ → List KeyEntry → ℕ → ℕ → ℕ → ℕ → List KeyEntry × Bool
probe zero i entries bucket low strategy_id now = (entries, false)
probe (suc n) i entries bucket low strategy_id now =
    let entry = get_or entries (slot bucket i) new_entry in
    let rest = probe n (suc i) entries bucket low strategy_id now in
    if entry.key == 0
    then (
      set entries (slot bucket i)
          (record { key = low; timestamp = now; strategy_id = strategy_id; used = 1 }),
      false,
    )
    else if entry.key == low
    then if entry.used == 0
      then (set entries (slot bucket i) (record entry { used = 1 }), false)
      else (entries, true)
    else rest

unfoldable pub check_and_mark_used :
    IdempotencyGenerator → IdempotencyKey → ℕ → ℕ → IdempotencyGenerator × Bool
check_and_mark_used g key strategy_id now =
    let (entries, duplicate) =
      probe 16 0 g.tracked_keys (hash_key key % max_tracked_keys) key.low strategy_id now in
    (record g { tracked_keys = entries }, duplicate)

abbrev pub clear_entry : ℕ → ℕ → KeyEntry → KeyEntry
clear_entry now max_age entry =
    if not (entry.used == 0) && ltb max_age (now - entry.timestamp)
    then record entry { key = 0; used = 0 }
    else entry

unfoldable pub clear_old_entries : IdempotencyGenerator → ℕ → ℕ → IdempotencyGenerator
clear_old_entries g max_age now = record g {
  tracked_keys = map (clear_entry now max_age) g.tracked_keys;
}

unfoldable pub get_strategy_counter : IdempotencyGenerator → ℕ → Option ℕ
get_strategy_counter g i = if ltb i 256 then some (get_or g.strategy_counters i 0) else none

unfoldable pub reset_strategy_counter : IdempotencyGenerator → ℕ → Option IdempotencyGenerator
reset_strategy_counter g i =
    if ltb i 256 then some (record g { strategy_counters = set g.strategy_counters i 0 }) else none

count_used : List KeyEntry → ℕ
count_used [] = 0
count_used (e ∷ es) = if e.used == 0 then count_used es else count_used es + 1

unfoldable pub count_tracked_keys : IdempotencyGenerator → ℕ
unfolding count_used
count_tracked_keys g = count_used g.tracked_keys
