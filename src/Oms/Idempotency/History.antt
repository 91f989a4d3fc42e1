-- ===== src/Oms/Idempotency/History.antt =====
-- A key in the table of src/oms/idempotency_key.rs while other keys are checked.
use backendofcryptotradingbo.Base.{
  ℕ, zero, suc, ◌+◌, ◌%◌, ◌≤◌, ◌<◌, ◌≡◌, ◌≢◌, refl, inl, inr, Bool, true, false, not, List, [], ◌∷◌,
  ◌==◌, if◌then◌else◌, arith, Bool-cases, set, get_or, length, get_or-set_self,
}
use backendofcryptotradingbo.Oms.Idempotency.{
  IdempotencyKey, KeyEntry, IdempotencyGenerator, max_tracked_keys, new_entry, slot, probe,
  hash_key, check_and_mark_used,
}
use backendofcryptotradingbo.Oms.Idempotency.Dedup.{has_slot, probe-before}

-- Whether the loop finds the key as used, in front of every free slot
unfoldable pub is_marked : ℕ → ℕ → List KeyEntry → ℕ → ℕ → Bool
is_marked zero i entries bucket low = false
is_marked (suc n) i entries bucket low =
    let entry = get_or entries (slot bucket i) new_entry in
    let rest = is_marked n (suc i) entries bucket low in
    if entry.key == 0 then false else if entry.key == low then not (entry.used == 0) else rest

pub probe-marked :
    (n i : ℕ) (entries : List KeyEntry) (bucket low strategy_id now : ℕ)
    → is_marked n i entries bucket low ≡ true
    → probe n i entries bucket low strategy_id now ≡ (entries, true)
unfolding is_marked probe
probe-marked zero i entries bucket low strategy_id now e = cc
probe-marked (suc n) i entries bucket low strategy_id now e =
    ground (arith, probe-marked n (suc i) entries bucket low strategy_id now)

-- After a check of a key that has a slot the key is marked.
probe-is_marked :
    (n i : ℕ) (entries : List KeyEntry) (bucket low strategy_id now : ℕ)
    → low ≢ 0
    → length entries ≡ max_tracked_keys
    → i + n ≤ 16
    → has_slot n i entries bucket low ≡ true
    → is_marked n i (probe n i entries bucket low strategy_id now).0 bucket low ≡ true
unfolding is_marked probe has_slot
probe-is_marked zero i entries bucket low strategy_id now pos whole bound found = cc
probe-is_marked (suc n) i entries bucket low strategy_id now pos whole bound found =
    let entry = get_or entries (slot bucket i) new_entry in
    let claimed : KeyEntry = record {
      key = low;
      timestamp = now;
      strategy_id = strategy_id;
      used = 1;
    } in
    let within : slot bucket i < length entries = omega (arith, whole) in
    ground (
      arith,
      get_or-set_self entries (slot bucket i) claimed new_entry within,
      get_or-set_self entries (slot bucket i) (record entry { used = 1 }) new_entry within,
      probe-before n (suc i) i entries bucket low strategy_id now (omega arith) (omega arith),
      probe-is_marked n (suc i) entries bucket low strategy_id now pos whole (omega arith),
    )

-- An entry with a key keeps it, and stays used.
record IsKept (e e' : KeyEntry) : Type 0 where
  same_key : e.key ≢ 0 → e'.key ≡ e.key
  still_used : e.key ≢ 0 → e.used ≢ 0 → e'.used ≢ 0

IsKept-refl : (e : KeyEntry) → IsKept e e
IsKept-refl e = record { same_key = λ k. refl; still_used = λ k u. u }

set-IsKept :
    (entries : List KeyEntry) (i idx : ℕ) (e : KeyEntry)
    → IsKept (get_or entries i new_entry) e
    → IsKept (get_or entries idx new_entry) (get_or (set entries i e) idx new_entry)
set-IsKept [] i idx e k = IsKept-refl new_entry
set-IsKept (x ∷ xs) zero zero e k = k
set-IsKept (x ∷ xs) zero (suc idx) e k = IsKept-refl (get_or xs idx new_entry)
set-IsKept (x ∷ xs) (suc i) zero e k = IsKept-refl x
set-IsKept (x ∷ xs) (suc i) (suc idx) e k = set-IsKept xs i idx e k

probe-IsKept :
    (n i : ℕ) (entries : List KeyEntry) (bucket low strategy_id now idx : ℕ)
    → IsKept
        (get_or entries idx new_entry)
        (get_or (probe n i entries bucket low strategy_id now).0 idx new_entry)
unfolding probe
probe-IsKept zero i entries bucket low strategy_id now idx =
    IsKept-refl (get_or entries idx new_entry)
probe-IsKept (suc n) i entries bucket low strategy_id now idx =
    let entry = get_or entries (slot bucket i) new_entry in
    let rest = probe-IsKept n (suc i) entries bucket low strategy_id now idx in
    elim (Bool-cases (entry.key == 0)) [
      | inl free ↦ rw free (
          set-IsKept entries (slot bucket i) idx _ (record {
            same_key = λ k. absurd (k (ground (arith, free)));
            still_used = λ k u. absurd (k (ground (arith, free)));
          }))
      | inr taken ↦ elim (Bool-cases (entry.key == low)) [
        | inl this ↦ elim (Bool-cases (entry.used == 0)) [
          | inl unused ↦
              rw (taken, this, unused)
                (set-IsKept entries (slot bucket i) idx _ (record {
                  same_key = λ k. refl;
                  still_used = λ k u. absurd (u (ground (arith, unused)));
                }))
          | inr used ↦ rw (taken, this, used) (IsKept-refl (get_or entries idx new_entry))
        ]
        | inr other ↦ rw (taken, other) rest
      ]
    ]

-- A key stays marked where the entries are kept.
is_marked-IsKept :
    (n i : ℕ) (entries entries' : List KeyEntry) (bucket low : ℕ)
    → ((idx : ℕ) → IsKept (get_or entries idx new_entry) (get_or entries' idx new_entry))
    → is_marked n i entries bucket low ≡ true
    → is_marked n i entries' bucket low ≡ true
unfolding is_marked
is_marked-IsKept zero i entries entries' bucket low kept e = e
is_marked-IsKept (suc n) i entries entries' bucket low kept e =
    let here = kept (slot bucket i) in
    let rest = is_marked-IsKept n (suc i) entries entries' bucket low kept in
    ground (arith, here.same_key, here.still_used, rest)

-- A check of a key by a strategy at a time
pub record Check : Type 0 where
  pub key : IdempotencyKey
  pub strategy_id : ℕ
  pub now : ℕ

unfoldable pub run : IdempotencyGenerator → List Check → IdempotencyGenerator
run g [] = g
run g (c ∷ cs) = run (check_and_mark_used g c.key c.strategy_id c.now).0 cs

abbrev pub IsMarked : IdempotencyGenerator → IdempotencyKey → Type 0
IsMarked g key = is_marked 16 0 g.tracked_keys (hash_key key % max_tracked_keys) key.low ≡ true

run-IsMarked :
    (cs : List Check) (g : IdempotencyGenerator) (key : IdempotencyKey)
    → IsMarked g key
    → IsMarked (run g cs) key
unfolding run check_and_mark_used
run-IsMarked [] g key m = m
run-IsMarked (c ∷ cs) g key m =
    run-IsMarked cs (check_and_mark_used g c.key c.strategy_id c.now).0 key (
      is_marked-IsKept 16 0 g.tracked_keys _ (hash_key key % max_tracked_keys) key.low
        (λ idx.
          probe-IsKept 16 0 g.tracked_keys (hash_key c.key % max_tracked_keys) c.key.low
            c.strategy_id c.now idx)
        m)

-- If the low half of the key is not 0, and one of the 16 slots of its bucket is free or holds it, then
-- after a check of the key, and any checks of this and other keys that follow, by any strategies at any
-- times, another check of the key reports a duplicate and changes nothing.
pub check_and_mark_used-again :
    (g : IdempotencyGenerator) (key : IdempotencyKey) (strategy_id other now later : ℕ)
    (cs : List Check)
    → key.low ≢ 0
    → length g.tracked_keys ≡ max_tracked_keys
    → has_slot 16 0 g.tracked_keys (hash_key key % max_tracked_keys) key.low ≡ true
    → let after = run (check_and_mark_used g key strategy_id now).0 cs in
      check_and_mark_used after key other later ≡ (after, true)
unfolding check_and_mark_used
check_and_mark_used-again g key strategy_id other now later cs pos whole found =
    let bucket : ℕ = hash_key key % max_tracked_keys in
    let first = (check_and_mark_used g key strategy_id now).0 in
    let marked = run-IsMarked cs first key (
      probe-is_marked 16 0 g.tracked_keys bucket key.low strategy_id now pos whole (omega arith)
        found) in
    ground (arith, probe-marked 16 0 (run first cs).tracked_keys bucket key.low other later marked)
