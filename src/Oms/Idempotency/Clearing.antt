-- ===== src/Oms/Idempotency/Clearing.antt =====
-- What the clearing of old entries does to the keys behind them (src/oms/idempotency_key.rs).
use backendofcryptotradingbo.Base.{
  ℕ, zero, suc, ◌-◌, ◌%◌, ◌≡◌, refl, Bool, true, false, not, ◌&&◌, ◌||◌, List, ◌==◌, ltb, map,
  if◌then◌else◌, arith, get_or, get_or-map,
}
use backendofcryptotradingbo.Oms.Idempotency.{
  IdempotencyKey, KeyEntry, IdempotencyGenerator, max_tracked_keys, new_entry, slot, probe,
  hash_key, clear_entry, clear_old_entries, check_and_mark_used,
}
use backendofcryptotradingbo.Oms.Idempotency.History.{is_marked, probe-marked, IsMarked}

-- Whether an entry is used and older than `max_age`
abbrev pub is_old : ℕ → ℕ → KeyEntry → Bool
is_old now max_age entry = not (entry.used == 0) && ltb max_age (now - entry.timestamp)

-- Whether such an entry stands in front of the key's own
unfoldable pub old_before : ℕ → ℕ → ℕ → ℕ → List KeyEntry → ℕ → ℕ → Bool
old_before now max_age zero i entries bucket low = false
old_before now max_age (suc n) i entries bucket low =
    let entry = get_or entries (slot bucket i) new_entry in
    let rest = old_before now max_age n (suc i) entries bucket low in
    if entry.key == low then false else is_old now max_age entry || rest

probe-cleared :
    (now max_age n i : ℕ) (entries : List KeyEntry) (bucket low strategy_id later : ℕ)
    → is_marked n i entries bucket low ≡ true
    → old_before now max_age n i entries bucket low ≡ true
    → (probe n i (map (clear_entry now max_age) entries) bucket low strategy_id later).1 ≡ false
unfolding is_marked old_before probe
probe-cleared now max_age zero i entries bucket low strategy_id later m o = refl
probe-cleared now max_age (suc n) i entries bucket low strategy_id later m o = ground (
  arith,
  get_or-map (clear_entry now max_age) entries (slot bucket i) new_entry,
  probe-cleared now max_age n (suc i) entries bucket low strategy_id later,
)

-- A key is in use, no free slot stands in front of its entry, and an old entry does. Then a check of the
-- key reports a duplicate; but once the old entries are cleared, a check of the key takes it for new,
-- however young its own entry is.
pub clear_old_entries-forgets :
    (g : IdempotencyGenerator) (key : IdempotencyKey) (max_age now strategy_id later : ℕ)
    → IsMarked g key
    → old_before now max_age 16 0 g.tracked_keys (hash_key key % max_tracked_keys) key.low ≡ true
    → (check_and_mark_used g key strategy_id later ≡ (g, true))
      × ((check_and_mark_used (clear_old_entries g max_age now) key strategy_id later).1 ≡ false)
unfolding check_and_mark_used clear_old_entries
clear_old_entries-forgets g key max_age now strategy_id later m o =
    let bucket : ℕ = hash_key key % max_tracked_keys in
    (
      ground (arith, probe-marked 16 0 g.tracked_keys bucket key.low strategy_id later m),
      probe-cleared now max_age 16 0 g.tracked_keys bucket key.low strategy_id later m o,
    )
