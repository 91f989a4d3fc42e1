-- ===== src/Normalization/L2/Quantities.antt =====
-- A side of a book of src/normalization/l2_normalizer.rs as a map from prices to quantities.
use mathlib.Core.Path.{subst}
use backendofcryptotradingbo.Base.{
  ℕ, zero, suc, ◌+◌, ◌≤◌, ◌<◌, ◌≡◌, ◌≢◌, refl, sym, ap, ◌∙◌, Bool, true, false, not, ◌&&◌, ◌||◌,
  inl, inr, some, List, [], ◌∷◌, ◌==◌, if◌then◌else◌, get_or, set, replicate, length, length-set,
  length-replicate, All, arith, Bool-cases, Option-cases,
}
use backendofcryptotradingbo.Gateways.FixEngine.{MarketEvent}
use backendofcryptotradingbo.Normalization.L2.{
  PriceLevel, NormalizedBook, empty_level, new_book, find_level, change_level, update_levels,
  refresh_best_prices, update_side, apply_update, max_levels, max_venues,
}

-- The quantity at a price: that of its level, if there is one in front of the free slots
unfoldable pub quantity_at : ℕ → List PriceLevel → ℕ
quantity_at q [] = 0
quantity_at q (l ∷ ls) =
    if l.price == 0 then 0 else if l.price == q then l.quantity else quantity_at q ls

-- The free slots stand at the end.
abbrev IsPacked : List PriceLevel → Type 0
IsPacked [] = Unit
IsPacked (l ∷ ls) = (l.price ≡ 0 → All (λ m. m.price ≡ 0) ls) × IsPacked ls

-- The number of slots that are not free
used : List PriceLevel → ℕ
used [] = 0
used (l ∷ ls) = (if l.price == 0 then 0 else 1) + used ls

quantity_at-free : (q : ℕ) (ls : List PriceLevel) → All (λ m. m.price ≡ 0) ls → quantity_at q ls ≡ 0
unfolding quantity_at
quantity_at-free q [] h = refl
quantity_at-free q (l ∷ ls) h = ground (arith, h.0)

-- A price has a place while there is a free slot.
find_level-some :
    (p : ℕ) (ls : List PriceLevel) → used ls < length ls → (i : ℕ) × (find_level p ls ≡ some i)
unfolding used find_level
find_level-some p [] h = absurd (omega arith)
find_level-some p (l ∷ ls) h = elim (Bool-cases (l.price == 0 || l.price == p)) [
  | inl here ↦ (0, rw here refl)
  | inr there ↦
      let (i, e) = find_level-some p ls (ground (arith, there, h)) in
      (suc i, rw (there, find_level, e) refl)
]

-- What the place says of the first level
at_price :
    (p : ℕ) (ls : List PriceLevel) (l : PriceLevel)
    → find_level p (l ∷ ls) ≡ some 0
    → (l.price == 0) ≡ false
    → l.price ≡ p
unfolding find_level
at_price p ls l e taken = elim (Option-cases (find_level p ls)) [
  | inl n ↦ ground (arith, e, taken, n)
  | inr (i, s) ↦ ground (arith, e, taken, s)
]

past_price :
    (p i : ℕ) (ls : List PriceLevel) (l : PriceLevel)
    → find_level p (l ∷ ls) ≡ some (suc i)
    → ((l.price == p) ≡ false) × ((l.price == 0) ≡ false) × (find_level p ls ≡ some i)
unfolding find_level
past_price p i ls l e = elim (Option-cases (find_level p ls)) [
  | inl n ↦ absurd (ground (arith, e, n))
  | inr (j, s) ↦ (ground (arith, e), ground (arith, e), ground (arith, e, s))
]

-- What the change of the level in its place does to all quantities
place_lem :
    (event : MarketEvent) (t q i : ℕ) (ls : List PriceLevel)
    → event.price ≢ 0
    → IsPacked ls
    → find_level event.price ls ≡ some i
    → let ls' = set ls i (change_level event t (get_or ls i empty_level)) in
      (quantity_at q ls' ≡ (if q == event.price then event.quantity else quantity_at q ls))
      × IsPacked ls'
      × (used ls' ≤ used ls + 1)
unfolding find_level change_level quantity_at used
place_lem event t q i [] z w e = cc
place_lem event t q zero (l ∷ ls) z w e = elim (Bool-cases (l.price == 0)) [
  | inl free ↦
      let rest = w.0 (ground (arith, free)) in
      (
        ground (arith, free, quantity_at-free q ls rest, z),
        ((λ p. rest), w.1),
        ground (arith, free),
      )
  | inr taken ↦
      let this = at_price event.price ls l e taken in
      (
        ground (arith, taken, this, z),
        ((λ p. absurd (ground (arith, taken, p))), w.1),
        ground (arith, taken),
      )
]
place_lem event t q (suc i) (l ∷ ls) z w e =
    let (other, taken, inner) = past_price event.price i ls l e in
    let (same, packed, size) = place_lem event t q i ls z w.1 inner in
    (
      ground (arith, other, taken, same),
      ((λ p. absurd (ground (arith, taken, p))), packed),
      omega (arith, size),
    )

-- What a side of a book keeps while events are applied, as long as there are free slots
update_levels_lem :
    (event : MarketEvent) (t q : ℕ) (ls : List PriceLevel)
    → event.price ≢ 0
    → IsPacked ls
    → used ls < length ls
    → let ls' = update_levels event t ls in
      (quantity_at q ls' ≡ (if q == event.price then event.quantity else quantity_at q ls))
      × IsPacked ls'
      × (used ls' ≤ used ls + 1)
      × (length ls' ≡ length ls)
unfolding update_levels
update_levels_lem event t q ls z w room =
    let (i, e) = find_level-some event.price ls room in
    let (same, packed, size) = place_lem event t q i ls z w e in
    let level = change_level event t (get_or ls i empty_level) in
    let changed : update_levels event t ls ≡ set ls i level = rw (update_levels, e) refl in
    (
      rw changed same,
      subst IsPacked (sym changed) packed,
      rw changed size,
      ap length changed ∙ length-set ls i level,
    )

-- One side of a book
abbrev pub side_of : Bool → NormalizedBook → List PriceLevel
side_of true b = b.bids
side_of false b = b.asks

-- Whether an event is for the side
abbrev pub on_side : Bool → MarketEvent → Bool
on_side true event = event.event_type == 0
on_side false event = not (event.event_type == 0)

-- The events and their times, applied one after the other
abbrev pub run : NormalizedBook → List (MarketEvent × ℕ) → NormalizedBook
run b [] = b
run b ((event, t) ∷ es) = run (apply_update b event t).0 es

-- The quantity of the last event for a side and a price, or else the one before them
unfoldable pub last_quantity : Bool → ℕ → ℕ → List (MarketEvent × ℕ) → ℕ
last_quantity bid q old [] = old
last_quantity bid q old ((event, t) ∷ es) =
    last_quantity bid q (if on_side bid event && q == event.price then event.quantity else old) es

abbrev pub IsRegular : MarketEvent × ℕ → Type 0
IsRegular (event, t) = (event.price ≢ 0) × (event.venue_id < max_venues)

-- The side of the book after an event
pub side_lem :
    (b : NormalizedBook) (event : MarketEvent) (t : ℕ) (bid : Bool)
    → IsRegular (event, t)
    → side_of bid (apply_update b event t).0
      ≡ (if on_side bid event then update_levels event t (side_of bid b) else side_of bid b)
unfolding apply_update update_side refresh_best_prices
side_lem b event t true h = ground (arith, h.1)
side_lem b event t false h = ground (arith, h.1)

-- What is kept of a side while the events are applied
abbrev Kept : Bool → NormalizedBook → ℕ → Type 0
Kept bid b n =
    IsPacked (side_of bid b)
    × (used (side_of bid b) + n ≤ max_levels)
    × (length (side_of bid b) ≡ max_levels)

apply_update_lem :
    (b : NormalizedBook) (event : MarketEvent) (t : ℕ) (bid : Bool) (q n : ℕ)
    → IsRegular (event, t)
    → Kept bid b (suc n)
    → let b' = (apply_update b event t).0 in
      (quantity_at q (side_of bid b') ≡ (
        if on_side bid event && q == event.price
        then event.quantity
        else quantity_at q (side_of bid b)))
      × Kept bid b' n
apply_update_lem b event t bid q n h (w, room, size) = elim (Bool-cases (on_side bid event)) [
  | inl mine ↦
      let (same, packed, more, long) =
        update_levels_lem event t q (side_of bid b) h.0 w (omega (arith, room, size)) in
      let side : side_of bid (apply_update b event t).0 ≡ update_levels event t (side_of bid b) =
        side_lem b event t bid h ∙ rw mine refl in
      (
        rw (side, mine) same,
        (
          subst IsPacked (sym side) packed,
          rw side (omega (arith, more, room)),
          ap length side ∙ long ∙ size,
        ),
      )
  | inr other ↦
      let side : side_of bid (apply_update b event t).0 ≡ side_of bid b =
        side_lem b event t bid h ∙ rw other refl in
      (
        rw (side, other) refl,
        (subst IsPacked (sym side) w, rw side (omega (arith, room)), ap length side ∙ size),
      )
]

run_lem :
    (bid : Bool) (q : ℕ) (es : List (MarketEvent × ℕ)) (b : NormalizedBook)
    → All IsRegular es
    → Kept bid b (length es)
    → quantity_at q (side_of bid (run b es))
      ≡ last_quantity bid q (quantity_at q (side_of bid b)) es
unfolding last_quantity
run_lem bid q [] b h k = refl
run_lem bid q ((event, t) ∷ es) b h k =
    let (same, kept) = apply_update_lem b event t bid q (length es) h.0 k in
    run_lem bid q es (apply_update b event t).0 h.1 kept
    ∙ ap (λ old. last_quantity bid q old es) same

empty_levels :
    (n : ℕ)
    → All (λ m. m.price ≡ 0) (replicate n empty_level)
      × IsPacked (replicate n empty_level)
      × (used (replicate n empty_level) ≡ 0)
unfolding used
empty_levels zero = (tt, tt, refl)
empty_levels (suc n) =
    let (free, packed, none_used) = empty_levels n in
    ((refl, free), ((λ p. free), packed), omega (arith, none_used))

new_side :
    (bid : Bool) (symbol : ℕ) → side_of bid (new_book symbol) ≡ replicate max_levels empty_level
new_side true symbol = refl
new_side false symbol = refl

-- At most 256 events that have a price and a known venue are applied to a new book. Then the quantity of
-- a price on either side is that of the last event for this side and price, and 0 where there was none.
pub run-last_quantity :
    (symbol : ℕ) (bid : Bool) (q : ℕ) (es : List (MarketEvent × ℕ))
    → All IsRegular es
    → length es ≤ max_levels
    → quantity_at q (side_of bid (run (new_book symbol) es)) ≡ last_quantity bid q 0 es
run-last_quantity symbol bid q es h l =
    let (free, packed, none_used) = empty_levels max_levels in
    let side = new_side bid symbol in
    run_lem bid q es (new_book symbol) h (
      subst IsPacked (sym side) packed,
      rw (side, none_used) (omega (arith, l)),
      ap length side ∙ length-replicate max_levels empty_level,
    )
    ∙ ap (λ old. last_quantity bid q old es)
        (ap (quantity_at q) side ∙ quantity_at-free q (replicate max_levels empty_level) free)
