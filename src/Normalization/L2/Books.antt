-- ===== src/Normalization/L2/Books.antt =====
-- The books of all symbols (src/normalization/l2_normalizer.rs), while events come in and books get
-- stale.
use mathlib.Core.Path.{subst}
use backendofcryptotradingbo.Base.{
  ℕ, ◌≤◌, ◌<◌, ◌≡◌, refl, sym, ap, ◌∙◌, inl, inr, Bool, true, false, none, some, List, [], ◌∷◌, map,
  leb, ◌==◌, if◌then◌else◌, get_or, set, length, length-set, length-map, get_or-map,
  get_or-set_self, get_or-set_ne, All, arith, Bool-cases, Option-cases,
}
use backendofcryptotradingbo.Gateways.FixEngine.{MarketEvent}
use backendofcryptotradingbo.Normalization.L2.{
  PriceLevel, update_levels, NormalizedBook, new_book, L2Normalizer, max_books, max_levels,
  register_book, get_book, apply_update, process_event, mark_stale, old_book, stale_venue,
  check_staleness,
}
use backendofcryptotradingbo.Normalization.L2.Quantities.{
  quantity_at, side_of, on_side, run, last_quantity, IsRegular, side_lem, run-last_quantity,
}

-- What happens to a normalizer: an event and the time of its processing, or a check for stale books
pub data Command : Type 0 where
  processed : MarketEvent → ℕ → Command
  checked : ℕ → Command

unfoldable pub execute : L2Normalizer → Command → L2Normalizer
execute n (processed event t) = (process_event n event t).0
execute n (checked now) = (check_staleness n now).0

abbrev pub execute_all : L2Normalizer → List Command → L2Normalizer
execute_all n [] = n
execute_all n (c ∷ cs) = execute_all (execute n c) cs

-- The events of a symbol and their times
unfoldable pub events_for : ℕ → List Command → List (MarketEvent × ℕ)
events_for s [] = []
events_for s (checked now ∷ cs) = events_for s cs
events_for s (processed event t ∷ cs) =
    let rest = events_for s cs in if event.symbol_id == s then (event, t) ∷ rest else rest

-- The books of a normalizer, by their symbols
get_book-bound :
    (n : L2Normalizer) (s : ℕ) (b : NormalizedBook) → get_book n s ≡ some b → s < max_books
unfolding get_book
get_book-bound n s b e = ground (arith, e)

get_book-at : (n : L2Normalizer) (s : ℕ) → s < max_books → get_book n s ≡ get_or n.books s none
unfolding get_book
get_book-at n s h = ground (arith, h)

-- What an event changes of the table
process_event-some :
    (n : L2Normalizer) (event : MarketEvent) (t : ℕ) (b : NormalizedBook)
    → get_book n event.symbol_id ≡ some b
    → (execute n (processed event t)).books
      ≡ set n.books event.symbol_id (some (apply_update b event t).0)
unfolding execute process_event
process_event-some n event t b e = rw (e, execute, process_event) refl

process_event-none :
    (n : L2Normalizer) (event : MarketEvent) (t : ℕ)
    → get_book n event.symbol_id ≡ none
    → execute n (processed event t) ≡ n
unfolding execute process_event
process_event-none n event t e = rw (e, execute, process_event) refl

execute_own :
    (n : L2Normalizer) (event : MarketEvent) (t : ℕ) (b : NormalizedBook)
    → length n.books ≡ max_books
    → get_book n event.symbol_id ≡ some b
    → get_book (execute n (processed event t)) event.symbol_id ≡ some (apply_update b event t).0
execute_own n event t b l e =
    let s : ℕ = event.symbol_id in
    let h = get_book-bound n s b e in
    get_book-at (execute n (processed event t)) s h
    ∙ ap (λ bs. get_or bs s none) (process_event-some n event t b e)
    ∙ get_or-set_self n.books s (some (apply_update b event t).0) none (omega (arith, l, h))

execute_other :
    (n : L2Normalizer) (event : MarketEvent) (t s : ℕ) (b : NormalizedBook)
    → (event.symbol_id == s) ≡ false
    → get_book n s ≡ some b
    → get_book (execute n (processed event t)) s ≡ some b
execute_other n event t s b other e =
    let h = get_book-bound n s b e in
    elim (Option-cases (get_book n event.symbol_id)) [
      | inl missing ↦ ap (λ n. get_book n s) (process_event-none n event t missing) ∙ e
      | inr (b', found) ↦
          get_book-at (execute n (processed event t)) s h
          ∙ ap (λ bs. get_or bs s none) (process_event-some n event t b' found)
          ∙ get_or-set_ne n.books event.symbol_id s (some (apply_update b' event t).0) none
              (ground (arith, other))
          ∙ sym (get_book-at n s h)
          ∙ e
    ]

execute_size : (n : L2Normalizer) (c : Command) → length (execute n c).books ≡ length n.books
unfolding execute check_staleness
execute_size n (processed event t) = elim (Option-cases (get_book n event.symbol_id)) [
  | inl missing ↦ ap (λ n. length n.books) (process_event-none n event t missing)
  | inr (b, found) ↦
      ap length (process_event-some n event t b found)
      ∙ length-set n.books event.symbol_id (some (apply_update b event t).0)
]
execute_size n (checked now) = length-map (mark_stale n.staleness_threshold_ns now) n.books

-- A check for stale books leaves the sides alone.
mark_stale_side :
    (threshold now : ℕ) (b : NormalizedBook) (bid : Bool)
    → (b' : NormalizedBook) × (mark_stale threshold now (some b) ≡ some b')
      × (side_of bid b' ≡ side_of bid b)
unfolding mark_stale
mark_stale_side threshold now b bid = elim (Bool-cases (old_book threshold now b)) [
  | inl old ↦ (record b { venue_states = map stale_venue b.venue_states }, rw old refl, sides bid)
  | inr fresh ↦ (b, rw fresh refl, refl)
]
  where
    sides :
        (bid : Bool)
        → side_of bid (record b { venue_states = map stale_venue b.venue_states }) ≡ side_of bid b
    sides true = refl
    sides false = refl

execute_checked :
    (n : L2Normalizer) (now s : ℕ) (b : NormalizedBook) (bid : Bool)
    → get_book n s ≡ some b
    → (b' : NormalizedBook) × (get_book (execute n (checked now)) s ≡ some b')
      × (side_of bid b' ≡ side_of bid b)
unfolding execute check_staleness mark_stale
execute_checked n now s b bid e =
    let h = get_book-bound n s b e in
    let threshold : ℕ = n.staleness_threshold_ns in
    let (b', marked, same) = mark_stale_side threshold now b bid in
    (
      b',
      get_book-at (execute n (checked now)) s h
          ∙ get_or-map (mark_stale threshold now) n.books s none
          ∙ ap (mark_stale threshold now) (sym (get_book-at n s h) ∙ e)
          ∙ marked,
      same,
    )

-- The side of a book is settled by what it was and by the events.
run_side :
    (bid : Bool) (es : List (MarketEvent × ℕ)) (b b' : NormalizedBook)
    → All IsRegular es
    → side_of bid b' ≡ side_of bid b
    → side_of bid (run b' es) ≡ side_of bid (run b es)
run_side bid [] b b' h same = same
run_side bid ((event, t) ∷ es) b b' h same =
    let after =
      λ (ls : List PriceLevel). if on_side bid event then update_levels event t ls else ls in
    run_side bid es (apply_update b event t).0 (apply_update b' event t).0 h.1
      (side_lem b' event t bid h.0 ∙ ap after same ∙ sym (side_lem b event t bid h.0))

-- The book of a symbol while things happen to all books
execute_all-run :
    (cs : List Command) (n : L2Normalizer) (s : ℕ) (b : NormalizedBook) (bid : Bool)
    → length n.books ≡ max_books
    → get_book n s ≡ some b
    → All IsRegular (events_for s cs)
    → (b' : NormalizedBook) × (get_book (execute_all n cs) s ≡ some b')
      × (side_of bid b' ≡ side_of bid (run b (events_for s cs)))
unfolding events_for
execute_all-run [] n s b bid l e h = (b, e, refl)
execute_all-run (checked now ∷ cs) n s b bid l e h =
    let (b1, at, same) = execute_checked n now s b bid e in
    let (b', found, side) =
      execute_all-run cs (execute n (checked now)) s b1 bid (execute_size n (checked now) ∙ l) at
        h in
    (b', found, side ∙ run_side bid (events_for s cs) b b1 h same)
execute_all-run (processed event t ∷ cs) n s b bid l e h =
    let n' = execute n (processed event t) in
    let l' = execute_size n (processed event t) ∙ l in
    elim (Bool-cases (event.symbol_id == s)) [
      | inl own ↦
          let its : event.symbol_id ≡ s = ground (arith, own) in
          let list : events_for s (processed event t ∷ cs) ≡ (event, t) ∷ events_for s cs =
            rw own refl in
          let regular = subst (All IsRegular) list h in
          let at =
            ap (get_book n') (sym its) ∙ execute_own n event t b l (ap (get_book n) its ∙ e) in
          let (b', found, side) =
            execute_all-run cs n' s (apply_update b event t).0 bid l' at regular.1 in
          (b', found, side ∙ ap (λ es. side_of bid (run b es)) (sym list))
      | inr other ↦
          let list : events_for s (processed event t ∷ cs) ≡ events_for s cs = rw other refl in
          let (b', found, side) =
            execute_all-run cs n' s b bid l' (execute_other n event t s b other e)
              (subst (All IsRegular) list h) in
          (b', found, side ∙ ap (λ es. side_of bid (run b es)) (sym list))
    ]

-- A new book is registered for a symbol below 4096 that has none. After any events of all symbols and
-- checks for stale books, of which at most 256 events are the symbol's, and those have a price and a
-- known venue: the book is there, and the quantity of a price on either side is that of the symbol's last
-- event for this side and price, and 0 where there was none.
pub execute_all-last_quantity :
    (n : L2Normalizer) (s : ℕ) (bid : Bool) (q : ℕ) (cs : List Command)
    → length n.books ≡ max_books
    → s < max_books
    → get_book n s ≡ none
    → All IsRegular (events_for s cs)
    → length (events_for s cs) ≤ max_levels
    → (b : NormalizedBook) × (get_book (execute_all (register_book n (new_book s)).0 cs) s ≡ some b)
      × (quantity_at q (side_of bid b) ≡ last_quantity bid q 0 (events_for s cs))
unfolding register_book
execute_all-last_quantity n s bid q cs l bound free h few =
    let n' = (register_book n (new_book s)).0 in
    let within : leb max_books s ≡ false = ground (arith, bound) in
    let empty : get_or n.books s none ≡ none = sym (get_book-at n s bound) ∙ free in
    let added : n'.books ≡ set n.books s (some (new_book s)) =
      rw (within, register_book, empty) refl in
    let at : get_book n' s ≡ some (new_book s) =
      get_book-at n' s bound
      ∙ ap (λ bs. get_or bs s none) added
      ∙ get_or-set_self n.books s (some (new_book s)) none (omega (arith, l, bound)) in
    let size : length n'.books ≡ max_books =
      ap length added ∙ length-set n.books s (some (new_book s)) ∙ l in
    let (b, found, side) = execute_all-run cs n' s (new_book s) bid size at h in
    (b, found, ap (quantity_at q) side ∙ run-last_quantity s bid q (events_for s cs) h few)
