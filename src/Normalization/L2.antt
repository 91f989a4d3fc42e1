-- ===== src/Normalization/L2.antt =====
-- src/normalization/l2_normalizer.rs: the books that are built from the updates of all venues, used by
-- one thread at a time. The i64 of a price or quantity is its pattern of 64 bits. A book that is
-- registered belongs to the normalizer. A reading of the cycle counter is an argument.
pub mod Books
pub mod Quantities
pub mod State
use mathlib.Core.Option
use backendofcryptotradingbo.Base.{
  ℕ, suc, ◌+◌, ◌-◌, ◌^◌, Bool, true, false, ◌&&◌, ◌||◌, Option, none, some, List, [], ◌∷◌, map, u64,
  u32, ltb, leb, ◌==◌, if◌then◌else◌, get_or, set, replicate,
}
use backendofcryptotradingbo.Base.Int.{pos, of_bits, to_bits, div_ℤ}
use backendofcryptotradingbo.Gateways.FixEngine.{MarketEvent}
unfoldable pub use State.*

-- The place of the level with a price, or of the first slot with price 0, whichever comes first
unfoldable pub find_level : ℕ → List PriceLevel → Option ℕ
find_level price [] = none
find_level price (l ∷ ls) =
    if l.price == 0 || l.price == price
    then some 0
    else Option.map (λ n. suc n) (find_level price ls)

-- The change of a level by an event
unfoldable pub change_level : MarketEvent → ℕ → PriceLevel → PriceLevel
change_level event timestamp l =
    if event.quantity == 0 then record l { quantity = 0; order_count = 0 } else record l {
      price = if l.price == 0 then event.price else l.price;
      quantity = event.quantity;
      last_update_ns = timestamp;
    }

unfoldable pub update_levels : MarketEvent → ℕ → List PriceLevel → List PriceLevel
update_levels event timestamp levels = elim (find_level event.price levels) [
  | none ↦ levels
  | some idx ↦ set levels idx (change_level event timestamp (get_or levels idx empty_level))
]

-- Whether the i64 with these bits is above 0
abbrev pub is_positive : ℕ → Bool
is_positive n = ltb 0 n && ltb n (2 ^ 63)

-- The price of the first level that is in use, or the old one
unfoldable pub first_price : ℕ → List PriceLevel → ℕ
first_price old [] = old
first_price old (l ∷ ls) =
    if is_positive l.price && is_positive l.quantity then l.price else first_price old ls

unfoldable pub refresh_best_prices : NormalizedBook → NormalizedBook
refresh_best_prices b = record b {
  best_bid = first_price b.best_bid b.bids;
  best_ask = first_price b.best_ask b.asks;
}

-- The levels of the side of the event
unfoldable pub update_side : NormalizedBook → MarketEvent → ℕ → NormalizedBook
update_side b event timestamp =
    if event.event_type == 0
    then record b { bids = update_levels event timestamp b.bids }
    else record b { asks = update_levels event timestamp b.asks }

unfoldable pub apply_update : NormalizedBook → MarketEvent → ℕ → NormalizedBook × Bool
apply_update b event timestamp =
    let seen = record b {
      venue_states =
          set b.venue_states event.venue_id
            (record (venue_at b event.venue_id) { updated_ns = timestamp; is_stale = false });
    } in
    let updated = refresh_best_prices (update_side seen event timestamp) in
    if leb max_venues event.venue_id then (b, false) else (
      record updated { book_update_ns = timestamp; update_count = u64 (updated.update_count + 1) },
      true,
    )

unfoldable pub mid_price : NormalizedBook → ℕ
mid_price b =
    if is_positive b.best_bid && is_positive b.best_ask
    then to_bits (2 ^ 64) (div_ℤ (of_bits (2 ^ 64) (u64 (b.best_bid + b.best_ask))) (pos 2))
    else 0

unfoldable pub spread : NormalizedBook → ℕ
spread b =
    if is_positive b.best_ask && is_positive b.best_bid
    then u64 (b.best_ask + 2 ^ 64 - b.best_bid)
    else 0

unfoldable pub any_gap : List VenueBookState → Bool
any_gap [] = false
any_gap (s ∷ ss) = s.has_gap || any_gap ss

abbrev pub has_sequence_gap : NormalizedBook → Bool
has_sequence_gap b = any_gap b.venue_states

unfoldable pub mark_gap : NormalizedBook → ℕ → ℕ → NormalizedBook
mark_gap b idx expected =
    if ltb idx max_venues
    then record b {
      venue_states =
          set b.venue_states idx
            (record (venue_at b idx) { expected_seq = expected; has_gap = true });
    }
    else b

unfoldable pub clear_gap : NormalizedBook → ℕ → ℕ → NormalizedBook
clear_gap b idx new_seq =
    if ltb idx max_venues
    then record b {
      venue_states = set b.venue_states idx (record (venue_at b idx) {
        last_seq = new_seq;
        expected_seq = u64 (new_seq + 1);
        has_gap = false;
      });
    }
    else b

pub record L2Normalizer : Type 0 where
  pub books : List (Option NormalizedBook)  -- 4096 of them
  pub active_count : ℕ
  pub staleness_threshold_ns : ℕ

abbrev pub new : L2Normalizer
new = record {
  books = replicate max_books none;
  active_count = 0;
  staleness_threshold_ns = 1_000_000_000;
}

unfoldable pub register_book : L2Normalizer → NormalizedBook → L2Normalizer × Bool
register_book n book =
    let idx = book.symbol_id in
    if leb max_books idx then (n, false) else elim (get_or n.books idx none) [
      | none ↦ (
        record n { books = set n.books idx (some book); active_count = u32 (n.active_count + 1) },
        true,
      )
      | some b ↦ (n, false)
    ]

unfoldable pub get_book : L2Normalizer → ℕ → Option NormalizedBook
get_book n idx = if leb max_books idx then none else get_or n.books idx none

unfoldable pub process_event : L2Normalizer → MarketEvent → ℕ → L2Normalizer × Bool
process_event n event timestamp = elim (get_book n event.symbol_id) [
  | none ↦ (n, false)
  | some book ↦
      let (book', changed) = apply_update book event timestamp in
      (record n { books = set n.books event.symbol_id (some book') }, changed)
]

abbrev pub old_book : ℕ → ℕ → NormalizedBook → Bool
old_book threshold now b = ltb threshold (u64 (now + 2 ^ 64 - b.book_update_ns))

abbrev pub stale_venue : VenueBookState → VenueBookState
stale_venue s = record s { is_stale = true }

unfoldable pub mark_stale : ℕ → ℕ → Option NormalizedBook → Option NormalizedBook
mark_stale threshold now none = none
mark_stale threshold now (some b) =
    if old_book threshold now b
    then some (record b { venue_states = map stale_venue b.venue_states })
    else some b

unfoldable pub count_stale : ℕ → ℕ → List (Option NormalizedBook) → ℕ
count_stale threshold now [] = 0
count_stale threshold now (none ∷ bs) = count_stale threshold now bs
count_stale threshold now (some b ∷ bs) =
    (if old_book threshold now b then 1 else 0) + count_stale threshold now bs

unfoldable pub check_staleness : L2Normalizer → ℕ → L2Normalizer × ℕ
check_staleness n now =
    let threshold = n.staleness_threshold_ns in
    (record n { books = map (mark_stale threshold now) n.books }, count_stale threshold now n.books)

abbrev pub set_staleness_threshold : L2Normalizer → ℕ → L2Normalizer
set_staleness_threshold n ns = record n { staleness_threshold_ns = ns }
