-- ===== src/Normalization/L2/State.antt =====
-- src/normalization/l2_normalizer.rs: levels, the states of venues, and the book of a symbol.
use backendofcryptotradingbo.Base.{ℕ, Bool, false, ◌&&◌, List, ◌==◌, get_or, replicate}

abbrev pub max_levels : ℕ
max_levels = 256

abbrev pub max_venues : ℕ
max_venues = 16

abbrev pub max_books : ℕ
max_books = 4096

pub record PriceLevel : Type 0 where
  pub price : ℕ
  pub quantity : ℕ
  pub order_count : ℕ
  pub last_update_ns : ℕ
  pub flags : ℕ

abbrev pub empty_level : PriceLevel
empty_level = record { price = 0; quantity = 0; order_count = 0; last_update_ns = 0; flags = 0 }

abbrev pub is_empty : PriceLevel → Bool
is_empty l = l.price == 0 && l.quantity == 0

pub record VenueBookState : Type 0 where
  pub last_seq : ℕ
  pub expected_seq : ℕ
  pub has_gap : Bool
  pub is_stale : Bool
  pub updated_ns : ℕ

abbrev pub new_venue : VenueBookState
new_venue = record {
  last_seq = 0;
  expected_seq = 1;
  has_gap = false;
  is_stale = false;
  updated_ns = 0;
}

pub record NormalizedBook : Type 0 where
  pub symbol_id : ℕ
  pub best_bid : ℕ
  pub best_ask : ℕ
  pub bids : List PriceLevel  -- 256 of them, like the asks
  pub asks : List PriceLevel
  pub venue_states : List VenueBookState  -- 16 of them
  pub book_update_ns : ℕ
  pub update_count : ℕ

abbrev pub new_book : ℕ → NormalizedBook
new_book symbol_id = record {
  symbol_id = symbol_id;
  best_bid = 0;
  best_ask = 0;
  bids = replicate max_levels empty_level;
  asks = replicate max_levels empty_level;
  venue_states = replicate max_venues new_venue;
  book_update_ns = 0;
  update_count = 0;
}

abbrev pub venue_at : NormalizedBook → ℕ → VenueBookState
venue_at b idx = get_or b.venue_states idx new_venue
