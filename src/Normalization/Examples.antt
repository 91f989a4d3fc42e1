-- ===== src/Normalization/Examples.antt =====
-- A concrete normalizer (src/normalization/l2_normalizer.rs), on which the theorems are applied.
use backendofcryptotradingbo.Base.{
  ℕ, ◌≡◌, refl, Option, some, none, true, List, [], ◌∷◌, arith, length-replicate,
}
use backendofcryptotradingbo.Gateways.FixEngine.{MarketEvent}
use backendofcryptotradingbo.Normalization.L2.{
  NormalizedBook, max_books, new, new_book, register_book, get_book,
}
use backendofcryptotradingbo.Normalization.L2.Quantities.{quantity_at, side_of, last_quantity}
use backendofcryptotradingbo.Normalization.L2.Books.{
  Command, processed, checked, execute_all, events_for, execute_all-last_quantity,
}

abbrev event : ℕ → ℕ → ℕ → ℕ → MarketEvent
event symbol side price quantity = record {
  venue_id = 3;
  symbol_id = symbol;
  event_type = side;
  timestamp_ns = 0;
  price = price;
  quantity = quantity;
  flags = 0;
}

-- A bid of 100, one of another symbol, an ask of 100, a check, and the first bid again with less
abbrev commands : List Command
commands =
    processed (event 7 0 100 5) 10
    ∷ processed (event 8 0 100 9) 11
    ∷ processed (event 7 1 100 4) 12
    ∷ checked 13
    ∷ processed (event 7 0 100 2) 14
    ∷ []

execute_all-last_quantity_example :
    (b : NormalizedBook) × (get_book (execute_all (register_book new (new_book 7)).0 commands) 7
      ≡ some b)
    × (quantity_at 100 (side_of true b) ≡ 2)
unfolding last_quantity events_for get_book
execute_all-last_quantity_example =
    execute_all-last_quantity new 7 true 100 commands
      (length-replicate {A = Option NormalizedBook} max_books none) (omega arith) refl
      ((omega arith, omega arith), ((omega arith, omega arith), ((omega arith, omega arith), tt)))
      (omega arith)
