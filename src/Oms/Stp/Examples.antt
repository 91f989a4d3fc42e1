-- ===== src/Oms/Stp/Examples.antt =====
-- Concrete books and engines (src/oms/self_trade_prevention.rs), on which the theorems are applied.
use backendofcryptotradingbo.Base.{ℕ, ◌<◌, ◌≡◌, ◌≢◌, ◌↔◌, true, some, [], ◌∷◌, arith, replicate}
use backendofcryptotradingbo.Base.Lanes.{Four}
use backendofcryptotradingbo.Oms.Stp.{
  AccountOrderBook, StpEngine, StpResult, none_mode, cancel_aggressive, buy, allow, max_subaccounts,
  new_book, add_buy, add_sell, get_stp_mode, book_of, check_aggressive_order, apply_stp_action,
}
use backendofcryptotradingbo.Oms.Stp.Book.{IsValid, add_lem, new_book-IsValid}
use backendofcryptotradingbo.Oms.Stp.Engine.{opposite, check_aggressive_order_lem}

-- One buy order of instrument 5, then one order on each side.
abbrev bid : AccountOrderBook
bid = add_buy new_book 5

abbrev quoted : AccountOrderBook
quoted = add_sell bid 5

bid-IsValid : IsValid bid
bid-IsValid = (add_lem new_book new_book-IsValid 5 5 (ground arith) (ground arith)).0

quoted-IsValid : IsValid quoted
unfolding add_buy
quoted-IsValid = (add_lem bid bid-IsValid 5 5 (ground arith) (ground arith)).1

-- Account 0 has the two orders, in the mode that cancels the aggressive order.
abbrev engine : StpEngine
engine = record {
  order_books = quoted ∷ new_book ∷ [];
  stp_modes = replicate max_subaccounts 1;
  stp_enabled = true;
  default_mode = cancel_aggressive;
}

check_aggressive_order_lem_example :
    (r : StpResult) × (check_aggressive_order engine 0 5 buy 10 77 ≡ some r)
    × ((r.should_block ≡ true) ↔ (
        (engine.stp_enabled ≡ true)
        × (get_stp_mode engine 0 ≢ none_mode)
        × (0 < opposite (book_of engine 0) 5 buy)))
    × ((r.should_block ≡ true) ↔ (apply_stp_action r ≢ allow))
check_aggressive_order_lem_example =
    check_aggressive_order_lem engine 0 5 10 77 buy (ground arith) quoted-IsValid

abbrev four_accounts : Four ℕ
four_accounts = record { at0 = 1; at1 = 0; at2 = 1; at3 = 300 }
