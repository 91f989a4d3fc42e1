-- ===== src/Oms/Stp/State.antt =====
-- src/oms/self_trade_prevention.rs: the books of the subaccounts, results, and the state of the engine.
use Prim.Native.Nat.{bit_and, bit_or}
use backendofcryptotradingbo.Base.{
  ℕ, ◌+◌, ◌-◌, ◌^◌, Bool, false, not, List, u64, leb, ◌==◌, if◌then◌else◌, get_or, set, replicate,
}
use backendofcryptotradingbo.Base.Bits.{complement}

abbrev pub max_subaccounts : ℕ
max_subaccounts = 256

abbrev pub max_instruments : ℕ
max_instruments = 64

pub data StpMode : Type 0 where
  none_mode cancel_aggressive cancel_resting cancel_both decrement_and_cancel : StpMode

pub data OrderDirection : Type 0 where
  buy sell : OrderDirection

-- Counters are u64.
pub record AccountOrderBook : Type 0 where
  pub buy_instruments : ℕ  -- a bit for each instrument
  pub sell_instruments : ℕ
  pub buy_counts : List ℕ  -- 64 of them
  pub sell_counts : List ℕ

abbrev pub new_book : AccountOrderBook
new_book = record {
  buy_instruments = 0;
  sell_instruments = 0;
  buy_counts = replicate max_instruments 0;
  sell_counts = replicate max_instruments 0;
}

-- One side of a book: its bitmask and its counters. Both sides are changed in the same way.
abbrev pub add : ℕ → List ℕ → ℕ → ℕ × List ℕ
add instruments counts idx =
    (bit_or instruments (2 ^ idx), set counts idx (u64 (get_or counts idx 0 + 1)))

-- `fetch_sub` wraps below 0, and returns the count before.
abbrev pub remove : ℕ → List ℕ → ℕ → ℕ × List ℕ
remove instruments counts idx = (
  if leb (get_or counts idx 0) 1
      then bit_and instruments (complement 64 (2 ^ idx))
      else instruments,
  set counts idx (u64 (get_or counts idx 0 + 2 ^ 64 - 1)),
)

unfoldable pub add_buy : AccountOrderBook → ℕ → AccountOrderBook
add_buy b id =
    if leb max_instruments id
    then b
    else let (mask, counts) = add b.buy_instruments b.buy_counts id in
      record b { buy_instruments = mask; buy_counts = counts }

unfoldable pub add_sell : AccountOrderBook → ℕ → AccountOrderBook
add_sell b id =
    if leb max_instruments id
    then b
    else let (mask, counts) = add b.sell_instruments b.sell_counts id in
      record b { sell_instruments = mask; sell_counts = counts }

unfoldable pub remove_buy : AccountOrderBook → ℕ → AccountOrderBook
remove_buy b id =
    if leb max_instruments id
    then b
    else let (mask, counts) = remove b.buy_instruments b.buy_counts id in
      record b { buy_instruments = mask; buy_counts = counts }

unfoldable pub remove_sell : AccountOrderBook → ℕ → AccountOrderBook
remove_sell b id =
    if leb max_instruments id
    then b
    else let (mask, counts) = remove b.sell_instruments b.sell_counts id in
      record b { sell_instruments = mask; sell_counts = counts }

unfoldable pub has_resting_buy : AccountOrderBook → ℕ → Bool
has_resting_buy b id =
    if leb max_instruments id then false else not (bit_and b.buy_instruments (2 ^ id) == 0)

unfoldable pub has_resting_sell : AccountOrderBook → ℕ → Bool
has_resting_sell b id =
    if leb max_instruments id then false else not (bit_and b.sell_instruments (2 ^ id) == 0)

pub record StpResult : Type 0 where
  pub should_block : Bool
  pub mode : StpMode
  pub resting_order_account : ℕ
  pub resting_order_id : ℕ
  pub aggressor_order_id : ℕ
  pub matched_quantity : ℕ

-- `StpResult::none`
abbrev pub no_result : StpResult
no_result = record {
  should_block = false;
  mode = none_mode;
  resting_order_account = 0;
  resting_order_id = 0;
  aggressor_order_id = 0;
  matched_quantity = 0;
}

pub record StpEngine : Type 0 where
  pub order_books : List AccountOrderBook  -- 256 of them
  pub stp_modes : List ℕ  -- 256 of them
  pub stp_enabled : Bool
  pub default_mode : StpMode
