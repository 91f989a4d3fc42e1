-- ===== src/Oms/Stp.antt =====
-- src/oms/self_trade_prevention.rs: the resting orders of each subaccount by side and instrument, and
-- the check of an aggressive order against them.
pub mod Book
pub mod Engine
pub mod Simd
mod Examples
pub mod State
use Prim.Native.Nat.{bit_and}
use backendofcryptotradingbo.Base.{
  ℕ, ◌%◌, ◌^◌, Bool, true, false, not, ◌||◌, Option, none, some, ltb, leb, ◌==◌, if◌then◌else◌,
  get_or, set, replicate,
}
use backendofcryptotradingbo.Base.Lanes.{Lanes, movemask_epi8_bit, Four}
unfoldable pub use State.*

unfoldable pub new : StpEngine
new = record {
  order_books = replicate max_subaccounts new_book;
  stp_modes = replicate max_subaccounts 0;
  stp_enabled = true;
  default_mode = cancel_aggressive;
}

-- `mode as u64`
abbrev pub mode_u64 : StpMode → ℕ
mode_u64 none_mode = 0
mode_u64 cancel_aggressive = 1
mode_u64 cancel_resting = 2
mode_u64 cancel_both = 3
mode_u64 decrement_and_cancel = 4

unfoldable pub set_stp_mode : StpEngine → ℕ → StpMode → StpEngine
set_stp_mode e account mode =
    if ltb account max_subaccounts
    then record e { stp_modes = set e.stp_modes account (mode_u64 mode) }
    else e

abbrev mode_of : ℕ → StpMode → StpMode
mode_of n default =
    if n == 0
    then none_mode
    else if n == 1
    then cancel_aggressive
    else if n == 2
    then cancel_resting
    else if n == 3
    then cancel_both
    else if n == 4
    then decrement_and_cancel
    else default

unfoldable pub get_stp_mode : StpEngine → ℕ → StpMode
get_stp_mode e account =
    if ltb account max_subaccounts
    then mode_of (get_or e.stp_modes account 0) e.default_mode
    else e.default_mode

abbrev pub book_of : StpEngine → ℕ → AccountOrderBook
book_of e account = get_or e.order_books account new_book

-- A change of one account's book; an account out of range has none.
unfoldable pub update_book : StpEngine → ℕ → (AccountOrderBook → AccountOrderBook) → StpEngine
update_book e account f =
    if ltb account max_subaccounts
    then record e { order_books = set e.order_books account (f (book_of e account)) }
    else e

unfoldable pub register_resting_buy : StpEngine → ℕ → ℕ → StpEngine
unfolding update_book
register_resting_buy e account id = update_book e account (λ b. add_buy b id)

unfoldable pub register_resting_sell : StpEngine → ℕ → ℕ → StpEngine
unfolding update_book
register_resting_sell e account id = update_book e account (λ b. add_sell b id)

unfoldable pub remove_resting_buy : StpEngine → ℕ → ℕ → StpEngine
unfolding update_book
remove_resting_buy e account id = update_book e account (λ b. remove_buy b id)

unfoldable pub remove_resting_sell : StpEngine → ℕ → ℕ → StpEngine
unfolding update_book
remove_resting_sell e account id = update_book e account (λ b. remove_sell b id)

-- The opposite side's resting orders.
unfoldable pub has_conflict : AccountOrderBook → ℕ → OrderDirection → Bool
has_conflict b id buy = has_resting_sell b id
has_conflict b id sell = has_resting_buy b id

abbrev is_none : StpMode → Bool
is_none none_mode = true
is_none _ = false

-- `check_aggressive_order`; an account out of range indexes past the books, and the panic is `none`.
unfoldable pub check_aggressive_order :
    StpEngine → ℕ → ℕ → OrderDirection → ℕ → ℕ → Option StpResult
check_aggressive_order e account id direction quantity order_id =
    if not e.stp_enabled
    then some no_result
    else if ltb account max_subaccounts
    then if is_none (get_stp_mode e account) || not (has_conflict (book_of e account) id direction)
      then some no_result
      else some (record {
        should_block = true;
        mode = get_stp_mode e account;
        resting_order_account = account;
        resting_order_id = 0;
        aggressor_order_id = order_id;
        matched_quantity = quantity;
      })
    else none

unfoldable pub check_single_account_stp : StpEngine → ℕ → ℕ → OrderDirection → Bool
check_single_account_stp e account id direction =
    if leb max_subaccounts account then false else has_conflict (book_of e account) id direction

-- `_mm256_and_si256` with the mask in every lane (`_mm256_set1_epi64x`).
unfoldable pub and_mask : Lanes → ℕ → Lanes
and_mask v m = record {
  lane0 = bit_and v.lane0 m;
  lane1 = bit_and v.lane1 m;
  lane2 = bit_and v.lane2 m;
  lane3 = bit_and v.lane3 m;
}

-- The bitmask that the loop of `check_cross_account_stp_avx2` loads for one account.
abbrev pub loaded_mask : StpEngine → OrderDirection → ℕ → ℕ
loaded_mask e buy account =
    if ltb account max_subaccounts then (book_of e account).sell_instruments else 0
loaded_mask e sell account =
    if ltb account max_subaccounts then (book_of e account).buy_instruments else 0

unfoldable pub check_cross_account_stp_avx2 : StpEngine → ℕ → OrderDirection → Four ℕ → Four Bool
unfolding and_mask movemask_epi8_bit
check_cross_account_stp_avx2 e id direction accounts =
    let loaded : Lanes = record {
      lane0 = loaded_mask e direction accounts.at0;
      lane1 = loaded_mask e direction accounts.at1;
      lane2 = loaded_mask e direction accounts.at2;
      lane3 = loaded_mask e direction accounts.at3;
    } in
    let matched = and_mask loaded (2 ^ (id % 64)) in
    record {
      at0 = movemask_epi8_bit matched 0 == 1;  -- & 0x1
      at1 = movemask_epi8_bit matched 2 == 1;  -- & 0x4
      at2 = movemask_epi8_bit matched 4 == 1;  -- & 0x10
      at3 = movemask_epi8_bit matched 6 == 1;  -- & 0x40
    }

-- `check_cross_account_stp_simd`; whether the processor has AVX2 is an argument.
unfoldable pub check_cross_account_stp_simd :
    Bool → StpEngine → ℕ → OrderDirection → Four ℕ → Four Bool
check_cross_account_stp_simd avx2 e id direction accounts =
    if avx2 then check_cross_account_stp_avx2 e id direction accounts else record {
      at0 = check_single_account_stp e accounts.at0 id direction;
      at1 = check_single_account_stp e accounts.at1 id direction;
      at2 = check_single_account_stp e accounts.at2 id direction;
      at3 = check_single_account_stp e accounts.at3 id direction;
    }

pub data StpAction : Type 0 where
  allow : StpAction
  cancel_aggressive_order : StpAction
  cancel_resting_order : ℕ → StpAction
  cancel_both_orders : StpAction
  decrement : ℕ → StpAction

action_of : StpMode → StpResult → StpAction
action_of cancel_aggressive r = cancel_aggressive_order
action_of cancel_resting r = cancel_resting_order r.resting_order_account
action_of cancel_both r = cancel_both_orders
action_of decrement_and_cancel r = decrement r.matched_quantity
action_of none_mode r = allow

unfoldable pub apply_stp_action : StpResult → StpAction
unfolding action_of
apply_stp_action r = action_of r.mode r

unfoldable pub enable_stp : StpEngine → StpEngine
enable_stp e = record e { stp_enabled = true }

unfoldable pub disable_stp : StpEngine → StpEngine
disable_stp e = record e { stp_enabled = false }

abbrev pub is_stp_enabled : StpEngine → Bool
is_stp_enabled e = e.stp_enabled

unfoldable pub set_default_mode : StpEngine → StpMode → StpEngine
set_default_mode e mode = record e { default_mode = mode }

unfoldable pub reset_all : StpEngine → StpEngine
reset_all e = record e { order_books = replicate max_subaccounts new_book }
