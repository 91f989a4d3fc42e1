-- ===== src/Oms/Stp/Engine.antt =====
-- The check of an aggressive order (src/oms/self_trade_prevention.rs).
use backendofcryptotradingbo.Base.{
  ℕ, zero, suc, ◌<◌, ◌≡◌, ◌≢◌, ◌↔◌, refl, true, not, ◌&&◌, some, List, [], ◌∷◌, ltb, ◌==◌, arith,
  if◌then◌else◌, get_or, replicate, length, get_or-set_self, get_or-set_ne, Bool-cases, inl, inr,
}
use backendofcryptotradingbo.Oms.Stp.{
  AccountOrderBook, StpMode, is_none, mode_u64, none_mode, StpEngine, OrderDirection, buy, sell,
  StpResult, no_result, allow, max_subaccounts, new, set_stp_mode, get_stp_mode, book_of,
  has_conflict, check_aggressive_order, apply_stp_action, register_resting_buy,
  register_resting_sell, remove_resting_buy, remove_resting_sell,
}
use backendofcryptotradingbo.Oms.Stp.Book.{IsValid, resting, has_resting_lem}

-- The resting orders on the side opposite to an order's.
abbrev pub opposite : AccountOrderBook → ℕ → OrderDirection → ℕ
opposite b id buy = resting b.sell_counts id
opposite b id sell = resting b.buy_counts id

pub has_conflict_lem :
    (b : AccountOrderBook) (id : ℕ) (d : OrderDirection)
    → IsValid b
    → has_conflict b id d ≡ not (opposite b id d == 0)
unfolding has_conflict
has_conflict_lem b id buy v = (has_resting_lem b v id).1
has_conflict_lem b id sell v = (has_resting_lem b v id).0

-- For an account in range with a valid book: the order is blocked exactly when prevention is on, the
-- account's mode is not `None`, and an order of the account rests on the opposite side of the
-- instrument; the action that follows is then not `Allow`, and it is `Allow` otherwise.
pub check_aggressive_order_lem :
    (e : StpEngine) (account id quantity order_id : ℕ) (d : OrderDirection)
    → account < max_subaccounts
    → IsValid (book_of e account)
    → (r : StpResult) × (check_aggressive_order e account id d quantity order_id ≡ some r)
      × ((r.should_block ≡ true) ↔ (
          (e.stp_enabled ≡ true)
          × (get_stp_mode e account ≢ none_mode)
          × (0 < opposite (book_of e account) id d)))
      × ((r.should_block ≡ true) ↔ (apply_stp_action r ≢ allow))
unfolding check_aggressive_order apply_stp_action
check_aggressive_order_lem e account id quantity order_id d h v =
    let rests = has_conflict_lem (book_of e account) id d v in
    elim (Bool-cases (
      e.stp_enabled
      && (not (is_none (get_stp_mode e account)) && has_conflict (book_of e account) id d))) [
        | inl hit ↦ (
          record {
            should_block = true;
            mode = get_stp_mode e account;
            resting_order_account = account;
            resting_order_id = 0;
            aggressor_order_id = order_id;
            matched_quantity = quantity;
          },
          ground arith,
          (λ _. (ground arith, ground arith, ground (arith, rests)), λ _. refl),
          (λ _ a. ground arith, λ _. refl),
        )
        | inr miss ↦ (
          no_result,
          ground arith,
          (λ b. cc, λ (on, some_mode, pos). absurd (ground (arith, rests))),
          (λ b. cc, λ n. absurd (n refl)),
        )
      ]

-- A mode that is set is read back for its account, and for no other.
pub get_stp_mode-set :
    (e : StpEngine) (account other : ℕ) (mode : StpMode)
    → length e.stp_modes ≡ max_subaccounts
    → get_stp_mode (set_stp_mode e account mode) other
      ≡ (if ltb account max_subaccounts && (account == other) then mode else get_stp_mode e other)
unfolding get_stp_mode set_stp_mode
get_stp_mode-set e account other mode l = ground (
  arith,
  get_or-set_self e.stp_modes account (mode_u64 mode) 0,
  get_or-set_ne e.stp_modes account other (mode_u64 mode) 0,
)

-- The calls that record orders.
pub data Call : Type 0 where
  register_buy register_sell remove_buy remove_sell : ℕ → ℕ → Call

pub calls : StpEngine → List Call → StpEngine
calls e [] = e
calls e (register_buy a i ∷ cs) = calls (register_resting_buy e a i) cs
calls e (register_sell a i ∷ cs) = calls (register_resting_sell e a i) cs
calls e (remove_buy a i ∷ cs) = calls (remove_resting_buy e a i) cs
calls e (remove_sell a i ∷ cs) = calls (remove_resting_sell e a i) cs

calls-modes : (e : StpEngine) (cs : List Call) → ((calls e cs).stp_modes ≡ e.stp_modes)
unfolding calls register_resting_buy register_resting_sell remove_resting_buy remove_resting_sell
calls-modes e [] = refl
calls-modes e (register_buy a i ∷ cs) = ground (arith, calls-modes (register_resting_buy e a i) cs)
calls-modes e (register_sell a i ∷ cs) =
    ground (arith, calls-modes (register_resting_sell e a i) cs)
calls-modes e (remove_buy a i ∷ cs) = ground (arith, calls-modes (remove_resting_buy e a i) cs)
calls-modes e (remove_sell a i ∷ cs) = ground (arith, calls-modes (remove_resting_sell e a i) cs)

zero_modes : (n i : ℕ) → get_or {A = ℕ} (replicate n 0) i 0 ≡ 0
zero_modes zero i = refl
zero_modes (suc n) zero = refl
zero_modes (suc n) (suc i) = zero_modes n i

-- A new engine whose modes were never set blocks nothing, whatever orders were registered.
pub unset_modes_never_block :
    (cs : List Call) (account id quantity order_id : ℕ) (d : OrderDirection)
    → account < max_subaccounts
    → check_aggressive_order (calls new cs) account id d quantity order_id ≡ some no_result
unfolding check_aggressive_order get_stp_mode new
unset_modes_never_block cs account id quantity order_id d h =
    let same = calls-modes new cs in ground (arith, same, zero_modes max_subaccounts account)
