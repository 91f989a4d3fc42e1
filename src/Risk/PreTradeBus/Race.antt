-- ===== src/Risk/PreTradeBus/Race.antt =====
-- Threads that check orders at the same time (src/risk/pre_trade_bus.rs): `check_order` compares the
-- exposure with the limit, and adds to it later. The other loads and stores of a call are taken together
-- with the load of the exposure.
pub mod Overshoot
pub mod Owed
pub mod Steps
use backendofcryptotradingbo.Base.{
  ℕ, Option, none, some, List, [], ◌∷◌, ltb, ◌==◌, if◌then◌else◌, get_or, set, length,
}
use backendofcryptotradingbo.Risk.PreTradeBus.{
  RiskCheckRequest, RiskResult, PreTradeRiskBus, notional, store_rate, approve, check_order,
}
use backendofcryptotradingbo.Risk.PreTradeBus.Exposure.{is_approved}

-- One access of a thread: a check up to the approval, or the approval with its addition to the exposure
pub data Access : Type 0 where
  check : ℕ → RiskCheckRequest → ℕ → Access
  add : ℕ → Access

-- The bus, and for each thread the order that it has checked and not added yet
pub record Shared : Type 0 where
  pub bus : PreTradeRiskBus
  pub checked : List (Option RiskCheckRequest)

-- The result of a check for the thread `t`; an order that is to be approved waits.
unfoldable pub store_verdict :
    Shared → ℕ → RiskCheckRequest → ℕ → Option (PreTradeRiskBus × RiskResult) → Shared
store_verdict s t req tsc none = s
store_verdict s t req tsc (some (b, r)) =
    if is_approved r
    then record {
      bus = (store_rate s.bus req.strategy_id tsc).0;
      checked = set s.checked t (some req);
    }
    else record s { bus = b }

unfoldable pub step : Shared → Access → Shared
step s (check t req tsc) = elim (get_or s.checked t none) [
  | none ↦
      if ltb t (length s.checked) then store_verdict s t req tsc (check_order s.bus req tsc) else s
  | some _ ↦ s
]
step s (add t) = elim (get_or s.checked t none) [
  | none ↦ s
  | some req ↦ record { bus = approve s.bus req.strategy_id req; checked = set s.checked t none }
]

unfoldable pub interleave : Shared → List Access → Shared
interleave s [] = s
interleave s (a ∷ rest) = interleave (step s a) rest

-- What an order adds to the exposure of strategy `j`
unfoldable pub value_for : ℕ → RiskCheckRequest → ℕ
value_for j req = if req.strategy_id == j then notional req else 0
