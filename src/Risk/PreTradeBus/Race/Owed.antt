-- ===== src/Risk/PreTradeBus/Race/Owed.antt =====
-- What the orders that wait for their approval (src/risk/pre_trade_bus.rs) will add to an exposure.

use backendofcryptotradingbo.Base.{
  ℕ, zero, suc, ◌+◌, ◌*◌, ◌≤◌, ◌<◌, ◌≡◌, refl, Option, none, some, List, [], ◌∷◌, arith, get_or,
  set, length, All,
}
use backendofcryptotradingbo.Risk.PreTradeBus.{RiskCheckRequest}
use backendofcryptotradingbo.Risk.PreTradeBus.Race.{value_for}

unfoldable pub owed : ℕ → List (Option RiskCheckRequest) → ℕ
owed j [] = 0
owed j (none ∷ ps) = owed j ps
owed j (some req ∷ ps) = value_for j req + owed j ps

pub owed-checked :
    (j t : ℕ) (ps : List (Option RiskCheckRequest)) (req : RiskCheckRequest)
    → t < length ps
    → get_or ps t none ≡ none
    → owed j (set ps t (some req)) ≡ value_for j req + owed j ps
unfolding owed
owed-checked j t [] req h e = absurd (omega arith)
owed-checked j zero (none ∷ ps) req h e = refl
owed-checked j zero (some r ∷ ps) req h e = cc
owed-checked j (suc t) (none ∷ ps) req h e = owed-checked j t ps req (omega arith) e
owed-checked j (suc t) (some r ∷ ps) req h e =
    omega (arith, owed-checked j t ps req (omega arith) e)

pub owed-added :
    (j t : ℕ) (ps : List (Option RiskCheckRequest)) (req : RiskCheckRequest)
    → get_or ps t none ≡ some req
    → owed j ps ≡ value_for j req + owed j (set ps t none)
unfolding owed
owed-added j t [] req e = cc
owed-added j zero (none ∷ ps) req e = cc
owed-added j zero (some r ∷ ps) req e = cc e
owed-added j (suc t) (none ∷ ps) req e = owed-added j t ps req e
owed-added j (suc t) (some r ∷ ps) req e = omega (arith, owed-added j t ps req e)

abbrev pub IsSmall : ℕ → ℕ → Option RiskCheckRequest → Type 0
IsSmall j most none = Unit
IsSmall j most (some req) = value_for j req ≤ most

pub owed_bound :
    (j most : ℕ) (ps : List (Option RiskCheckRequest))
    → All (IsSmall j most) ps
    → owed j ps ≤ length ps * most
unfolding owed
owed_bound j most [] h = omega arith
owed_bound j most (none ∷ ps) h = omega (arith, owed_bound j most ps h.1)
owed_bound j most (some r ∷ ps) h = omega (arith, h.0, owed_bound j most ps h.1)

pub owed_idle :
    (j most t : ℕ) (ps : List (Option RiskCheckRequest))
    → All (IsSmall j most) ps
    → t < length ps
    → get_or ps t none ≡ none
    → owed j ps + most ≤ length ps * most
unfolding owed
owed_idle j most t [] h l e = absurd (omega arith)
owed_idle j most zero (none ∷ ps) h l e = omega (arith, owed_bound j most ps h.1)
owed_idle j most zero (some r ∷ ps) h l e = cc
owed_idle j most (suc t) (none ∷ ps) h l e =
    omega (arith, owed_idle j most t ps h.1 (omega arith) e)
owed_idle j most (suc t) (some r ∷ ps) h l e =
    omega (arith, h.0, owed_idle j most t ps h.1 (omega arith) e)
