-- ===== src/Risk/PreTradeBus/Race/Steps.antt =====
-- One check or addition of a thread (src/risk/pre_trade_bus.rs), and the bound that it keeps.
use mathlib.Core.Path.{subst}
use backendofcryptotradingbo.Base.{
  ℕ, ◌+◌, ◌*◌, ◌^◌, ◌≤◌, ◌<◌, ◌≡◌, refl, sym, ap, ◌∙◌, inl, inr, true, false, Option, none, some,
  u64, ◌==◌, arith, get_or, set, length, length-set, get_or-set_self, get_or-set_ne, All, All-set,
  Bool-cases, Option-cases,
}
use backendofcryptotradingbo.Risk.PreTradeBus.{
  RiskCheckRequest, RiskResult, approved, PreTradeRiskBus, notional, store_rate, approve,
  check_order,
}
use backendofcryptotradingbo.Risk.PreTradeBus.Exposure.{
  check_order-IsAllowed, exposure, is_approved,
}
use backendofcryptotradingbo.Risk.PreTradeBus.Race.{Shared, store_verdict, value_for}
use backendofcryptotradingbo.Risk.PreTradeBus.Race.Owed.{
  owed, owed-checked, owed-added, IsSmall, owed_idle,
}

-- A check that does not approve leaves the exposures and the limits alone.
pub check_order-rejected :
    (b b' : PreTradeRiskBus) (req : RiskCheckRequest) (tsc : ℕ) (r : RiskResult)
    → check_order b req tsc ≡ some (b', r)
    → is_approved r ≡ false
    → (b'.current_exposure ≡ b.current_exposure) × (b'.exposure_limits ≡ b.exposure_limits)
unfolding check_order store_rate
check_order-rejected b b' req tsc r e refused = ground (arith, e, refused)

-- An order that is to be approved keeps the limit by itself.
pub check_order-within :
    (b b' : PreTradeRiskBus) (req : RiskCheckRequest) (tsc j : ℕ)
    → check_order b req tsc ≡ some (b', approved)
    → req.strategy_id ≡ j
    → exposure b j + value_for j req < 2 ^ 64
    → exposure b j + value_for j req ≤ get_or b.exposure_limits j 0
unfolding value_for
check_order-within b b' req tsc j e its fits =
    let allowed = (check_order-IsAllowed b req tsc).0 (b', e) in
    let kept : u64 (exposure b j + notional req) ≤ get_or b.exposure_limits j 0 =
      subst (λ i. u64 (exposure b i + notional req) ≤ get_or b.exposure_limits i 0) its
        allowed.within_limit in
    ground (arith, its, kept, fits)

-- The approval of an order adds its value.
pub approve-exposure :
    (b : PreTradeRiskBus) (req : RiskCheckRequest) (j : ℕ)
    → length b.current_exposure ≡ 256
    → j < 256
    → exposure b j + value_for j req < 2 ^ 64
    → let b' = approve b req.strategy_id req in
      (exposure b' j ≡ exposure b j + value_for j req)
      × (length b'.current_exposure ≡ 256)
      × (b'.exposure_limits ≡ b.exposure_limits)
unfolding approve value_for
approve-exposure b req j size bound fits =
    let i : ℕ = req.strategy_id in
    let sum : ℕ = u64 (get_or b.current_exposure i 0 + notional req) in
    let long = length-set b.current_exposure i sum ∙ size in
    let within : i < 256 → get_or (set b.current_exposure i sum) i 0 ≡ sum =
      λ h. get_or-set_self b.current_exposure i sum 0 (omega (arith, h, size)) in
    let added : exposure (approve b i req) j ≡ exposure b j + value_for j req =
      elim (Bool-cases (i == j)) [
        | inl its ↦
            let same : i ≡ j = ground (arith, its) in
            let small : exposure b i + notional req < 2 ^ 64 =
              subst (λ k. exposure b k + notional req < 2 ^ 64) (sym same) (rw its at fits) in
            let flat : sum ≡ exposure b i + notional req = omega (arith, small) in
            ap (λ k. get_or (set b.current_exposure i sum) k 0) (sym same)
            ∙ within (omega (arith, same, bound))
            ∙ flat
            ∙ rw its (ap (λ k. exposure b k + notional req) same)
        | inr other ↦
            get_or-set_ne b.current_exposure i j sum 0 (ground (arith, other))
            ∙ rw other (omega arith)
      ] in
    (added, long, refl)

-- No more than the limit and what all threads but one may add
pub record IsBounded (j limit most : ℕ) (s : Shared) : Type 0 where
  pub tables : length s.bus.current_exposure ≡ 256
  pub same_limit : get_or s.bus.exposure_limits j 0 ≡ limit
  pub small : All (IsSmall j most) s.checked
  pub total : exposure s.bus j + owed j s.checked + most ≤ limit + length s.checked * most

pub approved_lem : (r : RiskResult) → is_approved r ≡ true → r ≡ approved
approved_lem r e = ground (arith, e)

-- The check of an idle thread that approves keeps the bound.
pub vet-total :
    (j limit most t tsc : ℕ) (s : Shared) (req : RiskCheckRequest) (b : PreTradeRiskBus)
    → limit + length s.checked * most < 2 ^ 64
    → value_for j req ≤ most
    → t < length s.checked
    → get_or s.checked t none ≡ none
    → IsBounded j limit most s
    → check_order s.bus req tsc ≡ some (b, approved)
    → exposure s.bus j + (value_for j req + owed j s.checked) + most
      ≤ limit + length s.checked * most
vet-total j limit most t tsc s req b fits few within idle v e =
    let spare = owed_idle j most t s.checked v.small within idle in
    elim (Bool-cases (req.strategy_id == j)) [
      | inl its ↦
          let kept =
            check_order-within s.bus b req tsc j e (ground (arith, its))
              (omega (arith, v.total, few, fits)) in
          omega (arith, kept, v.same_limit, spare)
      | inr other ↦
          let nothing : value_for j req ≡ 0 = unfold value_for in rw other refl in
          omega (arith, nothing, v.total)
    ]

pub check-IsBounded :
    (j limit most t tsc : ℕ) (s : Shared) (req : RiskCheckRequest)
    → j < 256
    → limit + length s.checked * most < 2 ^ 64
    → value_for j req ≤ most
    → t < length s.checked
    → get_or s.checked t none ≡ none
    → IsBounded j limit most s
    → IsBounded j limit most (store_verdict s t req tsc (check_order s.bus req tsc))
unfolding store_verdict store_rate
check-IsBounded j limit most t tsc s req bound fits few within idle v =
    elim (Option-cases (check_order s.bus req tsc)) [
      | inl panics ↦ rw (panics, store_verdict) v
      | inr ((b, r), e) ↦ elim (Bool-cases (is_approved r)) [
        | inl passed ↦
            let e' = e ∙ ap (λ r. some (b, r)) (approved_lem r passed) in
            let total' = vet-total j limit most t tsc s req b fits few within idle v e' in
            let more = owed-checked j t s.checked req within idle in
            let long = length-set s.checked t (some req) in
            rw (e, store_verdict, passed)
              (record {
                tables = v.tables;
                same_limit = v.same_limit;
                small = All-set (IsSmall j most) s.checked t (some req) v.small few;
                total = rw (more, long) total';
              })
        | inr refused ↦
            let (exposures, limits) = check_order-rejected s.bus b req tsc r e refused in
            rw (e, store_verdict, refused)
              (record {
                tables = rw exposures v.tables;
                same_limit = rw limits v.same_limit;
                small = v.small;
                total = rw exposures v.total;
              })
      ]
    ]

pub add-IsBounded :
    (j limit most t : ℕ) (s : Shared) (req : RiskCheckRequest)
    → j < 256
    → limit + length s.checked * most < 2 ^ 64
    → get_or s.checked t none ≡ some req
    → IsBounded j limit most s
    → IsBounded j limit most
        (record { bus = approve s.bus req.strategy_id req; checked = set s.checked t none })
add-IsBounded j limit most t s req bound fits e v =
    let less = owed-added j t s.checked req e in
    let (added, long, limits) =
      approve-exposure s.bus req j v.tables bound (omega (arith, v.total, less, fits)) in
    record {
      tables = long;
      same_limit = ap (λ l. get_or l j 0) limits ∙ v.same_limit;
      small = All-set (IsSmall j most) s.checked t none v.small tt;
      total = rw (length-set s.checked t none) (omega (arith, v.total, less, added));
    }

pub store_verdict-length :
    (s : Shared) (t tsc : ℕ) (req : RiskCheckRequest) (x : Option (PreTradeRiskBus × RiskResult))
    → length (store_verdict s t req tsc x).checked ≡ length s.checked
unfolding store_verdict
store_verdict-length s t tsc req none = refl
store_verdict-length s t tsc req (some (b, r)) = elim (Bool-cases (is_approved r)) [
  | inl passed ↦ rw passed (length-set s.checked t (some req))
  | inr refused ↦ rw refused refl
]
