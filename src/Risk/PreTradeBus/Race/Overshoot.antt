-- ===== src/Risk/PreTradeBus/Race/Overshoot.antt =====
-- How far threads that check orders at the same time can pass a limit (src/risk/pre_trade_bus.rs).

use backendofcryptotradingbo.Base.{
  ℕ, zero, suc, ◌+◌, ◌*◌, ◌^◌, ◌≤◌, ◌<◌, ◌≡◌, refl, ◌∙◌, inl, inr, none, List, [], ◌∷◌, ltb, arith,
  get_or, replicate, length-replicate, length, length-set, All, All-replicate, Bool-cases,
  Option-cases,
}
use backendofcryptotradingbo.Risk.PreTradeBus.{PreTradeRiskBus, check_order}
use backendofcryptotradingbo.Risk.PreTradeBus.Exposure.{exposure}
use backendofcryptotradingbo.Risk.PreTradeBus.Race.{
  Access, check, add, Shared, step, interleave, value_for,
}
use backendofcryptotradingbo.Risk.PreTradeBus.Race.Owed.{owed, IsSmall}
use backendofcryptotradingbo.Risk.PreTradeBus.Race.Steps.{
  IsBounded, check-IsBounded, add-IsBounded, store_verdict-length,
}

-- Every order that is checked for the strategy is worth at most `most`.
abbrev IsFair : ℕ → ℕ → Access → Type 0
IsFair j most (check t req tsc) = value_for j req ≤ most
IsFair j most (add t) = Unit

step-IsBounded :
    (j limit most : ℕ) (s : Shared) (a : Access)
    → j < 256
    → limit + length s.checked * most < 2 ^ 64
    → IsFair j most a
    → IsBounded j limit most s
    → IsBounded j limit most (step s a) × (length (step s a).checked ≡ length s.checked)
unfolding step
step-IsBounded j limit most s (check t req tsc) bound fits few v =
    elim (Option-cases (get_or s.checked t none)) [
      | inl idle ↦ elim (Bool-cases (ltb t (length s.checked))) [
        | inl within ↦
            rw (idle, step, within)
              (
                check-IsBounded j limit most t tsc s req bound fits few (ground (arith, within))
                    idle v,
                store_verdict-length s t tsc req (check_order s.bus req tsc),
              )
        | inr past ↦ rw (idle, step, past) (v, refl)
      ]
      | inr (p, busy) ↦ rw (busy, step) (v, refl)
    ]
step-IsBounded j limit most s (add t) bound fits few v =
    elim (Option-cases (get_or s.checked t none)) [
      | inl idle ↦ rw (idle, step) (v, refl)
      | inr (req, busy) ↦
          rw (busy, step)
            (add-IsBounded j limit most t s req bound fits busy v, length-set s.checked t none)
    ]

interleave-IsBounded :
    (j limit most : ℕ) (accesses : List Access) (s : Shared)
    → j < 256
    → limit + length s.checked * most < 2 ^ 64
    → All (IsFair j most) accesses
    → IsBounded j limit most s
    → IsBounded j limit most (interleave s accesses)
      × (length (interleave s accesses).checked ≡ length s.checked)
unfolding interleave
interleave-IsBounded j limit most [] s bound fits h v = (v, refl)
interleave-IsBounded j limit most (a ∷ rest) s bound fits h v =
    let (v', same) = step-IsBounded j limit most s a bound fits h.0 v in
    let (w, long) = interleave-IsBounded j limit most rest (step s a) bound (rw same fits) h.1 v' in
    (w, long ∙ same)

-- The threads of a bus, all idle
abbrev pub idle_threads : PreTradeRiskBus → ℕ → Shared
idle_threads b n = record { bus = b; checked = replicate n none }

owed-idle : (j n : ℕ) → owed j (replicate n none) ≡ 0
unfolding owed
owed-idle j zero = refl
owed-idle j (suc n) = owed-idle j n

le_times : (n most : ℕ) → 0 < n → most ≤ n * most
le_times zero most h = absurd (omega arith)
le_times (suc n) most h = omega arith

idle-IsBounded :
    (b : PreTradeRiskBus) (j most n : ℕ)
    → length b.current_exposure ≡ 256
    → exposure b j ≤ get_or b.exposure_limits j 0
    → 0 < n
    → IsBounded j (get_or b.exposure_limits j 0) most (idle_threads b n)
idle-IsBounded b j most n size within some_thread =
    let long : length (idle_threads b n).checked ≡ n = length-replicate n none in
    record {
      tables = size;
      same_limit = refl;
      small = All-replicate (IsSmall j most) n none tt;
      total = rw (owed-idle j n, long) (omega (arith, within, le_times n most some_thread));
    }

-- `n` threads check orders on a bus at the same time, and none of the orders of strategy `j` is worth
-- more than `most`: under every interleaving of their checks and additions, the exposure of the strategy,
-- which begins within its limit, passes the limit by at most what the other `n - 1` threads add, `most`
-- for each of them; where no such sum passes 2 ^ 64.
pub interleave-exposure :
    (b : PreTradeRiskBus) (j most n : ℕ) (accesses : List Access)
    → j < 256
    → length b.current_exposure ≡ 256
    → exposure b j ≤ get_or b.exposure_limits j 0
    → 0 < n
    → get_or b.exposure_limits j 0 + n * most < 2 ^ 64
    → All (IsFair j most) accesses
    → exposure (interleave (idle_threads b n) accesses).bus j + most
      ≤ get_or b.exposure_limits j 0 + n * most
interleave-exposure b j most n accesses bound size within some_thread fits h =
    let limit : ℕ = get_or b.exposure_limits j 0 in
    let long : length (idle_threads b n).checked ≡ n = length-replicate n none in
    let (w, same) =
      interleave-IsBounded j limit most accesses (idle_threads b n) bound (rw long fits) h
        (idle-IsBounded b j most n size within some_thread) in
    let total = rw (same ∙ long) at w.total in omega (arith, total)
