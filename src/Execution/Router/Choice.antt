-- ===== src/Execution/Router/Choice.antt =====
-- Which venue src/execution/smart_router.rs chooses.
use Prim.Native.Nat.{min}
use mathlib.Core.Path.{subst}
use backendofcryptotradingbo.Base.{
  ℕ, zero, suc, ◌+◌, ◌≤◌, ◌<◌, ◌≡◌, ◌⊎◌, inl, inr, refl, ap, ◌∙◌, Bool, true, false, not, ◌&&◌,
  ◌==◌, arith, Bool-cases,
}
use backendofcryptotradingbo.Base.Int.{ℤ, pos, ◌≤ℤ◌, ltb_ℤ}
use backendofcryptotradingbo.Execution.Router.{
  SmartRouter, Best, no_best, no_venue, max_venues, venue_at, liquidity_for, is_eligible,
  adjusted_score, consider, route_loop, best_venue, route_order,
}

module _ (r : SmartRouter) (quantity : ℕ) (is_buy : Bool) where
  abbrev pub eligible : ℕ → Bool
  eligible i = is_eligible r (venue_at r i) quantity is_buy

  abbrev pub score_of : ℕ → ℤ
  score_of i = adjusted_score r (venue_at r i) is_buy

  -- What the loop holds of a venue that it took.
  pub record IsTaken (i : ℕ) (b : Best) : Type 0 where
    pub venue_is : b.venue ≡ i
    pub passed : eligible i ≡ true
    pub scored : b.score ≡ score_of i
    pub offers : b.liquidity ≡ liquidity_for (venue_at r i) is_buy
    pub takes : b.latency ≡ (venue_at r i).avg_latency_ns

  consider_lem :
      (i : ℕ) (b : Best)
      → let b' = consider r quantity is_buy i b in
        (b.score ≤ℤ b'.score)
        × (eligible i ≡ true → score_of i ≤ℤ b'.score)
        × ((b'.venue ≡ b.venue)
              × (b'.score ≡ b.score)
              × (b'.liquidity ≡ b.liquidity)
              × (b'.latency ≡ b.latency)
            ⊎ IsTaken i b' × (ltb_ℤ b.score b'.score ≡ true))
  unfolding consider
  consider_lem i b = elim (Bool-cases (ltb_ℤ b.score (score_of i) && eligible i)) [
    | inl better ↦ rw (better, consider) (ground arith, λ e. ground arith, inr ground arith)
    | inr worse ↦
        rw (worse, consider) (ground arith, λ e. ground arith, inl (refl, refl, refl, refl))
  ]

  -- What the loop has after venues `i` up to `m`: the best before, or a venue of these with a better
  -- score.
  abbrev pub Taken : ℕ → ℕ → Best → Best → Type 0
  Taken i m b b' =
      (b'.venue ≡ b.venue)
        × (b'.score ≡ b.score)
        × (b'.liquidity ≡ b.liquidity)
        × (b'.latency ≡ b.latency)
      ⊎ (k : ℕ) × (i ≤ k) × (k < m) × IsTaken k b' × (ltb_ℤ b.score b'.score ≡ true)

  route_loop-ge : (n i : ℕ) (b : Best) → b.score ≤ℤ (route_loop n i r quantity is_buy b).score
  unfolding route_loop
  route_loop-ge zero i b = omega arith
  route_loop-ge (suc n) i b =
      omega (arith, (consider_lem i b).0, route_loop-ge n (suc i) (consider r quantity is_buy i b))

  route_loop-max :
      (n i j : ℕ) (b : Best)
      → i ≤ j
      → j < i + n
      → eligible j ≡ true
      → score_of j ≤ℤ (route_loop n i r quantity is_buy b).score
  unfolding route_loop
  route_loop-max zero i j b h k e = absurd (omega arith)
  route_loop-max (suc n) i j b h k e =
      let b' = consider r quantity is_buy i b in
      elim (Bool-cases (i == j)) [
        | inl same ↦
            let here : i ≡ j = ground arith in
            let now : score_of j ≤ℤ b'.score =
              subst (λ x. score_of x ≤ℤ b'.score) here
                ((consider_lem i b).1 (ap eligible here ∙ e)) in
            omega (arith, now, route_loop-ge n (suc i) b')
        | inr later ↦ route_loop-max n (suc i) j b' (ground arith) (omega arith) e
      ]

  route_loop-Taken : (n i : ℕ) (b : Best) → Taken i (i + n) b (route_loop n i r quantity is_buy b)
  unfolding route_loop
  route_loop-Taken zero i b = inl (refl, refl, refl, refl)
  route_loop-Taken (suc n) i b =
      let b' = consider r quantity is_buy i b in
      let (ge, _, first) = consider_lem i b in
      elim (route_loop-Taken n (suc i) b') [
        | inl (venue, score, liquidity, latency) ↦ elim first [
          | inl (venue', score', liquidity', latency') ↦
              inl (venue ∙ venue', score ∙ score', liquidity ∙ liquidity', latency ∙ latency')
          | inr (taken, better) ↦ inr (
            i,
            omega arith,
            omega arith,
            record {
              venue_is = venue ∙ taken.venue_is;
              passed = taken.passed;
              scored = score ∙ taken.scored;
              offers = liquidity ∙ taken.offers;
              takes = latency ∙ taken.takes;
            },
            rw score better,
          )
        ]
        | inr (k, low, high, taken, better) ↦
            inr (k, omega arith, omega arith, taken, ground (arith, ge, better))
      ]

  -- The venues that are considered.
  abbrev pub considered : ℕ
  considered = min r.num_venues max_venues

  decision_fields :
      r.routing_enabled ≡ true
      → let d = route_order r quantity is_buy in
        let b = best_venue r quantity is_buy in
        (d.venue_id ≡ b.venue)
        × (d.available_liquidity ≡ b.liquidity)
        × (d.expected_latency_ns ≡ b.latency)
  unfolding route_order
  decision_fields on = ground arith

  -- Where routing is on, and for every considered venue `j`: either the decision names no venue, and
  -- `j` is not eligible (enough liquidity, latency within the bound) or its score is below 0; or
  -- it names an eligible considered venue, with its liquidity and latency, and `j` is not
  -- eligible or scores no higher. A venue that is neither healthy nor degraded takes part, with score 0.
  pub route_order_lem :
      (j : ℕ)
      → r.routing_enabled ≡ true
      → j < considered
      → let d = route_order r quantity is_buy in
        (d.venue_id ≡ no_venue) × ((eligible j && not (ltb_ℤ (score_of j) (pos 0))) ≡ false)
        ⊎ (d.venue_id < considered)
          × (eligible d.venue_id ≡ true)
          × (d.available_liquidity ≡ liquidity_for (venue_at r d.venue_id) is_buy)
          × (d.expected_latency_ns ≡ (venue_at r d.venue_id).avg_latency_ns)
          × ((eligible j && ltb_ℤ (score_of d.venue_id) (score_of j)) ≡ false)
  unfolding best_venue
  route_order_lem j on h =
      let (venue_is, liquidity_is, latency_is) = decision_fields on in
      let top : eligible j ≡ true → score_of j ≤ℤ (best_venue r quantity is_buy).score =
        λ e. route_loop-max considered 0 j no_best (omega arith) (omega arith) e in
      elim (route_loop-Taken considered 0 no_best) [
        | inl (venue, score, liquidity, latency) ↦ inl (
          venue_is ∙ venue,
          elim (Bool-cases (eligible j)) [ inl e ↦ ground (arith, top e, score) | inr e ↦ rw e ],
        )
        | inr (k, low, high, taken, better) ↦
            let named = venue_is ∙ taken.venue_is in
            rw named (
              inr (
                omega (arith, high),
                taken.passed,
                liquidity_is ∙ taken.offers,
                latency_is ∙ taken.takes,
                elim (Bool-cases (eligible j)) [
                  | inl e ↦ ground (arith, top e, taken.scored)
                  | inr e ↦ rw e
                ],
              ))
      ]
