-- ===== src/Oms/Order/Race.antt =====
-- Threads that race on one order (src/oms/order_state_machine.rs): between the load and the
-- compare-and-exchange of a `transition_to`, other threads may run.
use backendofcryptotradingbo.Base.{
  ℕ, ◌+◌, ◌≡◌, refl, ap, ◌⊎◌, inl, inr, true, List, [], ◌∷◌, arith, ◌==◌, if◌then◌else◌, Bool-cases,
}
use backendofcryptotradingbo.Oms.Order.{OrderState, as_u32, is_terminal, Order, transition_from}
use backendofcryptotradingbo.Oms.Order.Transitions.{
  at_exchange, acked, ◌⟶◌, stay_pending, submit, ack, leave_open, fill_again, finish,
  transition_from_lem,
}

-- One atomic access of a thread: the load, or the exchange with its target and the clock.
pub data Access : Type 0 where
  load : ℕ → Access
  exchange : ℕ → OrderState → ℕ → Access

-- The order, and the state that each thread saw last.
pub record Shared : Type 0 where
  pub order : Order
  pub seen : ℕ → ℕ

-- The number of successful exchanges into a terminal state is counted beside the state.
unfoldable pub access : Shared → Access → Shared × ℕ
access c (load i) = (record c { seen = λ j. if j == i then c.order.state else c.seen j }, 0)
access c (exchange i t now) =
    let (o, done) = transition_from c.order (c.seen i) t now in
    (record c { order = o }, if done then if is_terminal t then 1 else 0 else 0)

-- A schedule: the accesses of all threads in the order in which memory sees them.
unfoldable pub interleave : Shared → List Access → Shared × ℕ
interleave c [] = (c, 0)
interleave c (a ∷ as') =
    let (c', wins) = access c a in let (c'', more) = interleave c' as' in (c'', wins + more)

infix 40 ◌⟶*◌
pub data ◌⟶*◌ : OrderState → OrderState → Type 0 where
  here : {s : OrderState} → s ⟶* s
  next : {s t u : OrderState} → s ⟶ t → t ⟶* u → s ⟶* u

no_edge_from_terminal : (s t : OrderState) → is_terminal s ≡ true → ¬ (s ⟶ t)
no_edge_from_terminal s t h stay_pending = cc
no_edge_from_terminal s t h submit = cc
no_edge_from_terminal s t h ack = cc
no_edge_from_terminal s t h (leave_open at_exchange n) = cc
no_edge_from_terminal s t h (leave_open acked n) = cc
no_edge_from_terminal s t h fill_again = cc
no_edge_from_terminal s t h (finish k) = cc

-- 1 for a terminal state, 0 for any other.
abbrev pub ended : OrderState → ℕ
ended s = if is_terminal s then 1 else 0

not_ended : (s t : OrderState) → s ⟶ t → ended s ≡ 0
not_ended s t e = elim (Bool-cases (is_terminal s)) [
  | inl h ↦ absurd (no_edge_from_terminal s t h e)
  | inr h ↦ rw h
]

-- One access keeps the state or follows one edge, and wins only by an edge into a terminal state.
access_step :
    (c : Shared) (a : Access) (s : OrderState)
    → c.order.state ≡ as_u32 s
    → (t : OrderState) × ((access c a).0.order.state ≡ as_u32 t)
      × (((t ≡ s) × ((access c a).1 ≡ 0)) ⊎ ((s ⟶ t) × ((access c a).1 ≡ ended t)))
unfolding access
access_step c (load i) s e = (s, e, inl (refl, refl))
access_step c (exchange i t now) s e =
    let (iff, stored) = transition_from_lem c.order (c.seen i) s t now e in
    elim (Bool-cases (transition_from c.order (c.seen i) t now).1) [
      | inl h ↦ (t, ground (arith, stored), inr ((iff.0 h).1, ground arith))
      | inr h ↦ (s, ground (arith, stored), inl (refl, ground arith))
    ]

-- Whatever the interleaving, the order ends in a state that the life cycle reaches from `s`, and
-- the exchanges that reached a terminal state number one if the order is ended only now, and none
-- otherwise: of a fill, a cancel and a timeout that race, one wins.
pub race :
    (c : Shared) (as' : List Access) (s : OrderState)
    → c.order.state ≡ as_u32 s
    → (t : OrderState) × ((interleave c as').0.order.state ≡ as_u32 t)
      × (s ⟶* t)
      × ((interleave c as').1 + ended s ≡ ended t)
unfolding interleave
race c [] s e = (s, e, here, omega arith)
race c (a ∷ as') s e =
    let (t, at_t, how) = access_step c a s e in
    let (u, at_u, path, wins) = race (access c a).0 as' t at_t in
    elim how [
      | inl (same, none) ↦ (u, at_u, rw (← same) path, omega (arith, ap ended same))
      | inr (edge, won) ↦ (u, at_u, next edge path, omega (arith, not_ended s t edge))
    ]
