-- ===== src/Execution/QueuePosition/Window.antt =====
-- The trades that the buffer of src/execution/queue/queue_position.rs sums.
use Prim.Native.Nat.{min}
use mathlib.Core.Path.{subst}
use backendofcryptotradingbo.Base.{
  ℕ, suc, ◌+◌, ◌-◌, ◌%◌, ◌^◌, ◌≤◌, ◌<◌, ◌≡◌, refl, ap, sym, ◌∙◌, true, false, not, List, [], ◌∷◌,
  ◌++◌, leb, ◌==◌, if◌then◌else◌, arith, Bool-cases, inl, inr, get_or, set, length, length-set,
  length-append, get_or-set_self, get_or-set_ne,
}
use backendofcryptotradingbo.Base.Int.{ℤ, pos, pos_part, ◌-ℤ◌, of_bits}
use backendofcryptotradingbo.Execution.QueuePosition.{
  TradeFlowBuffer, QueuePositionEstimator, max_queue_depth, as_u64, evict, push, total_flow,
  saturating_sub, move, update_rate, update_trade_flow,
}

abbrev pub total : List ℕ → ℕ
total [] = 0
total (w ∷ ws) = w + total ws

-- The volumes from index `t` on, round the buffer
abbrev pub Holds : List ℤ → ℕ → List ℕ → Type 0
Holds buffer t [] = Unit
Holds buffer t (w ∷ ws) =
    (get_or buffer (t % max_queue_depth) (pos 0) ≡ pos w) × Holds buffer (suc t) ws

-- The buffer holds the volumes `ws`, oldest first.
pub record IsWindow (b : TradeFlowBuffer) (ws : List ℕ) : Type 0 where
  pub slots : length b.buffer ≡ max_queue_depth
  pub tail_bound : b.tail < max_queue_depth
  pub few : length ws < max_queue_depth
  pub head_is : b.head ≡ (b.tail + length ws) % max_queue_depth
  pub holds : Holds b.buffer b.tail ws
  pub summed : b.sum ≡ total ws

-- The volumes after one more: of the last 1023, the oldest goes.
abbrev pub slide : List ℕ → ℕ → List ℕ
slide [] v = v ∷ []
slide (w ∷ ws) v = (if length ws == 1022 then ws else w ∷ ws) ++ (v ∷ [])

Holds-mod :
    (buffer : List ℤ) (t u : ℕ) (ws : List ℕ)
    → t % max_queue_depth ≡ u % max_queue_depth
    → Holds buffer t ws
    → Holds buffer u ws
Holds-mod buffer t u [] e h = tt
Holds-mod buffer t u (w ∷ ws) e h = (
  ap (λ i. get_or buffer i (pos 0)) (sym e) ∙ h.0,
  Holds-mod buffer (suc t) (suc u) ws (omega (arith, e)) h.1,
)

-- A write at or past the end leaves the volumes alone.
Holds-set :
    (buffer : List ℤ) (t k i : ℕ) (v : ℤ) (ws : List ℕ)
    → i ≡ (t + k) % max_queue_depth
    → length ws ≤ k
    → k < max_queue_depth
    → Holds buffer t ws
    → Holds (set buffer i v) t ws
Holds-set buffer t k i v [] e l h hs = tt
Holds-set buffer t k i v (w ∷ ws) e l h hs = (
  get_or-set_ne buffer i (t % max_queue_depth) v (pos 0) (omega (arith, e, l, h)) ∙ hs.0,
  Holds-set buffer (suc t) (k - 1) i v ws (omega (arith, e, l)) (omega (arith, l))
      (omega (arith, h)) hs.1,
)

Holds-append :
    (buffer : List ℤ) (t v : ℕ) (ws : List ℕ)
    → Holds buffer t ws
    → get_or buffer ((t + length ws) % max_queue_depth) (pos 0) ≡ pos v
    → Holds buffer t (ws ++ (v ∷ []))
Holds-append buffer t v [] hs e = (ap (λ i. get_or buffer i (pos 0)) (omega arith) ∙ e, tt)
Holds-append buffer t v (w ∷ ws) hs e = (
  hs.0,
  Holds-append buffer (suc t) v ws hs.1 (ap (λ i. get_or buffer i (pos 0)) (omega arith) ∙ e),
)

total-append : (ws : List ℕ) (v : ℕ) → total (ws ++ (v ∷ [])) ≡ total ws + v
total-append [] v = omega arith
total-append (w ∷ ws) v = omega (arith, total-append ws v)

-- A push into a buffer with room, after which `b'` is what `evict` left
write-IsWindow :
    (b : TradeFlowBuffer) (ws : List ℕ) (v : ℕ)
    → IsWindow b ws
    → suc (length ws) < max_queue_depth
    → total ws + v < 2 ^ 63
    → IsWindow
        (record b {
          buffer = set b.buffer b.head (pos v);
          sum = min (b.sum + as_u64 (pos v)) (2 ^ 64 - 1);
          head = (b.head + 1) % max_queue_depth;
        })
        (ws ++ (v ∷ []))
write-IsWindow b ws v w room small =
    let more = length-append ws (v ∷ []) in
    let here : get_or (set b.buffer b.head (pos v)) ((b.tail + length ws) % max_queue_depth) (pos 0)
        ≡ pos v =
      ap (λ i. get_or (set b.buffer b.head (pos v)) i (pos 0)) (sym w.head_is)
      ∙ get_or-set_self b.buffer b.head (pos v) (pos 0) (omega (arith, w.head_is, w.slots)) in
    record {
      slots = length-set b.buffer b.head (pos v) ∙ w.slots;
      tail_bound = w.tail_bound;
      few = omega (arith, more, room);
      head_is = omega (arith, w.head_is, more);
      holds =
          Holds-append (set b.buffer b.head (pos v)) b.tail v ws
            (Holds-set b.buffer b.tail (length ws) b.head (pos v) ws w.head_is (omega arith) w.few
              w.holds)
            here;
      summed = omega (arith, total-append ws v, w.summed, small);
    }

-- After `evict` there is room, and the oldest volume of a full window is gone.
evict-IsWindow :
    (b : TradeFlowBuffer) (w : ℕ) (ws : List ℕ)
    → IsWindow b (w ∷ ws)
    → length ws ≡ 1022
    → total (w ∷ ws) < 2 ^ 63
    → IsWindow (evict b) ws
unfolding evict
evict-IsWindow b w ws v full small =
    let last : ((b.head + 1) % max_queue_depth == b.tail) ≡ true =
      ground (arith, v.head_is, v.tail_bound, full) in
    let index : b.tail ≡ b.tail % max_queue_depth = omega (arith, v.tail_bound) in
    let oldest : get_or b.buffer b.tail (pos 0) ≡ pos w =
      ap (λ i. get_or b.buffer i (pos 0)) index ∙ v.holds.0 in
    let gone : as_u64 (get_or b.buffer b.tail (pos 0)) ≡ w =
      ap as_u64 oldest ∙ omega (arith, small) in
    rw (last, evict)
      (record {
        slots = v.slots;
        tail_bound = omega arith;
        few = omega (arith, full);
        head_is = omega (arith, v.head_is, v.tail_bound, full);
        holds =
            Holds-mod b.buffer (suc b.tail) ((b.tail + 1) % max_queue_depth) ws (omega arith)
              v.holds.1;
        summed = omega (arith, gone, v.summed);
      })

evict-room :
    (b : TradeFlowBuffer) (ws : List ℕ)
    → IsWindow b ws
    → suc (length ws) < max_queue_depth
    → evict b ≡ b
unfolding evict
evict-room b ws v room =
    let other : ((b.head + 1) % max_queue_depth == b.tail) ≡ false =
      ground (arith, v.head_is, v.tail_bound, room) in
    rw (other, evict) refl

-- From a buffer that holds some volumes, with sums below 2 ^ 63: after a push it holds the same
-- and the new one, of which the last 1023 stay, and its sum is theirs.
pub push-IsWindow :
    (b : TradeFlowBuffer) (ws : List ℕ) (v : ℕ)
    → IsWindow b ws
    → total ws + v < 2 ^ 63
    → IsWindow (push b (pos v)) (slide ws v)
unfolding push
push-IsWindow b [] v w small =
    rw (evict-room b [] w (omega arith)) (write-IsWindow b [] v w (omega arith) small)
push-IsWindow b (x ∷ ws) v w small = elim (Bool-cases (length ws == 1022)) [
  | inl full ↦
      let last : length ws ≡ 1022 = ground arith in
      let rest = evict-IsWindow b x ws w last (omega (arith, small)) in
      rw full (write-IsWindow (evict b) ws v rest (omega (arith, last)) (omega (arith, small)))
  | inr room ↦
      let less : suc (suc (length ws)) < max_queue_depth = ground (arith, w.few) in
      rw room (rw (evict-room b (x ∷ ws) w less) (write-IsWindow b (x ∷ ws) v w less small))
]

slide-total : (ws : List ℕ) (v : ℕ) → total (slide ws v) ≤ total ws + v
slide-total [] v = omega arith
slide-total (w ∷ ws) v = elim (Bool-cases (length ws == 1022)) [
  | inl full ↦ rw full (omega (arith, total-append ws v))
  | inr room ↦ rw room (omega (arith, total-append (w ∷ ws) v))
]

saturating_sub_lem :
    (start gone : ℕ)
    → start < 2 ^ 63
    → gone < 2 ^ 63
    → pos_part (saturating_sub (pos start) (of_bits (2 ^ 64) gone)) ≡ start - gone
unfolding saturating_sub ◌-ℤ◌
saturating_sub_lem start gone h k = ground arith

update_rate_kept :
    (e : QueuePositionEstimator) (flow position : ℤ) (now : ℕ)
    → ((update_rate e flow position now).state ≡ e.state)
      × ((update_rate e flow position now).trade_flow ≡ e.trade_flow)
unfolding update_rate
update_rate_kept e flow position now = ground arith

-- An active order whose buffer holds some volumes, all sums below 2 ^ 63: after a trade ahead of
-- it, its place is its first one less the trades that the buffer then holds, 0 at the least; it is
-- filled and no longer active exactly when these are at least its first place. So a trade that 1023
-- others have followed no longer counts.
pub update_trade_flow_lem :
    (e : QueuePositionEstimator) (ws : List ℕ) (start v now : ℕ)
    → IsWindow e.trade_flow ws
    → e.state.is_active ≡ true
    → e.state.was_filled ≡ false
    → e.state.initial_position ≡ pos start
    → start < 2 ^ 63
    → total ws + v < 2 ^ 63
    → let e' = update_trade_flow e (pos v) true now in
      IsWindow e'.trade_flow (slide ws v)
      × (e'.state.current_position ≡ pos (start - total (slide ws v)))
      × (e'.state.was_filled ≡ leb start (total (slide ws v)))
      × (e'.state.is_active ≡ not (leb start (total (slide ws v))))
unfolding update_trade_flow move
update_trade_flow_lem e ws start v now w active waiting first small sums =
    let w' = push-IsWindow e.trade_flow ws v w sums in
    let gone : total (slide ws v) < 2 ^ 63 = omega (arith, slide-total ws v, sums) in
    let flow_buffer = push e.trade_flow (pos v) in
    let left : pos_part (saturating_sub e.state.initial_position (total_flow flow_buffer))
        ≡ start - total (slide ws v) =
      ap (λ p. pos_part (saturating_sub p (total_flow flow_buffer))) first
      ∙ ap (λ n. pos_part (saturating_sub (pos start) (of_bits (2 ^ 64) n))) w'.summed
      ∙ saturating_sub_lem start (total (slide ws v)) small gone in
    let e' = move e flow_buffer in
    let rated = update_rate e' (total_flow flow_buffer) e'.state.current_position now in
    let (state, flow) =
      update_rate_kept e' (total_flow flow_buffer) e'.state.current_position now in
    let whole : update_trade_flow e (pos v) true now ≡ rated =
      ap (λ b. if b then rated else e) active in
    let flow_is = ap (λ x. x.trade_flow) whole ∙ flow in
    let state_is = ap (λ x. x.state) whole ∙ state in
    (
      subst (λ b. IsWindow b (slide ws v)) (sym flow_is) w',
      ap (λ s. s.current_position) state_is ∙ ap pos left,
      ap (λ s. s.was_filled) state_is ∙ ground (arith, waiting, left),
      ap (λ s. s.is_active) state_is ∙ ground (arith, active, left),
    )
