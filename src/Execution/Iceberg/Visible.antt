-- ===== src/Execution/Iceberg/Visible.antt =====
-- What src/execution/iceberg_handler.rs shows of its orders, and how many it counts as active.

use backendofcryptotradingbo.Base.{
  ℕ, zero, suc, ◌+◌, ◌-◌, ◌^◌, ◌≤◌, ◌<◌, ◌≡◌, ◌≢◌, inl, inr, refl, ◌∙◌, Bool, true, false, ◌&&◌,
  ◌||◌, not, some, List, [], ◌∷◌, leb, ◌==◌, if◌then◌else◌, get_or, set, length, length-set,
  length-replicate, arith, Option-cases, Bool-cases, All, All-set, All-replicate, All-get_or,
  leb→lt,
}
use backendofcryptotradingbo.Execution.Iceberg.{
  IcebergOrder, IcebergHandler, max_iceberg_orders, empty, order_at, calculate_min_display,
  find_empty, fresh_order, create_iceberg, update_queue_position, fill_order, process_level_fill,
  cancel_order, new,
}

-- An order in use that is active or partially filled.
abbrev pub is_live : IcebergOrder → Bool
is_live o = not (o.order_id == 0) && (o.state == 1 || o.state == 2)

-- A live order has quantity left, shows some of it, and never more than that nor than its display size.
pub record IsShowing (o : IcebergOrder) : Type 0 where
  pub shown : is_live o ≡ true → 0 < o.remaining_visible
  pub backed : is_live o ≡ true → o.filled_qty + o.remaining_visible ≤ o.total_qty
  pub sized : is_live o ≡ true → o.remaining_visible ≤ o.min_display_qty

abbrev pub count_live : List IcebergOrder → ℕ
count_live [] = 0
count_live (o ∷ os) = (if is_live o then 1 else 0) + count_live os

pub record IsSound (h : IcebergHandler) : Type 0 where
  pub slots : length h.orders ≡ max_iceberg_orders
  pub counted : h.num_active ≡ count_live h.orders
  pub showing : All IsShowing h.orders

count_live-set :
    (os : List IcebergOrder) (i : ℕ) (o : IcebergOrder)
    → i < length os
    → count_live (set os i o) + (if is_live (get_or os i empty) then 1 else 0)
      ≡ count_live os + (if is_live o then 1 else 0)
count_live-set [] i o h = elim h [ ]
count_live-set (p ∷ os) zero o h = omega arith
count_live-set (p ∷ os) (suc i) o h = omega (arith, count_live-set os i o (omega arith))

count_live-le : (os : List IcebergOrder) → count_live os ≤ length os
count_live-le [] = omega arith
count_live-le (o ∷ os) = ground (arith, count_live-le os)

find_empty_lem :
    (os : List IcebergOrder) (i : ℕ)
    → find_empty os ≡ some i
    → (i < length os) × ((get_or os i empty).order_id ≡ 0)
unfolding find_empty
find_empty_lem [] i e = cc
find_empty_lem (o ∷ os) zero e = ground arith
find_empty_lem (o ∷ os) (suc i) e = ground (arith, find_empty_lem os i)

fresh_order-IsShowing :
    (h : IcebergHandler) (order_id total_qty price side venue_id now : ℕ)
    → order_id ≢ 0
    → total_qty ≢ 0
    → (is_live (fresh_order h order_id total_qty price side venue_id now) ≡ true)
      × IsShowing (fresh_order h order_id total_qty price side venue_id now)
unfolding fresh_order calculate_min_display
fresh_order-IsShowing h order_id total_qty price side venue_id now used some_qty = ground arith

-- A fill of a live order leaves it live exactly if quantity is left, and showing.
fill_order_lem :
    (o : IcebergOrder) (qty threshold now : ℕ)
    → is_live o ≡ true
    → IsShowing o
    → 0 < qty
    → o.filled_qty + qty < 2 ^ 64
    → let (o', done) = fill_order o qty threshold now in
      IsShowing o' × (is_live o' ≡ not done) × (done ≡ leb o.total_qty (o.filled_qty + qty))
unfolding fill_order
fill_order_lem o qty threshold now l v pos small = ground arith

-- The calls that change orders.
pub data Command : Type 0 where
  create : ℕ → ℕ → ℕ → ℕ → ℕ → ℕ → Command
  level_fill : ℕ → ℕ → Bool → ℕ → Command
  cancel : ℕ → Command
  queue : ℕ → ℕ → ℕ → ℕ → Command

unfoldable pub execute : IcebergHandler → Command → IcebergHandler
execute h (create order_id total_qty price side venue_id now) =
    (create_iceberg h order_id total_qty price side venue_id now).0
execute h (level_fill idx qty ours now) = process_level_fill h idx qty ours now
execute h (cancel idx) = (cancel_order h idx).0
execute h (queue idx position volume_ahead level_volume) =
    update_queue_position h idx position volume_ahead level_volume

-- What the handler leaves to its client: ids are not 0, our fills are of live orders and fit a u64, and
-- a cancel is of an order in use that was not cancelled and filled since.
abbrev pub IsProper : IcebergHandler → Command → Type 0
IsProper h (create order_id _ _ _ _ _) = order_id ≢ 0
IsProper h (level_fill idx qty true now) =
    (is_live (order_at h idx) ≡ true) × (0 < qty) × ((order_at h idx).filled_qty + qty < 2 ^ 64)
IsProper h (level_fill idx qty false now) = Unit
IsProper h (cancel idx) =
    ((order_at h idx).order_id ≢ 0) × ((order_at h idx).state ≢ 0) × ((order_at h idx).state ≤ 4)
IsProper h (queue _ _ _ _) = Unit

abbrev pub AllProper : IcebergHandler → List Command → Type 0
AllProper h [] = Unit
AllProper h (c ∷ cs) = IsProper h c × AllProper (execute h c) cs

unfoldable pub run : IcebergHandler → List Command → IcebergHandler
run h [] = h
run h (c ∷ cs) = run (execute h c) cs

-- A write of an order that shows, where the counter follows the count.
write-IsSound :
    (h : IcebergHandler) (i n : ℕ) (o : IcebergOrder) (h' : IcebergHandler)
    → IsSound h
    → i < max_iceberg_orders
    → IsShowing o
    → n + (if is_live (order_at h i) then 1 else 0) ≡ h.num_active + (if is_live o then 1 else 0)
    → h'.orders ≡ set h.orders i o
    → h'.num_active ≡ n
    → IsSound h'
write-IsSound h i n o h' v bound shows balance orders active = record {
  slots = rw orders (length-set h.orders i o ∙ v.slots);
  counted = rw orders (
      omega
        (arith, count_live-set h.orders i o (omega (arith, v.slots)), v.counted, balance, active));
  showing = rw orders (All-set IsShowing h.orders i o v.showing shows);
}

IsShowing-at :
    (h : IcebergHandler) (i : ℕ) → IsSound h → i < max_iceberg_orders → IsShowing (order_at h i)
IsShowing-at h i v bound = All-get_or IsShowing h.orders i empty v.showing (omega (arith, v.slots))

few_active : (h : IcebergHandler) → IsSound h → h.num_active ≤ max_iceberg_orders
few_active h v = omega (arith, v.counted, v.slots, count_live-le h.orders)

-- A live order is among those counted.
counted_at :
    (os : List IcebergOrder) (i : ℕ) → is_live (get_or os i empty) ≡ true → 0 < count_live os
counted_at [] i e = cc
counted_at (o ∷ os) zero e = ground arith
counted_at (o ∷ os) (suc i) e = ground (arith, counted_at os i e)

cancelled_order-IsShowing :
    (o : IcebergOrder)
    → IsShowing (record o { state = 4 }) × (is_live (record o { state = 4 }) ≡ false)
cancelled_order-IsShowing o = ground arith

create-IsSound :
    (h : IcebergHandler) (order_id total_qty price side venue_id now : ℕ)
    → IsSound h
    → order_id ≢ 0
    → IsSound (create_iceberg h order_id total_qty price side venue_id now).0
unfolding create_iceberg
create-IsSound h order_id total_qty price side venue_id now v used =
    let o = fresh_order h order_id total_qty price side venue_id now in
    elim (Bool-cases (total_qty == 0 || price == 0)) [
      | inl bad ↦ rw (bad, create_iceberg) v
      | inr good ↦ elim (Option-cases (find_empty h.orders)) [
        | inl full ↦ rw (good, create_iceberg) (rw (full, create_iceberg) v)
        | inr (i, e) ↦
            let (bound, free) = find_empty_lem h.orders i e in
            let (live, shows) =
              fresh_order-IsShowing h order_id total_qty price side venue_id now used
                (ground arith) in
            rw (good, create_iceberg)
              (rw (e, create_iceberg)
                (write-IsSound h i (h.num_active + 1) o _ v (omega (arith, v.slots)) shows
                  (ground arith) refl (omega (arith, few_active h v))))
      ]
    ]

fill-IsSound :
    (h : IcebergHandler) (idx qty now : ℕ) (ours : Bool)
    → IsSound h
    → IsProper h (level_fill idx qty ours now)
    → IsSound (process_level_fill h idx qty ours now)
unfolding process_level_fill
fill-IsSound h idx qty now false v p = ground (arith, v)
fill-IsSound h idx qty now true v (live, pos, small) =
    elim (Bool-cases (leb max_iceberg_orders idx)) [
      | inl out ↦ rw (out, process_level_fill) v
      | inr within ↦
          let bound = leb→lt max_iceberg_orders idx within in
          let filled = fill_order (order_at h idx) qty h.aggressive_refill_threshold now in
          let (shows, left, done) =
            fill_order_lem (order_at h idx) qty h.aggressive_refill_threshold now live
              (IsShowing-at h idx v bound) pos small in
          let some_live = counted_at h.orders idx live in
          rw (within, process_level_fill)
            (write-IsSound h idx (if filled.1 then h.num_active - 1 else h.num_active) filled.0 _ v
              bound shows (ground (arith, some_live, v.counted)) refl
              (ground (arith, few_active h v, some_live, v.counted)))
    ]

cancel-IsSound :
    (h : IcebergHandler) (idx : ℕ)
    → IsSound h
    → IsProper h (cancel idx)
    → IsSound (cancel_order h idx).0
unfolding cancel_order
cancel-IsSound h idx v (used, started, known) = elim (Bool-cases (leb max_iceberg_orders idx)) [
  | inl out ↦ rw (out, cancel_order) v
  | inr within ↦
      let bound = leb→lt max_iceberg_orders idx within in
      let o = order_at h idx in
      elim (Bool-cases (o.state == 3 || o.state == 4)) [
        | inl over ↦ rw (within, cancel_order) (rw (over, cancel_order) v)
        | inr live_state ↦
            let live : is_live o ≡ true = ground arith in
            let some_live = counted_at h.orders idx live in
            let (shows, dead) = cancelled_order-IsShowing o in
            rw (within, cancel_order)
              (rw (live_state, cancel_order)
                (write-IsSound h idx (h.num_active - 1) (record o { state = 4 }) _ v bound shows
                  (ground (arith, some_live, v.counted)) refl
                  (omega (arith, few_active h v, some_live, v.counted))))
      ]
]

queue-IsSound :
    (h : IcebergHandler) (idx position volume_ahead level_volume : ℕ)
    → IsSound h
    → IsSound (update_queue_position h idx position volume_ahead level_volume)
unfolding update_queue_position
queue-IsSound h idx position volume_ahead level_volume v =
    elim (Bool-cases (leb max_iceberg_orders idx)) [
      | inl out ↦ rw (out, update_queue_position) v
      | inr within ↦
          let bound = leb→lt max_iceberg_orders idx within in
          let o = record (order_at h idx) {
            queue_position = position;
            orders_ahead = position - 1;
            volume_ahead = volume_ahead;
          } in
          rw (within, update_queue_position)
            (write-IsSound h idx h.num_active o _ v bound
              (ground (arith, IsShowing-at h idx v bound)) refl refl refl)
    ]

execute-IsSound :
    (h : IcebergHandler) (c : Command) → IsSound h → IsProper h c → IsSound (execute h c)
unfolding execute
execute-IsSound h (create order_id total_qty price side venue_id now) v p =
    create-IsSound h order_id total_qty price side venue_id now v p
execute-IsSound h (level_fill idx qty ours now) v p = fill-IsSound h idx qty now ours v p
execute-IsSound h (cancel idx) v p = cancel-IsSound h idx v p
execute-IsSound h (queue idx position volume_ahead level_volume) v p =
    queue-IsSound h idx position volume_ahead level_volume v

-- From a sound handler, any sequence of creations, level fills, cancels and queue updates leads to a
-- sound one: the counter is the number of live orders, and every live order shows a part of it, at
-- most what is left of it and at most its display size. The condition is that ids are not 0,
-- our fills are of live orders and fit a u64, and cancels are of orders in use.
pub run-IsSound :
    (h : IcebergHandler) (cs : List Command) → IsSound h → AllProper h cs → IsSound (run h cs)
unfolding run
run-IsSound h [] v p = v
run-IsSound h (c ∷ cs) v p = run-IsSound (execute h c) cs (execute-IsSound h c v p.0) p.1

pub new-IsSound : IsSound new
unfolding new
new-IsSound = record {
  slots = length-replicate max_iceberg_orders empty;
  counted = refl;
  showing = All-replicate IsShowing max_iceberg_orders empty (ground arith);
}
