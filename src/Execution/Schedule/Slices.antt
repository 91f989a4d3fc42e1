-- ===== src/Execution/Schedule/Slices.antt =====
-- The quantities of the slices of src/execution/twap_vwap.rs.
use Prim.Native.Nat.{min, max}
use native.Mathlib.Nat.{mod-lt, div-add-mod}
use backendofcryptotradingbo.Base.{
  ℕ, zero, suc, ◌+◌, ◌-◌, ◌*◌, ◌/◌, ◌%◌, ◌^◌, ◌≤◌, ◌<◌, ◌≡◌, refl, ap, ◌∙◌, false, ◌&&◌, ◌||◌, ltb,
  leb, ◌==◌, if◌then◌else◌, get_or, length, length-set, get_or-set_self, get_or-set_ne, arith,
}
use backendofcryptotradingbo.Execution.Schedule.{
  ChildOrder, ExecutionAlgo, max_child_orders, empty_child, put_child, add_to_timer_wheel,
  twap_child, twap_loop, generate_twap_slices, vwap_slice_qty, vwap_child, vwap_loop,
  generate_vwap_slices,
}

abbrev pub quantity_of : ExecutionAlgo → ℕ → ℕ
quantity_of a i = (get_or a.child_orders i empty_child).quantity

-- The quantities of the first `n` children, together
unfoldable pub total_quantity : ExecutionAlgo → ℕ → ℕ
total_quantity a zero = 0
total_quantity a (suc n) = total_quantity a n + quantity_of a n

put_child-lem :
    (a : ExecutionAlgo) (i j : ℕ) (c : ChildOrder)
    → length a.child_orders ≡ max_child_orders
    → i < max_child_orders
    → (length (put_child a i c).child_orders ≡ max_child_orders)
      × (quantity_of (put_child a i c) j ≡ (if j == i then c.quantity else quantity_of a j))
unfolding add_to_timer_wheel
put_child-lem a i j c l h = ground (
  arith,
  length-set a.child_orders i c,
  get_or-set_self a.child_orders i c empty_child,
  get_or-set_ne a.child_orders i j c empty_child,
)

twap_qty :
    (start : ExecutionAlgo) (cycle_freq i : ℕ)
    → (twap_child start cycle_freq i).quantity
      ≡ start.parent_qty / start.num_slices
        + (if ltb i (start.parent_qty % start.num_slices) then 1 else 0)
unfolding twap_child
twap_qty start cycle_freq i = refl

twap_loop-quantity :
    (n i j cycle_freq : ℕ) (start a : ExecutionAlgo)
    → length a.child_orders ≡ max_child_orders
    → i + n ≤ max_child_orders
    → quantity_of (twap_loop n i cycle_freq start a) j ≡ (
        if leb i j && ltb j (i + n)
        then (twap_child start cycle_freq j).quantity
        else quantity_of a j)
unfolding twap_loop
twap_loop-quantity zero i j cycle_freq start a l h = ground arith
twap_loop-quantity (suc n) i j cycle_freq start a l h =
    let c = twap_child start cycle_freq i in
    let (l', here) = put_child-lem a i j c l (omega arith) in
    let rest = twap_loop-quantity n (suc i) j cycle_freq start (put_child a i c) l' (omega arith) in
    rest ∙ ground (arith, here)

twap_total :
    (k cycle_freq : ℕ) (a : ExecutionAlgo)
    → length a.child_orders ≡ max_child_orders
    → a.num_slices ≤ max_child_orders
    → k ≤ a.num_slices
    → total_quantity (twap_loop a.num_slices 0 cycle_freq a a) k
      ≡ k * (a.parent_qty / a.num_slices) + min k (a.parent_qty % a.num_slices)
unfolding total_quantity
twap_total zero cycle_freq a l h small = omega arith
twap_total (suc k) cycle_freq a l h small =
    let ih = twap_total k cycle_freq a l h (omega arith) in
    let last = twap_loop-quantity a.num_slices 0 k cycle_freq a a l (omega arith) in
    let qty = twap_qty a cycle_freq k in
    let base : suc k * (a.parent_qty / a.num_slices)
        ≡ k * (a.parent_qty / a.num_slices) + a.parent_qty / a.num_slices =
      grind arith in
    ground (arith, ih, last, qty, base)

total_quantity-eq :
    (a b : ExecutionAlgo) (n : ℕ)
    → a.child_orders ≡ b.child_orders
    → total_quantity a n ≡ total_quantity b n
unfolding total_quantity
total_quantity-eq a b zero e = refl
total_quantity-eq a b (suc n) e =
    ground (arith, total_quantity-eq a b n e, ap (λ l. get_or l n empty_child) e)

generate_twap_slices-eq :
    (a : ExecutionAlgo) (tsc : ℕ)
    → 0 < a.num_slices
    → a.num_slices ≤ max_child_orders
    → generate_twap_slices a tsc
      ≡ record (twap_loop a.num_slices 0 (tsc / 1_000_000) a a) { num_children = a.num_slices }
unfolding generate_twap_slices
generate_twap_slices-eq a tsc pos h =
    let in_range : (a.num_slices == 0 || ltb max_child_orders a.num_slices) ≡ false =
      ground arith in
    let all : min a.num_slices max_child_orders ≡ a.num_slices = omega arith in
    rw (in_range, generate_twap_slices) (rw all refl)

-- With a number of slices from 1 to 256, the quantities of the slices of TWAP add up to the parent
-- order's, and each is the even share or one more.
pub generate_twap_slices_lem :
    (a : ExecutionAlgo) (tsc i : ℕ)
    → length a.child_orders ≡ max_child_orders
    → 0 < a.num_slices
    → a.num_slices ≤ max_child_orders
    → i < a.num_slices
    → let a' = generate_twap_slices a tsc in
      let share = a.parent_qty / a.num_slices in
      (total_quantity a' a'.num_children ≡ a.parent_qty)
      × (share ≤ quantity_of a' i)
      × (quantity_of a' i ≤ share + 1)
generate_twap_slices_lem a tsc i l pos h k =
    let made = twap_loop a.num_slices 0 (tsc / 1_000_000) a a in
    let sum = twap_total a.num_slices (tsc / 1_000_000) a l h (omega arith) in
    let left = mod-lt a.parent_qty pos in
    let whole = div-add-mod a.parent_qty a.num_slices in
    let qty = twap_loop-quantity a.num_slices 0 i (tsc / 1_000_000) a a l (omega arith) in
    let share = twap_qty a (tsc / 1_000_000) i in
    rw (generate_twap_slices-eq a tsc pos h) (
      total_quantity-eq (record made { num_children = a.num_slices }) made a.num_slices refl
          ∙ omega (arith, sum, left, whole),
      ground (arith, qty, share),
      ground (arith, qty, share),
    )

vwap_loop-quantity :
    (n i j remaining : ℕ) (start a : ExecutionAlgo)
    → length a.child_orders ≡ max_child_orders
    → i + n ≤ 96
    → start.parent_qty * 104 < 2 ^ 64
    → start.parent_qty ≤ remaining + i * vwap_slice_qty start.parent_qty 0
    → quantity_of (vwap_loop n i remaining start a) j
      ≡ (if leb i j && ltb j (i + n) then vwap_slice_qty start.parent_qty 0 else quantity_of a j)
unfolding vwap_loop vwap_child
vwap_loop-quantity zero i j remaining start a l h small enough = ground arith
vwap_loop-quantity (suc n) i j remaining start a l h small enough =
    let q : ℕ = vwap_slice_qty start.parent_qty 0 in
    let remaining' : ℕ = (if i == 95 then max q remaining else remaining) - q in
    let used : i * q ≤ 95 * q = grind arith in
    let next : suc i * q ≡ i * q + q = grind arith in
    let share : 96 * q ≤ start.parent_qty = omega (arith, small) in
    let covered : q ≤ remaining = omega (arith, used, share, enough) in
    let enough' : start.parent_qty ≤ remaining' + suc i * q =
      ground (arith, covered, next, enough) in
    let c = vwap_child start i remaining in
    let (l', here) = put_child-lem a i j c l (omega arith) in
    let rest =
      vwap_loop-quantity n (suc i) j remaining' start (put_child a i c) l' (omega arith) small
        enough' in
    ground (arith, rest, here, covered)

vwap_total :
    (k : ℕ) (a : ExecutionAlgo)
    → length a.child_orders ≡ max_child_orders
    → a.parent_qty * 104 < 2 ^ 64
    → k ≤ 96
    → total_quantity (vwap_loop 96 0 a.parent_qty a a) k ≡ k * vwap_slice_qty a.parent_qty 0
unfolding total_quantity
vwap_total zero a l small h = omega arith
vwap_total (suc k) a l small h =
    let ih = vwap_total k a l small (omega arith) in
    let last = vwap_loop-quantity 96 0 k a.parent_qty a a l (omega arith) small (omega arith) in
    let next : suc k * vwap_slice_qty a.parent_qty 0
        ≡ k * vwap_slice_qty a.parent_qty 0 + vwap_slice_qty a.parent_qty 0 =
      grind arith in
    ground (arith, ih, last, next)

-- The 96 slices of VWAP have the same quantity, 1.04 percent of the parent order's, rounded down, the
-- last one included; so together they fall short of every parent order above 0 whose product with 104
-- fits a u64.
pub generate_vwap_slices_lem :
    (a : ExecutionAlgo)
    → length a.child_orders ≡ max_child_orders
    → a.num_slices ≡ 96
    → a.parent_qty * 104 < 2 ^ 64
    → 0 < a.parent_qty
    → let a' = generate_vwap_slices a in
      (total_quantity a' a'.num_children ≡ 96 * (a.parent_qty * 104 / 10000))
      × (total_quantity a' a'.num_children < a.parent_qty)
generate_vwap_slices_lem a l slices small pos =
    let made = vwap_loop 96 0 a.parent_qty a a in
    let same : generate_vwap_slices a ≡ record made { num_children = 96 } =
      unfold generate_vwap_slices in (rw slices refl) in
    let sum = vwap_total 96 a l small (omega arith) in
    let total : total_quantity (record made { num_children = 96 }) 96
        ≡ 96 * (a.parent_qty * 104 / 10000) =
      total_quantity-eq (record made { num_children = 96 }) made 96 refl
      ∙ omega (arith, sum, small) in
    rw same (total, omega (arith, total, pos))
