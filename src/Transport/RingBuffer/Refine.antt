-- ===== src/Transport/RingBuffer/Refine.antt =====
-- The ring of src/transport/ring_buffer.rs as a bounded queue.
use backendofcryptotradingbo.Base.{
  ℕ, zero, suc, ◌+◌, ◌-◌, ◌%◌, ◌^◌, ◌≤◌, ◌<◌, ◌≡◌, ◌≢◌, refl, ap, sym, ◌∙◌, Option, none, some,
  List, [], ◌∷◌, ◌++◌, u64, leb, if◌then◌else◌, get_or, set, length, arith, get_or-set_self,
  get_or-set_ne, length-set, length-replicate,
}
use backendofcryptotradingbo.Base.Bits.{bit_and_4095}
use mathlib.Core.Path.{ap₂}
use backendofcryptotradingbo.Transport.RingBuffer.{
  RingBuffer, RingResult, ok, err, capacity, wrapping_sub, new, push, pop,
}

pub record IsValid {ℓ} {A : Type ℓ} (r : RingBuffer A) : Type ℓ where
  pub slots : length r.buffer ≡ capacity
  pub head_fits : r.head < 2 ^ 64
  pub tail_fits : r.tail < 2 ^ 64
  pub bounded : wrapping_sub r.head r.tail ≤ capacity

module _ {ℓ} {A : Type ℓ} (zeroed : A) where
  -- The `n` items from counter `t` on.
  pub window : List A → ℕ → ℕ → List A
  window buffer t zero = []
  window buffer t (suc n) = get_or buffer (t % capacity) zeroed ∷ window buffer (u64 (t + 1)) n

  -- The items that wait, oldest first.
  unfoldable pub contents : RingBuffer A → List A
  contents r = window r.buffer r.tail (wrapping_sub r.head r.tail)

  pub length-window : (buffer : List A) (t n : ℕ) → length (window buffer t n) ≡ n
  unfolding window
  length-window buffer t zero = refl
  length-window buffer t (suc n) = ap suc (length-window buffer (u64 (t + 1)) n)

  pub window-pred :
      (buffer : List A) (t n : ℕ)
      → n ≢ 0
      → window buffer t n
        ≡ get_or buffer (t % capacity) zeroed ∷ window buffer (u64 (t + 1)) (n - 1)
  unfolding window
  window-pred buffer t zero h = absurd (h refl)
  window-pred buffer t (suc n) h =
      ap (λ k. get_or buffer (t % capacity) zeroed ∷ window buffer (u64 (t + 1)) k) (omega arith)

  -- A write at or past the end of a window of fewer than `capacity` items leaves it alone.
  pub window-set_past :
      (buffer : List A) (t n k : ℕ) (x : A)
      → n ≤ k
      → k < capacity
      → window (set buffer (u64 (t + k) % capacity) x) t n ≡ window buffer t n
  unfolding window
  window-set_past buffer t zero k x h fits = refl
  window-set_past buffer t (suc n) zero x h fits = absurd (omega arith)
  window-set_past buffer t (suc n) (suc k) x h fits =
      let shift : u64 (t + suc k) % capacity ≡ u64 (u64 (t + 1) + k) % capacity = omega arith in
      ap₂ ◌∷◌
        (get_or-set_ne buffer (u64 (t + suc k) % capacity) (t % capacity) x zeroed (omega arith))
        (ap (λ i. window (set buffer i x) (u64 (t + 1)) n) shift
          ∙ window-set_past buffer (u64 (t + 1)) n k x (omega arith) (omega arith))

  -- A window with one more item.
  pub window-suc :
      (buffer : List A) (t n : ℕ)
      → window buffer t (suc n)
        ≡ window buffer t n ++ (get_or buffer (u64 (t + n) % capacity) zeroed ∷ [])
  unfolding window
  window-suc buffer t zero = ap (λ i. get_or buffer i zeroed ∷ []) (omega arith)
  window-suc buffer t (suc n) =
      let shift : u64 (u64 (t + 1) + n) ≡ u64 (t + suc n) = omega arith in
      ap (λ l. get_or buffer (t % capacity) zeroed ∷ l)
        (rw (window-suc buffer (u64 (t + 1)) n) (rw shift))

-- A first-in first-out queue of at most `capacity` items.
unfoldable pub enqueue {ℓ} : {A : Type ℓ} → List A → A → List A × RingResult A
enqueue q x = if leb capacity (length q) then (q, err x) else (q ++ (x ∷ []), ok)

pub dequeue {ℓ} : {A : Type ℓ} → List A → List A × Option A
dequeue [] = ([], none)
dequeue (x ∷ q) = (q, some x)

-- Rust's item types stand in the lowest universe.
module _ {A : Type 0} (zeroed : A) where
  pub length-contents : (r : RingBuffer A) → length (contents zeroed r) ≡ wrapping_sub r.head r.tail
  unfolding contents
  length-contents r = length-window zeroed r.buffer r.tail (wrapping_sub r.head r.tail)

  push_grows :
      (r : RingBuffer A) (x : A)
      → IsValid r
      → wrapping_sub r.head r.tail < capacity
      → let r' = record r {
        buffer = set r.buffer (r.head % capacity) x;
        head = u64 (r.head + 1);
      } in
        IsValid r' × (contents zeroed r' ≡ contents zeroed r ++ (x ∷ []))
  unfolding contents
  push_grows r x v room =
      let n = wrapping_sub r.head r.tail in
      let slot : r.head % capacity ≡ u64 (r.tail + n) % capacity = omega (arith, v) in
      let grown = set r.buffer (r.head % capacity) x in
      (
        ground (arith, length-set r.buffer (r.head % capacity) x),
        ap (window zeroed grown r.tail) (omega (arith, v))
            ∙ window-suc zeroed grown r.tail n
            ∙ ap₂ (λ l y. l ++ (y ∷ []))
                (ap (λ i. window zeroed (set r.buffer i x) r.tail n) slot
                  ∙ window-set_past zeroed r.buffer r.tail n n x (omega arith) room)
                (ap (λ i. get_or grown i zeroed) (sym slot)
                  ∙ get_or-set_self r.buffer (r.head % capacity) x zeroed (omega (arith, v))),
      )

  -- Storing the next tail takes the oldest item away.
  pub pop_shrinks :
      (r : RingBuffer A)
      → IsValid r
      → r.tail ≢ r.head
      → IsValid (record r { tail = u64 (r.tail + 1) })
        × (contents zeroed r
            ≡ get_or r.buffer (r.tail % capacity) zeroed
              ∷ contents zeroed (record r { tail = u64 (r.tail + 1) }))
  unfolding contents
  pop_shrinks r v waiting =
      let n = wrapping_sub r.head r.tail in
      (
        omega (arith, v),
        window-pred zeroed r.buffer r.tail n (omega (arith, v))
            ∙ ap
                (λ k.
                  get_or r.buffer (r.tail % capacity) zeroed
                  ∷ window zeroed r.buffer (u64 (r.tail + 1)) k)
                (omega (arith, v)),
      )

  contents_empty : (r : RingBuffer A) → r.tail ≡ r.head → IsValid r → contents zeroed r ≡ []
  unfolding contents window
  contents_empty r e v =
      let none_left : wrapping_sub r.head r.tail ≡ 0 = omega (arith, v) in
      ap (window zeroed r.buffer r.tail) none_left

  -- `push` keeps the ring valid and is `enqueue` on its contents: at `capacity` items the item comes
  -- back and nothing changes, otherwise it is appended.
  pub push_refines :
      (r : RingBuffer A) (x : A)
      → IsValid r
      → IsValid (push zeroed r x).0
        × ((contents zeroed (push zeroed r x).0, (push zeroed r x).1)
            ≡ enqueue (contents zeroed r) x)
  unfolding push enqueue
  push_refines r x v = ground (arith, length-contents r, bit_and_4095 r.head, push_grows r x v)

  -- `pop` keeps the ring valid and is `dequeue` on its contents.
  pub pop_refines :
      (r : RingBuffer A)
      → IsValid r
      → IsValid (pop zeroed r).0
        × ((contents zeroed (pop zeroed r).0, (pop zeroed r).1) ≡ dequeue (contents zeroed r))
  unfolding pop dequeue
  pop_refines r v = ground (arith, bit_and_4095 r.tail, pop_shrinks r v, contents_empty r)

  pub new-IsValid : IsValid (new zeroed)
  unfolding new
  new-IsValid = record {
    slots = length-replicate capacity zeroed;
    head_fits = omega arith;
    tail_fits = omega arith;
    bounded = omega arith;
  }

  pub contents-new : contents zeroed (new zeroed) ≡ []
  unfolding new
  contents-new = contents_empty (new zeroed) refl new-IsValid
