-- ===== src/Transport/RingBuffer/Spsc.antt =====
-- One producer and one consumer on the ring of src/transport/ring_buffer.rs, access by access. The
-- acquire loads and release stores of the two counters make each access below one atomic step:
-- a slot is written before the head that covers it is stored, and read before the tail is.
use Prim.Native.Nat.{bit_and}
use mathlib.Core.List.{append_assoc}
use backendofcryptotradingbo.Base.{
  ℕ, suc, ◌+◌, ◌%◌, ◌<◌, ◌≡◌, ◌≢◌, refl, ap, sym, ◌∙◌, List, [], ◌∷◌, ◌++◌, u64, leb, ◌==◌,
  if◌then◌else◌, get_or, set, arith, inl, inr, leb→lt, get_or-set_self, get_or-set_ne, length-set,
  Bool-cases,
}
use backendofcryptotradingbo.Base.Bits.{bit_and_4095}
use backendofcryptotradingbo.Transport.RingBuffer.{RingBuffer, new, capacity, mask, wrapping_sub}
use backendofcryptotradingbo.Transport.RingBuffer.Refine.{
  IsValid, new-IsValid, contents, contents-new, pop_shrinks, window, window-set_past, window-suc,
}

-- Where `push` stands: with its head loaded, past the full check, with the slot written.
pub data Producer (A : Type 0) : Type 0 where
  idle : Producer A
  loaded : A → ℕ → Producer A
  checked : A → ℕ → Producer A
  written : A → ℕ → Producer A

-- Where `pop` stands: with its tail loaded, past the empty check, with the item read.
pub data Consumer (A : Type 0) : Type 0 where
  idle : Consumer A
  loaded : ℕ → Consumer A
  checked : ℕ → Consumer A
  taken : A → ℕ → Consumer A

-- `sent` and `received` record the completed calls: the items of `Ok` and of `Some`, oldest first.
pub record System (A : Type 0) : Type 0 where
  pub ring : RingBuffer A
  pub producer : Producer A
  pub consumer : Consumer A
  pub sent : List A
  pub received : List A

-- The next access of a thread; a producer that is idle is called with an item.
pub data Turn (A : Type 0) : Type 0 where
  produce : A → Turn A
  consume : Turn A

module _ {A : Type 0} (zeroed : A) where
  unfoldable pub produce_step : System A → Producer A → A → System A
  produce_step s idle item = record s { producer = Producer.loaded item s.ring.head }
  produce_step s (loaded item head) _ =
      if leb capacity (wrapping_sub head s.ring.tail)
      then record s { producer = Producer.idle }
      else record s { producer = Producer.checked item head }
  produce_step s (checked item head) _ = record s {
    ring = record (s.ring) { buffer = set s.ring.buffer (bit_and head mask) item };
    producer = Producer.written item head;
  }
  produce_step s (written item head) _ = record s {
    ring = record (s.ring) { head = u64 (head + 1) };
    producer = Producer.idle;
    sent = s.sent ++ (item ∷ []);
  }

  unfoldable pub consume_step : System A → Consumer A → System A
  consume_step s idle = record s { consumer = Consumer.loaded s.ring.tail }
  consume_step s (loaded tail) =
      if tail == s.ring.head
      then record s { consumer = Consumer.idle }
      else record s { consumer = Consumer.checked tail }
  consume_step s (checked tail) = record s {
    consumer = Consumer.taken (get_or s.ring.buffer (bit_and tail mask) zeroed) tail;
  }
  consume_step s (taken item tail) = record s {
    ring = record (s.ring) { tail = u64 (tail + 1) };
    consumer = Consumer.idle;
    received = s.received ++ (item ∷ []);
  }

  unfoldable pub turn : System A → Turn A → System A
  unfolding produce_step consume_step
  turn s (produce item) = produce_step s s.producer item
  turn s consume = consume_step s s.consumer

  unfoldable pub schedule : System A → List (Turn A) → System A
  schedule s [] = s
  schedule s (t ∷ ts) = schedule (turn s t) ts

  -- What each thread may rely on, whatever the other does.
  abbrev pub ProducerSound : RingBuffer A → Producer A → Type 0
  ProducerSound r idle = Unit
  ProducerSound r (loaded item head) = head ≡ r.head
  ProducerSound r (checked item head) = (head ≡ r.head) × (wrapping_sub r.head r.tail < capacity)
  ProducerSound r (written item head) =
      (head ≡ r.head)
      × (wrapping_sub r.head r.tail < capacity)
      × (get_or r.buffer (r.head % capacity) zeroed ≡ item)

  abbrev pub ConsumerSound : RingBuffer A → Consumer A → Type 0
  ConsumerSound r idle = Unit
  ConsumerSound r (loaded tail) = tail ≡ r.tail
  ConsumerSound r (checked tail) = (tail ≡ r.tail) × (r.tail ≢ r.head)
  ConsumerSound r (taken item tail) =
      (tail ≡ r.tail) × (r.tail ≢ r.head) × (get_or r.buffer (r.tail % capacity) zeroed ≡ item)

  pub record IsSound (s : System A) : Type 0 where
    pub ring_valid : IsValid s.ring
    pub producer_sound : ProducerSound s.ring s.producer
    pub consumer_sound : ConsumerSound s.ring s.consumer
    pub fifo : s.sent ≡ s.received ++ contents zeroed s.ring

  -- Storing the next head adds the item in its slot.
  store_head :
      (r : RingBuffer A)
      → IsValid r
      → wrapping_sub r.head r.tail < capacity
      → IsValid (record r { head = u64 (r.head + 1) })
        × (contents zeroed (record r { head = u64 (r.head + 1) })
            ≡ contents zeroed r ++ (get_or r.buffer (r.head % capacity) zeroed ∷ []))
  unfolding contents
  store_head r v room =
      let n = wrapping_sub r.head r.tail in
      let more : wrapping_sub (u64 (r.head + 1)) r.tail ≡ suc n = omega (arith, v) in
      let slot : u64 (r.tail + n) % capacity ≡ r.head % capacity = omega (arith, v) in
      (
        omega (arith, v),
        ap (window zeroed r.buffer r.tail) more
            ∙ window-suc zeroed r.buffer r.tail n
            ∙ ap (λ i. window zeroed r.buffer r.tail n ++ (get_or r.buffer i zeroed ∷ [])) slot,
      )

  -- Writing the slot of the head touches no item that waits.
  write_slot :
      (r : RingBuffer A) (x : A)
      → IsValid r
      → wrapping_sub r.head r.tail < capacity
      → let r' = record r { buffer = set r.buffer (r.head % capacity) x } in
        IsValid r'
        × (contents zeroed r' ≡ contents zeroed r)
        × (get_or r'.buffer (r.head % capacity) zeroed ≡ x)
  unfolding contents
  write_slot r x v room =
      let n = wrapping_sub r.head r.tail in
      let slot : r.head % capacity ≡ u64 (r.tail + n) % capacity = omega (arith, v) in
      (
        ground (arith, length-set r.buffer (r.head % capacity) x),
        ap (λ i. window zeroed (set r.buffer i x) r.tail n) slot
            ∙ window-set_past zeroed r.buffer r.tail n n x (omega arith) room,
        get_or-set_self r.buffer (r.head % capacity) x zeroed (omega (arith, v)),
      )

  consumer-write :
      (r : RingBuffer A) (c : Consumer A) (x : A)
      → IsValid r
      → wrapping_sub r.head r.tail < capacity
      → ConsumerSound r c
      → ConsumerSound (record r { buffer = set r.buffer (r.head % capacity) x }) c
  consumer-write r idle x v room h = tt
  consumer-write r (loaded tail) x v room h = h
  consumer-write r (checked tail) x v room h = h
  consumer-write r (taken item tail) x v room (a, b, e) = (
    a,
    b,
    get_or-set_ne r.buffer (r.head % capacity) (r.tail % capacity) x zeroed (omega (arith, v)) ∙ e,
  )

  consumer-store_head :
      (r : RingBuffer A) (c : Consumer A)
      → IsValid r
      → wrapping_sub r.head r.tail < capacity
      → ConsumerSound r c
      → ConsumerSound (record r { head = u64 (r.head + 1) }) c
  consumer-store_head r idle v room h = tt
  consumer-store_head r (loaded tail) v room h = h
  consumer-store_head r (checked tail) v room h = (h.0, omega (arith, v))
  consumer-store_head r (taken item tail) v room (a, b, e) = (a, omega (arith, v), e)

  producer-store_tail :
      (r : RingBuffer A) (p : Producer A)
      → IsValid r
      → r.tail ≢ r.head
      → ProducerSound r p
      → ProducerSound (record r { tail = u64 (r.tail + 1) }) p
  producer-store_tail r idle v waiting h = tt
  producer-store_tail r (loaded item head) v waiting h = h
  producer-store_tail r (checked item head) v waiting h = (h.0, omega (arith, v))
  producer-store_tail r (written item head) v waiting (a, b, e) = (a, omega (arith, v), e)

  produce-IsSound :
      (s : System A) (p : Producer A) (x : A)
      → IsSound s
      → ProducerSound s.ring p
      → IsSound (produce_step s p x)
  unfolding produce_step
  produce-IsSound s idle x v h = record {
    ring_valid = v.ring_valid;
    producer_sound = refl;
    consumer_sound = v.consumer_sound;
    fifo = v.fifo;
  }
  produce-IsSound s (loaded item head) x v h =
      elim (Bool-cases (leb capacity (wrapping_sub head s.ring.tail))) [
        | inl full ↦ rw full (record {
          ring_valid = v.ring_valid;
          producer_sound = tt;
          consumer_sound = v.consumer_sound;
          fifo = v.fifo;
        })
        | inr room ↦ rw room (record {
          ring_valid = v.ring_valid;
          producer_sound = (h, rw h at (leb→lt _ _ room));
          consumer_sound = v.consumer_sound;
          fifo = v.fifo;
        })
      ]
  produce-IsSound s (checked item head) x v (e, room) =
      let (valid, same, here) = write_slot s.ring item v.ring_valid room in
      rw (bit_and_4095, e)
        (record {
          ring_valid = valid;
          producer_sound = (refl, room, here);
          consumer_sound = consumer-write s.ring s.consumer item v.ring_valid room v.consumer_sound;
          fifo = rw same v.fifo;
        })
  produce-IsSound s (written item head) x v (e, room, here) =
      let (valid, more) = store_head s.ring v.ring_valid room in
      rw e (record {
        ring_valid = valid;
        producer_sound = tt;
        consumer_sound = consumer-store_head s.ring s.consumer v.ring_valid room v.consumer_sound;
        fifo =
            rw (more, here, v.fifo) (append_assoc s.received (contents zeroed s.ring) (item ∷ []));
      })

  consume-IsSound :
      (s : System A) (c : Consumer A)
      → IsSound s
      → ConsumerSound s.ring c
      → IsSound (consume_step s c)
  unfolding consume_step
  consume-IsSound s idle v h = record {
    ring_valid = v.ring_valid;
    producer_sound = v.producer_sound;
    consumer_sound = refl;
    fifo = v.fifo;
  }
  consume-IsSound s (loaded tail) v h = elim (Bool-cases (tail == s.ring.head)) [
    | inl empty ↦ rw empty (record {
      ring_valid = v.ring_valid;
      producer_sound = v.producer_sound;
      consumer_sound = tt;
      fifo = v.fifo;
    })
    | inr waits ↦ rw waits (record {
      ring_valid = v.ring_valid;
      producer_sound = v.producer_sound;
      consumer_sound = (h, ground arith);
      fifo = v.fifo;
    })
  ]
  consume-IsSound s (checked tail) v (e, waiting) =
      rw (bit_and_4095, e)
        (record {
          ring_valid = v.ring_valid;
          producer_sound = v.producer_sound;
          consumer_sound = (refl, waiting, refl);
          fifo = v.fifo;
        })
  consume-IsSound s (taken item tail) v (e, waiting, here) =
      let (valid, fewer) = pop_shrinks zeroed s.ring v.ring_valid waiting in
      rw e (record {
        ring_valid = valid;
        producer_sound =
            producer-store_tail s.ring s.producer v.ring_valid waiting v.producer_sound;
        consumer_sound = tt;
        fifo =
            v.fifo
            ∙ rw (fewer, here)
                (sym (
                  append_assoc s.received (item ∷ [])
                    (contents zeroed (record (s.ring) { tail = u64 (s.ring.tail + 1) }))));
      })

  -- Under every interleaving of the two threads' accesses, from a sound state: the items of the
  -- completed pushes are, in order, those of the completed pops followed by those that wait in the
  -- ring, so none is lost, repeated, reordered or torn; and the ring stays valid.
  pub schedule-IsSound : (s : System A) (ts : List (Turn A)) → IsSound s → IsSound (schedule s ts)
  unfolding schedule turn
  schedule-IsSound s [] v = v
  schedule-IsSound s (produce x ∷ ts) v =
      schedule-IsSound (produce_step s s.producer x) ts
        (produce-IsSound s s.producer x v v.producer_sound)
  schedule-IsSound s (consume ∷ ts) v =
      schedule-IsSound (consume_step s s.consumer) ts
        (consume-IsSound s s.consumer v v.consumer_sound)

  -- A new ring, both threads idle.
  unfoldable pub start : System A
  unfolding new
  start = record {
    ring = new zeroed;
    producer = Producer.idle;
    consumer = Consumer.idle;
    sent = [];
    received = [];
  }

  pub start-IsSound : IsSound start
  unfolding start
  start-IsSound = record {
    ring_valid = new-IsValid zeroed;
    producer_sound = tt;
    consumer_sound = tt;
    fifo = sym (contents-new zeroed);
  }
