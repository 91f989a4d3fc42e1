-- ===== src/Transport/IpcChannel/Waiting.antt =====
-- The wait of a receiver in src/transport/ipc_channel.rs.
use Prim.Native.Nat.{bit_and}
use backendofcryptotradingbo.Base.{
  ℕ, ◌%◌, ◌≤◌, ◌≡◌, refl, ◌∙◌, ap, inl, inr, true, none, some, List, [], ◌∷◌, ◌==◌, if◌then◌else◌,
  length, length-replicate, length-set, get_or, get_or-set_self, get_or-set_ne, arith, Bool-cases,
}
use backendofcryptotradingbo.Base.Bits.{bit_and_1023}
use backendofcryptotradingbo.Transport.RingBuffer.{wrapping_sub}
use backendofcryptotradingbo.Transport.IpcChannel.{
  MessageType, MessageSlot, new_message, new_header, IpcChannel, empty_slot, new, send, receive,
  send_beat, send_heartbeat, is_healthy, trigger_recovery,
}

-- What the two sides do except for receiving
pub data Use : Type 0 where
  sending : MessageType → List ℕ → ℕ → ℕ → Use
  beating : ℕ → Use
  checking : ℕ → Use

pub apply : IpcChannel → Use → IpcChannel
apply c (sending t payload dest now) = (send c t payload dest now).0
apply c (beating now) = send_beat c now
apply c (checking now) = (is_healthy c now).0

pub run : IpcChannel → List Use → IpcChannel
run c [] = c
run c (u ∷ us) = run (apply c u) us

-- Nothing was taken, and the first slot has sequence number 0.
record IsWaiting (c : IpcChannel) : Type 0 where
  active : c.state.is_active ≡ true
  first : c.state.consumer_pos ≡ 0
  masked : c.mask ≡ 1023
  slots : length c.slots ≡ 1024
  bounded : c.state.producer_pos ≤ 1024
  fresh : c.state.producer_pos ≡ 0 → c.local_sequence ≡ 0
  zeroth : (get_or c.slots 0 empty_slot).sequence ≡ 0

new-IsWaiting : (id : ℕ) → IsWaiting (new id)
new-IsWaiting id = record {
  active = refl;
  first = refl;
  masked = refl;
  slots = length-replicate 1024 empty_slot;
  bounded = omega arith;
  fresh = λ e. refl;
  zeroth = refl;
}

send-IsWaiting :
    (c : IpcChannel) (t : MessageType) (payload : List ℕ) (dest now : ℕ)
    → IsWaiting c
    → IsWaiting (send c t payload dest now).0
unfolding send
send-IsWaiting c t payload dest now w =
    let p = c.state.producer_pos in
    let waiting : wrapping_sub p c.state.consumer_pos ≡ p = omega (arith, w.first, w.bounded) in
    let place : bit_and p c.mask ≡ p % 1024 = ap (bit_and p) w.masked ∙ bit_and_1023 p in
    let slot : MessageSlot = record {
      message = some (new_message (new_header t c.local_sequence now c.component_id dest) payload);
      sequence = c.local_sequence;
    } in
    let size = length-set c.slots (bit_and p c.mask) slot in
    let self = get_or-set_self c.slots (bit_and p c.mask) slot empty_slot in
    let other = get_or-set_ne c.slots (bit_and p c.mask) 0 slot empty_slot in
    record {
      active = ground (arith, w.active);
      first = ground (arith, w.active, w.first);
      masked = ground (arith, w.masked);
      slots = ground (arith, w.slots, size);
      bounded = ground (arith, w.bounded, waiting);
      fresh = λ e. absurd (ground (arith, e, w.active, waiting, w.bounded));
      zeroth = elim (Bool-cases (p == 0)) [
        | inl none_sent ↦
            let start : p ≡ 0 = ground (arith, none_sent) in
            let at : bit_and p c.mask ≡ 0 = omega (arith, place, start) in
            let here = rw at at self in
            ground (arith, w.active, waiting, w.zeroth, w.fresh start, here, at, w.slots)
        | inr some_sent ↦
            let at : bit_and p c.mask ≡ p % 1024 = place in
            ground (arith, w.active, waiting, w.zeroth, other, at, some_sent, w.bounded)
      ];
    }

apply-IsWaiting : (c : IpcChannel) (u : Use) → IsWaiting c → IsWaiting (apply c u)
unfolding apply send_beat is_healthy trigger_recovery send_heartbeat
apply-IsWaiting c (sending t payload dest now) w = send-IsWaiting c t payload dest now w
apply-IsWaiting c (beating now) w =
    send-IsWaiting (record c { state = send_heartbeat c.state now }) _ _ _ now
      (record {
        active = w.active;
        first = w.first;
        masked = w.masked;
        slots = w.slots;
        bounded = w.bounded;
        fresh = w.fresh;
        zeroth = w.zeroth;
      })
apply-IsWaiting c (checking now) w = record {
  active = ground (arith, w.active);
  first = ground (arith, w.first);
  masked = ground (arith, w.masked);
  slots = ground (arith, w.slots);
  bounded = ground (arith, w.bounded);
  fresh = λ e. ground (arith, e, w.fresh);
  zeroth = ground (arith, w.zeroth);
}

run-IsWaiting : (c : IpcChannel) (us : List Use) → IsWaiting c → IsWaiting (run c us)
unfolding run
run-IsWaiting c [] w = w
run-IsWaiting c (u ∷ us) w = run-IsWaiting (apply c u) us (apply-IsWaiting c u w)

-- On a new channel no message is ever received: whatever was sent, however often it beat and was
-- checked, a call of `receive` finds nothing if nothing was put into the ring, and waits without end
-- otherwise.
pub receive_never :
    (id : ℕ) (us : List Use)
    → let c = run (new id) us in
      receive c ≡ (if c.state.producer_pos == 0 then some (c, none) else none)
unfolding receive
receive_never id us =
    let c = run (new id) us in
    let w = run-IsWaiting (new id) us (new-IsWaiting id) in
    let at : bit_and c.state.consumer_pos c.mask ≡ 0 =
      ap (λ p. bit_and p c.mask) w.first ∙ ap (bit_and 0) w.masked in
    let slot = ap (λ i. get_or c.slots i empty_slot) at in ground (arith, w.first, slot, w.zeroth)
