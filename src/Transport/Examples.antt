-- ===== src/Transport/Examples.antt =====
-- A concrete ring (src/transport/ring_buffer.rs), on which the theorems are applied.
use backendofcryptotradingbo.Base.{
  ℕ, ◌≡◌, List, [], ◌∷◌, refl, arith, some, none, ◌==◌, if◌then◌else◌, replicate,
}
use backendofcryptotradingbo.Base.Bytes.{take, drop}
use backendofcryptotradingbo.Transport.SharedMemory.{
  SharedMemory, MmapHeader, create, is_valid, bytes_read, read,
}
use backendofcryptotradingbo.Transport.SharedMemory
use backendofcryptotradingbo.Transport.SharedMemory.Log
use backendofcryptotradingbo.Transport.SharedMemory.Log.{run-read, Record, joined}
use backendofcryptotradingbo.Transport.IpcChannel
use backendofcryptotradingbo.Transport.IpcChannel.{
  order_request, MessageHeader, new_message, payload_of, receive,
}
use backendofcryptotradingbo.Transport.IpcChannel.Waiting
use backendofcryptotradingbo.Transport.IpcChannel.Waiting.{
  Use, sending, beating, checking, receive_never,
}
use backendofcryptotradingbo.Transport.RingBuffer.{RingBuffer, new, push}
use backendofcryptotradingbo.Transport.RingBuffer.Refine.{IsValid, push_refines, new-IsValid}
use backendofcryptotradingbo.Transport.RingBuffer.Spsc.{
  Turn, produce, consume, IsSound, start, start-IsSound, schedule, schedule-IsSound,
}

abbrev one_item : RingBuffer ℕ
one_item = (push 0 (new 0) 7).0

one_item-IsValid : IsValid one_item
one_item-IsValid = (push_refines 0 (new 0) 7 (new-IsValid 0)).0

-- A push of 7 whose accesses interleave with those of a pop.
abbrev turns : List (Turn ℕ)
turns =
    produce 7
    ∷ produce 7
    ∷ consume
    ∷ produce 7
    ∷ produce 7
    ∷ consume
    ∷ consume
    ∷ consume
    ∷ consume
    ∷ []

schedule-IsSound_example : IsSound 0 (schedule 0 (start 0) turns)
schedule-IsSound_example = schedule-IsSound 0 (start 0) turns (start-IsSound 0)

-- A file of 4 bytes with no header, to which five bytes are written (src/transport/shared_memory.rs)
abbrev no_header : MmapHeader
no_header = record (SharedMemory.new_header 0) { magic = 0 }

abbrev records : List Record
records = (1 ∷ 2 ∷ 3 ∷ [], 7) ∷ (4 ∷ 5 ∷ [], 8) ∷ []

run-read_example :
    (m : SharedMemory) × (Log.run (create no_header (replicate 4 0) 4) records ≡ some m)
    × (read m 2 3 ≡ bytes_read (take 3 (drop 2 (joined records))))
unfolding joined is_valid
run-read_example =
    run-read no_header (replicate 4 0) 4 records 2 3 refl (omega arith) (omega arith) (omega arith)
      (omega arith) (omega arith) (omega arith) (omega arith)

-- A channel on which a message was sent (src/transport/ipc_channel.rs)
abbrev uses : List Use
uses = sending order_request (1 ∷ 2 ∷ []) 2 10 ∷ beating 20 ∷ checking 30 ∷ []

receive_never_example : receive (Waiting.run (IpcChannel.new 1) uses) ≡ (
    if (Waiting.run (IpcChannel.new 1) uses).state.producer_pos == 0
    then some (Waiting.run (IpcChannel.new 1) uses, none)
    else none)
receive_never_example = receive_never 1 uses

abbrev header : MessageHeader
header = IpcChannel.new_header order_request 5 10 1 2
