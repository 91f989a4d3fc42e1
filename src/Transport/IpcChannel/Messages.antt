-- ===== src/Transport/IpcChannel/Messages.antt =====
-- The messages of src/transport/ipc_channel.rs.
use backendofcryptotradingbo.Base.{
  ℕ, ◌≤◌, ◌≡◌, refl, sym, ◌∙◌, inl, inr, true, List, ltb, if◌then◌else◌, u32, length, replicate,
  arith, Bool-cases,
}
use backendofcryptotradingbo.Base.Bytes.{take, write, take-write}
use backendofcryptotradingbo.Base.Slices.{length-take, take_all, take_long}
use backendofcryptotradingbo.Transport.IpcChannel.{
  max_payload_size, MessageHeader, calculate_checksum, verify_checksum, new_message, payload_of,
  is_valid,
}

-- The length of the payload that is kept
kept : List ℕ → ℕ
kept bytes = if ltb max_payload_size (length bytes) then max_payload_size else length bytes

payload-eq :
    (bytes : List ℕ)
    → take (u32 (kept bytes)) (write (replicate max_payload_size 0) 0 (take (kept bytes) bytes))
      ≡ take 256 bytes
unfolding kept
payload-eq bytes = elim (Bool-cases (ltb 256 (length bytes))) [
  | inl longer ↦
      let size = length-take 256 bytes (ground (arith, longer)) in
      rw longer
        (take-write (replicate 256 0) 0 256 (take 256 bytes) (omega (arith, size)) (omega arith))
  | inr shorter ↦
      let small : length bytes ≤ 256 = ground (arith, shorter) in
      let fits : u32 (length bytes) ≡ length bytes = omega (arith, small) in
      rw (shorter, fits, take_all bytes)
        (take-write (replicate 256 0) 0 (length bytes) bytes (omega arith) (omega (arith, small))
          ∙ sym (take_long 256 bytes small))
]

-- A new message is valid, keeps its type, numbers, time and addresses, and gives back its payload: all
-- of it up to 256 bytes, and the first 256 bytes of a longer one.
pub new_message_lem :
    (header : MessageHeader) (bytes : List ℕ)
    → let m = new_message header bytes in
      (is_valid m ≡ true)
      × (payload_of m ≡ take 256 bytes)
      × (m.header.msg_type ≡ header.msg_type)
      × (m.header.sequence ≡ header.sequence)
      × (m.header.timestamp_ns ≡ header.timestamp_ns)
      × (m.header.source_id ≡ header.source_id)
      × (m.header.dest_id ≡ header.dest_id)
unfolding new_message payload_of kept verify_checksum calculate_checksum
new_message_lem header bytes = (ground arith, payload-eq bytes, refl, refl, refl, refl, refl)
