-- ===== src/Transport/SharedMemory/Log.antt =====
-- The region of src/transport/shared_memory.rs as the end of a log of all bytes that were written.
use native.Mathlib.Nat.{mod-lt}
use mathlib.Core.Path.{subst}
use mathlib.Core.List.{append-nil, append_assoc}
use backendofcryptotradingbo.Base.{
  ℕ, ◌+◌, ◌%◌, ◌^◌, ◌≤◌, ◌<◌, ◌≡◌, refl, sym, ◌∙◌, ap, false, Option, none, some, List, [], ◌∷◌,
  ◌++◌, u64, leb, ◌==◌, length, get_or, length-append, arith, All, All-imp,
}
use backendofcryptotradingbo.Base.Bytes.{take, drop}
use backendofcryptotradingbo.Base.Slices.{
  mod_shift, get_or-take, get_or-drop, length-take, length-drop, list_ext,
}
use backendofcryptotradingbo.Transport.SharedMemory.{
  SharedMemory, MmapHeader, data_size, write_data, read, bytes_read, create, is_valid,
}
use backendofcryptotradingbo.Transport.SharedMemory.Circular.{
  written_at, circular_write_lem, circular_read_lem, write_data-steps, byte_at,
}

-- The last bytes of a log of everything that was written stand in the region, each at its position modulo
-- the size.
pub record HasLog (log : List ℕ) (m : SharedMemory) : Type 0 where
  pub position : m.header.write_pos ≡ length log
  pub fits : length log < 2 ^ 64
  pub sized : 0 < data_size m
  pub kept :
      (i : ℕ)
      → i < length log
      → length log ≤ i + data_size m
      → get_or m.region (i % data_size m) 0 ≡ get_or log i 0

-- What one write does
pub write_data-HasLog :
    (log bytes : List ℕ) (m : SharedMemory) (now : ℕ)
    → HasLog log m
    → length bytes ≤ data_size m
    → length log + length bytes < 2 ^ 64
    → (m' : SharedMemory) × (write_data m bytes now ≡ some (m', length log + length bytes))
      × (data_size m' ≡ data_size m)
      × HasLog (log ++ bytes) m'
write_data-HasLog log bytes m now h l small =
    let pos = m.header.write_pos % data_size m in
    let (region, e, size, each) =
      circular_write_lem m.region pos bytes (mod-lt m.header.write_pos h.sized) l in
    let total : u64 (m.header.write_pos + length bytes) ≡ length log + length bytes =
      omega (arith, h.position) in
    let m' : SharedMemory = record {
      region = region;
      header = record m.header {
        write_pos = u64 (m.header.write_pos + length bytes);
        record_count = u64 (m.header.record_count + 1);
        last_update_ns = now;
      };
    } in
    (
      m',
      write_data-steps m bytes now region h.sized e ∙ ap (λ n. some (m', n)) total,
      size,
      record {
        position = total ∙ sym (length-append log bytes);
        fits = omega (arith, length-append log bytes, small);
        sized = omega (arith, size, h.sized);
        kept = λ i k recent.
            ap (λ s. get_or region (i % s) 0) size
            ∙ each (i % length m.region) (mod-lt i h.sized)
            ∙ ap (λ w. written_at m.region (w % length m.region) bytes (i % length m.region))
                h.position
            ∙ byte_at m.region log bytes i h.sized l (omega (arith, length-append log bytes))
                (omega (arith, length-append log bytes, size))
                (λ b. h.kept i b (omega (arith, length-append log bytes, size)));
      },
    )

abbrev pub Record : Type 0
Record = List ℕ × ℕ

-- Writes in turn, each of its bytes at its time
pub run : SharedMemory → List Record → Option SharedMemory
run m [] = some m
run m ((bytes, now) ∷ rs) = elim (write_data m bytes now) [
  | none ↦ none
  | some (m', position) ↦ run m' rs
]

unfoldable pub joined : List Record → List ℕ
joined [] = []
joined ((bytes, now) ∷ rs) = bytes ++ joined rs

run-HasLog :
    (log : List ℕ) (m : SharedMemory) (rs : List Record)
    → HasLog log m
    → All (λ (r : Record). length r.0 ≤ data_size m) rs
    → length log + length (joined rs) < 2 ^ 64
    → (m' : SharedMemory) × (run m rs ≡ some m')
      × (data_size m' ≡ data_size m)
      × HasLog (log ++ joined rs) m'
unfolding run joined
run-HasLog log m [] h l small = (m, refl, refl, subst (λ x. HasLog x m) (sym (append-nil log)) h)
run-HasLog log m ((bytes, now) ∷ rs) h l small =
    let (m', e, size, h') =
      write_data-HasLog log bytes m now h l.0
        (omega (arith, small, length-append bytes (joined rs))) in
    let (m'', e', size', h'') =
      run-HasLog (log ++ bytes) m' rs h'
        (All-imp (λ (r : Record). length r.0 ≤ data_size m)
          (λ (r : Record). length r.0 ≤ data_size m') rs (λ r k. omega (arith, size, k)) l.1)
        (omega (arith, small, length-append bytes (joined rs), length-append log bytes)) in
    (
      m'',
      rw (run, e) e',
      size' ∙ size,
      subst (λ x. HasLog x m'') (append_assoc log bytes (joined rs)) h'',
    )

read_lem :
    (log : List ℕ) (m : SharedMemory) (offset len : ℕ)
    → HasLog log m
    → offset < length log
    → offset + len ≤ length log
    → length log ≤ offset + data_size m
    → read m offset len ≡ bytes_read (take len (drop offset log))
unfolding read
read_lem log m offset len h start end recent =
    let size = data_size m in
    let pos = offset % size in
    let (r, e, l, each) =
      circular_read_lem m.region pos len (mod-lt offset h.sized) (omega arith) in
    let want = take len (drop offset log) in
    let want_length : length want ≡ len =
      length-take len (drop offset log) (omega (arith, length-drop offset log)) in
    let byte : (k : ℕ) → k < length r → get_or r k 0 ≡ get_or want k 0 = λ k b.
      let shift = mod_shift offset k size h.sized (omega (arith, l)) in
      let here = h.kept (offset + k) (omega (arith, l)) (omega arith) in
      ground (
        arith,
        each k,
        l,
        shift,
        here,
        get_or-take len (drop offset log) k 0,
        get_or-drop offset log k 0,
      ) in
    let same = list_ext r want 0 (l ∙ sym want_length) byte in
    let before : leb m.header.write_pos offset ≡ false = ground (arith, h.position) in
    let some_room : (size == 0) ≡ false = ground (arith, h.sized) in
    rw (before, some_room, read, e) (ap bytes_read same)

-- After any writes to a new file, none of more bytes than its region and all together below 2 ^ 64, which
-- all succeed, a read gives back what stands at its place in the concatenation of all that was written,
-- when it stays inside that and begins no further back than the size of the region.
pub run-read :
    (file_header : MmapHeader) (file_data : List ℕ) (size : ℕ) (rs : List Record) (offset len : ℕ)
    → is_valid file_header ≡ false
    → 0 < size
    → size ≤ length file_data
    → All (λ (r : Record). length r.0 ≤ size) rs
    → length (joined rs) < 2 ^ 64
    → offset < length (joined rs)
    → offset + len ≤ length (joined rs)
    → length (joined rs) ≤ offset + size
    → (m : SharedMemory) × (run (create file_header file_data size) rs ≡ some m)
      × (read m offset len ≡ bytes_read (take len (drop offset (joined rs))))
unfolding create
run-read file_header file_data size rs offset len invalid p enough l small start end recent =
    let m0 = create file_header file_data size in
    let sized : data_size m0 ≡ size = length-take size file_data enough in
    let fresh : HasLog [] m0 = record {
      position = ground (arith, invalid);
      fits = omega arith;
      sized = omega (arith, sized, p);
      kept = λ i k r. absurd (omega arith);
    } in
    let (m, e, size', h) =
      run-HasLog [] m0 rs fresh
        (All-imp (λ (r : Record). length r.0 ≤ size) (λ (r : Record). length r.0 ≤ data_size m0) rs
          (λ r k. omega (arith, sized, k)) l)
        (omega (arith, small)) in
    (m, e, read_lem (joined rs) m offset len h start end (omega (arith, sized, size')))
