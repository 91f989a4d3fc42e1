-- ===== src/Transport/SharedMemory/Circular.antt =====
-- The circular writes of src/transport/shared_memory.rs, byte by byte.
use native.Mathlib.Nat.{mod-lt}
use backendofcryptotradingbo.Base.{
  ℕ, ◌+◌, ◌-◌, ◌%◌, ◌≤◌, ◌<◌, ◌≡◌, inl, inr, refl, ◌∙◌, ap, true, false, ◌&&◌, some, List, ◌++◌,
  u64, ltb, leb, ◌==◌, if◌then◌else◌, length, get_or, length-append, arith, Bool-cases, ltb→lt,
  ltb→le,
}
use backendofcryptotradingbo.Base.Bytes.{take, drop, write, length-write}
use backendofcryptotradingbo.Base.Slices.{
  mod_shift, get_or-write, get_or-take, get_or-drop, get_or-append, length-take, length-drop,
  take_all,
}
use backendofcryptotradingbo.Transport.SharedMemory.{
  SharedMemory, data_size, copy_to, copy_from, circular_write, circular_read, write_data,
}

copy_to-fits :
    (region : List ℕ) (pos : ℕ) (bytes : List ℕ)
    → pos + length bytes ≤ length region
    → copy_to region pos bytes ≡ some (write region pos bytes)
unfolding copy_to
copy_to-fits region pos bytes h = ground arith

-- What a byte of the region is after a circular write
pub written_at : List ℕ → ℕ → List ℕ → ℕ → ℕ
written_at region pos bytes j =
    if leb pos j && ltb j (pos + length bytes)
    then get_or bytes (j - pos) 0
    else if ltb (j + length region) (pos + length bytes)
    then get_or bytes (j + length region - pos) 0
    else get_or region j 0

-- A write that ends inside the region
straight :
    (region : List ℕ) (pos : ℕ) (bytes : List ℕ)
    → pos + length bytes ≤ length region
    → circular_write region pos bytes ≡ some (write region pos bytes)
unfolding circular_write
straight region pos bytes h =
    let inside : leb (pos + length bytes) (length region) ≡ true = ground arith in
    let whole : ltb (length bytes) (length bytes) ≡ false = ground arith in
    let copied = copy_to-fits region pos bytes h in
    rw (inside, take_all bytes, circular_write, copied, inside, whole) refl

abbrev wrapped : List ℕ → ℕ → List ℕ → List ℕ
wrapped region pos bytes =
    let room = length region - pos in write (write region pos (take room bytes)) 0 (drop room bytes)

-- A write past the end of the region
around :
    (region : List ℕ) (pos : ℕ) (bytes : List ℕ)
    → pos < length region
    → length bytes ≤ length region
    → length region < pos + length bytes
    → circular_write region pos bytes ≡ some (wrapped region pos bytes)
unfolding circular_write
around region pos bytes p l h =
    let room = length region - pos in
    let outside : leb (pos + length bytes) (length region) ≡ false = ground arith in
    let more : ltb room (length bytes) ≡ true = ground arith in
    let first = copy_to-fits region pos (take room bytes) (omega (arith, length-take room bytes)) in
    let second =
      copy_to-fits (write region pos (take room bytes)) 0 (drop room bytes)
        (omega (arith, length-drop room bytes, length-write region pos (take room bytes))) in
    rw (outside, circular_write, first, outside, more, second) refl

straight_at :
    (region : List ℕ) (pos : ℕ) (bytes : List ℕ) (j : ℕ)
    → pos + length bytes ≤ length region
    → j < length region
    → get_or (write region pos bytes) j 0 ≡ written_at region pos bytes j
unfolding written_at
straight_at region pos bytes j h k = ground (arith, get_or-write region pos bytes j 0 h)

around_at :
    (region : List ℕ) (pos : ℕ) (bytes : List ℕ) (j : ℕ)
    → pos < length region
    → length bytes ≤ length region
    → length region < pos + length bytes
    → j < length region
    → get_or (wrapped region pos bytes) j 0 ≡ written_at region pos bytes j
unfolding written_at
around_at region pos bytes j p l h k =
    let room = length region - pos in
    let size = length-take room bytes (omega arith) in
    let rest = length-drop room bytes in
    let middle = write region pos (take room bytes) in
    let outer =
      get_or-write middle 0 (drop room bytes) j 0
        (omega (arith, rest, length-write region pos (take room bytes))) in
    let inner = get_or-write region pos (take room bytes) j 0 (omega (arith, size)) in
    let from_take = get_or-take room bytes (j - pos) 0 in
    let from_drop =
      get_or-drop room bytes (j - 0) 0
      ∙ ap (λ n. get_or bytes n 0) {y = j + length region - pos} (omega arith) in
    ground (arith, outer, inner, size, rest, from_take, from_drop)

pub circular_write_lem :
    (region : List ℕ) (pos : ℕ) (bytes : List ℕ)
    → pos < length region
    → length bytes ≤ length region
    → (region' : List ℕ) × (circular_write region pos bytes ≡ some region')
      × (length region' ≡ length region)
      × ((j : ℕ) → j < length region → get_or region' j 0 ≡ written_at region pos bytes j)
circular_write_lem region pos bytes p l =
    elim (Bool-cases (leb (pos + length bytes) (length region))) [
      | inl inside ↦
          let h : pos + length bytes ≤ length region = ground (arith, inside) in
          (
            write region pos bytes,
            straight region pos bytes h,
            length-write region pos bytes,
            (λ j k. straight_at region pos bytes j h k),
          )
      | inr outside ↦
          let h : length region < pos + length bytes = ground (arith, outside) in
          let room = length region - pos in
          (
            wrapped region pos bytes,
            around region pos bytes p l h,
            length-write (write region pos (take room bytes)) 0 (drop room bytes)
                ∙ length-write region pos (take room bytes),
            (λ j k. around_at region pos bytes j p l h k),
          )
    ]

pub write_data-steps :
    (m : SharedMemory) (bytes : List ℕ) (now : ℕ) (region : List ℕ)
    → 0 < data_size m
    → circular_write m.region (m.header.write_pos % data_size m) bytes ≡ some region
    → write_data m bytes now
      ≡ some (
        record {
          region = region;
          header = record m.header {
            write_pos = u64 (m.header.write_pos + length bytes);
            record_count = u64 (m.header.record_count + 1);
            last_update_ns = now;
          };
        },
        u64 (m.header.write_pos + length bytes),
      )
unfolding write_data
write_data-steps m bytes now region p e =
    let some_room : (data_size m == 0) ≡ false = ground arith in rw (some_room, write_data, e) refl

-- A write of at most the size of the region to a log of `total` bytes, byte by byte
pub byte_at :
    (region log bytes : List ℕ) (i : ℕ)
    → 0 < length region
    → length bytes ≤ length region
    → i < length log + length bytes
    → length log + length bytes ≤ i + length region
    → (i < length log → get_or region (i % length region) 0 ≡ get_or log i 0)
    → written_at region (length log % length region) bytes (i % length region)
      ≡ get_or (log ++ bytes) i 0
unfolding written_at
byte_at region log bytes i p l h k old = elim (Bool-cases (ltb i (length log))) [
  | inl before ↦
      let d = length log - i in
      let back : i + d ≡ length log = omega (arith, ltb→lt i (length log) before) in
      let shift = mod_shift i d (length region) p (omega arith) in
      let shift' = rw back at shift in
      ground
        (arith, shift', mod-lt i p, old (ltb→lt i (length log) before), get_or-append log bytes i 0)
  | inr after ↦
      let d = i - length log in
      let forth : length log + d ≡ i = omega (arith, ltb→le i (length log) after) in
      let shift = mod_shift (length log) d (length region) p (omega arith) in
      let shift' = rw forth at shift in
      ground (arith, shift', mod-lt i p, mod-lt (length log) p, get_or-append log bytes i 0)
]

-- A byte of what a circular read gives
copy_from-fits :
    (region : List ℕ) (pos len : ℕ)
    → pos + len ≤ length region
    → copy_from region pos len ≡ some (take len (drop pos region))
unfolding copy_from
copy_from-fits region pos len h = ground arith

pub circular_read_lem :
    (region : List ℕ) (pos len : ℕ)
    → pos < length region
    → len ≤ length region
    → (r : List ℕ) × (circular_read region pos len ≡ some r)
      × (length r ≡ len)
      × ((k : ℕ)
          → k < len
          → get_or r k 0 ≡ (
              if ltb (pos + k) (length region)
              then get_or region (pos + k) 0
              else get_or region (pos + k - length region) 0))
unfolding circular_read
circular_read_lem region pos len p l =
    let room = length region - pos in
    elim (Bool-cases (leb len room)) [
      | inl inside ↦
          let fits : pos + len ≤ length region = ground (arith, inside, p) in
          let copied = copy_from-fits region pos len fits in
          let whole : ltb len len ≡ false = ground arith in
          let size = length-take len (drop pos region) (omega (arith, length-drop pos region)) in
          (
            take len (drop pos region),
            rw (inside, circular_read, copied, inside, whole) refl,
            size,
            λ k h.
                get_or-take len (drop pos region) k 0 h
                ∙ get_or-drop pos region k 0
                ∙ ground (arith, fits, h),
          )
      | inr outside ↦
          let past : length region < pos + len = ground (arith, outside, p) in
          let first = copy_from-fits region pos room (omega arith) in
          let second = copy_from-fits region 0 (len - room) (omega arith) in
          let more : ltb room len ≡ true = ground (arith, past) in
          let head = take room (drop pos region) in
          let size = length-take room (drop pos region) (omega (arith, length-drop pos region)) in
          let rest = length-take (len - room) region (omega arith) in
          (
            head ++ take (len - room) region,
            rw (outside, circular_read, first, outside, more, second) refl,
            omega (arith, length-append head (take (len - room) region), size, rest, p, past),
            λ k h. ground (
              arith,
              get_or-append head (take (len - room) region) k 0,
              size,
              get_or-take room (drop pos region) k 0,
              get_or-drop pos region k 0,
              get_or-take (len - room) region (k - length head) 0,
              ap (λ n. get_or region n 0) {x = k - length head} {y = pos + k - length region}
                  (omega (arith, size, p)),
            ),
          )
    ]
