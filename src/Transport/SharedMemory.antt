-- ===== src/Transport/SharedMemory.antt =====
-- src/transport/shared_memory.rs: the header of a mapped file, and the circular writes and reads of its
-- data. The file's header and data, when it is mapped, are arguments, and so is a reading of the cycle
-- counter. `none` is an access past the mapped region. A u64 position fits a usize.
pub mod Circular
pub mod Log
use mathlib.Core.Option
use backendofcryptotradingbo.Base.{
  ℕ, ◌+◌, ◌-◌, ◌*◌, ◌/◌, ◌%◌, ◌^◌, Bool, true, false, ◌&&◌, Option, none, some, List, [], ◌∷◌, ◌++◌,
  u64, u32, ltb, leb, ◌==◌, if◌then◌else◌, length,
}
use backendofcryptotradingbo.Base.Bytes.{take, drop, write}

abbrev pub mmap_magic : ℕ
mmap_magic = 0x4D4D4150

abbrev pub mmap_version : ℕ
mmap_version = 1

-- `size_of::<MmapHeader>()`: two u32, five u64, eight u32, and padding to a multiple of 8
abbrev pub header_size : ℕ
header_size = 80

pub record MmapHeader : Type 0 where
  pub magic : ℕ
  pub version : ℕ
  pub file_size : ℕ
  pub write_pos : ℕ
  pub record_count : ℕ
  pub data_checksum : ℕ
  pub last_update_ns : ℕ
  pub flags : ℕ
  pub reserved : List ℕ  -- 7 of them

abbrev pub new_header : ℕ → MmapHeader
new_header file_size = record {
  magic = mmap_magic;
  version = mmap_version;
  file_size = file_size;
  write_pos = 0;
  record_count = 0;
  data_checksum = 0;
  last_update_ns = 0;
  flags = 0;
  reserved = 0 ∷ 0 ∷ 0 ∷ 0 ∷ 0 ∷ 0 ∷ 0 ∷ [];
}

unfoldable pub is_valid : MmapHeader → Bool
is_valid h = h.magic == mmap_magic && h.version == mmap_version

-- `wrapping_add` of each summand in turn
unfoldable pub sum_u32 : ℕ → List ℕ → ℕ
sum_u32 sum [] = sum
sum_u32 sum (n ∷ ns) = sum_u32 (u32 (sum + n)) ns

-- The low and the high half of a u64
abbrev pub low : ℕ → ℕ
low n = n % 2 ^ 32

abbrev pub high : ℕ → ℕ
high n = n / 2 ^ 32

unfoldable pub calculate_checksum : MmapHeader → ℕ
calculate_checksum h = sum_u32 0 (
    (h.magic
      ∷ h.version
      ∷ low h.file_size
      ∷ high h.file_size
      ∷ low h.write_pos
      ∷ high h.write_pos
      ∷ low h.record_count
      ∷ high h.record_count
      ∷ low h.data_checksum
      ∷ high h.data_checksum
      ∷ low h.last_update_ns
      ∷ high h.last_update_ns
      ∷ h.flags
      ∷ [])
    ++ h.reserved)

pub record SharedMemory : Type 0 where
  pub header : MmapHeader
  pub region : List ℕ

abbrev pub data_size : SharedMemory → ℕ
data_size m = length m.region

-- The mapping of a file that holds at least `size` bytes of data, of which it maps so many
unfoldable pub create : MmapHeader → List ℕ → ℕ → SharedMemory
create file_header file_data size = record {
  header = if is_valid file_header then file_header else new_header (u64 (size + header_size));
  region = take size file_data;
}

-- `none`: the file is too small for a header, or the header is not valid.
unfoldable pub open_file : ℕ → MmapHeader → List ℕ → Option SharedMemory
open_file file_size file_header file_data =
    if ltb file_size header_size
    then none
    else if is_valid file_header
    then some (record { header = file_header; region = file_data })
    else none

-- `copy_nonoverlapping` to a place of the region
unfoldable pub copy_to : List ℕ → ℕ → List ℕ → Option (List ℕ)
copy_to region pos bytes =
    if leb (pos + length bytes) (length region) then some (write region pos bytes) else none

unfoldable pub copy_from : List ℕ → ℕ → ℕ → Option (List ℕ)
copy_from region pos len =
    if leb (pos + len) (length region) then some (take len (drop pos region)) else none

-- The copies of `write`: up to the end of the region, and what is left to its start
unfoldable pub circular_write : List ℕ → ℕ → List ℕ → Option (List ℕ)
circular_write region pos bytes =
    let room = length region - pos in
    let available = if leb (pos + length bytes) (length region) then length bytes else room in
    elim (copy_to region pos (take available bytes)) [
      | none ↦ none
      | some region' ↦
          if ltb available (length bytes)
          then copy_to region' 0 (drop available bytes)
          else some region'
    ]

-- The remainder by a size of 0 panics.
unfoldable pub write_data : SharedMemory → List ℕ → ℕ → Option (SharedMemory × ℕ)
write_data m bytes now =
    if data_size m == 0
    then none
    else elim (circular_write m.region (m.header.write_pos % data_size m) bytes) [
      | none ↦ none
      | some region ↦
          let write_pos = u64 (m.header.write_pos + length bytes) in
          some (
            record {
              region = region;
              header = record m.header {
                write_pos = write_pos;
                record_count = u64 (m.header.record_count + 1);
                last_update_ns = now;
              };
            },
            write_pos,
          )
    ]

pub data ReadResult : Type 0 where
  bytes_read : List ℕ → ReadResult
  beyond_written : ReadResult
  fault : ReadResult

-- The copies of `read`
unfoldable pub circular_read : List ℕ → ℕ → ℕ → Option (List ℕ)
circular_read region pos len =
    let room = length region - pos in
    let available = if leb len room then len else room in
    elim (copy_from region pos available) [
      | none ↦ none
      | some result ↦
          if ltb available len
          then Option.map (λ rest. result ++ rest) (copy_from region 0 (len - available))
          else some result
    ]

unfoldable pub read : SharedMemory → ℕ → ℕ → ReadResult
read m offset len =
    if leb m.header.write_pos offset
    then beyond_written
    else if data_size m == 0
    then fault
    else elim (circular_read m.region (offset % data_size m) len) [
      | none ↦ fault
      | some result ↦ bytes_read result
    ]

abbrev pub write_position : SharedMemory → ℕ
write_position m = m.header.write_pos

abbrev pub record_count : SharedMemory → ℕ
record_count m = m.header.record_count
