-- ===== src/Gateways/FixParse.antt =====
-- src/gateways/fix_protocol_engine.rs: the parsing of FIX messages. A message is the list of its bytes.
-- Whether the processor has AVX2 is an argument, since `find_soh_simd` tests it. A `while` loop takes
-- fuel, and `none` means that it has not ended. The i64 of a price is its pattern of 64 bits, on which
-- the wrapping product and sum of signed and unsigned numbers agree.
pub mod Soh
pub mod Fields
pub mod Decimal
use backendofcryptotradingbo.Base.{
  ℕ, zero, suc, ◌+◌, ◌-◌, ◌*◌, ◌/◌, ◌%◌, ◌^◌, Bool, true, false, ◌&&◌, Option, none, some, List, [],
  ◌∷◌, u64, ltb, leb, ◌==◌, if◌then◌else◌, length, ◌>>=◌,
}
use backendofcryptotradingbo.Base.Bytes.{take, drop}
use mathlib.Core.Option

abbrev pub fix_soh : ℕ
fix_soh = 0x01

-- The tags of the fields that are read
abbrev pub tag_msg_type : ℕ
tag_msg_type = 35

abbrev pub tag_symbol : ℕ
tag_symbol = 55

abbrev pub tag_md_entry_type : ℕ
tag_md_entry_type = 269

abbrev pub tag_md_entry_price : ℕ
tag_md_entry_price = 270

abbrev pub tag_md_entry_size : ℕ
tag_md_entry_size = 271

abbrev pub tag_check_sum : ℕ
tag_check_sum = 10

pub data FixMsgType : Type 0 where
  heartbeat logon logout market_data_snapshot market_data_incremental unknown : FixMsgType

pub record FixField : Type 0 where
  pub tag : ℕ
  pub value : List ℕ

-- `iter().position(|&b| b == c)`
unfoldable pub position : ℕ → List ℕ → Option ℕ
position c [] = none
position c (b ∷ bytes) = if b == c then some 0 else Option.map (λ n. suc n) (position c bytes)

-- `_mm256_movemask_epi8` of the comparison of each byte with the delimiter: bit `n` belongs to byte `n`.
unfoldable pub soh_mask : List ℕ → ℕ
soh_mask [] = 0
soh_mask (b ∷ bytes) = (if b == fix_soh then 1 else 0) + 2 * soh_mask bytes

-- `trailing_zeros` of a number of so many bits
unfoldable pub trailing_zeros : ℕ → ℕ → ℕ
trailing_zeros zero n = 0
trailing_zeros (suc bits) n = if n % 2 == 1 then 0 else suc (trailing_zeros bits (n / 2))

-- The loop over the bytes that are left, from index `i`
unfoldable pub soh_tail : List ℕ → ℕ → Option ℕ
soh_tail [] i = none
soh_tail (b ∷ bytes) i = if b == fix_soh then some i else soh_tail bytes (i + 1)

-- The loop over blocks of 32 bytes, on the bytes from index `i`
unfoldable pub soh_blocks : ℕ → List ℕ → ℕ → Option ℕ
soh_blocks zero bytes i = none
soh_blocks (suc fuel) bytes i =
    let mask = soh_mask (take 32 bytes) in
    let rest = soh_blocks fuel (drop 32 bytes) (i + 32) in
    if leb 32 (length bytes)
    then (if mask == 0 then rest else some (i + trailing_zeros 32 mask))
    else soh_tail bytes i

unfoldable pub find_soh_simd : Bool → List ℕ → Option ℕ
find_soh_simd avx2 bytes =
    if avx2 then soh_blocks (suc (length bytes)) bytes 0 else position fix_soh bytes

abbrev pub is_digit : ℕ → Bool
is_digit b = leb b'0' b && leb b b'9'

-- The number before the equals sign, as a u16
unfoldable pub tag_loop : ℕ → List ℕ → Option ℕ
tag_loop tag [] = some tag
tag_loop tag (b ∷ bytes) =
    if is_digit b then tag_loop (((tag * 10) % 2 ^ 16 + (b - b'0')) % 2 ^ 16) bytes else none

-- The type that the value of tag 35 stands for
unfoldable pub msg_type_of : List ℕ → FixMsgType
msg_type_of [] = unknown
msg_type_of (b ∷ bytes) =
    if b == b'0'
    then heartbeat
    else if b == b'A'
    then logon
    else if b == b'5'
    then logout
    else if b == b'W'
    then market_data_snapshot
    else if b == b'X'
    then market_data_incremental
    else unknown

module _ (avx2 : Bool) where
  unfoldable pub parse_field : List ℕ → ℕ → Option (FixField × ℕ)
  parse_field bytes start = if leb (length bytes) start then none else do
    let remaining = drop start bytes
    eq_pos ← position b'=' remaining
    tag ← tag_loop 0 (take eq_pos remaining)
    let value_start = eq_pos + 1
    if leb (length remaining) value_start then none else do
      soh_pos ← find_soh_simd avx2 (drop value_start remaining)
      let value = take soh_pos (drop value_start remaining)
      some (record { tag = tag; value = value }, start + value_start + soh_pos + 1)

  unfoldable pub msg_type_loop : ℕ → List ℕ → ℕ → Option FixMsgType
  msg_type_loop zero bytes pos = none
  msg_type_loop (suc fuel) bytes pos = elim (parse_field bytes pos) [
    | none ↦ some unknown
    | some (field, next) ↦
        let rest = msg_type_loop fuel bytes next in
        if field.tag == tag_msg_type then some (msg_type_of field.value) else rest
  ]

  -- Each field ends past its start, so there are at most as many fields as bytes.
  unfoldable pub parse_msg_type : List ℕ → Option FixMsgType
  parse_msg_type bytes = msg_type_loop (suc (length bytes)) bytes 0

unfoldable pub int_loop : ℕ → List ℕ → ℕ
int_loop val [] = val
int_loop val (b ∷ bytes) =
    int_loop (if is_digit b then u64 (u64 (val * 10) + (b - b'0')) else val) bytes

unfoldable pub parse_int : List ℕ → ℕ
parse_int bytes = int_loop 0 bytes

-- The variables of the loop of `parse_decimal_fixed`
pub record DecimalParts : Type 0 where
  pub int_part : ℕ
  pub frac_part : ℕ
  pub frac_divisor : ℕ
  pub in_fraction : Bool

unfoldable pub decimal_step : DecimalParts → ℕ → DecimalParts
decimal_step d b =
    if b == b'.'
    then record d { in_fraction = true }
    else if is_digit b
    then (if d.in_fraction
        then (if ltb d.frac_divisor 100_000_000
            then record d {
              frac_part = u64 (u64 (d.frac_part * 10) + (b - b'0'));
              frac_divisor = u64 (d.frac_divisor * 10);
            }
            else d)
        else record d { int_part = u64 (u64 (d.int_part * 10) + (b - b'0')) })
    else d

unfoldable pub decimal_loop : DecimalParts → List ℕ → DecimalParts
decimal_loop d [] = d
decimal_loop d (b ∷ bytes) = decimal_loop (decimal_step d b) bytes

abbrev pub decimal_start : DecimalParts
decimal_start = record { int_part = 0; frac_part = 0; frac_divisor = 1; in_fraction = false }

unfoldable pub parse_decimal_fixed : List ℕ → ℕ
parse_decimal_fixed bytes =
    let d = decimal_loop decimal_start bytes in
    u64 (u64 (d.int_part * 100_000_000) + u64 (d.frac_part * (100_000_000 / d.frac_divisor)))
