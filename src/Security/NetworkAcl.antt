-- ===== src/Security/NetworkAcl.antt =====
-- src/security/network_acl.rs: the addresses that connections may go to. Addresses are u32, the masks of
-- ports and the counters u64; a protocol is a u8. The writes to an entry through raw pointers are
-- modelled as the assignments that they mean, and the exchange that claims an entry without a racing
-- thread.

pub mod Match
pub mod Cidr
pub mod Parse
use Prim.Native.Nat.{min, bit_and, bit_or, bit_xor}
use backendofcryptotradingbo.Base.{
  ℕ, zero, suc, ◌+◌, ◌-◌, ◌*◌, ◌/◌, ◌%◌, ◌^◌, Bool, true, false, not, ◌&&◌, ◌||◌, Option, none,
  some, List, [], ◌∷◌, map, u64, u32, ltb, leb, ◌==◌, if◌then◌else◌, get_or, set, replicate,
}
use backendofcryptotradingbo.Base.Bits.{complement}

abbrev pub max_allowed_ips : ℕ
max_allowed_ips = 256

abbrev pub max_cidr_ranges : ℕ
max_cidr_ranges = 64

pub record IpAllowEntry : Type 0 where
  pub ip : ℕ
  pub port_mask : ℕ
  pub protocol_flags : ℕ
  pub priority : ℕ
  pub last_match_ts : ℕ
  pub match_count : ℕ
  pub is_active : Bool

abbrev pub new_entry : IpAllowEntry
new_entry = record {
  ip = 0;
  port_mask = 0;
  protocol_flags = 0;
  priority = 255;
  last_match_ts = 0;
  match_count = 0;
  is_active = false;
}

pub record CidrEntry : Type 0 where
  pub network : ℕ
  pub netmask : ℕ
  pub prefix_len : ℕ
  pub priority : ℕ
  pub is_active : Bool

abbrev pub new_cidr : CidrEntry
new_cidr = record { network = 0; netmask = 0; prefix_len = 0; priority = 255; is_active = false }

pub record NetworkAcl : Type 0 where
  pub allowed_ips : List IpAllowEntry  -- 256 of them
  pub cidr_ranges : List CidrEntry  -- 64 of them
  pub ip_count : ℕ
  pub cidr_count : ℕ
  pub default_allow : Bool
  pub check_count : ℕ
  pub denied_count : ℕ
  pub is_enforced : Bool

unfoldable pub new : NetworkAcl
new = record {
  allowed_ips = replicate max_allowed_ips new_entry;
  cidr_ranges = replicate max_cidr_ranges new_cidr;
  ip_count = 0;
  cidr_count = 0;
  default_allow = false;
  check_count = 0;
  denied_count = 0;
  is_enforced = true;
}

-- The index of the new entry, or `none` when the list is full
unfoldable pub add_allowed_ip : NetworkAcl → ℕ → ℕ → ℕ → NetworkAcl × Option ℕ
add_allowed_ip a ip ports protocols = if leb max_allowed_ips a.ip_count then (a, none) else (
  record a {
    ip_count = a.ip_count + 1;
    allowed_ips = set a.allowed_ips a.ip_count (record (get_or a.allowed_ips a.ip_count new_entry) {
      ip = ip;
      port_mask = ports;
      protocol_flags = protocols;
      is_active = true;
    });
  },
  some a.ip_count,
)

-- `!((1u32 << (32 - prefix_len)) - 1)`, and 0 for the prefix of length 0
unfoldable pub netmask_of : ℕ → ℕ
netmask_of prefix_len = if prefix_len == 0 then 0 else complement 32 (2 ^ (32 - prefix_len) - 1)

unfoldable pub add_cidr : NetworkAcl → ℕ → ℕ → NetworkAcl × Option ℕ
add_cidr a network prefix_len =
    if ltb 32 prefix_len
    then (a, none)
    else if leb max_cidr_ranges a.cidr_count
    then (a, none)
    else (
      record a {
        cidr_count = a.cidr_count + 1;
        cidr_ranges =
            set a.cidr_ranges a.cidr_count (record (get_or a.cidr_ranges a.cidr_count new_cidr) {
              network = bit_and network (netmask_of prefix_len);
              netmask = netmask_of prefix_len;
              prefix_len = prefix_len;
              is_active = true;
            });
      },
      some a.cidr_count,
    )

-- `((a ^ b) - 1) >> 31`; the subtraction of u32 wraps in the release build.
unfoldable pub same_u32 : ℕ → ℕ → ℕ
same_u32 a b = u32 (bit_xor a b + 2 ^ 32 - 1) / 2 ^ 31

-- `match_result`, a conjunction of three numbers that are 0 or 1
unfoldable pub entry_matches : IpAllowEntry → ℕ → ℕ → ℕ → Bool
entry_matches e ip port protocol =
    not (same_u32 ip e.ip == 0)
    && ((e.port_mask == 0) || not (bit_and e.port_mask (2 ^ (port % 64)) == 0))
    && ((e.protocol_flags == 0) || not (bit_and e.protocol_flags protocol == 0))

-- The statistics of an entry after its round; `ts` is the reading of the cycle counter. The mask for
-- it is a u8.
unfoldable pub touch_entry : IpAllowEntry → Bool → ℕ → IpAllowEntry
touch_entry e matched ts = record e {
  match_count = if matched then u64 (e.match_count + 1) else e.match_count;
  last_match_ts = bit_or e.last_match_ts (bit_and ts (if matched then 255 else 0));
}

-- The loop over the first `n` entries; `stamp i` is the reading of the counter `i` rounds before
-- the last.
unfoldable pub check_ips : ℕ → List IpAllowEntry → ℕ → ℕ → ℕ → (ℕ → ℕ) → List IpAllowEntry × Bool
check_ips zero entries ip port protocol stamp = (entries, false)
check_ips (suc n) [] ip port protocol stamp = ([], false)
check_ips (suc n) (e ∷ entries) ip port protocol stamp =
    let matched = entry_matches e ip port protocol in
    let (rest, allowed) = check_ips n entries ip port protocol stamp in
    if e.is_active
    then (touch_entry e matched (stamp n) ∷ rest, matched || allowed)
    else (e ∷ rest, allowed)

unfoldable pub cidr_matches : CidrEntry → ℕ → Bool
cidr_matches e ip = not (same_u32 (bit_and ip e.netmask) e.network == 0)

unfoldable pub check_cidrs : ℕ → List CidrEntry → ℕ → Bool
check_cidrs zero entries ip = false
check_cidrs (suc n) [] ip = false
check_cidrs (suc n) (e ∷ entries) ip =
    (e.is_active && cidr_matches e ip) || check_cidrs n entries ip

-- `(!allowed).wrapping_neg() as u64`, for `allowed` as a u8 that is 0 or 1
abbrev pub denied_mask : Bool → ℕ
denied_mask allowed = (256 - complement 8 (if allowed then 1 else 0)) % 256

unfoldable pub check_ip : NetworkAcl → ℕ → ℕ → ℕ → (ℕ → ℕ) → NetworkAcl × Bool
check_ip a ip port protocol stamp =
    let (entries, listed) =
      check_ips (min a.ip_count max_allowed_ips) a.allowed_ips ip port protocol stamp in
    let allowed =
      a.default_allow
      || listed
      || check_cidrs (min a.cidr_count max_cidr_ranges) a.cidr_ranges ip in
    if a.is_enforced
    then (
      record a {
        allowed_ips = entries;
        check_count = u64 (a.check_count + 1);
        denied_count = u64 (a.denied_count + denied_mask allowed);
      },
      allowed,
    )
    else (a, true)

-- The variables of the loop of `parse_ip`
pub record Parsing : Type 0 where
  pub parts : List ℕ  -- 4 of them
  pub current : ℕ
  pub part_idx : ℕ

unfoldable pub parse_byte : Parsing → ℕ → Option Parsing
parse_byte p byte =
    let next = p.current * 10 + (byte - 48) in
    if byte == 46
    then if leb 3 p.part_idx
      then none
      else some (record {
        parts = set p.parts p.part_idx p.current;
        current = 0;
        part_idx = p.part_idx + 1;
      })
    else if leb 48 byte && leb byte 57
    then if ltb 255 next then none else some (record p { current = next })
    else none

unfoldable pub parse_bytes : Parsing → List ℕ → Option Parsing
parse_bytes p [] = some p
parse_bytes p (byte ∷ bytes) = elim (parse_byte p byte) [
  | none ↦ none
  | some p' ↦ parse_bytes p' bytes
]

-- The shifted parts do not overlap, so their disjunction is their sum.
unfoldable pub parse_ip : List ℕ → Option ℕ
parse_ip ip_str =
    elim (parse_bytes (record { parts = replicate 4 0; current = 0; part_idx = 0 }) ip_str) [
      | none ↦ none
      | some p ↦
          let parts = set p.parts p.part_idx p.current in
          some (
            get_or parts 0 0 * 2 ^ 24
            + get_or parts 1 0 * 2 ^ 16
            + get_or parts 2 0 * 2 ^ 8
            + get_or parts 3 0)
    ]

abbrev pub get_stats : NetworkAcl → ℕ × ℕ
get_stats a = (a.check_count, a.denied_count)

unfoldable pub set_default_policy : NetworkAcl → Bool → NetworkAcl
set_default_policy a allow = record a { default_allow = allow }

unfoldable pub set_enforced : NetworkAcl → Bool → NetworkAcl
set_enforced a enforced = record a { is_enforced = enforced }

unfoldable pub shutdown : NetworkAcl → NetworkAcl
shutdown a = record a {
  is_enforced = false;
  allowed_ips = map {A = IpAllowEntry} (λ e. record e { is_active = false }) a.allowed_ips;
  cidr_ranges = map {A = CidrEntry} (λ e. record e { is_active = false }) a.cidr_ranges;
}
