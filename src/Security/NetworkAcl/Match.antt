-- ===== src/Security/NetworkAcl/Match.antt =====
-- Which connections src/security/network_acl.rs allows, and how it counts.
use Prim.Native.Nat.{min, bit_and, bit_xor}
use backendofcryptotradingbo.Base.{
  ℕ, zero, suc, ◌+◌, ◌%◌, ◌^◌, ◌<◌, ◌≡◌, ◌≢◌, ◌⊎◌, ◌↔◌, inl, inr, refl, ap, sym, ◌∙◌, Bool, true,
  false, not, ◌&&◌, ◌||◌, List, [], ◌∷◌, u64, ◌==◌, if◌then◌else◌, arith, Bool-cases, get_or,
  length, All, All-get_or,
}
use backendofcryptotradingbo.Base.Masks.{xor-zero, xor_self, xor-lt, and-le}
use backendofcryptotradingbo.Base.Search.{any_first, any_first_iff}
use backendofcryptotradingbo.Security.NetworkAcl.{
  IpAllowEntry, CidrEntry, NetworkAcl, max_allowed_ips, max_cidr_ranges, new_entry, new_cidr,
  same_u32, entry_matches, check_ips, cidr_matches, check_cidrs, check_ip,
}

-- Two addresses count as the same: they are, or their exclusive or is above 2 ^ 31.
abbrev pub Near : ℕ → ℕ → Type 0
Near a b = (a ≡ b) ⊎ (2 ^ 31 < bit_xor a b)

same_u32_lem : (a b : ℕ) → a < 2 ^ 32 → b < 2 ^ 32 → (same_u32 a b ≢ 0) ↔ Near a b
unfolding same_u32
same_u32_lem a b h k =
    let small = xor-lt 32 a b h k in
    (
      (λ e. elim (Bool-cases (bit_xor a b == 0)) [
        | inl z ↦ inl (xor-zero a b (ground arith))
        | inr z ↦ inr (ground arith)
      ]),
      (λ m. elim m [
        | inl same ↦
            let none_set : bit_xor a b ≡ 0 = ap (λ x. bit_xor a x) (sym same) ∙ xor_self a in
            λ z. omega (arith, none_set, z)
        | inr far ↦ λ z. omega (arith, far, small, z)
      ]),
    )

-- An active entry allows an address, a port and a protocol.
pub record Allows (e : IpAllowEntry) (ip port protocol : ℕ) : Type 0 where
  pub active : e.is_active ≡ true
  pub address : Near ip e.ip
  pub port_listed : (e.port_mask ≡ 0) ⊎ (bit_and e.port_mask (2 ^ (port % 64)) ≢ 0)
  pub protocol_listed : (e.protocol_flags ≡ 0) ⊎ (bit_and e.protocol_flags protocol ≢ 0)

-- An active range contains an address.
pub record Contains (e : CidrEntry) (ip : ℕ) : Type 0 where
  pub active : e.is_active ≡ true
  pub network_is : Near (bit_and ip e.netmask) e.network

listed_lem : (m x : ℕ) → (((m == 0) || not (x == 0)) ≡ true) ↔ ((m ≡ 0) ⊎ (x ≢ 0))
listed_lem m x = (λ e. ground (arith, e), λ l. ground (arith, l))

and_lem : (a b : Bool) → (a && b) ≡ true → (a ≡ true) × (b ≡ true)
and_lem true b e = (refl, e)
and_lem false b e = cc

entry_matches_lem :
    (e : IpAllowEntry) (ip port protocol : ℕ)
    → ip < 2 ^ 32
    → e.ip < 2 ^ 32
    → ((e.is_active && entry_matches e ip port protocol) ≡ true) ↔ Allows e ip port protocol
unfolding entry_matches
entry_matches_lem e ip port protocol h k =
    let same = same_u32_lem ip e.ip h k in
    let ports = listed_lem e.port_mask (bit_and e.port_mask (2 ^ (port % 64))) in
    let protocols = listed_lem e.protocol_flags (bit_and e.protocol_flags protocol) in
    (
      (λ t.
          let (active, rest) = and_lem e.is_active _ t in
          let (rest', protocol_bit) = and_lem _ _ rest in
          let (address, port_bit) = and_lem (not (same_u32 ip e.ip == 0)) _ rest' in
          record {
            active = active;
            address = same.0 (ground (arith, address));
            port_listed = ports.0 port_bit;
            protocol_listed = protocols.0 protocol_bit;
          }),
      (λ a.
          let address : not (same_u32 ip e.ip == 0) ≡ true = ground (arith, same.1 a.address) in
          rw
            (a.active, address, ports.1 a.port_listed, protocols.1 a.protocol_listed, entry_matches)
            refl),
    )

check_ips_lem :
    (n : ℕ) (entries : List IpAllowEntry) (ip port protocol : ℕ) (stamp : ℕ → ℕ)
    → (check_ips n entries ip port protocol stamp).1
      ≡ any_first (λ e. e.is_active && entry_matches e ip port protocol) n entries
unfolding check_ips any_first entry_matches
check_ips_lem zero entries ip port protocol stamp = refl
check_ips_lem (suc n) [] ip port protocol stamp = refl
check_ips_lem (suc n) (e ∷ entries) ip port protocol stamp =
    let rest = check_ips_lem n entries ip port protocol stamp in
    elim (Bool-cases e.is_active) [
      | inl on ↦ rw on (ap (λ b. entry_matches e ip port protocol || b) rest)
      | inr off ↦ rw off rest
    ]

check_cidrs_lem :
    (n : ℕ) (entries : List CidrEntry) (ip : ℕ)
    → check_cidrs n entries ip ≡ any_first (λ e. e.is_active && cidr_matches e ip) n entries
unfolding check_cidrs any_first
check_cidrs_lem zero entries ip = refl
check_cidrs_lem (suc n) [] ip = refl
check_cidrs_lem (suc n) (e ∷ entries) ip =
    ap (λ b. (e.is_active && cidr_matches e ip) || b) (check_cidrs_lem n entries ip)

cidr_matches_lem :
    (e : CidrEntry) (ip : ℕ)
    → bit_and ip e.netmask < 2 ^ 32
    → e.network < 2 ^ 32
    → ((e.is_active && cidr_matches e ip) ≡ true) ↔ Contains e ip
unfolding cidr_matches
cidr_matches_lem e ip h k =
    let same = same_u32_lem (bit_and ip e.netmask) e.network h k in
    (
      (λ t.
          let (active, near) = and_lem e.is_active _ t in
          record { active = active; network_is = same.0 (ground (arith, near)) }),
      (λ c. ground (arith, c.active, same.1 c.network_is)),
    )

-- Tables whose numbers are u32
pub record IsValid (a : NetworkAcl) : Type 0 where
  pub ips : length a.allowed_ips ≡ max_allowed_ips
  pub cidrs : length a.cidr_ranges ≡ max_cidr_ranges
  pub ip_words : All (λ e. e.ip < 2 ^ 32) a.allowed_ips
  pub cidr_words : All (λ e. e.network < 2 ^ 32) a.cidr_ranges

module _ (a : NetworkAcl) (ip : ℕ) (v : IsValid a) (h : ip < 2 ^ 32) where
  abbrev Allowed : ℕ → ℕ → Type 0
  Allowed port protocol =
      (i : ℕ) × (i < min a.ip_count max_allowed_ips)
      × Allows (get_or a.allowed_ips i new_entry) ip port protocol

  abbrev Contained : Type 0
  Contained =
      (i : ℕ) × (i < min a.cidr_count max_cidr_ranges)
      × Contains (get_or a.cidr_ranges i new_cidr) ip

  listed-Allowed :
      (port protocol : ℕ) (stamp : ℕ → ℕ)
      → ((check_ips (min a.ip_count max_allowed_ips) a.allowed_ips ip port protocol stamp).1 ≡ true)
        ↔ Allowed port protocol
  listed-Allowed port protocol stamp =
      let n : ℕ = min a.ip_count max_allowed_ips in
      let listed = check_ips_lem n a.allowed_ips ip port protocol stamp in
      let found =
        any_first_iff (λ e. e.is_active && entry_matches e ip port protocol) n a.allowed_ips
          new_entry (omega (arith, v.ips)) in
      let entry : (i : ℕ) → i < n → _ = λ i k.
        entry_matches_lem (get_or a.allowed_ips i new_entry) ip port protocol h (
          All-get_or (λ e. e.ip < 2 ^ 32) a.allowed_ips i new_entry v.ip_words
            (omega (arith, k, v.ips))) in
      (
        (λ e. let (i, k, t) = found.0 (sym listed ∙ e) in (i, k, (entry i k).0 t)),
        (λ (i, k, m). listed ∙ found.1 (i, k, (entry i k).1 m)),
      )

  ranged-Contained :
      (check_cidrs (min a.cidr_count max_cidr_ranges) a.cidr_ranges ip ≡ true) ↔ Contained
  ranged-Contained =
      let m : ℕ = min a.cidr_count max_cidr_ranges in
      let ranged = check_cidrs_lem m a.cidr_ranges ip in
      let found =
        any_first_iff (λ e. e.is_active && cidr_matches e ip) m a.cidr_ranges new_cidr
          (omega (arith, v.cidrs)) in
      let range : (i : ℕ) → i < m → _ = λ i k.
        let e = get_or a.cidr_ranges i new_cidr in
        cidr_matches_lem e ip (omega (arith, and-le ip e.netmask, h)) (
          All-get_or (λ e. e.network < 2 ^ 32) a.cidr_ranges i new_cidr v.cidr_words
            (omega (arith, k, v.cidrs))) in
      (
        (λ e. let (i, k, t) = found.0 (sym ranged ∙ e) in (i, k, (range i k).0 t)),
        (λ (i, k, c). ranged ∙ found.1 (i, k, (range i k).1 c)),
      )

-- An enforced list with its tables of u32 numbers, for a u32 address: the connection is allowed
-- exactly when the policy is to allow, or an entry in use allows it, or a range in use contains
-- the address. An entry and a range also answer for addresses that are more than 2 ^ 31 away by
-- exclusive or.
pub check_ip_lem :
    (a : NetworkAcl) (ip port protocol : ℕ) (stamp : ℕ → ℕ)
    → IsValid a
    → a.is_enforced ≡ true
    → ip < 2 ^ 32
    → ((check_ip a ip port protocol stamp).1 ≡ true) ↔ (
        (a.default_allow ≡ true)
        ⊎ ((i : ℕ) × (i < min a.ip_count max_allowed_ips)
            × Allows (get_or a.allowed_ips i new_entry) ip port protocol)
        ⊎ ((i : ℕ) × (i < min a.cidr_count max_cidr_ranges)
            × Contains (get_or a.cidr_ranges i new_cidr) ip))
unfolding check_ip
check_ip_lem a ip port protocol stamp v on h =
    let listed = listed-Allowed a ip v h port protocol stamp in
    let ranged = ranged-Contained a ip v h in
    ((λ e. ground (arith, e, on, listed, ranged)), (λ r. ground (arith, r, on, listed, ranged)))

-- Every check by an enforced list counts, and the count of denials, as a u64, grows by one where the
-- connection is denied and by two where it is allowed.
pub denied_count_lem :
    (a : NetworkAcl) (ip port protocol : ℕ) (stamp : ℕ → ℕ)
    → a.is_enforced ≡ true
    → let (a', allowed) = check_ip a ip port protocol stamp in
      (a'.check_count ≡ u64 (a.check_count + 1))
      × (a'.denied_count ≡ u64 (a.denied_count + (if allowed then 2 else 1)))
unfolding check_ip
denied_count_lem a ip port protocol stamp on = ground (arith, on)
