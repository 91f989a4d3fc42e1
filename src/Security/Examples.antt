-- ===== src/Security/Examples.antt =====
-- A concrete list (src/security/network_acl.rs), on which the theorems are applied.
use Prim.Native.Nat.{min}
use backendofcryptotradingbo.Base.{
  ℕ, ◌^◌, ◌<◌, ◌≡◌, ◌⊎◌, ◌↔◌, ◌∙◌, refl, true, arith, get_or, length-set, replicate,
  length-replicate, All-set, All-replicate,
}
use backendofcryptotradingbo.Security.NetworkAcl
use backendofcryptotradingbo.Security.NetworkAcl.{
  NetworkAcl, IpAllowEntry, max_allowed_ips, max_cidr_ranges, new_entry, new_cidr, add_allowed_ip,
  add_cidr, check_ip, parse_ip,
}
use backendofcryptotradingbo.Security.NetworkAcl.Match.{IsValid, Allows, Contains, check_ip_lem}

-- 192.168.1.1, on any port by any protocol
abbrev entry : IpAllowEntry
entry = record new_entry { ip = 0xC0A80101; is_active = true }

abbrev acl : NetworkAcl
acl = (add_allowed_ip NetworkAcl.new 0xC0A80101 0 0).0

acl-IsValid : IsValid acl
unfolding NetworkAcl.new add_allowed_ip
acl-IsValid = record {
  ips =
      length-set (replicate max_allowed_ips new_entry) 0 entry
      ∙ length-replicate max_allowed_ips new_entry;
  cidrs = length-replicate max_cidr_ranges new_cidr;
  ip_words =
      All-set (λ e. e.ip < 2 ^ 32) (replicate max_allowed_ips new_entry) 0 entry
        (All-replicate (λ e. e.ip < 2 ^ 32) max_allowed_ips new_entry (omega arith)) (omega arith);
  cidr_words = All-replicate (λ e. e.network < 2 ^ 32) max_cidr_ranges new_cidr (omega arith);
}

check_ip_lem_example : ((check_ip acl 0xC0A80101 443 1 (λ i. i)).1 ≡ true) ↔ (
    (acl.default_allow ≡ true)
    ⊎ ((i : ℕ) × (i < min acl.ip_count max_allowed_ips)
        × Allows (get_or acl.allowed_ips i new_entry) 0xC0A80101 443 1)
    ⊎ ((i : ℕ) × (i < min acl.cidr_count max_cidr_ranges)
        × Contains (get_or acl.cidr_ranges i new_cidr) 0xC0A80101))
unfolding NetworkAcl.new add_allowed_ip
check_ip_lem_example = check_ip_lem acl 0xC0A80101 443 1 (λ i. i) acl-IsValid refl (omega arith)
