-- ===== src/Security/NetworkAcl/Cidr.antt =====
-- The ranges of src/security/network_acl.rs.
use Prim.Native.Nat.{bit_and}
use native.Mathlib.Nat.{mul-div_cancel, pow-le-pow_right}
use backendofcryptotradingbo.Base.{
  ℕ, ◌+◌, ◌-◌, ◌*◌, ◌/◌, ◌^◌, ◌≤◌, ◌<◌, ◌≡◌, ◌↔◌, refl, ap, sym, ◌∙◌, true, false, ◌==◌, arith,
  Bool-cases, inl, inr, get_or, some, ltb, leb, length, get_or-set_self,
}
use backendofcryptotradingbo.Base.Bits.{complement, and-zero}
use backendofcryptotradingbo.Base.Masks.{pow-pos, and-high}
use backendofcryptotradingbo.Security.NetworkAcl.{
  NetworkAcl, max_cidr_ranges, new_cidr, netmask_of, add_cidr,
}

pow-le-32 : (k : ℕ) → k ≤ 32 → (0 < 2 ^ k) × (2 ^ k ≤ 2 ^ 32)
pow-le-32 k h = (pow-pos k, pow-le-pow_right (omega arith) h)

-- The mask of a prefix takes the other bits away.
netmask_of_lem :
    (prefix_len x : ℕ)
    → prefix_len ≤ 32
    → x < 2 ^ 32
    → bit_and x (netmask_of prefix_len) ≡ x / 2 ^ (32 - prefix_len) * 2 ^ (32 - prefix_len)
unfolding netmask_of
netmask_of_lem prefix_len x h k = elim (Bool-cases (prefix_len == 0)) [
  | inl whole ↦
      let all : 32 - prefix_len ≡ 32 = ground arith in
      rw (whole, all) (omega (arith, and-zero x x (omega arith), k))
  | inr some_bits ↦
      let sum : prefix_len + (32 - prefix_len) ≡ 32 = omega arith in
      let small = pow-le-32 (32 - prefix_len) (omega arith) in
      let mask : complement 32 (2 ^ (32 - prefix_len) - 1)
          ≡ 2 ^ (prefix_len + (32 - prefix_len)) - 2 ^ (32 - prefix_len) =
        rw sum (omega (arith, small)) in
      rw (some_bits, mask) (and-high (32 - prefix_len) prefix_len x (rw sum k))
]

-- Two addresses are the same under the mask of a prefix exactly when their first bits are.
netmask_of_iff :
    (prefix_len x y : ℕ)
    → prefix_len ≤ 32
    → x < 2 ^ 32
    → y < 2 ^ 32
    → (bit_and x (netmask_of prefix_len) ≡ bit_and y (netmask_of prefix_len))
      ↔ (x / 2 ^ (32 - prefix_len) ≡ y / 2 ^ (32 - prefix_len))
netmask_of_iff prefix_len x y h k l =
    let m : ℕ = 2 ^ (32 - prefix_len) in
    let pos : 0 < m = (pow-le-32 (32 - prefix_len) (omega arith)).0 in
    let at_x = netmask_of_lem prefix_len x h k in
    let at_y = netmask_of_lem prefix_len y h l in
    (
      (λ e.
          let same : x / m * m ≡ y / m * m = sym at_x ∙ e ∙ at_y in
          sym (mul-div_cancel (x / m) pos) ∙ ap (λ v. v / m) same ∙ mul-div_cancel (y / m) pos),
      (λ e. at_x ∙ ap (λ v. v * m) e ∙ sym at_y),
    )

-- A range that is added to a table with room, of a u32 network and a prefix of at most 32 bits, is
-- active, and an address is in it exactly when its first `prefix_len` bits are those of the network.
pub add_cidr_lem :
    (a : NetworkAcl) (network prefix_len ip : ℕ)
    → length a.cidr_ranges ≡ max_cidr_ranges
    → a.cidr_count < max_cidr_ranges
    → prefix_len ≤ 32
    → network < 2 ^ 32
    → ip < 2 ^ 32
    → let (a', idx) = add_cidr a network prefix_len in
      let e = get_or a'.cidr_ranges a.cidr_count new_cidr in
      (idx ≡ some a.cidr_count)
      × (e.is_active ≡ true)
      × ((bit_and ip e.netmask ≡ e.network)
          ↔ (ip / 2 ^ (32 - prefix_len) ≡ network / 2 ^ (32 - prefix_len)))
unfolding add_cidr
add_cidr_lem a network prefix_len ip l room h k i =
    let e = record (get_or a.cidr_ranges a.cidr_count new_cidr) {
      network = bit_and network (netmask_of prefix_len);
      netmask = netmask_of prefix_len;
      prefix_len = prefix_len;
      is_active = true;
    } in
    let stored = get_or-set_self a.cidr_ranges a.cidr_count e new_cidr (omega (arith, l, room)) in
    let valid : ltb 32 prefix_len ≡ false = ground arith in
    let free : leb max_cidr_ranges a.cidr_count ≡ false = ground arith in
    rw (valid, free, stored, add_cidr) (refl, refl, netmask_of_iff prefix_len ip network h i k)
