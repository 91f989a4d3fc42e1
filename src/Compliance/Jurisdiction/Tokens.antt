-- ===== src/Compliance/Jurisdiction/Tokens.antt =====
-- Which tokens src/compliance/jurisdiction_filter.rs blocks.
use Prim.Native.Nat.{min, bit_xor}
use backendofcryptotradingbo.Base.{
  ℕ, zero, suc, ◌/◌, ◌%◌, ◌^◌, ◌<◌, ◌≡◌, ◌≢◌, ◌⊎◌, ◌↔◌, inl, inr, refl, ap, sym, ◌∙◌, true, false,
  ◌&&◌, List, [], ◌∷◌, ◌==◌, arith, Bool-cases, get_or, length, All, All-get_or, ◌||◌,
}
use backendofcryptotradingbo.Base.Masks.{xor-zero, xor_self, xor-lt}
use backendofcryptotradingbo.Base.Search.{any_first, any_first_iff}
use backendofcryptotradingbo.Compliance.Jurisdiction.{
  BlockedToken, JurisdictionFilter, max_blocked_tokens, new_token, hash_match, jur_match, blocks,
  is_blocked, check_token,
}

-- Entry `t` blocks a hash: it is active, lists the jurisdiction, and its hash is the same or more
-- than 2 ^ 63 away by exclusive or.
pub record Blocks (t : BlockedToken) (token_hash jurisdiction : ℕ) : Type 0 where
  pub active : t.is_active ≡ true
  pub listed : t.jurisdictions / 2 ^ (jurisdiction % 64) % 2 ≡ 1
  pub near : (token_hash ≡ t.hash) ⊎ (2 ^ 63 < bit_xor token_hash t.hash)

-- The wrapping difference has its top bit for 0 and above 2 ^ 63.
hash_match_lem :
    (token_hash stored_hash : ℕ)
    → token_hash < 2 ^ 64
    → stored_hash < 2 ^ 64
    → (hash_match token_hash stored_hash ≢ 0)
      ↔ ((token_hash ≡ stored_hash) ⊎ (2 ^ 63 < bit_xor token_hash stored_hash))
unfolding hash_match
hash_match_lem a b h k =
    let small = xor-lt 64 a b h k in
    (
      (λ e. elim (Bool-cases (bit_xor a b == 0)) [
        | inl z ↦ inl (xor-zero a b (ground arith))
        | inr z ↦ inr (ground arith)
      ]),
      (λ m. elim m [
        | inl same ↦
            let none_set : bit_xor a b ≡ 0 = ap (λ x. bit_xor a x) (sym same) ∙ xor_self a in
            λ z. omega (arith, none_set, z)
        | inr far ↦ λ z. omega (arith, far, small, z)
      ]),
    )

blocks_lem :
    (t : BlockedToken) (token_hash jurisdiction : ℕ)
    → token_hash < 2 ^ 64
    → t.hash < 2 ^ 64
    → ((t.is_active && blocks t token_hash jurisdiction) ≡ true) ↔ Blocks t token_hash jurisdiction
unfolding blocks jur_match
blocks_lem t token_hash jurisdiction h k =
    let same = hash_match_lem token_hash t.hash h k in
    (
      λ e. record { active = ground arith; listed = ground arith; near = same.0 (ground arith) },
      λ b. ground (arith, b.active, b.listed, same.1 b.near),
    )

is_blocked_lem :
    (n : ℕ) (tokens : List BlockedToken) (token_hash jurisdiction : ℕ)
    → is_blocked n tokens token_hash jurisdiction
      ≡ any_first (λ t. t.is_active && blocks t token_hash jurisdiction) n tokens
unfolding is_blocked any_first
is_blocked_lem zero tokens token_hash jurisdiction = refl
is_blocked_lem (suc n) [] token_hash jurisdiction = refl
is_blocked_lem (suc n) (t ∷ tokens) token_hash jurisdiction =
    ap (λ b. (t.is_active && blocks t token_hash jurisdiction) || b)
      (is_blocked_lem n tokens token_hash jurisdiction)

-- In an active filter that is not in shadow mode, with its 1024 entries and hashes of 64 bits: a
-- token is refused exactly when one of the entries in use blocks it. An entry also blocks
-- tokens that it does not name, those with a hash more than 2 ^ 63 away by exclusive or.
pub check_token_lem :
    (f : JurisdictionFilter) (token_hash : ℕ)
    → length f.blocked_tokens ≡ max_blocked_tokens
    → All (λ t. t.hash < 2 ^ 64) f.blocked_tokens
    → token_hash < 2 ^ 64
    → f.is_active ≡ true
    → f.shadow_mode ≡ false
    → ((check_token f token_hash).1 ≡ false) ↔ (
        (i : ℕ) × (i < min f.token_count max_blocked_tokens)
        × Blocks (get_or f.blocked_tokens i new_token) token_hash f.current_jurisdiction)
unfolding check_token
check_token_lem f token_hash l words h on real =
    let n : ℕ = min f.token_count max_blocked_tokens in
    let jurisdiction = f.current_jurisdiction in
    let same = is_blocked_lem n f.blocked_tokens token_hash jurisdiction in
    let found =
      any_first_iff (λ t. t.is_active && blocks t token_hash jurisdiction) n f.blocked_tokens
        new_token (omega (arith, l)) in
    let entry : (i : ℕ) → i < n → _ = λ i k.
      blocks_lem (get_or f.blocked_tokens i new_token) token_hash jurisdiction h (
        All-get_or (λ t. t.hash < 2 ^ 64) f.blocked_tokens i new_token words
          (omega (arith, k, l))) in
    (
      (λ e.
          let blocked : is_blocked n f.blocked_tokens token_hash jurisdiction ≡ true =
            ground (arith, e) in
          let (i, k, t) = found.0 (sym same ∙ blocked) in (i, k, (entry i k).0 t)),
      (λ (i, k, b).
          let blocked = same ∙ found.1 (i, k, (entry i k).1 b) in
          ground (arith, blocked, on, real)),
    )
