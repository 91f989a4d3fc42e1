-- ===== src/Compliance/Jurisdiction.antt =====
-- src/compliance/jurisdiction_filter.rs: the tokens and features that a jurisdiction blocks. Numbers are
-- u64 unless a comment says otherwise; a jurisdiction is kept as the number of its constructor. The
-- writes to an entry through its raw pointers are modelled as the assignments that they mean, and
-- the exchange that claims an entry without a racing thread.
pub mod Tokens
pub mod Features
use Prim.Native.Nat.{min, bit_and, bit_xor}
use backendofcryptotradingbo.Base.{
  ℕ, zero, suc, ◌+◌, ◌-◌, ◌*◌, ◌/◌, ◌%◌, ◌^◌, Bool, true, false, not, ◌&&◌, ◌||◌, Option, none,
  some, List, [], ◌∷◌, ◌++◌, map, u64, ltb, leb, ◌==◌, if◌then◌else◌, get_or, set, replicate,
  length,
}
use backendofcryptotradingbo.Base.Bytes.{take, write}

abbrev pub max_blocked_tokens : ℕ
max_blocked_tokens = 1024

abbrev pub max_jurisdictions : ℕ
max_jurisdictions = 64

pub data Jurisdiction : Type 0 where
  nowhere us eu uk jp cn kr sg global : Jurisdiction

-- `jur as u64`; `nowhere` is the source's `None`.
abbrev pub jurisdiction_u64 : Jurisdiction → ℕ
jurisdiction_u64 nowhere = 0
jurisdiction_u64 us = 1
jurisdiction_u64 eu = 2
jurisdiction_u64 uk = 3
jurisdiction_u64 jp = 4
jurisdiction_u64 cn = 5
jurisdiction_u64 kr = 6
jurisdiction_u64 sg = 7
jurisdiction_u64 global = 255

pub record BlockedToken : Type 0 where
  pub hash : ℕ
  pub symbol : List ℕ  -- 12 bytes
  pub reason : ℕ  -- u16
  pub jurisdictions : ℕ
  pub is_active : Bool

abbrev pub new_token : BlockedToken
new_token = record {
  hash = 0;
  symbol = replicate 12 0;
  reason = 0;
  jurisdictions = 0;
  is_active = false;
}

pub record JurisdictionRule : Type 0 where
  pub jurisdiction : Jurisdiction
  pub allowed_features : ℕ
  pub blocked_count : ℕ
  pub is_active : Bool

abbrev pub new_rule : JurisdictionRule
new_rule = record {
  jurisdiction = nowhere;
  allowed_features = 0;
  blocked_count = 0;
  is_active = false;
}

pub record JurisdictionFilter : Type 0 where
  pub blocked_tokens : List BlockedToken  -- 1024 of them
  pub rules : List JurisdictionRule  -- 64 of them
  pub token_count : ℕ
  pub current_jurisdiction : ℕ
  pub check_count : ℕ
  pub block_count : ℕ
  pub is_active : Bool
  pub shadow_mode : Bool

unfoldable pub new : JurisdictionFilter
new = record {
  blocked_tokens = replicate max_blocked_tokens new_token;
  rules = replicate max_jurisdictions new_rule;
  token_count = 0;
  current_jurisdiction = jurisdiction_u64 global;
  check_count = 0;
  block_count = 0;
  is_active = true;
  shadow_mode = false;
}

-- The index of the new entry, or `none` when the list is full
unfoldable pub add_blocked_token :
    JurisdictionFilter → List ℕ → ℕ → ℕ → ℕ → JurisdictionFilter × Option ℕ
add_blocked_token f symbol hash jurisdictions reason =
    let t = get_or f.blocked_tokens f.token_count new_token in
    if leb max_blocked_tokens f.token_count then (f, none) else (
      record f {
        token_count = f.token_count + 1;
        blocked_tokens = set f.blocked_tokens f.token_count (record {
          hash = hash;
          symbol = write t.symbol 0 (take 12 symbol);
          reason = reason;
          jurisdictions = jurisdictions;
          is_active = true;
        });
      },
      some f.token_count,
    )

-- `((token_hash ^ stored_hash) - 1) >> 63`; the subtraction wraps in the release build.
unfoldable pub hash_match : ℕ → ℕ → ℕ
hash_match token_hash stored_hash = u64 (bit_xor token_hash stored_hash + 2 ^ 64 - 1) / 2 ^ 63

-- `(jur_mask >> current_jur) & 1`; a shift of the release build takes its distance modulo 64.
unfoldable pub jur_match : ℕ → ℕ → ℕ
jur_match jur_mask current_jur = jur_mask / 2 ^ (current_jur % 64) % 2

-- Both are 0 or 1, so that their conjunction is not 0 when neither is 0.
unfoldable pub blocks : BlockedToken → ℕ → ℕ → Bool
blocks t token_hash current_jur =
    not (hash_match token_hash t.hash == 0) && not (jur_match t.jurisdictions current_jur == 0)

-- The loop over the first `n` entries
unfoldable pub is_blocked : ℕ → List BlockedToken → ℕ → ℕ → Bool
is_blocked zero tokens token_hash current_jur = false
is_blocked (suc n) [] token_hash current_jur = false
is_blocked (suc n) (t ∷ tokens) token_hash current_jur =
    (t.is_active && blocks t token_hash current_jur) || is_blocked n tokens token_hash current_jur

unfoldable pub check_token : JurisdictionFilter → ℕ → JurisdictionFilter × Bool
check_token f token_hash =
    let blocked =
      is_blocked (min f.token_count max_blocked_tokens) f.blocked_tokens token_hash
        f.current_jurisdiction in
    if f.is_active
    then (
      record f {
        check_count = u64 (f.check_count + 1);
        block_count =
            if blocked && not f.shadow_mode then u64 (f.block_count + 1) else f.block_count;
      },
      not blocked || f.shadow_mode,
    )
    else (f, true)

unfoldable pub check_feature : JurisdictionFilter → ℕ → Bool
check_feature f feature =
    let rule = get_or f.rules f.current_jurisdiction new_rule in
    if not f.is_active
    then true
    else if leb max_jurisdictions f.current_jurisdiction
    then true
    else if not rule.is_active
    then true
    else not (bit_and rule.allowed_features feature == 0)

unfoldable pub set_jurisdiction : JurisdictionFilter → Jurisdiction → JurisdictionFilter
set_jurisdiction f jur = record f { current_jurisdiction = jurisdiction_u64 jur }

unfoldable pub set_shadow_mode : JurisdictionFilter → Bool → JurisdictionFilter
set_shadow_mode f enabled = record f { shadow_mode = enabled }

abbrev pub get_stats : JurisdictionFilter → ℕ × ℕ × ℕ
get_stats f = (f.check_count, f.block_count, f.token_count)

-- The hash of the bytes of a symbol, from `hash` on
unfoldable pub hash_from : ℕ → List ℕ → ℕ
hash_from hash [] = hash
hash_from hash (byte ∷ symbol) = hash_from (u64 (bit_xor hash byte * 0x100000001b3)) symbol

unfoldable pub hash_symbol : List ℕ → ℕ
hash_symbol symbol = hash_from 0xcbf29ce484222325 symbol

unfoldable pub shutdown : JurisdictionFilter → JurisdictionFilter
shutdown f = record f {
  is_active = false;
  blocked_tokens = map {A = BlockedToken} (λ t. record t { is_active = false }) f.blocked_tokens;
}
