-- ===== src/Compliance/RateLimiter.antt =====
-- src/compliance/rate_limiter.rs: token buckets. Numbers are u64; the clock of `try_acquire`, the cycle
-- counter, is the argument `now`.
pub mod Tokens
pub mod Stats
use Prim.Native.Nat.{min}
use backendofcryptotradingbo.Base.{
  ℕ, ◌+◌, ◌-◌, ◌*◌, ◌/◌, ◌%◌, ◌^◌, Bool, true, false, not, List, [], ◌∷◌, map, u64, leb,
  if◌then◌else◌, get_or, set, replicate,
}

abbrev pub timing_wheel_buckets : ℕ
timing_wheel_buckets = 1024

pub record RateLimitBucket : Type 0 where
  pub tokens : ℕ
  pub last_refill_ts : ℕ
  pub capacity : ℕ
  pub refill_rate : ℕ

abbrev pub new_bucket : RateLimitBucket
new_bucket = record { tokens = 0; last_refill_ts = 0; capacity = 0; refill_rate = 0 }

pub record RateLimiter : Type 0 where
  pub buckets : List RateLimitBucket
  pub wheel_position : ℕ
  pub total_allowed : ℕ
  pub total_rejected : ℕ
  pub is_active : Bool
  pub circuit_open : Bool

unfoldable pub new : RateLimiter
new = record {
  buckets = replicate timing_wheel_buckets new_bucket;
  wheel_position = 0;
  total_allowed = 0;
  total_rejected = 0;
  is_active = true;
  circuit_open = false;
}

abbrev pub bucket_of : RateLimiter → ℕ → RateLimitBucket
bucket_of l idx = get_or l.buckets idx new_bucket

unfoldable pub init_bucket : RateLimiter → ℕ → ℕ → ℕ → RateLimiter
init_bucket l idx capacity refill_rate = if leb timing_wheel_buckets idx then l else record l {
  buckets = set l.buckets idx (record (bucket_of l idx) {
    capacity = capacity;
    refill_rate = refill_rate;
    tokens = capacity;
  });
}

-- The tokens of a bucket after its refill.
unfoldable pub refilled_tokens : RateLimitBucket → ℕ → ℕ
refilled_tokens b now =
    let elapsed = now - b.last_refill_ts in
    let refill_amount = u64 (elapsed * b.refill_rate) / 2 ^ 32 in
    min (u64 (b.tokens + refill_amount)) b.capacity

-- `(refilled_tokens >= tokens) as u64`
abbrev pub can_consume : RateLimitBucket → ℕ → ℕ → ℕ
can_consume b tokens now = if leb tokens (refilled_tokens b now) then 1 else 0

-- `!x` of a u64
abbrev pub not_u64 : ℕ → ℕ
not_u64 x = 2 ^ 64 - 1 - x

unfoldable pub try_acquire : RateLimiter → ℕ → ℕ → ℕ → RateLimiter × Bool
try_acquire l bucket_idx tokens now =
    let idx = bucket_idx % timing_wheel_buckets in
    let b = bucket_of l idx in
    let taken = can_consume b tokens now in
    if not l.is_active
    then (l, true)
    else if l.circuit_open
    then (record l { total_rejected = u64 (l.total_rejected + 1) }, false)
    else (
      record l {
        buckets =
            set l.buckets idx
              (record b { tokens = refilled_tokens b now - tokens * taken; last_refill_ts = now });
        total_allowed = u64 (l.total_allowed + taken);
        total_rejected = u64 (l.total_rejected + not_u64 taken);
        wheel_position = u64 (l.wheel_position + 1);
      },
      leb 1 taken,
    )

unfoldable pub get_tokens : RateLimiter → ℕ → ℕ
get_tokens l bucket_idx = (bucket_of l (bucket_idx % timing_wheel_buckets)).tokens

unfoldable pub open_circuit : RateLimiter → RateLimiter
open_circuit l = record l { circuit_open = true }

unfoldable pub close_circuit : RateLimiter → RateLimiter
close_circuit l = record l { circuit_open = false }

abbrev pub get_stats : RateLimiter → ℕ × ℕ × Bool
get_stats l = (l.total_allowed, l.total_rejected, l.circuit_open)

abbrev refill : RateLimitBucket → RateLimitBucket
refill b = record b { tokens = b.capacity }

unfoldable pub reset : RateLimiter → RateLimiter
reset l = record l { buckets = map refill l.buckets; wheel_position = 0 }

unfoldable pub shutdown : RateLimiter → RateLimiter
shutdown l = record l { is_active = false }
