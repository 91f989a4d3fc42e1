-- ===== src/Compliance/RateLimiter/Stats.antt =====
-- The statistics of src/compliance/rate_limiter.rs.
use backendofcryptotradingbo.Base.{ℕ, ◌+◌, ◌^◌, ◌<◌, ◌≡◌, u64, if◌then◌else◌, arith}
use backendofcryptotradingbo.Compliance.RateLimiter.{RateLimiter, try_acquire}
use backendofcryptotradingbo.Compliance.RateLimiter.Tokens.{IsRunning}

-- The counters after a call of a running limiter: a grant adds one to the allowed requests, and a
-- refusal leaves them; but the rejected requests, to which the code adds the bitwise complement of the
-- grant, go down (modulo 2 ^ 64) by two on a grant and by one on a refusal.
pub try_acquire_stats :
    (l : RateLimiter) (bucket_idx tokens now : ℕ)
    → IsRunning l
    → l.total_rejected < 2 ^ 64
    → let (l', ok) = try_acquire l bucket_idx tokens now in
      (l'.total_allowed ≡ u64 (l.total_allowed + (if ok then 1 else 0)))
      × (u64 (l'.total_rejected + (if ok then 2 else 1)) ≡ l.total_rejected)
unfolding try_acquire
try_acquire_stats l bucket_idx tokens now v small = ground arith
