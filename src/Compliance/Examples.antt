-- ===== src/Compliance/Examples.antt =====
-- A concrete limiter (src/compliance/rate_limiter.rs), on which the theorems are applied.
use Prim.Native.Nat.{min}
use backendofcryptotradingbo.Base.{
  ◌*◌, ◌^◌, ◌≤◌, ◌≡◌, refl, true, false, List, [], ◌∷◌, arith, length-replicate, replicate, ℕ, ◌<◌,
  ◌↔◌, ◌∙◌, All, All-set, All-replicate, length-set, get_or,
}
use backendofcryptotradingbo.Compliance.Jurisdiction
use backendofcryptotradingbo.Compliance.Jurisdiction.{
  JurisdictionFilter, BlockedToken, us, new_token, max_blocked_tokens, add_blocked_token,
  set_jurisdiction, check_token,
}
use backendofcryptotradingbo.Compliance.Jurisdiction.Tokens.{Blocks, check_token_lem}
use backendofcryptotradingbo.Compliance.RateLimiter.{
  RateLimitBucket, RateLimiter, timing_wheel_buckets, bucket_of,
}
use backendofcryptotradingbo.Compliance.RateLimiter.Tokens.{
  IsRunning, Call, granted, budget, granted_bounded,
}

-- Buckets of ten tokens, refilled by one token in four cycles.
abbrev bucket : RateLimitBucket
bucket = record { tokens = 3; last_refill_ts = 100; capacity = 10; refill_rate = 2 ^ 30 }

abbrev limiter : RateLimiter
limiter = record {
  buckets = replicate timing_wheel_buckets bucket;
  wheel_position = 0;
  total_allowed = 0;
  total_rejected = 0;
  is_active = true;
  circuit_open = false;
}

limiter-IsRunning : IsRunning limiter
limiter-IsRunning = record {
  table = length-replicate timing_wheel_buckets bucket;
  active = refl;
  closed = refl;
}

abbrev two_calls : List Call
two_calls =
    record { bucket_idx = 5; tokens = 4; now = 108 }
    ∷ record { bucket_idx = 5; tokens = 4; now = 109 }
    ∷ []

granted_bounded_example :
    (granted 5 limiter two_calls * 2 ^ 32 ≤ budget (bucket_of limiter 5) 120)
    × (granted 5 limiter two_calls * 2 ^ 32 ≤ 14 * 2 ^ 32)
granted_bounded_example =
    granted_bounded 5 104 120 limiter two_calls limiter-IsRunning (omega arith) (ground arith)

-- A token that the US block
abbrev blocked_token : BlockedToken
blocked_token = record {
  hash = 77;
  symbol = 66 ∷ 84 ∷ 67 ∷ replicate 9 0;
  reason = 1;
  jurisdictions = 2;
  is_active = true;
}

-- The filter with the token, in the US
abbrev filter : JurisdictionFilter
filter = set_jurisdiction (add_blocked_token Jurisdiction.new (66 ∷ 84 ∷ 67 ∷ []) 77 2 1).0 us

filter-words : All (λ t. t.hash < 2 ^ 64) filter.blocked_tokens
unfolding Jurisdiction.new add_blocked_token set_jurisdiction
filter-words =
    All-set (λ t. t.hash < 2 ^ 64) (replicate max_blocked_tokens new_token) 0 blocked_token
      (All-replicate (λ t. t.hash < 2 ^ 64) max_blocked_tokens new_token (omega arith))
      (omega arith)

check_token_lem_example : ((check_token filter 77).1 ≡ false) ↔ (
    (i : ℕ) × (i < min filter.token_count max_blocked_tokens)
    × Blocks (get_or filter.blocked_tokens i new_token) 77 filter.current_jurisdiction)
unfolding Jurisdiction.new add_blocked_token set_jurisdiction
check_token_lem_example =
    check_token_lem filter 77
      (length-set (replicate max_blocked_tokens new_token) 0 blocked_token
        ∙ length-replicate max_blocked_tokens new_token)
      filter-words (omega arith) refl refl
