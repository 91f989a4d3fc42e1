-- ===== src/Compliance/RateLimiter/Tokens.antt =====
-- The tokens of src/compliance/rate_limiter.rs: what a bucket grants over time.
use Prim.Native.Nat.{min}
use backendofcryptotradingbo.Base.{
  ℕ, ◌+◌, ◌-◌, ◌*◌, ◌/◌, ◌%◌, ◌^◌, ◌≤◌, ◌≡◌, ap, true, false, ◌&&◌, List, [], ◌∷◌, u64, leb, ◌==◌,
  if◌then◌else◌, length, length-set, get_or-set_self, get_or-set_ne, arith, ==_iff, Bool-cases, inl,
  inr,
}
use backendofcryptotradingbo.Compliance.RateLimiter.{
  RateLimitBucket, new_bucket, RateLimiter, timing_wheel_buckets, bucket_of, refilled_tokens,
  can_consume, try_acquire,
}

-- A limiter at work: its table is whole, it is on and its circuit is closed.
pub record IsRunning (l : RateLimiter) : Type 0 where
  pub table : length l.buckets ≡ timing_wheel_buckets
  pub active : l.is_active ≡ true
  pub closed : l.circuit_open ≡ false

mul_mono : (a b c : ℕ) → a ≤ b → a * c ≤ b * c
mul_mono a b c h = grind arith

refill_sum : (t x c : ℕ) → min (u64 (t + u64 x / 2 ^ 32)) c * 2 ^ 32 ≤ t * 2 ^ 32 + x
refill_sum t x c = omega arith

refilled_bounds :
    (b : RateLimitBucket) (now : ℕ)
    → (refilled_tokens b now ≤ b.capacity)
      × (refilled_tokens b now * 2 ^ 32
          ≤ b.tokens * 2 ^ 32 + (now - b.last_refill_ts) * b.refill_rate)
unfolding refilled_tokens
refilled_bounds b now =
    (omega arith, refill_sum b.tokens ((now - b.last_refill_ts) * b.refill_rate) b.capacity)

-- A running limiter grants a request exactly when the bucket, refilled, holds the tokens asked for.
-- The bucket is left with the refilled tokens less the granted ones, and the clock as the time of
-- its refill, granted or not; every other bucket stays, and the limiter keeps running.
pub try_acquire_lem :
    (l : RateLimiter) (bucket_idx tokens now j : ℕ)
    → IsRunning l
    → let b = bucket_of l (bucket_idx % timing_wheel_buckets) in
      let (l', granted) = try_acquire l bucket_idx tokens now in
      IsRunning l'
      × (granted ≡ leb tokens (refilled_tokens b now))
      × (bucket_of l' j ≡ (
          if j == bucket_idx % timing_wheel_buckets
          then record b {
            tokens = refilled_tokens b now - (if granted then tokens else 0);
            last_refill_ts = now;
          }
          else bucket_of l j))
unfolding try_acquire
try_acquire_lem l bucket_idx tokens now j v =
    let i = bucket_idx % timing_wheel_buckets in
    let b = bucket_of l i in
    let left = record b {
      tokens = refilled_tokens b now - tokens * can_consume b tokens now;
      last_refill_ts = now;
    } in
    ground (
      arith,
      v,
      length-set l.buckets i left,
      get_or-set_self l.buckets i left new_bucket,
      get_or-set_ne l.buckets i j left new_bucket,
    )

-- A call of `try_acquire`: the bucket, the tokens asked for, and the clock.
pub record Call : Type 0 where
  pub bucket_idx : ℕ
  pub tokens : ℕ
  pub now : ℕ

-- The tokens that bucket `j` grants over a series of calls.
pub granted : ℕ → RateLimiter → List Call → ℕ
granted j l [] = 0
granted j l (c ∷ cs) =
    let (l', ok) = try_acquire l c.bucket_idx c.tokens c.now in
    (if ok && (j == c.bucket_idx % timing_wheel_buckets) then c.tokens else 0) + granted j l' cs

-- The clock does not run backwards, and ends by `end`.
abbrev pub Ordered : ℕ → List Call → ℕ → Type 0
Ordered start [] end = start ≤ end
Ordered start (c ∷ cs) end = (start ≤ c.now) × Ordered c.now cs end

-- What a bucket can have granted by time `end`: its tokens, and its refill since the last one.
abbrev pub budget : RateLimitBucket → ℕ → ℕ
budget b end = b.tokens * 2 ^ 32 + (end - b.last_refill_ts) * b.refill_rate

Ordered-earlier :
    (start later end : ℕ) (cs : List Call)
    → start ≤ later
    → Ordered later cs end
    → Ordered start cs end
Ordered-earlier start later end [] h o = omega arith
Ordered-earlier start later end (c ∷ cs) h o = (omega arith, o.1)

Ordered-end : (start end : ℕ) (cs : List Call) → Ordered start cs end → start ≤ end
Ordered-end start end [] o = o
Ordered-end start end (c ∷ cs) o = omega (arith, o.0, Ordered-end c.now end cs o.1)

-- A grant is paid from the budget.
pay :
    (b : RateLimitBucket) (tokens now end : ℕ)
    → b.last_refill_ts ≤ now
    → now ≤ end
    → let taken : ℕ = if leb tokens (refilled_tokens b now) then tokens else 0 in
      taken * 2 ^ 32 + ((refilled_tokens b now - taken) * 2 ^ 32 + (end - now) * b.refill_rate)
      ≤ budget b end
pay b tokens now end h k =
    let split : (end - b.last_refill_ts) * b.refill_rate
        ≡ (now - b.last_refill_ts) * b.refill_rate + (end - now) * b.refill_rate =
      grind arith in
    ground (arith, split, (refilled_bounds b now).1)

-- The grants of a bucket are paid from its tokens and its refill.
granted-budget :
    (j end : ℕ) (l : RateLimiter) (cs : List Call)
    → IsRunning l
    → Ordered (bucket_of l j).last_refill_ts cs end
    → granted j l cs * 2 ^ 32 ≤ budget (bucket_of l j) end
unfolding granted
granted-budget j end l [] v o = omega arith
granted-budget j end l (c ∷ cs) v o =
    let (v', ok, after) = try_acquire_lem l c.bucket_idx c.tokens c.now j v in
    let l' = (try_acquire l c.bucket_idx c.tokens c.now).0 in
    let i = c.bucket_idx % timing_wheel_buckets in
    let b = bucket_of l i in
    let taken : ℕ = if leb c.tokens (refilled_tokens b c.now) then c.tokens else 0 in
    let paid : ℕ =
      if (try_acquire l c.bucket_idx c.tokens c.now).1 && (j == i) then c.tokens else 0 in
    elim (Bool-cases (j == i)) [
      | inl hit ↦
          let index : j ≡ i = (==_iff j i).0 hit in
          let here : bucket_of l j ≡ b = ap (bucket_of l) index in
          let now_at : (bucket_of l' j).last_refill_ts ≡ c.now = ground (arith, after) in
          let rest = granted-budget j end l' cs v' (rw now_at o.1) in
          let spent : budget (bucket_of l' j) end
              ≡ (refilled_tokens b c.now - taken) * 2 ^ 32 + (end - c.now) * b.refill_rate =
            ground (arith, after, ok) in
          let charge : paid ≡ taken = ground (arith, ok) in
          let bound = pay b c.tokens c.now end (rw here at o.0) (Ordered-end c.now end cs o.1) in
          rw here (omega (arith, rest, spent, charge, bound))
      | inr miss ↦
          let same : bucket_of l' j ≡ bucket_of l j = ground (arith, after) in
          let rest =
            granted-budget j end l' cs v'
              (rw same (Ordered-earlier (bucket_of l j).last_refill_ts c.now end cs o.0 o.1)) in
          let free : paid ≡ 0 = ground arith in omega (arith, free, (rw same at rest))
    ]

-- Once a call has refilled the bucket, it holds no more than its capacity.
granted-burst :
    (j start end : ℕ) (l : RateLimiter) (cs : List Call)
    → IsRunning l
    → (bucket_of l j).last_refill_ts ≤ start
    → Ordered start cs end
    → granted j l cs * 2 ^ 32
      ≤ (bucket_of l j).capacity * 2 ^ 32 + (end - start) * (bucket_of l j).refill_rate
unfolding granted
granted-burst j start end l [] v h o = omega arith
granted-burst j start end l (c ∷ cs) v h o =
    let (v', ok, after) = try_acquire_lem l c.bucket_idx c.tokens c.now j v in
    let l' = (try_acquire l c.bucket_idx c.tokens c.now).0 in
    let i = c.bucket_idx % timing_wheel_buckets in
    let b = bucket_of l i in
    let taken : ℕ = if leb c.tokens (refilled_tokens b c.now) then c.tokens else 0 in
    let paid : ℕ =
      if (try_acquire l c.bucket_idx c.tokens c.now).1 && (j == i) then c.tokens else 0 in
    elim (Bool-cases (j == i)) [
      | inl hit ↦
          let index : j ≡ i = (==_iff j i).0 hit in
          let here : bucket_of l j ≡ b = ap (bucket_of l) index in
          let now_at : (bucket_of l' j).last_refill_ts ≡ c.now = ground (arith, after) in
          let rest = granted-budget j end l' cs v' (rw now_at o.1) in
          let spent : budget (bucket_of l' j) end
              ≡ (refilled_tokens b c.now - taken) * 2 ^ 32 + (end - c.now) * b.refill_rate =
            ground (arith, after, ok) in
          let charge : paid ≡ taken = ground (arith, ok) in
          let full = (refilled_bounds b c.now).0 in
          let held : taken ≤ refilled_tokens b c.now = ground arith in
          let later : (end - c.now) * b.refill_rate ≤ (end - start) * b.refill_rate =
            mul_mono (end - c.now) (end - start) b.refill_rate (omega (arith, o.0)) in
          rw here (omega (arith, rest, spent, charge, full, held, later))
      | inr miss ↦
          let same : bucket_of l' j ≡ bucket_of l j = ground (arith, after) in
          let rest =
            granted-burst j start end l' cs v' (rw same h)
              (Ordered-earlier start c.now end cs o.0 o.1) in
          let free : paid ≡ 0 = ground arith in omega (arith, free, (rw same at rest))
    ]

-- The law of a token bucket, for a limiter that is active with its circuit closed and whose table is
-- whole (an inactive limiter grants everything), and every series of calls of `try_acquire` on any
-- buckets, with a clock that starts no earlier than the last refill of bucket `j` and does not run
-- backwards. What bucket `j` grants over the series is at most the tokens that it holds at the start with
-- its refill (the rate, per 2 ^ 32 cycles) from its last refill to the end; and it is at most one full
-- capacity with the refill from the start of the series to the end, whatever it holds and however
-- long ago its last refill was.
pub granted_bounded :
    (j start end : ℕ) (l : RateLimiter) (cs : List Call)
    → IsRunning l
    → (bucket_of l j).last_refill_ts ≤ start
    → Ordered start cs end
    → (granted j l cs * 2 ^ 32 ≤ budget (bucket_of l j) end)
      × (granted j l cs * 2 ^ 32
          ≤ (bucket_of l j).capacity * 2 ^ 32 + (end - start) * (bucket_of l j).refill_rate)
granted_bounded j start end l cs v h o = (
  granted-budget j end l cs v (Ordered-earlier (bucket_of l j).last_refill_ts start end cs h o),
  granted-burst j start end l cs v h o,
)
