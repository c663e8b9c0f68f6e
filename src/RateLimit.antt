-- ===== src/RateLimit.antt =====
-- The token bucket of app/middleware/rate_limit.py. Time is in nanoseconds of the monotonic clock,
-- and tokens are in billionths, so that a second refills `refill_rate` whole tokens and the
-- arithmetic is exact; the source computes the same quantities in floats.
pub mod Bucket
pub mod Middleware
mod Tests
use ax_server.Prelude.{ℕ, ◌+◌, ◌-◌, ◌*◌, ◌/◌, Bool, true, false, min, max, leb, if◌then◌else◌}

-- `class RateTier`
pub data RateTier : Type 0 where
  basic advanced market_maker : RateTier

-- One second in nanoseconds, and one token in billionths.
abbrev pub unit : ℕ
unit = 1_000_000_000

-- `_TIER_CONFIG`: the tokens of a full bucket, and the seconds in which they refill.
abbrev pub max_of : RateTier → ℕ
max_of basic = 100
max_of advanced = 500
max_of market_maker = 2000

abbrev pub period_of : RateTier → ℕ
period_of basic = 10
period_of advanced = 10
period_of market_maker = 10

-- `max_tokens / period`, in tokens per second; each quotient is whole.
abbrev pub rate_of : RateTier → ℕ
rate_of t = max_of t / period_of t

-- `class TokenBucket`
pub record TokenBucket : Type 0 where
  pub max_tokens : ℕ
  pub refill_rate : ℕ
  pub tokens : ℕ
  pub last_refill : ℕ

-- `__post_init__`: a new bucket is full.
unfoldable pub new_bucket : ℕ → ℕ → ℕ → TokenBucket
new_bucket max_tokens refill_rate now = record {
  max_tokens = max_tokens;
  refill_rate = refill_rate;
  tokens = max_tokens * unit;
  last_refill = now;
}

-- The first half of `consume`: the tokens that have come in since the last call.
unfoldable pub refilled : TokenBucket → ℕ → ℕ
refilled b now = min (b.max_tokens * unit) (b.tokens + (now - b.last_refill) * b.refill_rate)

-- `consume`: the bucket after the call, and whether a token was taken.
unfoldable pub consume : TokenBucket → ℕ → TokenBucket × Bool
consume b now =
    if leb unit (refilled b now)
    then (record b { tokens = refilled b now - unit; last_refill = now }, true)
    else (record b { tokens = refilled b now; last_refill = now }, false)

-- `remaining`
unfoldable pub remaining : TokenBucket → ℕ
remaining b = b.tokens / unit

-- `int(reset_seconds * k)`: the time until one token is there, in k-ths of a second, rounded down.
unfoldable pub reset_in : ℕ → TokenBucket → ℕ
reset_in k b = if leb unit b.tokens then 0 else (unit - b.tokens) * k / (b.refill_rate * unit)
