-- ===== src/RateLimit.antt =====
-- scheduler/ratelimit.go: a token bucket for each tenant.
-- The tokens, float64 in the source, are counted in billionths, and a rate is a number of tokens to a
-- second, so that a nanosecond adds `rate` billionths; the rounding of float64 is left out. The clock
-- is an argument, in nanoseconds. The map is a list with one entry to a tenant.
pub mod Bound
pub mod Cleanup
pub mod Allowance
mod Examples
use distributed_scheduler.Prelude.{
  ℕ, ◌+◌, ◌-◌, ◌*◌, String, Bool, true, false, not, ◌&&◌, Option, none, some, List, [], ◌∷◌, ltb,
  leb, if◌then◌else◌, str_eq, select, first,
}
use distributed_scheduler.Models.{second}

pub record TokenBucket : Type 0 where
  pub tokens : ℕ
  pub max_tokens : ℕ
  pub refill_rate : ℕ
  pub last_refill : ℕ

-- One token.
abbrev pub token : ℕ
token = second

-- The refill of tokenBucket.allow.
abbrev pub refill : ℕ → TokenBucket → TokenBucket
refill now tb =
    let tokens = tb.tokens + (now - tb.last_refill) * tb.refill_rate in
    record tb {
      tokens = if ltb tb.max_tokens tokens then tb.max_tokens else tokens;
      last_refill = now;
    }

abbrev pub spend : TokenBucket → TokenBucket × Bool
spend tb =
    if leb token tb.tokens then (record tb { tokens = tb.tokens - token }, true) else (tb, false)

-- tokenBucket.allow
unfoldable pub take_token : ℕ → TokenBucket → TokenBucket × Bool
take_token now tb = spend (refill now tb)

pub record Entry : Type 0 where
  pub tenant : String
  pub bucket : TokenBucket

pub record RateLimiter : Type 0 where
  pub buckets : List Entry
  pub rate : ℕ
  pub burst : ℕ
  pub cleanup_tick : ℕ

-- newRateLimiter
abbrev pub new_rate_limiter : ℕ → ℕ → ℕ → RateLimiter
new_rate_limiter per_second burst cleanup_interval = record {
  buckets = [];
  rate = per_second;
  burst = burst * token;
  cleanup_tick = cleanup_interval;
}

abbrev pub is_for : String → Entry → Bool
is_for tenant x = str_eq x.tenant tenant

abbrev pub new_bucket : RateLimiter → ℕ → TokenBucket
new_bucket rl now = record {
  tokens = rl.burst;
  max_tokens = rl.burst;
  refill_rate = rl.rate;
  last_refill = now;
}

abbrev pub or_new : RateLimiter → ℕ → Option Entry → TokenBucket
or_new rl now none = new_bucket rl now
or_new rl now (some x) = x.bucket

-- buckets[tenant], made if it is not there
abbrev pub bucket_for : RateLimiter → String → ℕ → TokenBucket
bucket_for rl tenant now = or_new rl now (first (is_for tenant) rl.buckets)

abbrev pub put : String → TokenBucket → RateLimiter → RateLimiter
put tenant tb rl = record rl {
  buckets =
      record { tenant = tenant; bucket = tb } ∷ select (λ x. not (is_for tenant x)) rl.buckets;
}

-- rateLimiter.allow
unfoldable pub allow : RateLimiter → String → ℕ → RateLimiter × Bool
allow rl tenant now =
    let (tb, allowed) = take_token now (bucket_for rl tenant now) in (put tenant tb rl, allowed)

abbrev pub in_use : RateLimiter → ℕ → Entry → Bool
in_use rl now x = not (ltb rl.cleanup_tick (now - x.bucket.last_refill))

-- One tick of rateLimiter.cleanup.
unfoldable pub cleanup : RateLimiter → ℕ → RateLimiter
cleanup rl now = record rl { buckets = select (in_use rl now) rl.buckets }

-- What happens to a limiter: a call, or a tick of the goroutine that newRateLimiter starts.
pub data Event : Type 0 where
  calls : (tenant : String) (now : ℕ) → Event
  cleans : (now : ℕ) → Event

-- How many calls of the tenant are let through, of all that happens.
unfoldable pub allowed_to : String → RateLimiter → List Event → ℕ
allowed_to tenant rl [] = 0
allowed_to tenant rl (cleans now ∷ evs) = allowed_to tenant (cleanup rl now) evs
allowed_to tenant rl (calls caller now ∷ evs) =
    let rest = allowed_to tenant (allow rl caller now).0 evs in
    if (allow rl caller now).1 && str_eq caller tenant then rest + 1 else rest
