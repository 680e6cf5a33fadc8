-- ===== src/Controlplane/RateLimiter.antt =====
-- The rate limiter of backend/internal/controlplane/idempotency.go. A call reads the time at its
-- start and, where it refuses, once more.
use home_assistant.Base.{
  ℕ, ◌+◌, ◌-◌, ◌/◌, String, Bool, true, false, not, ◌||◌, ◌==◌, leb, ltb, if◌then◌else◌,
}
use home_assistant.Base.Time.{Time, Duration, is_zero, before, second}

pub record RateBucket : Type 0 where
  pub reset_at : Time
  pub count : ℕ

-- A scope without a bucket has the zero bucket, as a missing key of a Go map has.
pub record RateLimiter : Type 0 where
  pub limit : ℕ
  pub window : Duration
  pub buckets : String → RateBucket

unfoldable pub new_rate_limiter : ℕ → Duration → RateLimiter
new_rate_limiter limit window = record {
  limit = limit;
  window = window;
  buckets = λ scope. record { reset_at = 0; count = 0 };
}

pub record Call : Type 0 where
  pub scope : String
  pub time : Time
  pub later : Time

abbrev pub is_over : RateBucket → Time → Bool
is_over b now = is_zero b.reset_at || not (before now b.reset_at)

-- the bucket that a call counts in, with this call
unfoldable pub counted : RateLimiter → Call → RateBucket → RateBucket
counted l c b =
    if is_over b c.time
    then record { reset_at = c.time + l.window; count = 1 }
    else record b { count = b.count + 1 }

unfoldable pub retry_after : RateBucket → Time → ℕ
retry_after b now =
    let seconds = (b.reset_at - now) / second in if ltb seconds 1 then 1 else seconds

abbrev pub verdict : RateLimiter → Call → RateBucket → Bool × ℕ
verdict l c b = if leb b.count l.limit then (true, 0) else (false, retry_after b c.later)

unfoldable pub allow : RateLimiter → Call → (Bool × ℕ) × RateLimiter
allow l c =
    let b = counted l c (l.buckets c.scope) in
    (verdict l c b, record l { buckets = λ scope. if c.scope == scope then b else l.buckets scope })
