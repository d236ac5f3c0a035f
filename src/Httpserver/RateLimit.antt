-- ===== src/Httpserver/RateLimit.antt =====
-- internal/httpserver/rate_limit.go: the limiter of a fixed window. A `time.Time` is the
-- number of nanoseconds since the zero time, and `now` is read once in each call. `allow` runs under
-- the limiter's mutex, so the calls on one limiter come one after the other.
pub mod Windows
use wbsv.Common.{
  ℕ, zero, suc, ◌+◌, ◌-◌, ◌/◌, ◌%◌, ◌^◌, Bool, true, false, ◌||◌, ltb, ◌==◌, if◌then◌else◌, ℤ,
  pos_part, ◌+ℤ◌, ◌-ℤ◌, ltb_ℤ, leb_ℤ, pos, negsuc,
}
use wbsv.GoText.{max_int64}

pub record FixedWindowLimiter : Type 0 where
  pub limit : ℤ
  pub window : ℤ
  pub window_start : ℕ
  pub count : ℤ

abbrev pub second : ℕ
second = 1000000000

-- The int64 with the low 64 bits of a number.
abbrev pub int64_of : ℕ → ℤ
int64_of n = let low = n % 2 ^ 64 in if ltb low (2 ^ 63) then pos low else negsuc (2 ^ 64 - 1 - low)

abbrev pub negated : ℕ → ℤ
negated zero = pos 0
negated (suc n) = negsuc n

-- Go's division by `time.Second`, which rounds towards 0
abbrev pub in_seconds : ℤ → ℤ
in_seconds (pos n) = pos (n / second)
in_seconds (negsuc n) = negated (suc n / second)

-- `retryAfterSeconds`; the sum is an int64 and wraps around
unfoldable pub retry_after_seconds : ℤ → ℤ
retry_after_seconds duration =
    if leb_ℤ duration (pos 0) then pos 0 else in_seconds (int64_of (pos_part duration + second - 1))

-- `Sub` of two times, where it is positive: it stops at the largest duration
abbrev pub largest_at_most : ℤ → ℤ
largest_at_most d = if ltb_ℤ (pos max_int64) d then pos max_int64 else d

-- `windowStart.IsZero() || !current.Before(windowStart.Add(window))`, and the new window
renew : FixedWindowLimiter → ℕ → FixedWindowLimiter
renew l current =
    if l.window_start == 0 || leb_ℤ (pos l.window_start +ℤ l.window) (pos current)
    then record l { window_start = current; count = pos 0 }
    else l

admit : FixedWindowLimiter → ℕ → FixedWindowLimiter × Bool × ℤ
unfolding retry_after_seconds
admit l current =
    if ltb_ℤ l.count l.limit then (record l { count = l.count +ℤ pos 1 }, true, pos 0) else (
      l,
      false,
      retry_after_seconds (largest_at_most (pos l.window_start +ℤ l.window -ℤ pos current)),
    )

-- `allow` at the time `current`: the limiter, whether the request may pass, and Retry-After
unfoldable pub allow : FixedWindowLimiter → ℕ → FixedWindowLimiter × Bool × ℤ
unfolding renew admit
allow l current = admit (renew l current) current

-- `limit <= 0 || window <= 0`: the middleware passes everything on
unfoldable pub is_disabled : ℤ → ℤ → Bool
is_disabled limit window = leb_ℤ limit (pos 0) || leb_ℤ window (pos 0)

-- `&fixedWindowLimiter{limit, window, now}`
unfoldable pub new_limiter : ℤ → ℤ → FixedWindowLimiter
new_limiter limit window = record {
  limit = limit;
  window = window;
  window_start = 0;
  count = pos 0;
}
