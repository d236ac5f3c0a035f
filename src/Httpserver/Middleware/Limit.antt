-- ===== src/Httpserver/Middleware/Limit.antt =====
-- internal/httpserver/rate_limit.go: the middleware around the limiter. Each time that it is put around
-- a handler it makes a new limiter, and `ServeConn` does so for each request, by `appHandler`.
pub mod Passes
use wbsv.Common.{if◌then◌else◌, codes, ℤ, pos}
use wbsv.Httpserver.App.{
  AppHandler, AppRequest, Writer, Outcome, set, answer, returns, World, Middleware,
}
use wbsv.Httpserver.RateLimit.{FixedWindowLimiter, new_limiter, allow, is_disabled}
use wbsv.Httpserver.Middleware.Logging.{read_clock}
use wbsv.GoText.{format_int}

-- The handler that is made around `next`, with its limiter before and after the request.
unfoldable pub limited :
    FixedWindowLimiter → AppHandler → AppRequest → Writer → World → Outcome × FixedWindowLimiter
limited limiter next request w world =
    let (current, world') = read_clock world in
    let (limiter', allowed, retry_after) = allow limiter current in
    let refusal =
      answer (set (codes "Retry-After") (format_int retry_after) w) (pos 429)
        (codes "too many requests\n") in
    (if allowed then next request w world' else returns refusal world', limiter')

-- `FixedWindowRateLimitMiddleware`: the new limiter serves the one request that the handler is made for.
unfoldable pub rate_limit_middleware : ℤ → ℤ → Middleware
unfolding limited
rate_limit_middleware limit window next request w world =
    if is_disabled limit window
    then next request w world
    else (limited (new_limiter limit window) next request w world).0
