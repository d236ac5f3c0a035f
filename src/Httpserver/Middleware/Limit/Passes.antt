-- ===== src/Httpserver/Middleware/Limit/Passes.antt =====
-- The rate limit as `ServeConn` applies it refuses no request (internal/httpserver/rate_limit.go and
-- handler.go).
use wbsv.Common.{◌≡◌, refl, ap, false, some, ◌∷◌, ℤ}
use wbsv.Httpserver.Middleware.Limit.{rate_limit_middleware}
use wbsv.Http1.Errors.{Result}
use wbsv.Httpserver.RateLimit.{is_disabled}
use wbsv.Httpserver.App.{wrap, chain, World, Writer, AppRequest, AppHandler}
use wbsv.Httpserver.Middleware.Logging.{read_clock}
use wbsv.Httpserver.RateLimit.Windows.{allow-new_limiter}
use wbsv.Httpserver.Handler.{
  new_writer, app_request, answer_of, Handler, app_handler, response_for_request,
}
use wbsv.Http1.Request.{Request}
use wbsv.Http1.LineReader.{LineReader}

-- The first request that comes to a handler behind a new limiter is passed on.
rate_limit_middleware-passes :
    (limit window : ℤ) (next : AppHandler) (request : AppRequest) (w : Writer) (world : World)
    → is_disabled limit window ≡ false
    → rate_limit_middleware limit window next request w world ≡ next request w (read_clock world).1
unfolding rate_limit_middleware
rate_limit_middleware-passes limit window next request w world h =
    rw (h, allow-new_limiter limit window (read_clock world).0 h) refl

-- The rate limit as the connection handler applies it, in front of any other middleware: every request
-- has the response that it has without the limit, and leaves the same state but that the clock is read,
-- whatever the limit and the window, when both are positive and so the limit is not turned off.
pub response_for_request-rate_limit_middleware :
    (h : Handler) (limit window : ℤ) (world : World) (request : Request) (r : LineReader)
    → is_disabled limit window ≡ false
    → response_for_request
        (record h { middleware = some (rate_limit_middleware limit window) ∷ h.middleware })
        world
        (Result.ok (request, r))
      ≡ response_for_request h (read_clock world).1 (Result.ok (request, r))
unfolding response_for_request app_handler chain wrap
response_for_request-rate_limit_middleware h limit window world request r on =
    ap (answer_of request) (
      rate_limit_middleware-passes limit window (chain h.app h.middleware) (app_request request)
        new_writer world on)
