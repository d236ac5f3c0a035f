-- ===== src/Command/Returns.antt =====
-- The handler that the command serves returns (cmd/wbsv/main.go).
use wbsv.Common.{
  ◌≢◌, Bool, true, false, not, Option, some, List, ◌∷◌, ◌++◌, Bytes, ◌≤ℤ◌, ltb_ℤ, pos,
}
use wbsv.Httpserver.App.{or_default_handler, chain, Middleware, wrap, AppHandler}
use wbsv.Httpserver.Middleware.Cors.{cors_middleware}
use wbsv.Httpserver.Middleware.Recovery.{recovery_middleware}
use wbsv.Httpserver.Middleware.Logging.{logging_middleware}
use wbsv.Httpserver.Middleware.Compression.{gzip_middleware}
use wbsv.Httpserver.Middleware.Auth.{bearer_auth_middleware}
use wbsv.Http1.Header.{is_empty}
use wbsv.Httpserver.Middleware.Limit.{rate_limit_middleware}
use wbsv.Httpserver.App.{chain, Middleware}
use wbsv.Command.{http_handler, only_if, middlewares, cors_options, served_by, Flags}
use wbsv.Httpserver.Middleware.Returns.{
  recovery_middleware-Returns, gzip_middleware-Returns, cors_middleware-Returns,
  logging_middleware-Returns, request_id_middleware-Returns, Returns,
}
use wbsv.Httpserver.Handler.{Ended, serve_conn, Conn, app_handler}
use wbsv.Httpserver.Handler.Ends.{serve_conn-ne-crashed}
use wbsv.Http1.Body.{max_alloc}

-- A property of handlers that a middleware keeps, it also keeps when a flag turns it on.
wrap-only_if :
    (P : AppHandler → Type 0) (test : Bool) (m : Middleware) (rest : List (Option Middleware))
    (handler : AppHandler)
    → ((next : AppHandler) → P next → P (m next))
    → P (wrap rest handler)
    → P (wrap (only_if test m ++ rest) handler)
unfolding wrap
wrap-only_if P true m rest handler keeps h = keeps (wrap rest handler) h
wrap-only_if P false m rest handler keeps h = h

-- Whatever the application does, and also when it panics, the handler that the command serves returns.
pub served_by-Returns :
    (gzip : Bytes → Option Bytes) (flags : Flags) (app : Option AppHandler)
    → Returns (served_by gzip flags app)
unfolding served_by middlewares chain wrap
served_by-Returns gzip flags app =
    let guards =
      only_if (not (is_empty flags.auth_token)) (bearer_auth_middleware flags.auth_token)
      ++ only_if (ltb_ℤ (pos 0) flags.rate_limit)
          (rate_limit_middleware flags.rate_limit flags.rate_window) in
    let guarded = wrap guards (or_default_handler app) in
    let recovered = recovery_middleware true guarded in
    let zipped = gzip_middleware gzip (pos 1) recovered in
    let rest = some (gzip_middleware gzip (pos 1)) ∷ some (recovery_middleware true) ∷ guards in
    let cors =
      only_if (not (is_empty flags.cors_allow_origin)) (cors_middleware (cors_options flags)) in
    let marked = wrap (cors ++ rest) (or_default_handler app) in
    request_id_middleware-Returns (logging_middleware true marked) (
      logging_middleware-Returns marked
        (wrap-only_if Returns (not (is_empty flags.cors_allow_origin))
          (cors_middleware (cors_options flags)) rest (or_default_handler app)
          (λ next h. cors_middleware-Returns next h (cors_options flags))
          (gzip_middleware-Returns recovered (recovery_middleware-Returns true guarded) gzip
            (pos 1)))
        true)

-- A connection that the command's server serves does not end by a panic, whatever the application does
-- and whatever the client sends, when the limit on bodies is at most what `make` can ask for (2 ^ 48).
pub http_handler-ne-crashed :
    (gzip : Bytes → Option Bytes) (flags : Flags) (app : Option AppHandler) (conn : Conn)
    → flags.max_body ≤ℤ pos max_alloc
    → (serve_conn (http_handler gzip flags app) conn).1 ≢ Ended.crashed
unfolding http_handler app_handler
http_handler-ne-crashed gzip flags app conn small =
    serve_conn-ne-crashed (http_handler gzip flags app) conn small
      (unfold served_by in served_by-Returns gzip flags app)
