-- ===== src/Httpserver/Routing.antt =====
-- internal/httpserver/router.go: the router as an application handler.
pub mod Reached
pub mod Tests
use wbsv.Common.{Option, none, some, codes, pos}
use wbsv.Httpserver.App.{set, answer, returns, AppHandler, AppRequest, Writer}
use wbsv.Httpserver.Router.Dispatch.{Outcome, Router, serve_http, allowed_methods}
use wbsv.Httpserver.Router.{Params, Entries}

abbrev pub with_params : Option Params → AppRequest → AppRequest
with_params none request = request
with_params (some params) request = record request { params = some params }

-- `writeMethodNotAllowed`
unfoldable pub write_method_not_allowed : Writer → Entries AppHandler → Writer
write_method_not_allowed w routes =
    answer (set (codes "Allow") (allowed_methods routes) w) (pos 405) (codes "method not allowed\n")

unfoldable pub respond : Outcome AppHandler → AppHandler
unfolding write_method_not_allowed
respond (Outcome.served handler params) request w world =
    handler (with_params params request) w world
respond (Outcome.not_allowed routes) request w world =
    returns (write_method_not_allowed w routes) world
respond Outcome.not_found request w world = returns (answer w (pos 404) (codes "not found\n")) world

-- `ServeHTTP`
unfoldable pub router_handler : Router AppHandler → AppHandler
unfolding respond
router_handler r request w world =
    let line = request.http.request_line in
    respond (serve_http r line.method line.request_target) request w world
