-- ===== src/Httpserver/Middleware/Recovery.antt =====
-- internal/httpserver/recovery.go: a panic becomes a response.
use wbsv.Common.{Bool, [], ◌∷◌, ◌++◌, if◌then◌else◌, codes, pos}
use wbsv.Httpserver.App.{reset_response, answer, returns, AppRequest, World, LogLine, Middleware}

abbrev pub log_panic : Bool → AppRequest → World → World
log_panic logs request world =
    let line = request.http.request_line in
    if logs
    then record world { log = world.log ++ LogLine.recovered line.method line.request_target ∷ [] }
    else world

-- `RecoveryMiddleware`
unfoldable pub recovery_middleware : Bool → Middleware
recovery_middleware logs next request w world =
    let out = next request w world in
    if out.panicked
    then returns (answer (reset_response out.writer) (pos 500) (codes "internal server error\n"))
        (log_panic logs request out.world)
    else out
