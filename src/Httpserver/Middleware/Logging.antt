-- ===== src/Httpserver/Middleware/Logging.antt =====
-- internal/httpserver/logging.go: one line of the log for each request.
pub mod Lines
use wbsv.Common.{ℕ, ◌+◌, ◌-◌, Bool, not, ◌||◌, List, [], ◌∷◌, ◌++◌, if◌then◌else◌, drop, pos}
use wbsv.Httpserver.App.{AppRequest, Recorder, Writer, World, LogLine, Middleware}
use wbsv.Httpserver.ResponseWriter.{or_200}

abbrev pub read_clock : World → ℕ × World
read_clock world = (world.clock world.readings, record world { readings = world.readings + 1 })

abbrev pub new_recorder : Recorder
new_recorder = record { status_code = pos 0; bytes_written = 0 }

abbrev pub top_recorder : List Recorder → Recorder
top_recorder [] = new_recorder
top_recorder (r ∷ rs) = r

-- the writer behind the logging one
abbrev pub inner : Writer → Writer
inner w = record w { recorders = drop 1 w.recorders }

-- the line that is printed
abbrev pub log_line : AppRequest → Recorder → ℕ → LogLine
log_line request r elapsed =
    let line = request.http.request_line in
    LogLine.handled line.method line.request_target (or_200 r.status_code) r.bytes_written elapsed

-- `LoggingMiddleware`; `logs` says whether there is a logger
unfoldable pub logging_middleware : Bool → Middleware
logging_middleware logs next request w world =
    let (started, world1) = read_clock world in
    let out = next request (record w { recorders = new_recorder ∷ w.recorders }) world1 in
    let (now, world2) = read_clock out.world in
    let line = log_line request (top_recorder out.writer.recorders) (now - started) in
    if out.panicked || not logs then record out { writer = inner out.writer } else record out {
      writer = inner out.writer;
      world = record world2 { log = world2.log ++ line ∷ [] };
    }
